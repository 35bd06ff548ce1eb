-- ===== src/Fs/File/RoundTrip.antt =====
-- Closing a descriptor that was just opened.
use Prim.Native.Nat.{ℕ}
use saeos.Prelude.{
  slot, Option, none, some, List, ◌==◌, ◌≡◌, refl, sym, subst, ◌∙◌, arith, Bool-cases, inl, inr,
}
use saeos.Fs.Errno.{ok}
use saeos.Fs.File.Table.{insert, remove}
use saeos.Fs.File.Trimmed.{IsTable, methods-IsTable, remove-IsTable, IsTrimmed-ext}
use saeos.Fs.File.Methods.{Updates, insert-Inserts, remove-Removes}

module _ {File : Type 0} where
  Updates-back :
      (fd : ℕ) (file : File) (ss ts us : List (Option File))
      → slot ss fd ≡ none
      → Updates fd (some file) ss ts
      → Updates fd none ts us
      → (j : ℕ) → slot us j ≡ slot ss j
  Updates-back fd file ss ts us free there back j = elim (Bool-cases (fd == j)) [
    | inl same ↦
        let eq : fd ≡ j = ground arith in
        let freed : slot us j ≡ none = back j ∙ simp same refl in
        freed ∙ sym (subst (λ k. slot ss k ≡ none) eq free)
    | inr other ↦
        let kept : slot us j ≡ slot ts j = back j ∙ simp other refl in
        kept ∙ there j ∙ simp other refl
  ]

  -- Removing the descriptor that `insert` returned hands back the file, and leaves the vector as it was.
  pub remove-insert :
      (file : File) (ss : List (Option File)) (fd : ℕ)
      → IsTable ss
      → (insert file ss).0 ≡ ok fd
      → remove fd (insert file ss).1 ≡ (ok file, ss)
  remove-insert file ss fd t done = elim (insert-Inserts file ss t) [
    | inl (failed, full) ↦ cc
    | inr (k, e, bound, free, below, there) ↦
        let same : k ≡ fd = cc in
        let free' : slot ss fd ≡ none = subst (λ i. slot ss i ≡ none) same free in
        let there' : Updates fd (some file) ss (insert file ss).1 =
          subst (λ i. Updates i (some file) ss (insert file ss).1) same there in
        elim (remove-Removes fd (insert file ss).1) [
          | inl (gone, failed) ↦
              let held : slot (insert file ss).1 fd ≡ some file = ground (arith, there' fd) in cc
          | inr (g, held, handed, back) ↦
              let held' : slot (insert file ss).1 fd ≡ some file = ground (arith, there' fd) in
              let kept = remove-IsTable fd (insert file ss).1 ((methods-IsTable ss t).0 file) in
              let vector : (remove fd (insert file ss).1).1 ≡ ss =
                IsTrimmed-ext _ ss kept.trimmed t.trimmed
                  (Updates-back fd file ss (insert file ss).1 _ free' there' back) in
              ground (arith, vector, handed, held, held')
        ]
  ]
