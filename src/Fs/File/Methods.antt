-- ===== src/Fs/File/Methods.antt =====
-- Every method of the table of file descriptors, as an update of a partial map from descriptors to
-- files.
use Prim.Native.Nat.{ℕ, ◌+◌, ◌-◌, ◌≤◌, ◌<◌}
use saeos.Prelude.{
  slot, slot-none, is_none, slot-set, slot_lt, Option, none, some, List, [], ◌∷◌, ◌++◌, leb, ◌==◌,
  if◌then◌else◌, length, set, replicate, position, ◌≡◌, ◌≢◌, refl, subst, ◌∙◌, ap, arith,
  Option-cases, Bool-cases, inl, inr, ◌⊎◌, length-append, length-replicate,
}
use saeos.Fs.Errno.{emfile, ebadf, Result, ok, err}
use saeos.Fs.File.Table.{max_fds, insert, remove, resize, dup2}
use saeos.Fs.File.Slots.{slot-append, slot-resize, slot-trim, position-some, position-none}
use saeos.Fs.File.Trimmed.{IsTable}

module _ {File : Type 0} where
  -- The descriptor `fd` holds `v`, and every other is as before.
  abbrev pub Updates : ℕ → Option File → List (Option File) → List (Option File) → Type 0
  Updates fd v ss ts = (j : ℕ) → slot ts j ≡ (if fd == j then v else slot ss j)

  -- Every descriptor below `fd` is in use.
  abbrev pub UsedBelow : ℕ → List (Option File) → Type 0
  UsedBelow fd ss = (j : ℕ) → j < fd → (f : File) × (slot ss j ≡ some f)

  abbrev pub Inserts : File → List (Option File) → Result ℕ × List (Option File) → Type 0
  Inserts file ss r =
      ((r ≡ (err emfile, ss)) × UsedBelow max_fds ss)
      ⊎ ((fd : ℕ) × (r.0 ≡ ok fd)
          × (fd < max_fds)
          × (slot ss fd ≡ none)
          × UsedBelow fd ss
          × Updates fd (some file) ss r.1)

  Updates-set :
      (ss : List (Option File)) (fd : ℕ) (v : Option File)
      → fd < length ss
      → Updates fd v ss (set ss fd v)
  Updates-set ss fd v h j = ground (arith, slot-set ss fd j v)

  Updates-append :
      (ss : List (Option File)) (v : Option File) → Updates (length ss) v ss (ss ++ v ∷ [])
  Updates-append ss v j = slot-append ss v j

  -- `insert` takes the lowest free descriptor, and reports EMFILE, with the table as it was, only when all
  -- `max_fds` are in use.
  pub insert-Inserts :
      (file : File) (ss : List (Option File)) → IsTable ss → Inserts file ss (insert file ss)
  unfolding insert
  insert-Inserts file ss t = elim (Option-cases (position is_none ss)) [
    | inr (k, e) ↦
        let (free, lt, below) = position-some ss k e in
        rw (e, insert)
          (inr (k, refl, omega (arith, t.bounded), free, below, Updates-set ss k (some file) lt))
    | inl e ↦
        rw (e, insert)
          elim (Bool-cases (leb max_fds (length ss))) [
            | inl full ↦ simp full (inl (refl, λ j h. position-none ss j e (ground arith)))
            | inr room ↦ simp room (
                inr (
                  length ss,
                  refl,
                  ground arith,
                  slot-none ss (length ss) (omega arith),
                  λ j h. position-none ss j e h,
                  Updates-append ss (some file),
                ))
          ]
  ]

  abbrev pub Removes : ℕ → List (Option File) → Result File × List (Option File) → Type 0
  Removes fd ss r =
      ((slot ss fd ≡ none) × (r ≡ (err ebadf, ss)))
      ⊎ ((file : File) × (slot ss fd ≡ some file) × (r.0 ≡ ok file) × Updates fd none ss r.1)

  -- `remove` hands back the file of a descriptor in use and frees that descriptor alone; one that is not
  -- in use is EBADF, with the table as it was.
  pub remove-Removes : (fd : ℕ) (ss : List (Option File)) → Removes fd ss (remove fd ss)
  unfolding remove
  remove-Removes fd ss = elim (Option-cases (slot ss fd)) [
    | inl e ↦ rw (e, remove) (inl (refl, refl))
    | inr (file, e) ↦
        rw (e, remove)
          (inr (
            file,
            refl,
            refl,
            λ j. slot-trim (set ss fd none) j ∙ Updates-set ss fd none (slot_lt ss fd file e) j,
          ))
  ]

  abbrev pub Duplicates : ℕ → ℕ → List (Option File) → Result ℕ × List (Option File) → Type 0
  Duplicates old new ss r =
      (((slot ss old ≡ none) ⊎ ((old ≢ new) × (max_fds ≤ new))) × (r ≡ (err ebadf, ss)))
      ⊎ ((file : File) × (slot ss old ≡ some file)
          × ((old ≡ new) ⊎ (new < max_fds))
          × (r.0 ≡ ok new)
          × Updates new (some file) ss r.1)

  Updates-held :
      (ss : List (Option File)) (fd : ℕ) (file : File)
      → slot ss fd ≡ some file
      → Updates fd (some file) ss ss
  Updates-held ss fd file e j = elim (Bool-cases (fd == j)) [
    | inl same ↦
        let eq : fd ≡ j = ground arith in simp same (subst (λ k. slot ss k ≡ some file) eq e)
    | inr other ↦ simp other refl
  ]

  Updates-resize :
      (ss : List (Option File)) (new : ℕ) (file : File)
      → Updates new (some file) ss (set (resize (new + 1) ss) new (some file))
  Updates-resize ss new file j =
      let more : List (Option File) = replicate (new + 1 - length ss) none in
      let long : new < length (ss ++ more) = omega (
        arith,
        length-append ss more,
        length-replicate {A = Option File} (new + 1 - length ss) none,
      ) in
      Updates-set (ss ++ more) new (some file) long j
      ∙ ap (λ s. if new == j then some file else s) (slot-resize ss (new + 1 - length ss) j)

  -- `dup2` makes `new` hold the file of `old`, and changes no other descriptor.
  pub dup2-Duplicates :
      (old new : ℕ) (ss : List (Option File)) → Duplicates old new ss (dup2 old new ss)
  unfolding dup2
  dup2-Duplicates old new ss = elim (Option-cases (slot ss old)) [
    | inl e ↦ rw (e, dup2) (inl (inl refl, refl))
    | inr (file, e) ↦ elim (Bool-cases (old == new)) [
      | inl same ↦
          let eq : old ≡ new = ground arith in
          rw (e, dup2)
            (simp same (
              inr (
                file,
                refl,
                inl eq,
                refl,
                λ j. subst (λ k. Updates k (some file) ss ss) eq (Updates-held ss old file e) j,
              )))
      | inr other ↦ elim (Bool-cases (leb max_fds new)) [
        | inl high ↦
            rw (e, dup2) (simp other (simp high (inl (inr (ground arith, ground arith), refl))))
        | inr low ↦
            rw (e, dup2)
              (simp other
                (simp low (inr (file, refl, inr (ground arith), refl, Updates-resize ss new file))))
      ]
    ]
  ]
