-- ===== src/Fs/Path/Steps.antt =====
-- How a resolved path grows and shrinks with one more component.
use Prim.Native.Nat.{ℕ}
use saeos.Prelude.{
  true, List, [], ◌∷◌, ◌++◌, ◌==◌, if◌then◌else◌, ◌≡◌, refl, ◌∙◌, ap, sym, Bool-cases, inl, inr,
  but_last, append_assoc,
}
use saeos.Fs.Path.Resolve.{
  Text, slash, split, split_step, component, is_name, is_whole, step, walk, join, is_absolute,
  resolve, Names, split_some, split_whole, split-Whole, Whole-append, walk-Names, resolve_idem,
  is_name_lem,
}

split-append : (p cs : Text) → split (p ++ slash ∷ cs) ≡ split p ++ split cs
unfolding split
split-append [] cs = let (w, ws, e) = split_some cs in rw e refl
split-append (c ∷ p) cs =
    let (w, ws, e) = split_some p in
    ap (split_step c) (split-append p cs ∙ ap (λ l. l ++ split cs) e)
    ∙ elim (Bool-cases (c == slash)) [
      | inl is ↦ rw e (simp is refl)
      | inr other ↦ rw e (simp other refl)
    ]

walk-append : (cs xs ys : List Text) → walk cs (xs ++ ys) ≡ walk (walk cs xs) ys
unfolding walk
walk-append cs [] ys = refl
walk-append cs (x ∷ xs) ys = walk-append (step (component x) x cs) xs ys

module _ (cwd : Text) (c : ℕ) (cs : Text) where
  -- The components that `resolve` ends with.
  abbrev pub components : List Text
  components = walk [] (split (if is_absolute (c ∷ cs) then [] else cwd) ++ split (c ∷ cs))

  resolve_last :
      (word : Text)
      → is_whole word ≡ true
      → resolve cwd ((c ∷ cs) ++ slash ∷ word)
        ≡ slash ∷ join (step (component word) word components)
  unfolding resolve walk
  resolve_last word h =
      let start = if is_absolute (c ∷ cs) then [] else cwd in
      ap (λ ws. slash ∷ join (walk [] (split start ++ ws))) (split-append (c ∷ cs) word)
      ∙ ap (λ ws. slash ∷ join (walk [] ws))
          (sym (append_assoc (split start) (split (c ∷ cs)) (split word)))
      ∙ ap (λ ns. slash ∷ join ns) (walk-append [] (split start ++ split (c ∷ cs)) (split word))
      ∙ ap (λ ws. slash ∷ join (walk components ws)) (split_whole word h)

-- A path that is not empty resolves to a slash and names joined by slashes, none of them empty, `.`, `..` or
-- with a slash in it. Resolving that again, from any directory, changes nothing; a `..` after the path takes
-- the last name off, where there is one, a `.` changes nothing, and a name is added.
pub resolve_path :
    (cwd : Text) (c : ℕ) (cs : Text)
    → (names : List Text) × Names names
      × (resolve cwd (c ∷ cs) ≡ slash ∷ join names)
      × ((other : Text) → resolve other (resolve cwd (c ∷ cs)) ≡ resolve cwd (c ∷ cs))
      × (resolve cwd ((c ∷ cs) ++ slash ∷ b'.' ∷ b'.' ∷ []) ≡ slash ∷ join (but_last names))
      × (resolve cwd ((c ∷ cs) ++ slash ∷ b'.' ∷ []) ≡ slash ∷ join names)
      × ((name : Text)
          → is_whole name ≡ true
          → is_name (component name) ≡ true
          → resolve cwd ((c ∷ cs) ++ slash ∷ name) ≡ slash ∷ join (names ++ name ∷ []))
unfolding resolve
resolve_path cwd c cs =
    let start = if is_absolute (c ∷ cs) then [] else cwd in
    (
      components cwd c cs,
      walk-Names [] (split start ++ split (c ∷ cs)) tt
          (Whole-append (split start) (split (c ∷ cs)) (split-Whole start) (split-Whole (c ∷ cs))),
      refl,
      λ other. resolve_idem cwd (c ∷ cs) other,
      resolve_last cwd c cs (b'.' ∷ b'.' ∷ []) refl,
      resolve_last cwd c cs (b'.' ∷ []) refl,
      λ name h k.
          resolve_last cwd c cs name h
          ∙ ap (λ kind. slash ∷ join (step kind name (components cwd c cs)))
              (is_name_lem (component name) k),
    )
