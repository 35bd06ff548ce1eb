-- ===== src/Prelude/Indices.antt =====
-- The elements of appended, cut and copied lists, by index.
use Prim.Native.Nat.{ℕ, zero, suc, ◌+◌, ◌-◌, ◌≤◌, ◌<◌, min}
use mathlib.Core.Path.{◌≡◌, refl, ap, ◌∙◌}
use mathlib.Core.Logic.{inl, inr}
use mathlib.Core.Bool.{◌&&◌}
use mathlib.Core.List.{List, [], ◌∷◌, ◌++◌}
use native.Mathlib.Omega.{arith}
use saeos.Prelude.Tests.{ltb, leb, if◌then◌else◌, Bool-cases}
use saeos.Prelude.Lists.{length, get_or, take, drop, replicate, length-append}

module _ {ℓ} {A : Type ℓ} where
  pub get_or-append_left :
      (xs ys : List A) (i : ℕ) (d : A) → i < length xs → get_or (xs ++ ys) i d ≡ get_or xs i d
  get_or-append_left [] ys i d h = ground arith
  get_or-append_left (x ∷ xs) ys zero d h = refl
  get_or-append_left (x ∷ xs) ys (suc i) d h = get_or-append_left xs ys i d (omega arith)

  pub get_or-append_right :
      (xs ys : List A) (i j : ℕ) (d : A) → i ≡ length xs + j → get_or (xs ++ ys) i d ≡ get_or ys j d
  get_or-append_right [] ys i j d e = let same : i ≡ j = omega arith in ap (λ k. get_or ys k d) same
  get_or-append_right (x ∷ xs) ys zero j d e = ground arith
  get_or-append_right (x ∷ xs) ys (suc i) j d e = get_or-append_right xs ys i j d (omega arith)

  pub get_or-replicate : (n i : ℕ) (d : A) → get_or (replicate n d) i d ≡ d
  get_or-replicate zero i d = refl
  get_or-replicate (suc n) zero d = refl
  get_or-replicate (suc n) (suc i) d = get_or-replicate n i d

  pub get_or-take : (n i : ℕ) (xs : List A) (d : A) → i < n → get_or (take n xs) i d ≡ get_or xs i d
  get_or-take zero i xs d h = ground arith
  get_or-take (suc n) i [] d h = refl
  get_or-take (suc n) zero (x ∷ xs) d h = refl
  get_or-take (suc n) (suc i) (x ∷ xs) d h = get_or-take n i xs d (omega arith)

  pub length-take : (n : ℕ) (xs : List A) → length (take n xs) ≡ min n (length xs)
  length-take zero xs = omega arith
  length-take (suc n) [] = omega arith
  length-take (suc n) (x ∷ xs) = omega (arith, length-take n xs)

  pub get_or-drop : (n i : ℕ) (xs : List A) (d : A) → get_or (drop n xs) i d ≡ get_or xs (n + i) d
  get_or-drop zero i xs d =
      let none_dropped : i ≡ 0 + i = omega arith in ap (λ k. get_or xs k d) none_dropped
  get_or-drop (suc n) i [] d = refl
  get_or-drop (suc n) i (x ∷ xs) d =
      let next : suc (n + i) ≡ suc n + i = omega arith in
      get_or-drop n i xs d ∙ ap (λ k. get_or (x ∷ xs) k d) next

  pub length-drop : (n : ℕ) (xs : List A) → length (drop n xs) ≡ length xs - n
  length-drop zero xs = omega arith
  length-drop (suc n) [] = omega arith
  length-drop (suc n) (x ∷ xs) = omega (arith, length-drop n xs)

module _ {A : Type 0} where
  -- `copy_from_slice` into `[position..position + length]`, within the bounds.
  abbrev pub copy_at : ℕ → List A → List A → List A
  copy_at position source xs = take position xs ++ (source ++ drop (position + length source) xs)

  pub get_or-append :
      (xs ys : List A) (i : ℕ) (d : A)
      → get_or (xs ++ ys) i d
        ≡ (if ltb i (length xs) then get_or xs i d else get_or ys (i - length xs) d)
  get_or-append [] ys i d = ground arith
  get_or-append (x ∷ xs) ys zero d = ground arith
  get_or-append (x ∷ xs) ys (suc i) d = ground (arith, get_or-append xs ys i d)

  pub length-copy_at :
      (position : ℕ) (source xs : List A)
      → position + length source ≤ length xs
      → length (copy_at position source xs) ≡ length xs
  length-copy_at position source xs h = omega (
    arith,
    length-append (take position xs) (source ++ drop (position + length source) xs),
    length-append source (drop (position + length source) xs),
    length-take position xs,
    length-drop (position + length source) xs,
  )

  -- The part after the copied elements.
  get_or-rest :
      (position : ℕ) (source xs : List A) (i : ℕ) (d : A)
      → position + length source ≤ i
      → get_or (drop (position + length source) xs) (i - position - length source) d ≡ get_or xs i d
  get_or-rest position source xs i d h =
      let at : position + length source + (i - position - length source) ≡ i = omega arith in
      get_or-drop (position + length source) (i - position - length source) xs d
      ∙ ap (λ k. get_or xs k d) at

  pub get_or-copy_at :
      (position : ℕ) (source xs : List A) (i : ℕ) (d : A)
      → position + length source ≤ length xs
      → get_or (copy_at position source xs) i d ≡ (
          if leb position i && ltb i (position + length source)
          then get_or source (i - position) d
          else get_or xs i d)
  get_or-copy_at position source xs i d h =
      let size : length (take position xs) ≡ position = omega (arith, length-take position xs) in
      get_or-append (take position xs) (source ++ drop (position + length source) xs) i d
      ∙ rw size (elim (Bool-cases (ltb i position)) [
        | inl before ↦ simp before (ground (arith, get_or-take position i xs d))
        | inr later ↦ simp later (
            get_or-append source (drop (position + length source) xs) (i - position) d
            ∙ ground (arith, get_or-rest position source xs i d))
      ])

  pub List-ext :
      (xs ys : List A) (d : A)
      → length xs ≡ length ys
      → ((i : ℕ) → i < length xs → get_or xs i d ≡ get_or ys i d)
      → xs ≡ ys
  List-ext [] [] d e h = refl
  List-ext [] (y ∷ ys) d e h = absurd (omega arith)
  List-ext (x ∷ xs) [] d e h = absurd (omega arith)
  List-ext (x ∷ xs) (y ∷ ys) d e h =
      cc (h 0 (omega arith), List-ext xs ys d (omega arith) (λ i lt. h (suc i) (omega arith)))
