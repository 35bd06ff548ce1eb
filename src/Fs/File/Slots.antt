-- ===== src/Fs/File/Slots.antt =====
-- The table of file descriptors is a partial map from descriptors to files, which every method keeps.
use Prim.Native.Nat.{ℕ, zero, suc, ◌≤◌, ◌<◌}
use saeos.Prelude.{
  Option, none, some, List, [], ◌∷◌, ◌++◌, ◌==◌, if◌then◌else◌, length, replicate, position,
  is_none, slot, ◌≡◌, refl, ◌∙◌, arith,
}
use saeos.Fs.File.Table.{trim, trim_step}

module _ {File : Type 0} where
  pub slot-append :
      (ss : List (Option File)) (v : Option File) (j : ℕ)
      → slot (ss ++ v ∷ []) j ≡ (if length ss == j then v else slot ss j)
  slot-append [] v zero = refl
  slot-append [] v (suc j) = ground arith
  slot-append (s ∷ ss) v zero = ground arith
  slot-append (s ∷ ss) v (suc j) = ground (arith, slot-append ss v j)

  slot-replicate : (n j : ℕ) → slot (replicate {A = Option File} n none) j ≡ none
  slot-replicate zero j = refl
  slot-replicate (suc n) zero = refl
  slot-replicate (suc n) (suc j) = slot-replicate n j

  pub slot-resize :
      (ss : List (Option File)) (n j : ℕ) → slot (ss ++ replicate n none) j ≡ slot ss j
  slot-resize [] n j = slot-replicate n j
  slot-resize (s ∷ ss) n zero = refl
  slot-resize (s ∷ ss) n (suc j) = slot-resize ss n j

  slot-trim_step :
      (s : Option File) (ts : List (Option File)) (j : ℕ)
      → slot (trim_step s ts) j ≡ slot (s ∷ ts) j
  slot-trim_step none [] zero = refl
  slot-trim_step none [] (suc j) = refl
  slot-trim_step (some f) [] j = refl
  slot-trim_step none (t ∷ ts) j = refl
  slot-trim_step (some f) (t ∷ ts) j = refl

  pub slot-trim : (ss : List (Option File)) (j : ℕ) → slot (trim ss) j ≡ slot ss j
  unfolding trim
  slot-trim [] j = refl
  slot-trim (s ∷ ss) zero = slot-trim_step s (trim ss) zero
  slot-trim (s ∷ ss) (suc j) = slot-trim_step s (trim ss) (suc j) ∙ slot-trim ss j

  length-trim_step :
      (s : Option File) (ts : List (Option File)) → length (trim_step s ts) ≤ suc (length ts)
  length-trim_step none [] = omega arith
  length-trim_step (some f) [] = omega arith
  length-trim_step none (t ∷ ts) = omega arith
  length-trim_step (some f) (t ∷ ts) = omega arith

  pub length-trim : (ss : List (Option File)) → length (trim ss) ≤ length ss
  unfolding trim
  length-trim [] = omega arith
  length-trim (s ∷ ss) = omega (arith, length-trim_step s (trim ss), length-trim ss)

  -- A slot that is found free is the first.
  pub position-some :
      (ss : List (Option File)) (k : ℕ)
      → position is_none ss ≡ some k
      → (slot ss k ≡ none) × (k < length ss) × ((j : ℕ) → j < k → (f : File) × (slot ss j ≡ some f))
  position-some [] k e = absurd (ground arith)
  position-some (none ∷ ss) zero e = (refl, omega arith, λ j h. absurd (omega arith))
  position-some (none ∷ ss) (suc k) e = absurd (ground arith)
  position-some (some f ∷ ss) zero e = absurd (ground arith)
  position-some (some f ∷ ss) (suc k) e =
      let (free, lt, held) = position-some ss k (ground arith) in (free, omega arith, after held)
    where
      after :
          ((j : ℕ) → j < k → (g : File) × (slot ss j ≡ some g))
          → (j : ℕ) → j < suc k
          → (g : File) × (slot (some f ∷ ss) j ≡ some g)
      after held zero h = (f, refl)
      after held (suc j) h = held j (omega arith)

  pub position-none :
      (ss : List (Option File)) (j : ℕ)
      → position is_none ss ≡ none
      → j < length ss
      → (f : File) × (slot ss j ≡ some f)
  position-none [] j e h = absurd (ground arith)
  position-none (none ∷ ss) j e h = absurd (ground arith)
  position-none (some f ∷ ss) zero e h = (f, refl)
  position-none (some f ∷ ss) (suc j) e h = position-none ss j (ground arith) (omega arith)
