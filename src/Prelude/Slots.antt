-- ===== src/Prelude/Slots.antt =====
-- Vectors of slots, each of which may be free: `Vec<Option<A>>`.
use Prim.Native.Nat.{ℕ, zero, suc, ◌≤◌, ◌<◌}
use mathlib.Core.Path.{◌≡◌, refl}
use mathlib.Core.Bool.{Bool, true, false, ◌&&◌}
use mathlib.Core.List.{List, [], ◌∷◌}
use mathlib.Core.Option.{Option, none, some}
use native.Mathlib.Omega.{arith}
use saeos.Prelude.Tests.{ltb, ◌==◌, if◌then◌else◌}
use saeos.Prelude.Lists.{length, set}

module _ {ℓ} {A : Type ℓ} where
  abbrev pub is_none : Option A → Bool
  is_none none = true
  is_none (some f) = false

  -- What an index of a vector of slots holds, where an index out of range holds nothing.
  abbrev pub slot : List (Option A) → ℕ → Option A
  slot [] i = none
  slot (s ∷ ss) zero = s
  slot (s ∷ ss) (suc i) = slot ss i

  pub slot-set :
      (ss : List (Option A)) (k j : ℕ) (v : Option A)
      → slot (set ss k v) j ≡ (if k == j && ltb k (length ss) then v else slot ss j)
  slot-set [] k j v = ground arith
  slot-set (s ∷ ss) zero zero v = ground arith
  slot-set (s ∷ ss) zero (suc j) v = ground arith
  slot-set (s ∷ ss) (suc k) zero v = ground arith
  slot-set (s ∷ ss) (suc k) (suc j) v = ground (arith, slot-set ss k j v)

  -- A slot that holds something is in range.
  pub slot_lt : (ss : List (Option A)) (j : ℕ) (f : A) → slot ss j ≡ some f → j < length ss
  slot_lt [] j f e = absurd (ground arith)
  slot_lt (s ∷ ss) zero f e = omega arith
  slot_lt (s ∷ ss) (suc j) f e = omega (arith, slot_lt ss j f e)

  pub slot-none : (ss : List (Option A)) (j : ℕ) → length ss ≤ j → slot ss j ≡ none
  slot-none [] j h = refl
  slot-none (s ∷ ss) zero h = absurd (omega arith)
  slot-none (s ∷ ss) (suc j) h = slot-none ss j (omega arith)
