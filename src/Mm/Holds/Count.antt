-- ===== src/Mm/Holds/Count.antt =====
-- How often the ranges of a hold cover a frame.
use Prim.Native.Nat.{ℕ, zero, suc, ◌+◌, ◌<◌}
use saeos.Prelude.{
  ◌&&◌, Option, none, some, [], ◌∷◌, ltb, leb, ◌==◌, if◌then◌else◌, length, set, slot, is_none,
  position, ◌≡◌, refl, arith, Option-cases, Bool-cases, inl, inr,
}
use saeos.Mm.Holds.Table.{Range, Ranges, add_range}

-- Whether `frame` lies in `first..last`.
abbrev pub within : ℕ → ℕ → ℕ → ℕ
within first last frame = if leb first frame && ltb frame last then 1 else 0

abbrev pub covers : ℕ → ℕ → Option Range → ℕ
covers id frame none = 0
covers id frame (some r) = if r.id == id then within r.first r.last frame else 0

unfoldable pub times : ℕ → ℕ → Ranges → ℕ
times id frame [] = 0
times id frame (s ∷ ss) = covers id frame s + times id frame ss

pub times-set :
    (id frame : ℕ) (ss : Ranges) (k : ℕ) (v : Option Range)
    → k < length ss
    → times id frame (set ss k v) + covers id frame (slot ss k)
      ≡ times id frame ss + covers id frame v
unfolding times
times-set id frame [] k v h = absurd (omega arith)
times-set id frame (s ∷ ss) zero v h = omega arith
times-set id frame (s ∷ ss) (suc k) v h = omega (arith, times-set id frame ss k v (omega arith))

pub position_free :
    (ss : Ranges) (k : ℕ) → position is_none ss ≡ some k → (slot ss k ≡ none) × (k < length ss)
position_free [] k e = absurd (ground arith)
position_free (none ∷ ss) zero e = (refl, omega arith)
position_free (none ∷ ss) (suc k) e = absurd (ground arith)
position_free (some r ∷ ss) zero e = absurd (ground arith)
position_free (some r ∷ ss) (suc k) e =
    let (free, lt) = position_free ss k (ground arith) in (free, omega arith)

-- A range that was recorded covers its frames once more.
pub times-add_range :
    (id frame own first last : ℕ) (ss : Ranges)
    → times id frame (add_range own first last ss).1
      ≡ times id frame ss
        + (if (add_range own first last ss).0
            then covers id frame (some (record { id = own; first = first; last = last }))
            else 0)
unfolding add_range
times-add_range id frame own first last ss = elim (Bool-cases (leb last first)) [
  | inl empty ↦ simp empty (ground arith)
  | inr some_frames ↦ elim (Option-cases (position is_none ss)) [
    | inl e ↦ rw (e, add_range) (simp some_frames (ground arith))
    | inr (k, e) ↦
        let r : Range = record { id = own; first = first; last = last } in
        let (free, lt) = position_free ss k e in
        let more : times id frame (set ss k (some r))
            ≡ times id frame ss + covers id frame (some r) =
          ground (arith, times-set id frame ss k (some r), free) in
        rw (e, add_range) (simp some_frames more)
  ]
]
