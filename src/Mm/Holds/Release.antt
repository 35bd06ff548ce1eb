-- ===== src/Mm/Holds/Release.antt =====
-- What `release` of a hold gives back.
use Prim.Native.Nat.{ℕ, suc, ◌+◌, ◌-◌}
use saeos.Prelude.{
  Option, none, some, List, [], ◌∷◌, ◌==◌, ◌≡◌, ◌≢◌, refl, arith, Bool-cases, inl, inr, length,
}
use saeos.Mm.Holds.Table.{
  Range, Ranges, HoldTable, release_slot, release_loop, release, held_in, held_frames,
}
use saeos.Mm.Holds.Count.{within, times}

-- How often the calls hand over a frame, and how many frames they hand over.
unfoldable pub times_in : ℕ → List (ℕ × ℕ) → ℕ
times_in frame [] = 0
times_in frame ((first, last) ∷ calls) = within first last frame + times_in frame calls

unfoldable pub frames_in : List (ℕ × ℕ) → ℕ
frames_in [] = 0
frames_in ((first, last) ∷ calls) = last - first + frames_in calls

abbrev pub Frees : ℕ → Ranges → List (ℕ × ℕ) × Ranges → Type 0
Frees id ss r =
    ((frame : ℕ) → times_in frame r.0 ≡ times id frame ss)
    × ((frame : ℕ) → times id frame r.1 ≡ 0)
    × ((other frame : ℕ) → other ≢ id → times other frame r.1 ≡ times other frame ss)
    × (frames_in r.0 + held_in r.1 ≡ held_in ss)

release_slot-Frees :
    (id : ℕ) (s : Option Range) (ss : Ranges) (r : List (ℕ × ℕ) × Ranges)
    → Frees id ss r
    → Frees id (s ∷ ss) (release_slot id s r)
unfolding times times_in frames_in held_in
release_slot-Frees id none ss r h = (
  λ frame. omega (arith, h.0 frame),
  λ frame. omega (arith, h.1 frame),
  λ other frame ne. omega (arith, h.2 other frame ne),
  omega (arith, h.3),
)
release_slot-Frees id (some o) ss r h = elim (Bool-cases (o.id == id)) [
  | inl own ↦ simp own (
    λ frame. ground (arith, h.0 frame),
    λ frame. ground (arith, h.1 frame),
    λ other frame ne. ground (arith, h.2 other frame ne),
    omega (arith, h.3),
  )
  | inr foreign ↦ simp foreign (
    λ frame. ground (arith, h.0 frame),
    λ frame. ground (arith, h.1 frame),
    λ other frame ne. ground (arith, h.2 other frame ne),
    omega (arith, h.3),
  )
]

release_loop-Frees : (id : ℕ) (ss : Ranges) → Frees id ss (release_loop id ss)
unfolding release_loop times times_in frames_in held_in
release_loop-Frees id [] = (λ frame. refl, λ frame. refl, λ other frame ne. refl, refl)
release_loop-Frees id (s ∷ ss) =
    release_slot-Frees id s ss (release_loop id ss) (release_loop-Frees id ss)

length-release_slot :
    (id : ℕ) (s : Option Range) (r : List (ℕ × ℕ) × Ranges)
    → length (release_slot id s r).1 ≡ suc (length r.1)
length-release_slot id none r = refl
length-release_slot id (some o) r = elim (Bool-cases (o.id == id)) [
  | inl own ↦ simp own refl
  | inr foreign ↦ simp foreign refl
]

pub length-release_loop : (id : ℕ) (ss : Ranges) → length (release_loop id ss).1 ≡ length ss
unfolding release_loop
length-release_loop id [] = refl
length-release_loop id (s ∷ ss) =
    omega (arith, length-release_slot id s (release_loop id ss), length-release_loop id ss)

-- `release` hands over each frame as often as the hold has it and leaves none of them in it; the other
-- holds keep theirs, and the count of the frames held falls by those handed over.
pub release-Frees :
    (id : ℕ) (t : HoldTable)
    → ((frame : ℕ) → times_in frame (release id t).0 ≡ times id frame t.ranges)
      × ((frame : ℕ) → times id frame (release id t).1.ranges ≡ 0)
      × ((other frame : ℕ)
          → other ≢ id
          → times other frame (release id t).1.ranges ≡ times other frame t.ranges)
      × (frames_in (release id t).0 + held_frames (release id t).1 ≡ held_frames t)
release-Frees id t = release_loop-Frees id t.ranges
