-- ===== src/Mm/Frame/Find.antt =====
-- `allocate_scan` before the lists are in use: what it finds, and that it finds a block where there is one.
use Prim.Native.Nat.{ℕ, ◌+◌, ◌-◌, ◌*◌, ◌/◌, ◌%◌, ◌≤◌, ◌<◌, ◌^◌, min}
use saeos.Prelude.{
  true, false, ◌||◌, Option, none, some, ltb, leb, ◌≡◌, refl, arith, ◌⊎◌, inl, inr, Bool-cases,
}
use saeos.Mm.Buddy.Lists.{free, allocated, mark, range_is}
use saeos.Mm.Buddy.Blocks.{pow_pos}
use saeos.Mm.Buddy.Marks.{range_is_sound, range_is_complete}
use saeos.Mm.Buddy.Release.{AllIn}
use saeos.Mm.Frame.Allocator.{
  page_size, FrameError, Allocator, range_state, div_ceil, next_multiple, find, fits, candidates,
  allocate_scan,
}
use saeos.Mm.Frame.Scan.{
  find-some, find-ne-none, next_multiple_lem, next_multiple_least, candidates_sound,
  candidates_complete, take_frames_lem,
}

-- An aligned free block of the order within the bounds of a request.
pub record Fitting (a : Allocator) (k lowest highest f : ℕ) : Type 0 where
  pub aligned : f % 2 ^ k ≡ 0
  pub above : lowest ≤ f * page_size
  pub below : (f + 2 ^ k) * page_size ≤ highest
  pub inside : f + 2 ^ k ≤ a.lists.frame_count
  pub all_free : AllIn a.lists f k free

-- The allocator after it took the block: nothing else has changed.
abbrev pub after_take : Allocator → ℕ → ℕ → Allocator
after_take a k f = record a { lists = mark (2 ^ k) f allocated a.lists; scan_cursor = f + 2 ^ k }

option_cases {ℓ} : {C : Type ℓ} (o : Option ℕ) → ((f : ℕ) → o ≡ some f → C) → (o ≡ none → C) → C
option_cases none found out = out refl
option_cases (some f) found out = found f refl

module _ (a : Allocator) (k lowest highest : ℕ) (inactive : a.buddy_active ≡ false) where
  abbrev low : ℕ
  low = next_multiple (div_ceil lowest page_size) (2 ^ k)

  abbrev high : ℕ
  high = min (highest / page_size) a.lists.frame_count

  fits-Fitting :
      (f : ℕ)
      → low ≤ f
      → f % 2 ^ k ≡ 0
      → fits (2 ^ k) high a f ≡ true
      → Fitting a k lowest highest f
  unfolding range_state
  fits-Fitting f le e t =
      let n = next_multiple_lem (div_ceil lowest page_size) (2 ^ k) (pow_pos k) in
      let from = n.0 in
      let run : range_is a.lists.state f (2 ^ k) free ≡ true = ground arith in
      let to : f + 2 ^ k ≤ high = ground arith in
      record {
        aligned = e;
        above = omega arith;
        below = omega arith;
        inside = omega arith;
        all_free = range_is_sound (2 ^ k) a.lists.state f free run;
      }

  Fitting-fits :
      (f : ℕ)
      → Fitting a k lowest highest f
      → (low ≤ f) × (f < high) × (fits (2 ^ k) high a f ≡ true)
  unfolding range_state
  Fitting-fits f t =
      let above = t.above in
      let below = t.below in
      let inside = t.inside in
      let pos = pow_pos k in
      let run = range_is_complete (2 ^ k) a.lists.state f free t.all_free in
      let to : f + 2 ^ k ≤ high = omega arith in
      let in_count : leb (f + 2 ^ k) a.lists.frame_count ≡ true = ground arith in
      let in_high : leb (f + 2 ^ k) high ≡ true = ground arith in
      (
        next_multiple_least (div_ceil lowest page_size) (2 ^ k) f pos t.aligned (omega arith),
        omega arith,
        simp (in_high, in_count, run) refl,
      )

  scan_found :
      (f : ℕ)
      → (leb high low || ltb (high - low) (2 ^ k)) ≡ false
      → find (fits (2 ^ k) high a) (candidates (2 ^ k) low high a.scan_cursor) ≡ some f
      → allocate_scan k lowest highest a ≡ some (inr f, after_take a k f)
  unfolding allocate_scan
  scan_found f room e = simp (room, e, inactive, take_frames_lem (2 ^ k) f a.lists) refl

  -- Before the lists are in use a scan takes an aligned free block within the bounds and marks it allocated, and
  -- changes nothing else but the cursor; or it reports that memory is out with nothing changed, and there is none.
  pub allocate_scan_cases :
      ((f : ℕ) × (allocate_scan k lowest highest a ≡ some (inr f, after_take a k f))
        × Fitting a k lowest highest f)
      ⊎ ((allocate_scan k lowest highest a ≡ some (inl FrameError.out_of_memory, a))
          × ((f : ℕ) → ¬ Fitting a k lowest highest f))
  unfolding allocate_scan
  allocate_scan_cases = elim (Bool-cases (leb high low || ltb (high - low) (2 ^ k))) [
    | inl tight ↦ inr (
      simp tight refl,
      λ f t.
          let (le, lt, good) = Fitting-fits f t in
          let to : f + 2 ^ k ≤ high = let below = t.below in let inside = t.inside in omega arith in
          absurd (ground arith),
    )
    | inr room ↦
        let multiple = (next_multiple_lem (div_ceil lowest page_size) (2 ^ k) (pow_pos k)).2 in
        let p = fits (2 ^ k) high a in
        let xs = candidates (2 ^ k) low high a.scan_cursor in
        let lt : low < high = ground arith in
        option_cases (find p xs)
          (λ f e.
            let (good, i) = find-some p xs f e in
            let (le, whole) =
              candidates_sound (2 ^ k) low high a.scan_cursor (pow_pos k) multiple lt f i in
            inl (f, scan_found f room e, fits-Fitting f le whole good))
          (λ e. inr (
            simp (room, e) refl,
            λ f t.
                let (le, below, good) = Fitting-fits f t in
                absurd (
                  find-ne-none p xs f good
                    (candidates_complete (2 ^ k) low high a.scan_cursor (pow_pos k) multiple lt f le
                      below t.aligned)
                    e),
          ))
  ]
