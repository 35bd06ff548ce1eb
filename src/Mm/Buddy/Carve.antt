-- ===== src/Mm/Buddy/Carve.antt =====
-- What `block_order` and `run_end` find.
use Prim.Native.Nat.{ℕ, zero, suc, ◌+◌, ◌/◌, ◌%◌, ◌^◌, ◌≤◌, ◌<◌, min}
use native.Mathlib.Nat.{two-pow-succ}
use saeos.Prelude.{true, ltb, ◌==◌, ◌≡◌, ◌≢◌, sym, ◌∙◌, ap, subst, arith, ◌⊎◌, inl, inr, Bool-cases}
use saeos.Mm.Buddy.Lists.{max_order, State, same_state}
use saeos.Mm.Buddy.Blocks.{Aligned, Aligned-zero}
use saeos.Mm.Buddy.Tags.{same_state-eq}
use saeos.Mm.Buddy.Blocks.{Aligned_le}
use saeos.Mm.Buddy.Marks.{same_state_refl}
use saeos.Mm.Buddy.Build.{trailing_zeros, first_order, fit, block_order, run_end}

trailing_zeros-Aligned : (bits frame : ℕ) → Aligned (trailing_zeros bits frame) frame
unfolding trailing_zeros
trailing_zeros-Aligned zero frame = tt
trailing_zeros-Aligned (suc bits) frame = elim (Bool-cases (frame % 2 == 0)) [
  | inl even ↦
      simp even
        ((let e : frame % 2 ≡ 0 = ground arith in e), trailing_zeros-Aligned bits (frame / 2))
  | inr odd ↦ simp odd tt
]

-- All of them, when the number has fewer than `bits` bits and is not 0.
Aligned-trailing_zeros :
    (bits k frame : ℕ)
    → 0 < frame
    → frame < 2 ^ bits
    → Aligned k frame
    → k ≤ trailing_zeros bits frame
unfolding trailing_zeros
Aligned-trailing_zeros zero k frame pos low a = absurd (omega arith)
Aligned-trailing_zeros (suc bits) zero frame pos low a = omega arith
Aligned-trailing_zeros (suc bits) (suc k) frame pos low a =
    let rest =
      Aligned-trailing_zeros bits k (frame / 2) (omega (arith, a.0))
        (omega (arith, two-pow-succ bits)) a.1 in
    let even : (frame % 2 == 0) ≡ true = ground (arith, a.0) in simp even (omega (arith, rest))

first_order-Aligned :
    (frame : ℕ) → Aligned (first_order frame) frame × (first_order frame ≤ max_order)
unfolding first_order
first_order-Aligned frame = elim (Bool-cases (frame == 0)) [
  | inl start ↦
      let e : 0 ≡ frame = ground arith in
      simp start (subst (λ f. Aligned max_order f) e (Aligned-zero max_order), omega arith)
  | inr other ↦ simp other (
    Aligned_le (min max_order (trailing_zeros 64 frame)) (trailing_zeros 64 frame) frame
        (ground arith) (trailing_zeros-Aligned 64 frame),
    ground arith,
  )
]

Aligned-first_order :
    (k frame : ℕ) → frame < 2 ^ 64 → k ≤ max_order → Aligned k frame → k ≤ first_order frame
unfolding first_order
Aligned-first_order k frame low le a = elim (Bool-cases (frame == 0)) [
  | inl start ↦ simp start le
  | inr other ↦
      let z = Aligned-trailing_zeros 64 k frame (ground arith) low a in simp other (ground arith)
]

fit_lem :
    (order frame end : ℕ)
    → frame < end
    → (fit order frame end ≤ order) × (frame + 2 ^ fit order frame end ≤ end)
unfolding fit
fit_lem zero frame end lt = (omega arith, omega arith)
fit_lem (suc order) frame end lt =
    let rest = fit_lem order frame end lt in
    elim (Bool-cases (ltb end (frame + 2 ^ suc order))) [
      | inl beyond ↦ simp beyond (omega (arith, rest.0), rest.1)
      | inr fits ↦ simp fits (omega arith, ground arith)
    ]

fit_largest : (order k frame end : ℕ) → k ≤ order → frame + 2 ^ k ≤ end → k ≤ fit order frame end
unfolding fit
fit_largest zero k frame end le inside = le
fit_largest (suc order) k frame end le inside =
    elim (Bool-cases (ltb end (frame + 2 ^ suc order))) [
      | inr fits ↦ simp fits le
      | inl beyond ↦ elim (Bool-cases (k == suc order)) [
        | inl same ↦
            let e : k ≡ suc order = ground arith in
            let p = ap (λ n. 2 ^ n) e in absurd (ground arith)
        | inr less ↦ simp beyond (fit_largest order k frame end (ground arith) inside)
      ]
    ]

-- The block is aligned and fits, and no larger one does.
pub record Piece (frame end k : ℕ) : Type 0 where
  pub aligned : Aligned k frame
  pub order : k ≤ max_order
  pub inside : frame + 2 ^ k ≤ end
  pub largest : (j : ℕ) → j ≤ max_order → Aligned j frame → frame + 2 ^ j ≤ end → j ≤ k

pub block_order-Piece :
    (frame end : ℕ) → frame < end → end < 2 ^ 64 → Piece frame end (block_order frame end)
unfolding block_order
block_order-Piece frame end lt low =
    let first = first_order-Aligned frame in
    let f = fit_lem (first_order frame) frame end lt in
    record {
      aligned =
          Aligned_le (fit (first_order frame) frame end) (first_order frame) frame f.0 first.0;
      order = omega (arith, f.0, first.1);
      inside = f.1;
      largest = λ j le a inside.
          fit_largest (first_order frame) j frame end
            (Aligned-first_order j frame (omega arith) le a) inside;
    }

-- Where a run of frames in the state `s` ends, that has `n` frames at most.
pub record RunEnd (state : ℕ → State) (s : State) (start n end : ℕ) : Type 0 where
  pub low : start ≤ end
  pub high : end ≤ start + n
  pub all : (f : ℕ) → start ≤ f → f < end → state f ≡ s
  pub stop : (end ≡ start + n) ⊎ (state end ≢ s)

pub run_end-RunEnd :
    (n : ℕ) (s : State) (start : ℕ) (state : ℕ → State)
    → RunEnd state s start n (run_end n s start state)
unfolding run_end
run_end-RunEnd zero s start state = record {
  low = omega arith;
  high = omega arith;
  all = λ f low high. absurd (omega arith);
  stop = inl (omega arith);
}
run_end-RunEnd (suc n) s start state = elim (Bool-cases (same_state (state start) s)) [
  | inr other ↦
      simp (other, run_end)
        record {
          low = omega arith;
          high = omega arith;
          all = λ f low high. absurd (omega arith);
          stop = inr (λ e. let t = ap (λ x. same_state x s) e ∙ same_state_refl s in ground arith);
        }
  | inl same ↦
      let rest = run_end-RunEnd n s (start + 1) state in
      let here = same_state-eq (state start) s same in
      simp (same, run_end)
        record {
          low = omega (arith, rest.low);
          high = omega (arith, rest.high);
          all = λ f low high. elim (Bool-cases (f == start)) [
            | inl first ↦ let e : f ≡ start = ground arith in ap state e ∙ here
            | inr later ↦ rest.all f (ground arith) high
          ];
          stop = elim rest.stop [ inl whole ↦ inl (omega (arith, whole)) | inr other ↦ inr other ];
        }
]

-- A run that starts goes on.
pub RunEnd-lt :
    (state : ℕ → State) (s : State) (start end n : ℕ)
    → 0 < n
    → same_state (state start) s ≡ true
    → RunEnd state s start n end
    → start < end
RunEnd-lt state s start end n pos same r = elim (Bool-cases (start == end)) [
  | inr other ↦ let low = r.low in ground arith
  | inl here ↦
      let e : start ≡ end = ground arith in
      elim r.stop [
        | inl whole ↦ absurd (omega arith)
        | inr ne ↦ absurd (ne (ap state (sym e) ∙ same_state-eq (state start) s same))
      ]
]
