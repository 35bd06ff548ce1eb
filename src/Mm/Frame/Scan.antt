-- ===== src/Mm/Frame/Scan.antt =====
-- The search over the bitmap before the lists are in use: it finds a block where there is one.
use Prim.Native.Nat.{ℕ, zero, suc, ◌+◌, ◌-◌, ◌*◌, ◌/◌, ◌%◌, ◌≤◌, ◌<◌, min, max}
use native.Mathlib.Nat.{div-add-mod', add-mul-mod_self_right, mul-mod_left, mod-lt, add-mul}
use saeos.Prelude.{
  Bool, true, false, ◌||◌, none, some, List, [], ◌∷◌, ◌++◌, ltb, leb, ◌==◌, ◌≡◌, ◌≢◌, refl, sym,
  ◌∙◌, ap, subst, arith, inl, inr, Bool-cases,
}
use saeos.Mm.Buddy.Lists.{allocated, Buddy, mark, set_states}
use saeos.Mm.Buddy.Chain.{has}
use saeos.Mm.Frame.Allocator.{next_multiple, steps, find, take_frames, candidates}

pub find-some :
    (p : ℕ → Bool) (xs : List ℕ) (x : ℕ) → find p xs ≡ some x → (p x ≡ true) × (has x xs ≡ true)
find-some p [] x e = absurd cc
find-some p (y ∷ ys) x e = elim (Bool-cases (p y)) [
  | inl good ↦
      let e' = simp good at e in
      let here : y ≡ x = cc in (subst (λ a. p a ≡ true) here good, ground arith)
  | inr bad ↦ let (good, i) = find-some p ys x (simp bad at e) in (good, ground arith)
]

pub find-ne-none :
    (p : ℕ → Bool) (xs : List ℕ) (x : ℕ) → p x ≡ true → has x xs ≡ true → find p xs ≢ none
find-ne-none p [] x good i e = absurd (ground arith)
find-ne-none p (y ∷ ys) x good i e = elim (Bool-cases (p y)) [
  | inl first ↦ let t = simp first at e in absurd cc
  | inr bad ↦ elim (Bool-cases (x == y)) [
    | inl same ↦
        let s : x ≡ y = ground arith in let t = sym (ap p s) ∙ good in absurd (ground arith)
    | inr other ↦ find-ne-none p ys x good (ground arith) (simp bad at e)
  ]
]

-- Multiples of the same number lie a multiple of it apart.
multiple_apart : (c a b : ℕ) → a % c ≡ 0 → b % c ≡ 0 → a ≤ b → (j : ℕ) × (b ≡ a + j * c)
multiple_apart c a b ea eb le =
    let d = b - a in
    let whole = div-add-mod' a c in
    let e : b ≡ d + a / c * c = omega arith in
    let rest : d % c ≡ 0 =
      sym (add-mul-mod_self_right d (a / c) c) ∙ sym (ap (λ n. n % c) e) ∙ eb in
    let part = div-add-mod' d c in (d / c, omega arith)

pub next_multiple_lem :
    (n c : ℕ)
    → 0 < c
    → (n ≤ next_multiple n c) × (next_multiple n c < n + c) × (next_multiple n c % c ≡ 0)
next_multiple_lem n c pos =
    let d = div-add-mod' (n + (c - 1)) c in
    let low = mod-lt (n + (c - 1)) pos in
    (omega arith, omega arith, mul-mod_left ((n + (c - 1)) / c) c)

steps-has :
    (j n from to count f : ℕ)
    → 0 < count
    → f ≡ from + j * count
    → f < to
    → to ≤ from + n
    → has f (steps n from to count) ≡ true
unfolding steps
steps-has zero zero from to count f pos e lt enough = absurd (omega arith)
steps-has zero (suc n) from to count f pos e lt enough =
    let more : ltb from to ≡ true = ground arith in simp more (ground arith)
steps-has (suc j) zero from to count f pos e lt enough = absurd (omega arith)
steps-has (suc j) (suc n) from to count f pos e lt enough =
    let law = add-mul 1 j count in
    let more : ltb from to ≡ true = ground arith in
    let rest = steps-has j n (from + count) to count f pos (omega arith) lt (omega arith) in
    simp more (ground arith)

has-steps :
    (n from to count f : ℕ)
    → has f (steps n from to count) ≡ true
    → (from ≤ f) × (f < to) × (f % count ≡ from % count)
unfolding steps
has-steps zero from to count f i = absurd (ground arith)
has-steps (suc n) from to count f i = elim (Bool-cases (ltb from to)) [
  | inr out ↦ let t = simp out at i in absurd (ground arith)
  | inl more ↦ elim (Bool-cases (f == from)) [
    | inl here ↦
        let e : f ≡ from = ground arith in (omega arith, ground arith, ap (λ x. x % count) e)
    | inr later ↦
        let i' : has f (steps n (from + count) to count) ≡ true =
          let t = simp more at i in ground arith in
        let one : count ≡ 1 * count = omega arith in
        let (low, high, e) = has-steps n (from + count) to count f i' in
        (
          omega arith,
          high,
          e ∙ ap (λ x. (from + x) % count) one ∙ add-mul-mod_self_right from 1 count,
        )
  ]
]

has-append : (f : ℕ) (xs ys : List ℕ) → has f (xs ++ ys) ≡ (has f xs || has f ys)
has-append f [] ys = refl
has-append f (x ∷ xs) ys = let rest = has-append f xs ys in ground arith

-- The least multiple from `n` on.
pub next_multiple_least : (n c f : ℕ) → 0 < c → f % c ≡ 0 → n ≤ f → next_multiple n c ≤ f
next_multiple_least n c f pos e le = elim (Bool-cases (leb (next_multiple n c) f)) [
  | inl done ↦ ground arith
  | inr beyond ↦
      let m = next_multiple_lem n c pos in
      let above : f ≤ next_multiple n c = ground arith in
      let (j, whole) = multiple_apart c f (next_multiple n c) e m.2 above in
      elim (Bool-cases (j == 0)) [
        | inl zero_apart ↦
            let t = ap (λ x. x * c) (let ez : j ≡ 0 = ground arith in ez) in absurd (ground arith)
        | inr some_apart ↦
            let law = add-mul 1 (j - 1) c in
            let ej : j ≡ 1 + (j - 1) = ground arith in
            let split = ap (λ x. x * c) ej in
            let strict : f < next_multiple n c = ground arith in
            let high = m.1 in absurd (omega arith)
      ]
]

module _ (count low high cursor : ℕ) (pos : 0 < count) (low_multiple : low % count ≡ 0)
    (room : low < high) where
  abbrev start : ℕ
  start = next_multiple (min (max cursor low) high) count

  low_le_start : low ≤ start
  low_le_start =
      let m = next_multiple_lem (min (max cursor low) high) count pos in let l = m.0 in ground arith

  start_multiple : start % count ≡ 0
  start_multiple = (next_multiple_lem (min (max cursor low) high) count pos).2

  pub candidates_sound :
      (f : ℕ) → has f (candidates count low high cursor) ≡ true → (low ≤ f) × (f % count ≡ 0)
  unfolding candidates
  candidates_sound f i =
      let parts =
        sym (
          has-append f (steps (high - start) start high count)
            (steps (start - low) low start count))
        ∙ i in
      let le = low_le_start in
      elim (Bool-cases (has f (steps (high - start) start high count))) [
        | inl first ↦
            let (l, h, e) = has-steps (high - start) start high count f first in
            (omega arith, e ∙ start_multiple)
        | inr second ↦
            let other : has f (steps (start - low) low start count) ≡ true = ground arith in
            let (l, h, e) = has-steps (start - low) low start count f other in (l, e ∙ low_multiple)
      ]

  pub candidates_complete :
      (f : ℕ) → low ≤ f → f < high → f % count ≡ 0 → has f (candidates count low high cursor) ≡ true
  unfolding candidates
  candidates_complete f above below e =
      let parts =
        has-append f (steps (high - start) start high count)
          (steps (start - low) low start count) in
      elim (Bool-cases (leb start f)) [
        | inl late ↦
            let (j, whole) = multiple_apart count start f start_multiple e (ground arith) in
            let i = steps-has j (high - start) start high count f pos whole below (omega arith) in
            ground arith
        | inr early ↦
            let (j, whole) = multiple_apart count low f low_multiple e above in
            let lt : f < start = ground arith in
            let i = steps-has j (start - low) low start count f pos whole lt (omega arith) in
            ground arith
      ]

pub take_frames_lem :
    (n frame : ℕ) (b : Buddy) → take_frames n false frame b ≡ some (mark n frame allocated b)
unfolding take_frames
take_frames_lem zero frame b = unfold set_states in refl
take_frames_lem (suc n) frame b =
    take_frames_lem n (suc frame) (mark 1 frame allocated b) ∙ unfold set_states in refl
