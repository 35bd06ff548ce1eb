-- ===== src/Mm/Holds/Punch.antt =====
-- A permanent reservation wins over every hold: its frames are in none afterwards.
use Prim.Native.Nat.{ℕ, zero, suc, ◌+◌, ◌≤◌, ◌<◌}
use saeos.Prelude.{
  Bool, true, false, ◌&&◌, ◌||◌, Option, none, some, [], ◌∷◌, ltb, leb, ◌==◌, length, set, slot,
  slot-set, length-set, is_none, position, slot_lt, slot-none, ◌≡◌, ◌≢◌, ◌⊎◌, refl, sym, subst, ◌∙◌,
  arith, Option-cases, Bool-cases, inl, inr,
}
use saeos.Mm.Holds.Table.{
  Range, Ranges, HoldTable, max_hold_ranges, add_range, and_add, remainder, punch_range, punch_slot,
  punch_loop, punch,
}
use saeos.Mm.Holds.Count.{covers, times, times-set, times-add_range}

-- A frame that is not in `first..last`.
abbrev pub Outside : ℕ → ℕ → ℕ → Type 0
Outside first last frame = (frame < first) ⊎ (last ≤ frame)

-- One step neither covers a frame outside of `first..last` more often nor, where it is complete, less often.
pub record Keeps (first last : ℕ) (s s' : Bool × Ranges) : Type 0 where
  pub size : length s'.1 ≡ length s.1
  pub at_most : (id frame : ℕ) → Outside first last frame → times id frame s'.1 ≤ times id frame s.1
  pub complete : s'.0 ≡ true → s.0 ≡ true
  pub exact :
      s'.0 ≡ true
      → (id frame : ℕ) → Outside first last frame
      → times id frame s'.1 ≡ times id frame s.1

Keeps-refl : (first last : ℕ) (s : Bool × Ranges) → Keeps first last s s
Keeps-refl first last s = record {
  size = refl;
  at_most = λ id frame o. omega arith;
  complete = λ e. e;
  exact = λ e id frame o. refl;
}

Keeps-trans :
    {first last : ℕ} {s t u : Bool × Ranges}
    → Keeps first last s t
    → Keeps first last t u
    → Keeps first last s u
Keeps-trans k l = record {
  size = omega (arith, k.size, l.size);
  at_most = λ id frame o. omega (arith, k.at_most id frame o, l.at_most id frame o);
  complete = λ e. k.complete (l.complete e);
  exact = λ e id frame o. omega (arith, k.exact (l.complete e) id frame o, l.exact e id frame o);
}

pub length-add_range :
    (own first last : ℕ) (ss : Ranges) → length (add_range own first last ss).1 ≡ length ss
unfolding add_range
length-add_range own first last ss = elim (Bool-cases (leb last first)) [
  | inl empty ↦ simp empty refl
  | inr more ↦ elim (Option-cases (position is_none ss)) [
    | inl e ↦ rw (e, add_range) (simp more refl)
    | inr (k, e) ↦ rw (e, add_range) (simp more (length-set ss k _))
  ]
]

-- What the remainder and the piece on the right cover together, for a frame outside.
covers-remainder_one :
    (first last id frame : ℕ) (r : Range)
    → first ≤ last
    → (leb r.last first || leb last r.first) ≡ false
    → Outside first last frame
    → (ltb r.first first && ltb last r.last) ≡ false
    → covers id frame (remainder r first last) ≡ covers id frame (some r)
covers-remainder_one first last id frame r h meets o one = ground arith

covers-remainder_two :
    (first last id frame : ℕ) (r : Range)
    → first ≤ last
    → Outside first last frame
    → (ltb r.first first && ltb last r.last) ≡ true
    → covers id frame (remainder r first last) + covers id frame (some (record r { first = last }))
      ≡ covers id frame (some r)
covers-remainder_two first last id frame r h o two = ground arith

module _ (first last index : ℕ) (r : Range) (complete : Bool) (ss : Ranges) (order : first ≤ last)
    (held : slot ss index ≡ some r) where
  punched : Ranges
  punched = set ss index (remainder r first last)

  times-punched :
      (id frame : ℕ)
      → times id frame punched + covers id frame (some r)
        ≡ times id frame ss + covers id frame (remainder r first last)
  unfolding punched
  times-punched id frame =
      subst
        (λ s.
          times id frame punched + covers id frame s
          ≡ times id frame ss + covers id frame (remainder r first last))
        held (times-set id frame ss index (remainder r first last) (slot_lt ss index r held))

  split-Keeps :
      (ltb r.first first && ltb last r.last) ≡ true
      → Keeps first last (complete, ss) (and_add r.id last r.last complete punched)
  unfolding punched
  split-Keeps two = record {
    size = ground (
      arith,
      length-add_range r.id last r.last punched,
      length-set ss index (remainder r first last),
    );
    at_most = λ id frame o. ground (
      arith,
      times-add_range id frame r.id last r.last punched,
      times-punched id frame,
      covers-remainder_two first last id frame r order o two,
    );
    complete = λ e. ground arith;
    exact = λ e id frame o. ground (
      arith,
      times-add_range id frame r.id last r.last punched,
      times-punched id frame,
      covers-remainder_two first last id frame r order o two,
    );
  }

  punch_range-Keeps :
      Keeps first last (complete, ss) (punch_range first last index r (complete, ss))
  unfolding punch_range punched
  punch_range-Keeps = elim (Bool-cases (leb r.last first || leb last r.first)) [
    | inl apart ↦ simp apart (Keeps-refl first last (complete, ss))
    | inr meets ↦ elim (Bool-cases (ltb r.first first && ltb last r.last)) [
      | inl two ↦ simp meets (simp two (split-Keeps two))
      | inr one ↦ simp meets (
          simp one record {
            size = length-set ss index (remainder r first last);
            at_most = λ id frame o. omega (
              arith,
              times-punched id frame,
              covers-remainder_one first last id frame r order meets o one,
            );
            complete = λ e. e;
            exact = λ e id frame o. omega (
              arith,
              times-punched id frame,
              covers-remainder_one first last id frame r order meets o one,
            );
          })
    ]
  ]

-- A slot whose range, if any, does not meet `first..last`.
abbrev pub Clear : ℕ → ℕ → Option Range → Type 0
Clear first last none = Unit {0}
Clear first last (some r) = (r.last ≤ first) ⊎ (last ≤ r.first)

abbrev pub ClearBelow : ℕ → ℕ → ℕ → Ranges → Type 0
ClearBelow first last n ss = (j : ℕ) → j < n → Clear first last (slot ss j)

covers-Clear :
    (first last id frame : ℕ) (s : Option Range)
    → Clear first last s
    → first ≤ frame
    → frame < last
    → covers id frame s ≡ 0
covers-Clear first last id frame none c low high = refl
covers-Clear first last id frame (some r) c low high = ground arith

times-Clear :
    (first last id frame : ℕ) (ss : Ranges)
    → ClearBelow first last (length ss) ss
    → first ≤ frame
    → frame < last
    → times id frame ss ≡ 0
unfolding times
times-Clear first last id frame [] c low high = refl
times-Clear first last id frame (s ∷ ss) c low high = omega (
  arith,
  covers-Clear first last id frame s (c 0 (omega arith)) low high,
  times-Clear first last id frame ss (λ j h. c (suc j) (omega arith)) low high,
)

remainder-Clear :
    (first last : ℕ) (r : Range)
    → (leb r.last first || leb last r.first) ≡ false
    → Clear first last (remainder r first last)
remainder-Clear first last r meets = elim (Bool-cases (ltb r.first first)) [
  | inl left ↦ simp left (inl (omega arith))
  | inr at ↦ elim (Bool-cases (ltb last r.last)) [
    | inl right ↦ simp at (simp right (inr (omega arith)))
    | inr all_of_it ↦ simp at (simp all_of_it tt)
  ]
]

ClearBelow-suc :
    (first last n : ℕ) (ss : Ranges)
    → ClearBelow first last n ss
    → Clear first last (slot ss n)
    → ClearBelow first last (suc n) ss
ClearBelow-suc first last n ss c at j h = elim (Bool-cases (j == n)) [
  | inl same ↦ let eq : n ≡ j = ground arith in subst (λ k. Clear first last (slot ss k)) eq at
  | inr other ↦ c j (ground arith)
]

ClearBelow-set :
    (first last n index : ℕ) (ss : Ranges) (v : Option Range)
    → Clear first last v
    → ((j : ℕ) → j < n → j ≢ index → Clear first last (slot ss j))
    → ClearBelow first last n (set ss index v)
ClearBelow-set first last n index ss v c others j h =
    elim (Bool-cases (index == j && ltb index (length ss))) [
      | inl here ↦ subst (Clear first last) (sym (slot-set ss index j v)) (simp here c)
      | inr elsewhere ↦ subst (Clear first last) (sym (slot-set ss index j v)) (
          simp elsewhere elim (Bool-cases (index == j)) [
            | inl same ↦
                let past : length ss ≤ j = ground arith in
                subst (Clear first last) (sym (slot-none ss j past)) tt
            | inr other ↦ others j h (ground arith)
          ])
    ]

ClearBelow-add_range :
    (first last n own a b : ℕ) (ss : Ranges)
    → last ≤ a
    → ClearBelow first last n ss
    → ClearBelow first last n (add_range own a b ss).1
unfolding add_range
ClearBelow-add_range first last n own a b ss h c = elim (Bool-cases (leb b a)) [
  | inl empty ↦ simp empty c
  | inr more ↦ elim (Option-cases (position is_none ss)) [
    | inl e ↦ rw (e, add_range) (simp more c)
    | inr (k, e) ↦
        rw (e, add_range)
          (simp more (
            ClearBelow-set first last n k ss (some (record { id = own; first = a; last = b }))
              (inr h) (λ j lt other. c j lt)))
  ]
]

punch_range-ClearBelow :
    (first last index : ℕ) (r : Range) (complete : Bool) (ss : Ranges)
    → slot ss index ≡ some r
    → ClearBelow first last index ss
    → ClearBelow first last (suc index) (punch_range first last index r (complete, ss)).1
unfolding punch_range
punch_range-ClearBelow first last index r complete ss held c =
    elim (Bool-cases (leb r.last first || leb last r.first)) [
      | inl apart ↦ simp apart (
          ClearBelow-suc first last index ss c (subst (Clear first last) (sym held) (ground arith)))
      | inr meets ↦
          let below : ClearBelow first last (suc index) (set ss index (remainder r first last)) =
            ClearBelow-set first last (suc index) index ss (remainder r first last)
              (remainder-Clear first last r meets) (λ j h other. c j (omega arith)) in
          elim (Bool-cases (ltb r.first first && ltb last r.last)) [
            | inl two ↦ simp meets (
                simp two (
                  ClearBelow-add_range first last (suc index) r.id last r.last _ (omega arith)
                    below))
            | inr one ↦ simp meets (simp one below)
          ]
    ]

-- The loop, whole.
punch_slot-Keeps :
    (first last index : ℕ) (s : Option Range) (complete : Bool) (ss : Ranges)
    → first ≤ last
    → slot ss index ≡ s
    → Keeps first last (complete, ss) (punch_slot first last index s (complete, ss))
punch_slot-Keeps first last index none complete ss h e = Keeps-refl first last (complete, ss)
punch_slot-Keeps first last index (some r) complete ss h e =
    punch_range-Keeps first last index r complete ss h e

punch_slot-ClearBelow :
    (first last index : ℕ) (s : Option Range) (complete : Bool) (ss : Ranges)
    → slot ss index ≡ s
    → ClearBelow first last index ss
    → ClearBelow first last (suc index) (punch_slot first last index s (complete, ss)).1
punch_slot-ClearBelow first last index none complete ss e c =
    ClearBelow-suc first last index ss c (subst (Clear first last) (sym e) tt)
punch_slot-ClearBelow first last index (some r) complete ss e c =
    punch_range-ClearBelow first last index r complete ss e c

punch_loop-Keeps :
    (first last n index : ℕ) (s : Bool × Ranges)
    → first ≤ last
    → Keeps first last s (punch_loop first last n index s)
unfolding punch_loop
punch_loop-Keeps first last zero index s h = Keeps-refl first last s
punch_loop-Keeps first last (suc n) index s h =
    Keeps-trans (punch_slot-Keeps first last index (slot s.1 index) s.0 s.1 h refl)
      (punch_loop-Keeps first last n (suc index) (punch_slot first last index (slot s.1 index) s) h)

punch_loop-ClearBelow :
    (first last n index : ℕ) (s : Bool × Ranges)
    → ClearBelow first last index s.1
    → ClearBelow first last (index + n) (punch_loop first last n index s).1
unfolding punch_loop
punch_loop-ClearBelow first last zero index s c j h = c j (omega arith)
punch_loop-ClearBelow first last (suc n) index s c j h =
    punch_loop-ClearBelow first last n (suc index) (punch_slot first last index (slot s.1 index) s)
      (punch_slot-ClearBelow first last index (slot s.1 index) s.0 s.1 refl c) j (omega arith)

abbrev pub Punches : ℕ → ℕ → HoldTable → Bool × HoldTable → Type 0
Punches first last t r =
    (length r.1.ranges ≡ max_hold_ranges)
    × ((id frame : ℕ) → first ≤ frame → frame < last → times id frame r.1.ranges ≡ 0)
    × ((id frame : ℕ)
        → Outside first last frame
        → times id frame r.1.ranges ≤ times id frame t.ranges)
    × (r.0 ≡ true
        → (id frame : ℕ) → Outside first last frame
        → times id frame r.1.ranges ≡ times id frame t.ranges)

-- After `punch` no hold has a frame of `first..last`; every other frame is in each hold no more often than
-- before, and as often as before where `punch` returns true.
pub punch-Punches :
    (first last : ℕ) (t : HoldTable)
    → first ≤ last
    → length t.ranges ≡ max_hold_ranges
    → Punches first last t (punch first last t)
punch-Punches first last t h size =
    let k = punch_loop-Keeps first last max_hold_ranges 0 (true, t.ranges) h in
    let size' = k.size ∙ size in
    let clear =
      punch_loop-ClearBelow first last max_hold_ranges 0 (true, t.ranges)
        (λ j lt. absurd (omega arith)) in
    (
      size',
      λ id frame low high.
          times-Clear first last id frame _ (λ j lt. clear j (omega (arith, size'))) low high,
      λ id frame o. k.at_most id frame o,
      λ e id frame o. k.exact e id frame o,
    )
