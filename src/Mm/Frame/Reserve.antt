-- ===== src/Mm/Frame/Reserve.antt =====
-- The loop of `reserve` while the lists are in use.
use Prim.Native.Nat.{ℕ, zero, suc, ◌+◌, ◌≤◌, ◌<◌, ◌^◌}
use saeos.Prelude.{
  true, false, ◌&&◌, some, ltb, leb, ◌==◌, if◌then◌else◌, ◌≡◌, refl, sym, ◌∙◌, ap, subst, arith,
  inl, inr, Bool-cases,
}
use saeos.Mm.Buddy.Lists.{State, reserved, free, same_state, Buddy, mark}
use saeos.Mm.Buddy.Valid.{Blocks, IsBuddy}
use saeos.Mm.Buddy.Tags.{same_state-eq}
use saeos.Mm.Buddy.Marks.{set_states_lem, mark-IsBuddy}
use saeos.Mm.Buddy.Heads.{Tagged}
use saeos.Mm.Buddy.Isolate.{Isolated, isolate_cases}
use saeos.Mm.Frame.Allocator.{put_isolated, put_away, reserve_frames}

-- The lists are right, only heads have tags, and an address has 64 bits.
pub record Whole (b : Buddy) : Type 0 where
  pub blocks : Blocks
  pub valid : IsBuddy b blocks
  pub tagged : Tagged b blocks
  pub physical : b.frame_count ≤ 2 ^ 52

-- The free frames of `start..end` are reserved, all others as they were, and the lists are right.
pub record Reserves (b b' : Buddy) (start end : ℕ) : Type 0 where
  pub whole : Whole b'
  pub frame_count : b'.frame_count ≡ b.frame_count
  pub state :
      (f : ℕ)
      → b'.state f ≡ (
          if (leb start f && ltb f end) && same_state (b.state f) free then reserved else b.state f)

marked-Whole :
    (b b' : Buddy) (frame : ℕ) → Whole b → Isolated b b' frame → Whole (mark 1 frame reserved b')
marked-Whole b b' frame w c = record {
  blocks = c.blocks;
  valid = mark-IsBuddy b' c.blocks 0 frame reserved (λ e. let t = e in ground arith) c.pending;
  tagged = λ f is_free tag.
      let m = set_states_lem 1 frame reserved b'.state f in
      let out : (leb frame f && ltb f (frame + 1)) ≡ false =
        elim (Bool-cases (leb frame f && ltb f (frame + 1))) [
          | inl inside ↦
              let now : (mark 1 frame reserved b').state f ≡ reserved = m ∙ simp inside refl in
              let t = sym now ∙ is_free in absurd (ground arith)
          | inr outside ↦ outside
        ] in
      c.tagged f (sym (m ∙ simp out refl) ∙ is_free) tag;
  physical = subst (λ n. n ≤ 2 ^ 52) (sym c.frame_count) w.physical;
}

put_away-Isolated :
    (b : Buddy) (frame : ℕ)
    → Whole b
    → frame < b.frame_count
    → b.state frame ≡ free
    → (b' : Buddy) × (put_away true frame b ≡ some (mark 1 frame reserved b')) × Isolated b b' frame
put_away-Isolated b frame w lt is_free =
    elim (isolate_cases b w.blocks w.valid w.tagged w.physical frame) [
      | inl (low, was, (b', runs, c)) ↦ (b', ap (put_isolated frame) runs, c)
      | inr (why, runs) ↦ elim why [ inl out ↦ absurd (omega arith) | inr ne ↦ absurd (ne is_free) ]
    ]

module _ (state : ℕ → State) (start n f : ℕ) where
  skip_first :
      same_state (state start) free ≡ false
      → (if (leb (suc start) f && ltb f (suc start + n)) && same_state (state f) free
          then reserved
          else state f)
        ≡ (if (leb start f && ltb f (start + suc n)) && same_state (state f) free
            then reserved
            else state f)
  skip_first other = elim (Bool-cases (f == start)) [
    | inl here ↦
        let e : start ≡ f = ground arith in
        let other' : same_state (state f) free ≡ false =
          ap (λ x. same_state (state x) free) (sym e) ∙ other in
        simp other' (ground arith)
    | inr there ↦
        let e : (leb (suc start) f && ltb f (suc start + n))
            ≡ (leb start f && ltb f (start + suc n)) =
          ground arith in
        simp e refl
  ]

  take_first :
      (now : State)
      → same_state (state start) free ≡ true
      → now ≡ (if leb start f && ltb f (start + 1) then reserved else state f)
      → (if (leb (suc start) f && ltb f (suc start + n)) && same_state now free
          then reserved
          else now)
        ≡ (if (leb start f && ltb f (start + suc n)) && same_state (state f) free
            then reserved
            else state f)
  take_first now mine m = elim (Bool-cases (f == start)) [
    | inl here ↦
        let e : start ≡ f = ground arith in
        let mine' : same_state (state f) free ≡ true =
          ap (λ x. same_state (state x) free) (sym e) ∙ mine in
        let inside : (leb start f && ltb f (start + suc n)) ≡ true = ground arith in
        let after : (leb (suc start) f && ltb f (suc start + n)) ≡ false = ground arith in
        let done : now ≡ reserved = ground arith in simp (after, inside, mine') done
    | inr there ↦
        let e : (leb (suc start) f && ltb f (suc start + n))
            ≡ (leb start f && ltb f (start + suc n)) =
          ground arith in
        let same : now ≡ state f = ground arith in
        ap
          (λ s.
            if (leb (suc start) f && ltb f (suc start + n)) && same_state s free
            then reserved
            else s)
          same
        ∙ simp e refl
  ]

-- While the lists are in use, and right, and only heads have tags, the loop of `reserve` does not panic: the free frames of
-- its range are reserved, all others stay as they were, and the lists and the tags are right again.
pub reserve_frames-Reserves :
    (n start : ℕ) (b : Buddy)
    → Whole b
    → start + n ≤ b.frame_count
    → (b' : Buddy) × (reserve_frames n true start b ≡ some b') × Reserves b b' start (start + n)
unfolding reserve_frames
reserve_frames-Reserves zero start b w le =
    (b, refl, record { whole = w; frame_count = refl; state = λ f. ground arith })
reserve_frames-Reserves (suc n) start b w le = elim (Bool-cases (same_state (b.state start) free)) [
  | inr other ↦
      let (b', runs, r) = reserve_frames-Reserves n (suc start) b w (omega arith) in
      (
        b',
        simp (other, reserve_frames) runs,
        record {
          whole = r.whole;
          frame_count = r.frame_count;
          state = λ f. r.state f ∙ skip_first b.state start n f other;
        },
      )
  | inl mine ↦
      let is_free = same_state-eq (b.state start) free mine in
      let (c, away, isolated) = put_away-Isolated b start w (omega arith) is_free in
      let b1 = mark 1 start reserved c in
      let (b', runs, r) =
        reserve_frames-Reserves n (suc start) b1 (marked-Whole b c start w isolated)
          (subst (λ m. suc start + n ≤ m) (sym isolated.frame_count) (omega arith)) in
      (
        b',
        simp (mine, away, reserve_frames) runs,
        record {
          whole = r.whole;
          frame_count = r.frame_count ∙ isolated.frame_count;
          state = λ f.
              r.state f
              ∙ take_first b.state start n f (b1.state f) mine (
                  set_states_lem 1 start reserved c.state f
                  ∙ ap (λ s. if leb start f && ltb f (start + 1) then reserved else s)
                      (isolated.state f));
        },
      )
]
