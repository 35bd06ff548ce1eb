-- ===== src/Mm/Buddy/Restore.antt =====
-- `insert_reserved_range`: memory that was reserved during boot is handed back.
use Prim.Native.Nat.{ℕ, zero, suc, ◌+◌, ◌-◌, ◌≤◌, ◌<◌, ◌^◌, min}
use saeos.Prelude.{
  true, false, ltb, leb, ◌==◌, ◌&&◌, if◌then◌else◌, ◌≡◌, refl, sym, ◌∙◌, ap, subst, arith, inl, inr,
  Bool-cases,
}
use saeos.Mm.Buddy.Lists.{max_order, reserved, free, same_state, Buddy, mark, coalesce_and_push}
use saeos.Mm.Buddy.Blocks.{range_of_half-eq, pow_pos}
use saeos.Mm.Buddy.Valid.{Blocks, IsBuddy}
use saeos.Mm.Buddy.Merge.{coalesce-Coalesced}
use saeos.Mm.Buddy.Marks.{set_states_lem, mark-Pending}
use saeos.Mm.Buddy.Build.{
  block_order, run_end, free_pieces, insert_reserved_from, insert_reserved_range,
}
use saeos.Mm.Buddy.Carve.{Piece, block_order-Piece, RunEnd-lt, run_end-RunEnd}

-- The reserved frames of `start..end` are free, all others as they were, and the lists are right.
pub record Returned (b b' : Buddy) (start end : ℕ) : Type 0 where
  pub blocks : Blocks
  pub valid : IsBuddy b' blocks
  pub frame_count : b'.frame_count ≡ b.frame_count
  pub state :
      (f : ℕ)
      → b'.state f ≡ (
          if (leb start f && ltb f end) && same_state (b.state f) reserved then free else b.state f)

nothing-Returned :
    (b : Buddy) (blocks : Blocks) (start end : ℕ)
    → IsBuddy b blocks
    → end ≤ start
    → Returned b b start end
nothing-Returned b blocks start end v le = record {
  blocks = blocks;
  valid = v;
  frame_count = refl;
  state = λ f. ground arith;
}

-- One part of a range after the other.
both-Returned :
    (b b' b'' : Buddy) (start middle end : ℕ)
    → start ≤ middle
    → middle ≤ end
    → Returned b b' start middle
    → Returned b' b'' middle end
    → Returned b b'' start end
both-Returned b b' b'' start middle end low high r r' = record {
  blocks = r'.blocks;
  valid = r'.valid;
  frame_count = r'.frame_count ∙ r.frame_count;
  state = λ f.
      let s = r.state f in
      let s' = r'.state f in
      elim (Bool-cases (leb start f && ltb f middle)) [
        | inl first ↦
            let out : (leb middle f && ltb f end) ≡ false = ground arith in
            let whole : (leb start f && ltb f end) ≡ true = ground arith in
            s' ∙ simp out refl ∙ s ∙ simp (first, whole) refl
        | inr later ↦
            let same : b'.state f ≡ b.state f = s ∙ simp later refl in
            let e : (leb start f && ltb f end) ≡ (leb middle f && ltb f end) = ground arith in
            s'
            ∙ ap (λ x. if (leb middle f && ltb f end) && same_state x reserved then free else x)
                same
            ∙ simp e refl
      ];
}

-- One aligned piece of a run.
Piece-Returned :
    (b : Buddy) (blocks : Blocks) (cursor end k : ℕ)
    → IsBuddy b blocks
    → end ≤ b.frame_count
    → Piece cursor end k
    → ((f : ℕ) → cursor ≤ f → f < end → b.state f ≡ reserved)
    → Returned b (coalesce_and_push cursor k (mark (2 ^ k) cursor free b)) cursor (cursor + 2 ^ k)
Piece-Returned b blocks cursor end k v le p all =
    let inside = p.inside in
    let pending = mark-Pending b blocks k cursor v p.aligned p.order (omega arith) (λ f e.
      let r = range_of_half-eq k cursor f p.aligned e in
      let was = all f r.0 (omega (arith, r.1)) in λ is_free. ground arith) in
    let c =
      coalesce-Coalesced (max_order - k) (mark (2 ^ k) cursor free b) blocks k cursor pending
        (omega arith) in
    record {
      blocks = c.blocks;
      valid = c.valid;
      frame_count = c.frame_count;
      state = λ f.
          c.state f
          ∙ set_states_lem (2 ^ k) cursor free b.state f
          ∙ elim (Bool-cases (leb cursor f && ltb f (cursor + 2 ^ k))) [
            | inl here ↦
                let was = ap (λ s. same_state s reserved) (all f (ground arith) (ground arith)) in
                simp (here, was) refl
            | inr there ↦ simp there refl
          ];
    }

free_pieces-Returned :
    (n : ℕ) (b : Buddy) (blocks : Blocks) (cursor end : ℕ)
    → IsBuddy b blocks
    → cursor ≤ end
    → end ≤ b.frame_count
    → end ≤ cursor + n
    → ((f : ℕ) → cursor ≤ f → f < end → b.state f ≡ reserved)
    → Returned b (free_pieces n cursor end b) cursor end
unfolding free_pieces
free_pieces-Returned zero b blocks cursor end v low le enough all =
    nothing-Returned b blocks cursor end v (omega arith)
free_pieces-Returned (suc n) b blocks cursor end v low le enough all =
    elim (Bool-cases (ltb cursor end)) [
      | inr done ↦ simp (done, free_pieces) (nothing-Returned b blocks cursor end v (ground arith))
      | inl more ↦
          let bounded = v.lists.bounded in
          let k = block_order cursor end in
          let p = block_order-Piece cursor end (ground arith) (omega arith) in
          let inside = p.inside in
          let pos = pow_pos k in
          let b' = coalesce_and_push cursor k (mark (2 ^ k) cursor free b) in
          let first = Piece-Returned b blocks cursor end k v le p all in
          let rest =
            free_pieces-Returned n b' first.blocks (cursor + 2 ^ k) end first.valid inside
              (subst (λ m. end ≤ m) (sym first.frame_count) le) (omega arith)
              (λ f from to.
                first.state f
                ∙ (let out : (leb cursor f && ltb f (cursor + 2 ^ k)) ≡ false = ground arith in
                    simp out (all f (omega arith) to))) in
          simp (more, free_pieces)
            (both-Returned b b' (free_pieces n (cursor + 2 ^ k) end b') cursor (cursor + 2 ^ k) end
              (omega arith) inside first rest)
    ]

skip-Returned :
    (b : Buddy) (blocks : Blocks) (index : ℕ)
    → IsBuddy b blocks
    → same_state (b.state index) reserved ≡ false
    → Returned b b index (index + 1)
skip-Returned b blocks index v other = record {
  blocks = blocks;
  valid = v;
  frame_count = refl;
  state = λ f. elim (Bool-cases (f == index)) [
    | inl here ↦
        let e : index ≡ f = ground arith in
        let other' : same_state (b.state f) reserved ≡ false =
          ap (λ x. same_state (b.state x) reserved) (sym e) ∙ other in
        simp other' (ground arith)
    | inr there ↦
        let out : (leb index f && ltb f (index + 1)) ≡ false = ground arith in simp out refl
  ];
}

insert_reserved_from-Returned :
    (n : ℕ) (b : Buddy) (blocks : Blocks) (index end : ℕ)
    → IsBuddy b blocks
    → end ≤ b.frame_count
    → end ≤ index + n
    → Returned b (insert_reserved_from n index end b) index end
unfolding insert_reserved_from
insert_reserved_from-Returned zero b blocks index end v le enough =
    nothing-Returned b blocks index end v (omega arith)
insert_reserved_from-Returned (suc n) b blocks index end v le enough =
    elim (Bool-cases (ltb index end)) [
      | inr done ↦
          simp (done, insert_reserved_from) (nothing-Returned b blocks index end v (ground arith))
      | inl more ↦ elim (Bool-cases (same_state (b.state index) reserved)) [
        | inr other ↦
            let rest =
              insert_reserved_from-Returned n b blocks (index + 1) end v le (omega arith) in
            simp (more, other, insert_reserved_from)
              (both-Returned b b (insert_reserved_from n (index + 1) end b) index (index + 1) end
                (omega arith) (ground arith) (skip-Returned b blocks index v other) rest)
        | inl same ↦
            let next = run_end (end - index) reserved index b.state in
            let run = run_end-RunEnd (end - index) reserved index b.state in
            let high = run.high in
            let low = run.low in
            let lt : index < end = ground arith in
            let further : index < next =
              RunEnd-lt b.state reserved index next (end - index) (omega arith) same run in
            let b' = free_pieces (next - index) index next b in
            let first =
              free_pieces-Returned (next - index) b blocks index next v low (omega arith)
                (omega arith) run.all in
            let rest =
              insert_reserved_from-Returned n b' first.blocks next end first.valid
                (subst (λ m. end ≤ m) (sym first.frame_count) le) (omega arith) in
            simp (more, same, insert_reserved_from)
              (both-Returned b b' (insert_reserved_from n next end b') index next end low
                (omega arith) first rest)
      ]
    ]

-- The reserved frames of the range are free afterwards, no other frame changes, and the lists are right again.
pub insert_reserved_range-Returned :
    (b : Buddy) (blocks : Blocks) (frame end : ℕ)
    → IsBuddy b blocks
    → Returned b (insert_reserved_range frame end b) frame (min end b.frame_count)
unfolding insert_reserved_range
insert_reserved_range-Returned b blocks frame end v =
    insert_reserved_from-Returned (min end b.frame_count - frame) b blocks frame
      (min end b.frame_count) v (omega arith) (omega arith)
