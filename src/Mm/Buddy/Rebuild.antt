-- ===== src/Mm/Buddy/Rebuild.antt =====
-- `build`: the lists from the bitmap.
use Prim.Native.Nat.{ℕ, zero, suc, ◌+◌, ◌-◌, ◌≤◌, ◌<◌, ◌^◌}
use saeos.Prelude.{
  true, false, [], ltb, leb, ◌==◌, ◌≡◌, refl, sym, ◌∙◌, ap, subst, arith, ◌⊎◌, inl, inr, Bool-cases,
  ◌∷◌,
}
use saeos.Mm.Buddy.Lists.{max_order, no_frame, free, same_state, index, zone_of, Buddy, clear, push}
use saeos.Mm.Buddy.Blocks.{half, Aligned, range_of_half-eq, half-eq_of_range, pow_pos}
use saeos.Mm.Buddy.Valid.{Blocks, IsLists, IsBuddy}
use saeos.Mm.Buddy.Push.{with_block, has-with_block, push-IsLists}
use saeos.Mm.Buddy.Steps.{Covered-with, Covered-own}
use saeos.Mm.Buddy.Build.{block_order, run_end, insert_run, build_from, build}
use saeos.Mm.Buddy.Carve.{Piece, block_order-Piece, RunEnd-lt, run_end-RunEnd}
use saeos.Mm.Buddy.Chain.{has, push_node_tag}
use saeos.Mm.Buddy.Valid.{has-write_at}
use saeos.Mm.Buddy.Steps.{has-with}
use saeos.Mm.Buddy.Largest.{Taken, Built, Built-IsBuddy}

module _ (b : Buddy) (blocks : Blocks) (frame end k : ℕ) (t : Built b blocks frame)
    (p : Piece frame end k) (all : (f : ℕ) → frame ≤ f → f < end → b.state f ≡ free)
    (le : end ≤ b.frame_count) where
  piece_frames : (f : ℕ) → half k f ≡ half k frame → (frame ≤ f) × (f < frame + 2 ^ k)
  piece_frames f e = range_of_half-eq k frame f p.aligned e

  piece-IsLists : IsLists (push frame k b) (with_block k frame blocks)
  piece-IsLists =
      let inside = p.inside in
      push-IsLists b blocks k frame t.lists p.aligned p.order (omega arith)
        (λ f e. let r = piece_frames f e in all f r.0 (omega arith))
        (λ z k' h' f i e e'.
          let r = range_of_half-eq k' h' f (t.lists.each z k' h' i).aligned e in
          let r' = piece_frames f e' in let low = t.below z k' h' i in absurd (omega arith))

  -- The next larger block reaches over the end of the run.
  beyond : k < max_order → Aligned (suc k) frame → half (suc k) end ≡ half (suc k) frame
  beyond below a =
      let inside = p.inside in
      let large : end < frame + 2 ^ suc k = elim (Bool-cases (leb (frame + 2 ^ suc k) end)) [
        | inl fits ↦
            let wrong : suc k ≤ k = p.largest (suc k) below a (ground arith) in absurd (omega arith)
        | inr out ↦ ground arith
      ] in
      half-eq_of_range (suc k) frame end a (omega arith) large

  piece-Built : Taken b end → Built (push frame k b) (with_block k frame blocks) (frame + 2 ^ k)
  unfolding push
  piece-Built stop = record {
    lists = piece-IsLists;
    largest = λ z m a below i aligned. elim (has-with_block k frame blocks a z m i) [
      | inr old ↦ t.largest z m a below old aligned
      | inl (ea, ez, ek) ↦
          let below' : k < max_order = subst (λ x. x < max_order) (sym ek) below in
          let aligned' =
            subst (λ x. Aligned (suc x) frame) (sym ek) (subst (Aligned (suc m)) ea aligned) in
          let e = beyond below' aligned' in
          (
            end,
            subst (λ x. half (suc x) end ≡ half (suc x) a) ek (e ∙ ap (half (suc k)) (sym ea)),
            stop,
          )
    ];
    below = λ z m a i. elim (has-with_block k frame blocks a z m i) [
      | inr old ↦ let low = t.below z m a old in omega arith
      | inl (ea, ez, ek) ↦ let e = ap (λ x. 2 ^ x) ek in omega arith
    ];
    cover = λ f lt inside is_free. elim (Bool-cases (ltb f frame)) [
      | inl old ↦ Covered-with f k frame blocks (t.cover f (ground arith) inside is_free)
      | inr new ↦
          Covered-own f k frame blocks (half-eq_of_range k frame f p.aligned (ground arith) lt)
    ];
  }

-- A frame has the tag that it had, or it is the head of a listed block.
abbrev pub Kept : Buddy → Buddy → Blocks → ℕ → Type 0
Kept b b' blocks f =
    ((b'.node f).magic ≡ (b.node f).magic) ⊎ ((z : ℕ) × (k : ℕ) × (has f (blocks z k) ≡ true))

-- The first block stays listed through the pushes after it.
Kept-trans :
    (b b' b'' : Buddy) (blocks blocks' : Blocks) (f : ℕ)
    → ((z k : ℕ) → has f (blocks z k) ≡ true → has f (blocks' z k) ≡ true)
    → Kept b b' blocks f
    → Kept b' b'' blocks' f
    → Kept b b'' blocks' f
Kept-trans b b' b'' blocks blocks' f stays old (inr listed) = inr listed
Kept-trans b b' b'' blocks blocks' f stays (inl same) (inl same') = inl (same' ∙ same)
Kept-trans b b' b'' blocks blocks' f stays (inr (z, k, i)) (inl same') = inr (z, k, stays z k i)

pub push-Kept :
    (b : Buddy) (blocks : Blocks) (k h f : ℕ) → Kept b (push h k b) (with_block k h blocks) f
unfolding push
push-Kept b blocks k h f =
    let z = index (zone_of h) in
    elim (Bool-cases (f == h)) [
      | inl here ↦
          let e : f ≡ h = ground arith in
          let own = has-write_at f z k z k (h ∷ blocks z k) blocks in inr (z, k, ground arith)
      | inr other ↦
          inl (push_node_tag b.node (b.heads z k) h k f (let ne = other in ground arith)).1
    ]

-- What `build` leaves alone.
record Filled (b b' : Buddy) (first : Blocks) (end : ℕ) : Type 0 where
  blocks : Blocks
  built : Built b' blocks end
  stays : (z k h : ℕ) → has h (first z k) ≡ true → has h (blocks z k) ≡ true
  kept : (f : ℕ) → Kept b b' blocks f
  state : (f : ℕ) → b'.state f ≡ b.state f
  frame_count : b'.frame_count ≡ b.frame_count

insert_run-Filled :
    (n : ℕ) (b : Buddy) (blocks : Blocks) (frame end : ℕ)
    → Built b blocks frame
    → frame ≤ end
    → end ≤ b.frame_count
    → end ≤ frame + n
    → ((f : ℕ) → frame ≤ f → f < end → b.state f ≡ free)
    → Taken b end
    → Filled b (insert_run n frame end b) blocks end
unfolding insert_run
insert_run-Filled zero b blocks frame end t low le enough all stop =
    let e : frame ≡ end = omega arith in
    record {
      blocks = blocks;
      built = subst (Built b blocks) e t;
      stays = λ z k h i. i;
      kept = λ f. inl refl;
      state = λ f. refl;
      frame_count = refl;
    }
insert_run-Filled (suc n) b blocks frame end t low le enough all stop =
    elim (Bool-cases (ltb frame end)) [
      | inr done ↦
          let e : frame ≡ end = ground arith in
          simp (done, insert_run)
            record {
              blocks = blocks;
              built = subst (Built b blocks) e t;
              stays = λ z k h i. i;
              kept = λ f. inl refl;
              state = λ f. refl;
              frame_count = refl;
            }
      | inl more ↦
          let bounded = t.lists.bounded in
          let k = block_order frame end in
          let p = block_order-Piece frame end (ground arith) (omega arith) in
          let pos = pow_pos k in
          let first = piece-Built b blocks frame end k t p all le stop in
          let rest =
            insert_run-Filled n (push frame k b) (with_block k frame blocks) (frame + 2 ^ k) end
              first p.inside (unfold push in le) (omega arith)
              (unfold push in λ f from to. all f (omega arith) to) (unfold push in stop) in
          simp (more, insert_run)
            record {
              blocks = rest.blocks;
              built = rest.built;
              stays = λ z m h i. rest.stays z m h (has-with h z m k frame blocks i);
              kept = λ f.
                  Kept-trans b (push frame k b) (insert_run n (frame + 2 ^ k) end (push frame k b))
                    (with_block k frame blocks) rest.blocks f (λ z m i. rest.stays z m f i)
                    (push-Kept b blocks k frame f) (rest.kept f);
              state = λ f. rest.state f ∙ unfold push in refl;
              frame_count = rest.frame_count ∙ unfold push in refl;
            }
    ]

skip-Built :
    (b : Buddy) (blocks : Blocks) (frame : ℕ)
    → Built b blocks frame
    → same_state (b.state frame) free ≡ false
    → Built b blocks (frame + 1)
skip-Built b blocks frame t other = record {
  lists = t.lists;
  largest = t.largest;
  below = λ z k h i. let low = t.below z k h i in omega arith;
  cover = λ f lt inside is_free. elim (Bool-cases (f == frame)) [
    | inr earlier ↦ t.cover f (ground arith) inside is_free
    | inl here ↦
        let e : frame ≡ f = ground arith in
        let yes_free : same_state (b.state frame) free ≡ true =
          ap (λ x. same_state (b.state x) free) e ∙ ap (λ s. same_state s free) is_free in
        absurd (ground arith)
  ];
}

build_from-Filled :
    (n : ℕ) (b : Buddy) (blocks : Blocks) (frame : ℕ)
    → Built b blocks frame
    → frame ≤ b.frame_count
    → b.frame_count ≤ frame + n
    → Filled b (build_from n frame b) blocks b.frame_count
unfolding build_from
build_from-Filled zero b blocks frame t low enough =
    let e : frame ≡ b.frame_count = omega arith in
    record {
      blocks = blocks;
      built = subst (Built b blocks) e t;
      stays = λ z k h i. i;
      kept = λ f. inl refl;
      state = λ f. refl;
      frame_count = refl;
    }
build_from-Filled (suc n) b blocks frame t low enough =
    elim (Bool-cases (ltb frame b.frame_count)) [
      | inr done ↦
          let e : frame ≡ b.frame_count = ground arith in
          simp (done, build_from)
            record {
              blocks = blocks;
              built = subst (Built b blocks) e t;
              stays = λ z k h i. i;
              kept = λ f. inl refl;
              state = λ f. refl;
              frame_count = refl;
            }
      | inl more ↦ elim (Bool-cases (same_state (b.state frame) free)) [
        | inr other ↦
            simp (more, other, build_from)
              (build_from-Filled n b blocks (frame + 1) (skip-Built b blocks frame t other)
                (ground arith) (omega arith))
        | inl same ↦
            let end = run_end (b.frame_count - frame) free frame b.state in
            let run = run_end-RunEnd (b.frame_count - frame) free frame b.state in
            let high = run.high in
            let lt : frame < b.frame_count = ground arith in
            let further : frame < end =
              RunEnd-lt b.state free frame end (b.frame_count - frame) (omega arith) same run in
            let stop : Taken b end = elim run.stop [
              | inl whole ↦ inl (omega arith)
              | inr ne ↦ inr ne
            ] in
            let b' = insert_run (end - frame) frame end b in
            let first =
              insert_run-Filled (end - frame) b blocks frame end t run.low (omega arith)
                (omega arith) run.all stop in
            let count = first.frame_count in
            let rest =
              build_from-Filled n b' first.blocks end first.built (omega arith) (omega arith) in
            simp (more, same, build_from)
              record {
                blocks = rest.blocks;
                built = subst (λ m. Built (build_from n end b') rest.blocks m) count rest.built;
                stays = λ z k h i. rest.stays z k h (first.stays z k h i);
                kept = λ f.
                    Kept-trans b b' (build_from n end b') first.blocks rest.blocks f
                      (λ z k i. rest.stays z k f i) (first.kept f) (rest.kept f);
                state = λ f. rest.state f ∙ first.state f;
                frame_count = rest.frame_count ∙ count;
              }
      ]
    ]

clear-Built : (b : Buddy) → b.frame_count < no_frame → Built (clear b) (λ z k. []) 0
clear-Built b bounded = record {
  lists = record {
    bounded = bounded;
    chains = λ z k. refl;
    counted = λ z k. refl;
    distinct = λ z k. tt;
    each = λ z k h i. absurd (ground arith);
    apart = λ z k h z' k' h' f i i' e e'. absurd (ground arith);
  };
  largest = λ z k h below i a. absurd (ground arith);
  below = λ z k h i. absurd (ground arith);
  cover = λ f lt inside is_free. absurd (omega arith);
}

pub record Rebuilt (b b' : Buddy) : Type 0 where
  pub blocks : Blocks
  pub valid : IsBuddy b' blocks
  pub tags : (f : ℕ) → Kept b b' blocks f
  pub state : (f : ℕ) → b'.state f ≡ b.state f
  pub frame_count : b'.frame_count ≡ b.frame_count

-- From any bitmap and any contents of the frames `build` makes lists that are right, and leaves the bitmap as
-- it is.
pub build-Rebuilt : (b : Buddy) → b.frame_count < no_frame → Rebuilt b (build b)
unfolding build
build-Rebuilt b bounded =
    let r =
      build_from-Filled b.frame_count (clear b) (λ z k. []) 0 (clear-Built b bounded) (omega arith)
        (omega arith) in
    record {
      blocks = r.blocks;
      valid = Built-IsBuddy (build_from b.frame_count 0 (clear b)) r.blocks (
          subst (λ n. Built (build_from b.frame_count 0 (clear b)) r.blocks n) (sym r.frame_count)
            r.built);
      tags = r.kept;
      state = r.state;
      frame_count = r.frame_count;
    }
