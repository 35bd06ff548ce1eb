-- ===== src/Mm/Buddy/Push.antt =====
-- `push` puts a free block at the front of its list.
use Prim.Native.Nat.{ℕ, ◌+◌, ◌≤◌, ◌<◌, ◌^◌}
use saeos.Prelude.{
  true, false, ◌&&◌, List, [], ◌∷◌, ◌==◌, length, ◌≡◌, ◌≢◌, refl, sym, ◌∙◌, ap, subst, arith, ◌⊎◌,
  inl, inr, Bool-cases,
}
use saeos.Mm.Buddy.Lists.{
  max_order, no_frame, free, index, zone_of, FreeNode, Buddy, write_at, push, push_node,
}
use saeos.Mm.Buddy.Blocks.{half, Aligned, pow_pos}
use saeos.Mm.Buddy.Chain.{
  has, Distinct, Chain, Chain-same, has-lt, ne_of_has, push_node-links, push_node_tag,
  push_node_here, push_node-Chain,
}
use saeos.Mm.Buddy.Valid.{
  Blocks, IsBlock, IsLists, Apart, one_list, has-write_at, write_at-elim, write_at-elim_two,
}

pub Chain-first :
    (node : ℕ → FreeNode) (prev p : ℕ) (hs : List ℕ)
    → Chain node prev p hs
    → (p ≡ no_frame) ⊎ (has p hs ≡ true)
Chain-first node prev p [] c = inl c
Chain-first node prev p (h ∷ hs) c = let e = c.0 in inr (ground arith)

-- The lists after a block went to the front of its own.
abbrev pub with_block : ℕ → ℕ → Blocks → Blocks
with_block k h blocks = let z = index (zone_of h) in write_at z k (h ∷ blocks z k) blocks

pub has-with_block :
    (k h : ℕ) (blocks : Blocks) (a z' k' : ℕ)
    → has a (with_block k h blocks z' k') ≡ true
    → ((a ≡ h) × (index (zone_of h) ≡ z') × (k ≡ k')) ⊎ (has a (blocks z' k') ≡ true)
has-with_block k h blocks a z' k' i =
    let z = index (zone_of h) in
    let e = has-write_at a z k z' k' (h ∷ blocks z k) blocks in
    elim (Bool-cases (z == z' && k == k')) [
      | inl here ↦ elim (Bool-cases (a == h)) [
        | inl same ↦ inl (ground arith, ground arith, ground arith)
        | inr other ↦
            let ez : z ≡ z' = ground arith in
            let ek : k ≡ k' = ground arith in
            let old : has a (blocks z k) ≡ true = ground arith in
            inr (
              subst (λ x. has a (blocks x k') ≡ true) ez
                (subst (λ y. has a (blocks z y) ≡ true) ek old))
      ]
      | inr there ↦ inr (ground arith)
    ]

module _ (b : Buddy) (blocks : Blocks) (k h : ℕ) (l : IsLists b blocks) (aligned : Aligned k h)
    (order : k ≤ max_order) (inside : h + 2 ^ k ≤ b.frame_count)
    (all_free : (f : ℕ) → half k f ≡ half k h → b.state f ≡ free) (out : Apart blocks k h) where
  abbrev z : ℕ
  z = index (zone_of h)

  abbrev head : ℕ
  head = b.heads z k

  abbrev node' : ℕ → FreeNode
  node' = push_node head h k b.node

  low : h < no_frame
  low = omega (arith, inside, l.bounded, pow_pos k)

  not_listed : (z' k' : ℕ) → has h (blocks z' k') ≡ false
  not_listed z' k' = elim (Bool-cases (has h (blocks z' k'))) [
    | inl i ↦ absurd (out z' k' h h i refl refl)
    | inr o ↦ o
  ]

  head_ne : (head == h) ≡ false
  head_ne = elim (Chain-first b.node no_frame head (blocks z k) (l.chains z k)) [
    | inl none ↦ let lt = low in ground arith
    | inr i ↦ let ne = ne_of_has head h (blocks z k) i (not_listed z k) in ground arith
  ]

  -- Another list does not see the change.
  same_links :
      (z' k' a : ℕ)
      → (z == z' && k == k') ≡ false
      → has a (blocks z' k') ≡ true
      → ((node' a).prev ≡ (b.node a).prev) × ((node' a).next ≡ (b.node a).next)
  same_links z' k' a other i =
      let ne = ne_of_has a h (blocks z' k') i (not_listed z' k') in
      let ne' : (a == h) ≡ false = ground arith in
      let links = push_node-links b.node head h k a ne' in
      let lt = has-lt b.node no_frame (b.heads z' k') (blocks z' k') a (l.chains z' k') i in
      let apart : a ≢ head = elim (Chain-first b.node no_frame head (blocks z k) (l.chains z k)) [
        | inl none ↦ λ e. absurd (omega arith)
        | inr first ↦ λ e.
            let same =
              one_list b blocks z k z' k' a l (subst (λ x. has x (blocks z k) ≡ true) (sym e) first)
                i in
            ground arith
      ] in
      (ground arith, links.0)

  each' : (z' k' a : ℕ) → IsBlock b z' k' a → (a == h) ≡ false → IsBlock (push h k b) z' k' a
  unfolding push
  each' z' k' a v ne =
      let tags = push_node_tag b.node head h k a ne in
      record {
        zone = v.zone;
        aligned = v.aligned;
        order = v.order;
        inside = v.inside;
        tag = tags.1 ∙ v.tag;
        node_order = tags.0 ∙ v.node_order;
        all_free = v.all_free;
      }

  pushed-IsBlock : IsBlock (push h k b) z k h
  unfolding push
  pushed-IsBlock =
      let here = push_node_here b.node head h k head_ne in
      record {
        zone = refl;
        aligned = aligned;
        order = order;
        inside = inside;
        tag = here.3;
        node_order = here.2;
        all_free = all_free;
      }

  new_frames : (m a f : ℕ) → a ≡ h → k ≡ m → half m f ≡ half m a → half k f ≡ half k h
  new_frames m a f ea em e = subst (λ n. half n f ≡ half n h) (sym em) (e ∙ ap (half m) ea)

  pushed_apart :
      (y m a y' m' a' f : ℕ)
      → has a (with_block k h blocks y m) ≡ true
      → has a' (with_block k h blocks y' m') ≡ true
      → half m f ≡ half m a
      → half m' f ≡ half m' a'
      → (m ≡ m') × (a ≡ a')
  pushed_apart y m a y' m' a' f i i' e e' = elim (has-with_block k h blocks a y m i) [
    | inl (ea, ez, em) ↦ elim (has-with_block k h blocks a' y' m' i') [
      | inl (ea', ez', em') ↦ (sym em ∙ em', ea ∙ sym ea')
      | inr old' ↦ absurd (out y' m' a' f old' e' (new_frames m a f ea em e))
    ]
    | inr old ↦ elim (has-with_block k h blocks a' y' m' i') [
      | inl (ea', ez', em') ↦ absurd (out y m a f old e (new_frames m' a' f ea' em' e'))
      | inr old' ↦ l.apart y m a y' m' a' f old old' e e'
    ]
  ]

  pub push-IsLists : IsLists (push h k b) (with_block k h blocks)
  unfolding push
  push-IsLists = record {
    bounded = l.bounded;
    chains =
        write_at-elim_two (λ z' k' p hs. Chain node' no_frame p hs) z k h b.heads (h ∷ blocks z k)
          blocks
          (push_node-Chain b.node head h k (blocks z k) (l.chains z k) (l.distinct z k)
            (not_listed z k) low)
          (λ z' k' other.
            Chain-same b.node node' no_frame (b.heads z' k') (blocks z' k')
              (λ a i. same_links z' k' a other i) (l.chains z' k'));
    counted =
        write_at-elim_two (λ z' k' n hs. n ≡ length hs) z k (b.counts z k + 1) b.counts
          (h ∷ blocks z k) blocks (omega (arith, l.counted z k)) (λ z' k' other. l.counted z' k');
    distinct =
        write_at-elim (λ z' k' hs. Distinct hs) z k (h ∷ blocks z k) blocks
          (not_listed z k, l.distinct z k) (λ z' k' other. l.distinct z' k');
    each = λ z' k' a i. elim (has-with_block k h blocks a z' k' i) [
      | inl (e, ez, ek) ↦
          subst (λ x. IsBlock (push h k b) x k' a) ez
            (subst (λ y. IsBlock (push h k b) z y a) ek
              (subst (IsBlock (push h k b) z k) (sym e) pushed-IsBlock))
      | inr old ↦
          let ne = ne_of_has a h (blocks z' k') old (not_listed z' k') in
          each' z' k' a (l.each z' k' a old) (ground arith)
    ];
    apart = λ y m a y' m' a' f i i' e e'. pushed_apart y m a y' m' a' f i i' e e';
  }
