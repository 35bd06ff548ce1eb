-- ===== src/Mm/Buddy/Unlink.antt =====
-- `unlink` takes a block out of its list.
use Prim.Native.Nat.{ℕ, ◌-◌}
use saeos.Prelude.{
  true, false, ◌&&◌, List, [], ◌∷◌, ◌==◌, if◌then◌else◌, length, ◌≡◌, ◌≢◌, sym, ◌∙◌, ap, subst,
  arith, ◌⊎◌, inl, inr, Bool-cases,
}
use saeos.Mm.Buddy.Lists.{no_frame, Zone, index, FreeNode, Buddy, write_at, unlink, unlink_node}
use saeos.Mm.Buddy.Chain.{
  has, delete, Distinct, Chain, Chain-same, has-lt, has-delete, Distinct-delete, length-delete,
}
use saeos.Mm.Buddy.Unchain.{
  before, after, start, unlink_node-next, unlink_node-prev, unlink_node_tag, next_in, prev_in,
  unlink_node-Chain,
}
use saeos.Mm.Buddy.Valid.{
  Blocks, IsBlock, IsLists, one_list, has-write_at, write_at-elim, write_at-elim_two,
}

-- The lists after a block left its own.
abbrev pub without : ℕ → ℕ → ℕ → Blocks → Blocks
without z k h blocks = write_at z k (delete h (blocks z k)) blocks

module _ (b : Buddy) (blocks : Blocks) (zone : Zone) (k h : ℕ) (l : IsLists b blocks)
    (listed : has h (blocks (index zone) k) ≡ true) where
  abbrev z : ℕ
  z = index zone

  abbrev node' : ℕ → FreeNode
  node' = unlink_node h b.node

  before_in : (before b.node h ≡ no_frame) ⊎ (has (before b.node h) (blocks z k) ≡ true)
  before_in = in_chain (b.heads z k) (blocks z k) (l.chains z k) listed
    where
      in_chain :
          (p : ℕ) (hs : List ℕ)
          → Chain b.node no_frame p hs
          → has h hs ≡ true
          → (before b.node h ≡ no_frame) ⊎ (has (before b.node h) hs ≡ true)
      in_chain p [] c i = absurd (ground arith)
      in_chain p (x ∷ hs) c i = elim (Bool-cases (h == x)) [
        | inl here ↦ let e : h ≡ x = ground arith in inl (ap (λ a. (b.node a).prev) e ∙ c.2)
        | inr later ↦ inr (prev_in b.node h no_frame p x hs c (ground arith))
      ]

  after_in : (after b.node h ≡ no_frame) ⊎ (has (after b.node h) (blocks z k) ≡ true)
  after_in = in_chain (b.heads z k) (blocks z k) (l.chains z k) listed
    where
      in_chain :
          (p : ℕ) (hs : List ℕ)
          → Chain b.node no_frame p hs
          → has h hs ≡ true
          → (after b.node h ≡ no_frame) ⊎ (has (after b.node h) hs ≡ true)
      in_chain p [] c i = absurd (ground arith)
      in_chain p (x ∷ hs) c i = elim (next_in b.node h no_frame p x hs c i) [
        | inl none ↦ inl none
        | inr later ↦ inr (ground arith)
      ]

  -- The head of the list.
  first-start :
      (p : ℕ) (hs : List ℕ)
      → Chain b.node no_frame p hs
      → has h hs ≡ true
      → start b.node h hs p ≡ (if before b.node h == no_frame then after b.node h else p)
  first-start p [] c i = absurd (ground arith)
  first-start p (x ∷ hs) c i = elim (Bool-cases (x == h)) [
    | inl here ↦
        let e : h ≡ x = ground arith in
        let e' : before b.node h ≡ no_frame = ap (λ a. (b.node a).prev) e ∙ c.2 in
        simp here (ground arith)
    | inr later ↦
        let i' = prev_in b.node h no_frame p x hs c (ground arith) in
        let lt = has-lt b.node no_frame p (x ∷ hs) (before b.node h) c i' in
        simp later (ground arith)
  ]

  no_frame_out : has no_frame (blocks z k) ≡ false
  no_frame_out = elim (Bool-cases (has no_frame (blocks z k))) [
    | inl i ↦
        let lt = has-lt b.node no_frame (b.heads z k) (blocks z k) no_frame (l.chains z k) i in
        absurd (omega arith)
    | inr o ↦ o
  ]

  rest-Chain :
      Chain node' no_frame
        (if before b.node h == no_frame then after b.node h else b.heads z k)
        (delete h (blocks z k))
  rest-Chain =
      subst (λ p. Chain node' no_frame p (delete h (blocks z k)))
        (first-start (b.heads z k) (blocks z k) (l.chains z k) listed)
        (unlink_node-Chain b.node h no_frame (b.heads z k) (blocks z k) (l.chains z k)
          (l.distinct z k) no_frame_out listed)

  -- A block of another list is neither before nor after.
  same_links :
      (z' k' a : ℕ)
      → (z == z' && k == k') ≡ false
      → has a (blocks z' k') ≡ true
      → ((node' a).prev ≡ (b.node a).prev) × ((node' a).next ≡ (b.node a).next)
  same_links z' k' a other i =
      let foreign : (c : ℕ) → (c ≡ no_frame) ⊎ (has c (blocks z k) ≡ true) → a ≢ c = λ c at e.
        elim at [
          | inl none ↦
              let lt = has-lt b.node no_frame (b.heads z' k') (blocks z' k') a (l.chains z' k') i in
              absurd (omega arith)
          | inr there ↦
              let same =
                one_list b blocks z k z' k' a l
                  (subst (λ x. has x (blocks z k) ≡ true) (sym e) there) i in
              ground arith
        ] in
      let ne = foreign (before b.node h) before_in in
      let ne' = foreign (after b.node h) after_in in
      (ground (arith, unlink_node-prev b.node h a), ground (arith, unlink_node-next b.node h a))

  pub has-without :
      (a z' k' : ℕ)
      → has a (without z k h blocks z' k') ≡ true
      → (has a (blocks z' k') ≡ true) × ((a == h) ≡ false)
  has-without a z' k' i =
      let e = has-write_at a z k z' k' (delete h (blocks z k)) blocks in
      elim (Bool-cases (z == z' && k == k')) [
        | inl here ↦
            let ez : z ≡ z' = ground arith in
            let ek : k ≡ k' = ground arith in
            let old = has-delete a h (blocks z k) (l.distinct z k) listed in
            let old' : has a (blocks z k) ≡ true = ground arith in
            (
              subst (λ x. has a (blocks x k') ≡ true) ez
                  (subst (λ y. has a (blocks z y) ≡ true) ek old'),
              ground arith,
            )
        | inr there ↦
            let old : has a (blocks z' k') ≡ true = ground arith in
            elim (Bool-cases (a == h)) [
              | inl same ↦
                  let e' : h ≡ a = ground arith in
                  let both =
                    one_list b blocks z k z' k' a l
                      (subst (λ x. has x (blocks z k) ≡ true) e' listed) old in
                  absurd (ground arith)
              | inr other ↦ (old, other)
            ]
      ]

  each' : (z' k' a : ℕ) → IsBlock b z' k' a → (a == h) ≡ false → IsBlock (unlink h zone k b) z' k' a
  unfolding unlink
  each' z' k' a v ne =
      let tags = unlink_node_tag b.node h a ne in
      record {
        zone = v.zone;
        aligned = v.aligned;
        order = v.order;
        inside = v.inside;
        tag = tags.1 ∙ v.tag;
        node_order = tags.0 ∙ v.node_order;
        all_free = v.all_free;
      }

  other-Chain :
      (z' k' : ℕ)
      → (z == z' && k == k') ≡ false
      → Chain node' no_frame (b.heads z' k') (blocks z' k')
  other-Chain z' k' other =
      Chain-same b.node node' no_frame (b.heads z' k') (blocks z' k')
        (λ a i. same_links z' k' a other i) (l.chains z' k')

  chains' :
      (z' k' : ℕ)
      → Chain node' no_frame ((unlink h zone k b).heads z' k') (without z k h blocks z' k')
  unfolding unlink
  chains' = elim (Bool-cases (before b.node h == no_frame)) [
    | inl first ↦ simp first (
        write_at-elim_two (λ z' k' p hs. Chain node' no_frame p hs) z k (after b.node h) b.heads
          (delete h (blocks z k)) blocks (simp first at rest-Chain) other-Chain)
    | inr inner ↦ simp inner (
        write_at-elim (λ z' k' hs. Chain node' no_frame (b.heads z' k') hs) z k
          (delete h (blocks z k)) blocks (simp inner at rest-Chain) other-Chain)
  ]

  pub unlink-IsLists : IsLists (unlink h zone k b) (without z k h blocks)
  unfolding unlink
  unlink-IsLists = record {
    bounded = l.bounded;
    chains = chains';
    counted =
        write_at-elim_two (λ z' k' n hs. n ≡ length hs) z k (b.counts z k - 1) b.counts
          (delete h (blocks z k)) blocks
          (omega (arith, l.counted z k, length-delete h (blocks z k) listed))
          (λ z' k' other. l.counted z' k');
    distinct =
        write_at-elim (λ z' k' hs. Distinct hs) z k (delete h (blocks z k)) blocks
          (Distinct-delete h (blocks z k) (l.distinct z k) listed)
          (λ z' k' other. l.distinct z' k');
    each =
        λ z' k' a i. let (old, ne) = has-without a z' k' i in each' z' k' a (l.each z' k' a old) ne;
    apart = λ y m a y' m' a' f i i' e e'.
        l.apart y m a y' m' a' f (has-without a y m i).0 (has-without a' y' m' i').0 e e';
  }
