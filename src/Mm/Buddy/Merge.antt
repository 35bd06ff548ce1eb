-- ===== src/Mm/Buddy/Merge.antt =====
-- `coalesce_and_push`: a block that has no owner merges with its buddies that are free.
use Prim.Native.Nat.{ℕ, zero, suc, ◌+◌, ◌-◌, ◌≤◌, ◌<◌, ◌^◌, min}
use saeos.Prelude.{
  true, false, ◌&&◌, ltb, ◌≡◌, refl, sym, ◌∙◌, ap, subst, arith, ◌⊎◌, inl, inr, Bool-cases,
}
use saeos.Mm.Buddy.Lists.{max_order, index, zone_of, Buddy, push, unlink, is_free_head, coalesce}
use saeos.Mm.Buddy.Blocks.{
  Aligned_le, half, half-eq_le, Aligned-unique, range_of_half-eq, half-eq_of_range, pow_pos,
}
use saeos.Mm.Buddy.Flip.{
  buddy_of, buddy-Aligned, half-buddy-ne, half-suc-buddy, min-buddy_lem, half-suc-cases,
}
use saeos.Mm.Buddy.Chain.{has}
use saeos.Mm.Buddy.Valid.{Blocks, Lone, IsBuddy, Pending}
use saeos.Mm.Buddy.Push.{with_block}
use saeos.Mm.Buddy.Unlink.{without, has-without, unlink-IsLists}
use saeos.Mm.Buddy.Steps.{Covered-without, without-Merged, push-IsBuddy}
use saeos.Mm.Buddy.Tags.{FreeHead, is_free_head-FreeHead, IsBlock-is_free_head}

module _ (b : Buddy) (blocks : Blocks) (k h : ℕ) (p : Pending b blocks k h) where
  -- A buddy that passes the test is a listed block of this order.
  buddy-listed :
      FreeHead b (buddy_of k h) k
      → has (buddy_of k h) (blocks (index (zone_of (buddy_of k h))) k) ≡ true
  buddy-listed t = elim (p.cover (buddy_of k h) (omega (arith, t.inside, pow_pos k)) t.is_free) [
    | inr own ↦ absurd (half-buddy-ne k h p.aligned own)
    | inl (z', k', h', i, e) ↦
        let own = p.lists.each z' k' h' i in
        elim (Bool-cases (ltb k k')) [
          | inl above ↦
              let up : half k' h ≡ half k' (buddy_of k h) =
                half-eq_le (suc k) k' h (buddy_of k h) (ground arith)
                  (sym (half-suc-buddy k h p.aligned)) in
              absurd (p.apart z' k' h' h i (up ∙ e) refl)
          | inr within ↦
              let le : k' ≤ k = ground arith in
              let same : buddy_of k h ≡ h' =
                Aligned-unique k' (buddy_of k h) h'
                  (Aligned_le k' k _ le (buddy-Aligned k h p.aligned)) own.aligned e in
              let ek : k' ≡ k =
                sym own.node_order ∙ ap (λ a. (b.node a).order) (sym same) ∙ t.order in
              let ez : z' ≡ index (zone_of (buddy_of k h)) =
                sym own.zone ∙ ap (λ a. index (zone_of a)) (sym same) in
              subst (λ z. has (buddy_of k h) (blocks z k) ≡ true) ez
                (subst (λ n. has (buddy_of k h) (blocks z' n) ≡ true) ek
                  (subst (λ a. has a (blocks z' k') ≡ true) (sym same) i))
        ]
  ]

  module _ (above : k < max_order)
      (listed : has (buddy_of k h) (blocks (index (zone_of (buddy_of k h))) k) ≡ true) where
    merged-frames :
        (f : ℕ)
        → half (suc k) f ≡ half (suc k) (min h (buddy_of k h))
        → (half k f ≡ half k h) ⊎ (half k f ≡ half k (buddy_of k h))
    merged-frames f e = half-suc-cases k h p.aligned f (e ∙ (min-buddy_lem k h p.aligned).1)

    -- The last frame is that of the one or the other.
    merged-inside : min h (buddy_of k h) + 2 ^ suc k ≤ b.frame_count
    merged-inside =
        let m = min h (buddy_of k h) in
        let last = m + 2 ^ suc k - 1 in
        let pos = pow_pos (suc k) in
        let own = p.lists.each (index (zone_of (buddy_of k h))) k (buddy_of k h) listed in
        let within =
          half-eq_of_range (suc k) m last (min-buddy_lem k h p.aligned).0 (omega (arith, pos))
            (omega (arith, pos)) in
        elim (merged-frames last within) [
          | inl low ↦
              let r = range_of_half-eq k h last p.aligned low in omega (arith, r.1, p.inside, pos)
          | inr high ↦
              let r = range_of_half-eq k (buddy_of k h) last (buddy-Aligned k h p.aligned) high in
              omega (arith, r.1, own.inside, pos)
        ]

    merge-Pending :
        Pending
          (unlink (buddy_of k h) (zone_of (buddy_of k h)) k b)
          (without (index (zone_of (buddy_of k h))) k (buddy_of k h) blocks)
          (suc k)
          (min h (buddy_of k h))
    unfolding unlink
    merge-Pending =
        let zone = zone_of (buddy_of k h) in
        let own = p.lists.each (index zone) k (buddy_of k h) listed in
        record {
          lists = unlink-IsLists b blocks zone k (buddy_of k h) p.lists listed;
          merged = without-Merged b blocks zone k (buddy_of k h) p.lists listed p.merged;
          aligned = (min-buddy_lem k h p.aligned).0;
          order = above;
          inside = merged-inside;
          all_free = λ f e. elim (merged-frames f e) [
            | inl low ↦ p.all_free f low
            | inr high ↦ own.all_free f high
          ];
          apart = λ z' k' h' f i e e'.
              let (old, ne) =
                has-without b blocks zone k (buddy_of k h) p.lists listed h' z' k' i in
              elim (merged-frames f e') [
                | inl low ↦ p.apart z' k' h' f old e low
                | inr high ↦
                    let same =
                      p.lists.apart z' k' h' (index zone) k (buddy_of k h) f old listed e high in
                    absurd (ground (arith, same.1))
              ];
          cover = λ f lt free.
              let into = (min-buddy_lem k h p.aligned).1 in
              elim (p.cover f lt free) [
                | inr low ↦ inr (half-eq_le k (suc k) f h (omega arith) low ∙ sym into)
                | inl c ↦
                    elim (Covered-without b blocks (index zone) k (buddy_of k h) f p.lists listed
                      c) [
                        | inl rest ↦ inl rest
                        | inr high ↦ inr (
                            half-eq_le k (suc k) f (buddy_of k h) (omega arith) high
                            ∙ half-suc-buddy k h p.aligned
                            ∙ sym into)
                      ]
              ];
        }

-- A buddy that fails the test is not listed.
no_buddy-Lone :
    (b : Buddy) (blocks : Blocks) (k h : ℕ)
    → Pending b blocks k h
    → (ltb k max_order && is_free_head (buddy_of k h) k b) ≡ false
    → Lone blocks k h
no_buddy-Lone b blocks k h p last z a below i e =
    let own = p.lists.each z k a i in
    elim (half-suc-cases k h p.aligned a e) [
      | inl same ↦ p.apart z k a a i refl same
      | inr other ↦
          let here : a ≡ buddy_of k h =
            Aligned-unique k a (buddy_of k h) own.aligned (buddy-Aligned k h p.aligned) other in
          let test : is_free_head (buddy_of k h) k b ≡ true =
            ap (λ x. is_free_head x k b) (sym here) ∙ IsBlock-is_free_head b z k a own in
          ground arith
    ]

-- What merging leaves alone.
pub record Coalesced (b b' : Buddy) : Type 0 where
  pub blocks : Blocks
  pub valid : IsBuddy b' blocks
  pub state : (f : ℕ) → b'.state f ≡ b.state f
  pub frame_count : b'.frame_count ≡ b.frame_count

push-Coalesced :
    (b : Buddy) (blocks : Blocks) (k h : ℕ)
    → Pending b blocks k h
    → Lone blocks k h
    → Coalesced b (push h k b)
unfolding push
push-Coalesced b blocks k h p lone = record {
  blocks = with_block k h blocks;
  valid = push-IsBuddy b blocks k h p lone;
  state = λ f. refl;
  frame_count = refl;
}

pub coalesce-Coalesced :
    (rounds : ℕ) (b : Buddy) (blocks : Blocks) (k h : ℕ)
    → Pending b blocks k h
    → max_order ≤ rounds + k
    → Coalesced b (coalesce rounds h k b)
unfolding coalesce
coalesce-Coalesced zero b blocks k h p enough =
    push-Coalesced b blocks k h p (λ z h' below i e. absurd (omega arith))
coalesce-Coalesced (suc rounds) b blocks k h p enough =
    elim (Bool-cases (ltb k max_order && is_free_head (buddy_of k h) k b)) [
      | inr last ↦
          rw (last, coalesce) (push-Coalesced b blocks k h p (no_buddy-Lone b blocks k h p last))
      | inl merges ↦
          let above : k < max_order = ground arith in
          let test : is_free_head (buddy_of k h) k b ≡ true = ground arith in
          let listed =
            buddy-listed b blocks k h p (is_free_head-FreeHead b (buddy_of k h) k test) in
          let next = merge-Pending b blocks k h p above listed in
          let order : suc k ≡ k + 1 = omega arith in
          let b' = unlink (buddy_of k h) (zone_of (buddy_of k h)) k b in
          let blocks' = without (index (zone_of (buddy_of k h))) k (buddy_of k h) blocks in
          let rest =
            coalesce-Coalesced rounds b' blocks' (k + 1) (min h (buddy_of k h))
              (subst (λ n. Pending b' blocks' n (min h (buddy_of k h))) order next)
              (omega (arith, enough)) in
          rw (merges, coalesce)
            record {
              blocks = rest.blocks;
              valid = rest.valid;
              state = λ f. rest.state f ∙ unfold unlink in refl;
              frame_count = rest.frame_count ∙ unfold unlink in refl;
            }
    ]
