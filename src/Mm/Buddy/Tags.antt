-- ===== src/Mm/Buddy/Tags.antt =====
-- `is_free_head`: what the test of a head finds.
use Prim.Native.Nat.{ℕ, ◌+◌, ◌≤◌, ◌^◌}
use saeos.Prelude.{true, false, not, ◌||◌, ltb, ◌==◌, ◌≡◌, refl, ap, arith, inl, inr, Bool-cases}
use saeos.Mm.Buddy.Lists.{
  State, reserved, free, allocated, same_state, head_tag, Buddy, is_free_head,
}
use saeos.Mm.Buddy.Valid.{IsBlock}

pub same_state-eq : (s t : State) → same_state s t ≡ true → s ≡ t
same_state-eq reserved reserved e = refl
same_state-eq free free e = refl
same_state-eq allocated allocated e = refl
same_state-eq reserved free e = cc
same_state-eq reserved allocated e = cc
same_state-eq free reserved e = cc
same_state-eq free allocated e = cc
same_state-eq allocated reserved e = cc
same_state-eq allocated free e = cc

pub record FreeHead (b : Buddy) (h k : ℕ) : Type 0 where
  pub inside : h + 2 ^ k ≤ b.frame_count
  pub tag : (b.node h).magic ≡ head_tag h
  pub is_free : b.state h ≡ free
  pub order : (b.node h).order ≡ k

pub is_free_head-FreeHead : (b : Buddy) (h k : ℕ) → is_free_head h k b ≡ true → FreeHead b h k
unfolding is_free_head
is_free_head-FreeHead b h k e =
    elim (Bool-cases (ltb b.frame_count (h + 2 ^ k) || not (same_state (b.state h) free))) [
      | inl refused ↦ absurd (ground arith)
      | inr passed ↦ record {
        inside = ground arith;
        tag = ground arith;
        is_free = same_state-eq (b.state h) free (ground arith);
        order = ground arith;
      }
    ]

pub IsBlock-is_free_head : (b : Buddy) (z k a : ℕ) → IsBlock b z k a → is_free_head a k b ≡ true
unfolding is_free_head
IsBlock-is_free_head b z k a v =
    let is_free = v.all_free a refl in
    let same : same_state (b.state a) free ≡ true = ap (λ s. same_state s free) is_free in
    let inside : ltb b.frame_count (a + 2 ^ k) ≡ false = ground (arith, v.inside) in
    let tag : ((b.node a).magic == head_tag a) ≡ true = ground (arith, v.tag) in
    let order : ((b.node a).order == k) ≡ true = ground (arith, v.node_order) in
    simp (same, inside, tag, order) refl
