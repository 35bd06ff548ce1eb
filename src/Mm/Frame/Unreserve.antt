-- ===== src/Mm/Frame/Unreserve.antt =====
-- `unreserve` does the same with the lists and without them.
use Prim.Native.Nat.{ℕ, zero, suc, ◌+◌, ◌-◌, min}
use saeos.Prelude.{
  true, false, ◌&&◌, ltb, leb, ◌==◌, if◌then◌else◌, ◌≡◌, refl, sym, ◌∙◌, ap, arith, inl, inr,
  Bool-cases,
}
use saeos.Mm.Buddy.Lists.{reserved, free, same_state, Buddy, mark}
use saeos.Mm.Buddy.Valid.{Blocks, IsBuddy}
use saeos.Mm.Buddy.Marks.{set_states_lem}
use saeos.Mm.Buddy.Restore.{insert_reserved_range-Returned}
use saeos.Mm.Frame.Allocator.{Allocator, free_reserved, unreserve}

free_reserved_lem :
    (n start : ℕ) (b : Buddy) (f : ℕ)
    → (free_reserved n start b).state f ≡ (
        if (leb start f && ltb f (start + n)) && same_state (b.state f) reserved
        then free
        else b.state f)
unfolding free_reserved
free_reserved_lem zero start b f = ground arith
free_reserved_lem (suc n) start b f = elim (Bool-cases (same_state (b.state start) reserved)) [
  | inr other ↦
      let rest = free_reserved_lem n (suc start) b f in
      simp (other, rest)
        (elim (Bool-cases (f == start)) [
          | inl here ↦
              let e : start ≡ f = ground arith in
              let other' : same_state (b.state f) reserved ≡ false =
                ap (λ x. same_state (b.state x) reserved) (sym e) ∙ other in
              simp other' (ground arith)
          | inr there ↦
              let e : (leb start f && ltb f (start + suc n))
                  ≡ (leb (suc start) f && ltb f (suc start + n)) =
                ground arith in
              simp e refl
        ])
  | inl mine ↦
      let rest = free_reserved_lem n (suc start) (mark 1 start free b) f in
      let m = set_states_lem 1 start free b.state f in
      simp mine (
        rest ∙ elim (Bool-cases (f == start)) [
          | inl here ↦
              let e : start ≡ f = ground arith in
              let mine' : same_state (b.state f) reserved ≡ true =
                ap (λ x. same_state (b.state x) reserved) (sym e) ∙ mine in
              let inside : (leb start f && ltb f (start + suc n)) ≡ true = ground arith in
              let after : (leb (suc start) f && ltb f (suc start + n)) ≡ false = ground arith in
              let now : (mark 1 start free b).state f ≡ free = ground arith in
              simp (after, inside, mine') now
          | inr there ↦
              let e : (leb start f && ltb f (start + suc n))
                  ≡ (leb (suc start) f && ltb f (suc start + n)) =
                ground arith in
              let now : (mark 1 start free b).state f ≡ b.state f = ground arith in
              ap
                (λ s.
                  if (leb (suc start) f && ltb f (suc start + n)) && same_state s reserved
                  then free
                  else s)
                now
              ∙ simp e refl
        ])
]

-- Whether the lists are in use, and then right, or not, `unreserve` makes the reserved frames of the range free
-- and no other.
pub unreserve_state :
    (first last : ℕ) (a : Allocator) (blocks : Blocks) (f : ℕ)
    → (a.buddy_active ≡ true → IsBuddy a.lists blocks)
    → (unreserve first last a).lists.state f ≡ (
        if (leb first f && ltb f (min last a.lists.frame_count))
          && same_state (a.lists.state f) reserved
        then free
        else a.lists.state f)
unfolding unreserve
unreserve_state first last a blocks f v = elim (Bool-cases a.buddy_active) [
  | inl active ↦
      simp active ((insert_reserved_range-Returned a.lists blocks first last (v active)).state f)
  | inr inactive ↦
      let e : (leb first f && ltb f (first + (min last a.lists.frame_count - first)))
          ≡ (leb first f && ltb f (min last a.lists.frame_count)) =
        ground arith in
      simp inactive
        (free_reserved_lem (min last a.lists.frame_count - first) first a.lists f ∙ simp e refl)
]
