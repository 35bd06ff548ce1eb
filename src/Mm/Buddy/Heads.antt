-- ===== src/Mm/Buddy/Heads.antt =====
-- The tags of heads: which free frames have one.
use Prim.Native.Nat.{ℕ, zero, suc, ◌/◌, ◌%◌, ◌≤◌, ◌<◌, ◌^◌, bit_xor, differ}
use saeos.Prelude.{
  true, false, ◌&&◌, ◌==◌, ◌≡◌, ◌≢◌, refl, sym, ◌∙◌, ap, subst, arith, inl, inr, Bool-cases,
}
use saeos.Mm.Buddy.Lists.{
  free, free_magic, head_tag, Zone, index, Buddy, write, push, unlink, unlink_node,
}
use saeos.Mm.Buddy.Blocks.{half, half-zero, half-eq_of_range, Aligned-zero}
use saeos.Mm.Buddy.Flip.{bit_xor_step, bit_xor-zero}
use saeos.Mm.Buddy.Chain.{has, delete, has-delete}
use saeos.Mm.Buddy.Unchain.{unlink_node_tag}
use saeos.Mm.Buddy.Valid.{Blocks, IsLists, has-write_at}
use saeos.Mm.Buddy.Push.{with_block}
use saeos.Mm.Buddy.Unlink.{without}
use saeos.Mm.Buddy.Steps.{has-with}
use saeos.Mm.Buddy.Rebuild.{push-Kept}

-- The invariant that the source names: of the free frames only the heads of listed blocks have their tag.
abbrev pub Tagged : Buddy → Blocks → Type 0
Tagged b blocks =
    (f : ℕ)
    → b.state f ≡ free
    → (b.node f).magic ≡ head_tag f
    → (z : ℕ) × (k : ℕ) × (has f (blocks z k) ≡ true)

differ_le : (x y : ℕ) → x ≤ 1 → y ≤ 1 → differ x y ≤ 1
differ_le zero y p q = q
differ_le (suc x) zero p q = p
differ_le (suc x) (suc y) p q = differ_le x y (omega arith) (omega arith)

half-bit_xor : (k a b : ℕ) → half k (bit_xor a b) ≡ bit_xor (half k a) (half k b)
unfolding half
half-bit_xor zero a b = refl
half-bit_xor (suc k) a b =
    let bit : differ (a % 2) (b % 2) ≤ 1 = differ_le (a % 2) (b % 2) (omega arith) (omega arith) in
    let step : bit_xor a b / 2 ≡ bit_xor (a / 2) (b / 2) = omega (arith, bit_xor_step a b) in
    ap (half k) step ∙ half-bit_xor k (a / 2) (b / 2)

-- The address of a frame has 64 bits, and so the tag of none is zero.
head_tag-ne-zero : (f : ℕ) → f < 2 ^ 52 → head_tag f ≢ 0
unfolding head_tag half
head_tag-ne-zero f low e =
    let high : half 52 f ≡ 0 =
      half-eq_of_range 52 0 f (Aligned-zero 52) (omega arith) low ∙ half-zero 52 in
    let tag =
      half-bit_xor 52 free_magic f
      ∙ ap (bit_xor (half 52 free_magic)) high
      ∙ bit_xor-zero (half 52 free_magic) in
    let none : half 52 free_magic ≡ 0 = sym tag ∙ ap (half 52) e ∙ half-zero 52 in
    absurd (omega arith)

pub push-Tagged :
    (b : Buddy) (blocks : Blocks) (k h : ℕ)
    → Tagged b blocks
    → Tagged (push h k b) (with_block k h blocks)
push-Tagged b blocks k h t f is_free tag = elim (push-Kept b blocks k h f) [
  | inr listed ↦ listed
  | inl same ↦
      let was : b.state f ≡ free = unfold push in is_free in
      let (z', k', i) = t f was (sym same ∙ tag) in (z', k', has-with f z' k' k h blocks i)
]

-- What is listed beside the block that goes out stays.
has-still :
    (b : Buddy) (blocks : Blocks) (z k h f z' k' : ℕ)
    → IsLists b blocks
    → has h (blocks z k) ≡ true
    → (f == h) ≡ false
    → has f (blocks z' k') ≡ true
    → has f (without z k h blocks z' k') ≡ true
has-still b blocks z k h f z' k' l listed ne i =
    let w = has-write_at f z k z' k' (delete h (blocks z k)) blocks in
    elim (Bool-cases (z == z' && k == k')) [
      | inr there ↦ ground arith
      | inl here ↦
          let ez : z' ≡ z = ground arith in
          let ek : k' ≡ k = ground arith in
          let old : has f (blocks z k) ≡ true =
            subst (λ x. has f (blocks x k) ≡ true) ez
              (subst (λ y. has f (blocks z' y) ≡ true) ek i) in
          let d = has-delete f h (blocks z k) (l.distinct z k) listed in ground arith
    ]

pub unlink-Tagged :
    (b : Buddy) (blocks : Blocks) (zone : Zone) (k h : ℕ)
    → IsLists b blocks
    → has h (blocks (index zone) k) ≡ true
    → h < 2 ^ 52
    → Tagged b blocks
    → Tagged (unlink h zone k b) (without (index zone) k h blocks)
unfolding unlink
unlink-Tagged b blocks zone k h l listed low t f is_free tag = elim (Bool-cases (f == h)) [
  | inl here ↦
      let e : f ≡ h = ground arith in
      let cleared : (unlink_node h b.node h).magic ≡ 0 = unfold unlink_node write in ground arith in
      absurd (
        head_tag-ne-zero h low
          (ap head_tag (sym e) ∙ sym tag ∙ ap (λ x. (unlink_node h b.node x).magic) e ∙ cleared))
  | inr other ↦
      let same = (unlink_node_tag b.node h f other).1 in
      let (z', k', i) = t f is_free (sym same ∙ tag) in
      (z', k', has-still b blocks (index zone) k h f z' k' l listed other i)
]
