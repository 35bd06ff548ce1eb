-- ===== src/Mm/Buddy/Find.antt =====
-- Where the lists have a free block: no two buddies are listed, so one that is free as a whole is in a
-- listed block of its order or a larger one.
use Prim.Native.Nat.{ℕ, zero, suc, ◌+◌, ◌≤◌, ◌<◌, ◌^◌}
use native.Mathlib.Nat.{two-pow-succ}
use saeos.Prelude.{
  true, false, ltb, ◌==◌, ◌≡◌, ◌≢◌, refl, sym, ◌∙◌, ap, subst, arith, inl, inr, Bool-cases,
}
use saeos.Mm.Buddy.Lists.{max_order, dma32_frames, free, dma32, normal, zone_of, Buddy}
use saeos.Mm.Buddy.Blocks.{
  half, half-eq_le, half-zero, Aligned, Aligned_pred, Aligned-upper, Aligned-zero, half-upper,
  half-eq_of_range, range_of_half-eq, half-suc, half-even, pow_pos,
}
use saeos.Mm.Buddy.Chain.{has}
use saeos.Mm.Buddy.Valid.{Blocks, IsBuddy}

-- A block is in one zone.
low_zone : (f : ℕ) → half 20 f ≡ 0 → zone_of f ≡ dma32
unfolding zone_of
low_zone f e =
    let r = range_of_half-eq 20 0 f (Aligned-zero 20) (e ∙ sym (half-zero 20)) in
    let low : ltb f dma32_frames ≡ true = ground (arith, r.1) in simp low refl

high_zone : (f : ℕ) → half 20 f ≢ 0 → zone_of f ≡ normal
unfolding zone_of
high_zone f ne = elim (Bool-cases (ltb f dma32_frames)) [
  | inl low ↦
      absurd
        (ne (half-eq_of_range 20 0 f (Aligned-zero 20) (omega arith) (ground arith) ∙ half-zero 20))
  | inr high ↦ simp high refl
]

pub same_zone : (k a b : ℕ) → k ≤ max_order → half k a ≡ half k b → zone_of a ≡ zone_of b
same_zone k a b le e =
    let e' = half-eq_le k 20 a b (omega arith) e in
    elim (Bool-cases (half 20 a == 0)) [
      | inl low ↦
          let la : half 20 a ≡ 0 = ground arith in low_zone a la ∙ sym (low_zone b (sym e' ∙ la))
      | inr high ↦
          let ha : half 20 a ≢ 0 = ground arith in
          high_zone a ha ∙ sym (high_zone b (λ z. ha (e' ∙ z)))
    ]

-- A listed block of order `k` or more with all frames of the block at `h`.
pub record Within (blocks : Blocks) (k h : ℕ) : Type 0 where
  pub z : ℕ
  pub source : ℕ
  pub head : ℕ
  pub listed : has head (blocks z source) ≡ true
  pub large : k ≤ source
  pub same : half source h ≡ half source head

module _ (b : Buddy) (blocks : Blocks) (v : IsBuddy b blocks) where
  Within-whole :
      (k h f : ℕ)
      → half (suc k) f ≡ half (suc k) h
      → (w : Within blocks k f) → (w.source == k) ≡ false
      → Within blocks (suc k) h
  Within-whole k h f e w ne =
      let le = w.large in
      let more : suc k ≤ w.source = ground arith in
      record {
        z = w.z;
        source = w.source;
        head = w.head;
        listed = w.listed;
        large = more;
        same = sym (half-eq_le (suc k) w.source f h more e) ∙ w.same;
      }

  two_halves :
      (k h : ℕ)
      → half k (h + 2 ^ k) ≡ half k h + 1
      → half (suc k) (h + 2 ^ k) ≡ half (suc k) h
      → (left : Within blocks k h) → (right : Within blocks k (h + 2 ^ k)) → left.source ≡ k
      → right.source ≡ k
      → k < max_order
      → half k h + 1 ≡ half k h
  two_halves k h up whole left right ek ek' below =
      let low : half k h ≡ half k left.head =
        subst (λ n. half n h ≡ half n left.head) ek left.same in
      let high : half k (h + 2 ^ k) ≡ half k right.head =
        subst (λ n. half n (h + 2 ^ k) ≡ half n right.head) ek' right.same in
      let i = subst (λ n. has left.head (blocks left.z n) ≡ true) ek left.listed in
      let i' = subst (λ n. has right.head (blocks right.z n) ≡ true) ek' right.listed in
      let e : half (suc k) left.head ≡ half (suc k) right.head =
        sym (half-eq_le k (suc k) h left.head (omega arith) low)
        ∙ sym whole
        ∙ half-eq_le k (suc k) (h + 2 ^ k) right.head (omega arith) high in
      let same = v.merged left.z right.z k left.head right.head below i i' e in
      let same_half = ap (half k) same in sym up ∙ high ∙ sym same_half ∙ sym low

  pub free-Within :
      (k h : ℕ)
      → k ≤ max_order
      → Aligned k h
      → h + 2 ^ k ≤ b.frame_count
      → ((f : ℕ) → half k f ≡ half k h → b.state f ≡ free)
      → Within blocks k h
  free-Within zero h le a inside all =
      let (z, k, h', i, e) = v.cover h (omega (arith, pow_pos zero)) (all h refl) in
      record { z = z; source = k; head = h'; listed = i; large = omega arith; same = e }
  free-Within (suc k) h le a inside all =
      let upper = h + 2 ^ k in
      let pow = two-pow-succ k in
      let up = half-upper k h a in
      let whole : half (suc k) upper ≡ half (suc k) h =
        half-suc k upper ∙ omega (arith, up, half-even k h a) ∙ sym (half-suc k h) in
      let left =
        free-Within k h (omega arith) (Aligned_pred k h a) (omega arith)
          (λ f e. all f (half-eq_le k (suc k) f h (omega arith) e)) in
      let right =
        free-Within k upper (omega arith) (Aligned-upper k h a) (omega arith)
          (λ f e. all f (half-eq_le k (suc k) f upper (omega arith) e ∙ whole)) in
      elim (Bool-cases (left.source == k)) [
        | inr larger ↦ Within-whole k h h refl left larger
        | inl ek ↦ elim (Bool-cases (right.source == k)) [
          | inr larger ↦ Within-whole k h upper whole right larger
          | inl ek' ↦
              let t = two_halves k h up whole left right (ground arith) (ground arith) le in
              absurd (omega arith)
        ]
      ]
