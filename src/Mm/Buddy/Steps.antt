-- ===== src/Mm/Buddy/Steps.antt =====
-- A block on its way into the lists and out of them.
use Prim.Native.Nat.{ℕ, suc, ◌+◌, ◌≤◌, ◌<◌, ◌^◌}
use native.Mathlib.Nat.{two-pow-succ}
use saeos.Prelude.{
  true, ◌&&◌, ◌∷◌, ◌==◌, ◌≡◌, ◌≢◌, refl, sym, ◌∙◌, ap, subst, arith, ◌⊎◌, inl, inr, Bool-cases,
}
use saeos.Mm.Buddy.Lists.{max_order, Zone, index, zone_of, Buddy, push, unlink}
use saeos.Mm.Buddy.Blocks.{
  Aligned, half, half-suc, half-eq_le, Aligned_pred, Aligned-upper, half-upper, half-even,
}
use saeos.Mm.Buddy.Flip.{half-suc-split}
use saeos.Mm.Buddy.Chain.{has, delete, has-delete}
use saeos.Mm.Buddy.Valid.{Blocks, IsLists, Covered, Merged, Lone, IsBuddy, Pending, has-write_at}
use saeos.Mm.Buddy.Push.{with_block, has-with_block, push-IsLists}
use saeos.Mm.Buddy.Unlink.{without, has-without, unlink-IsLists}

-- What was listed is, after another block went in.
pub has-with :
    (a z' k' k h : ℕ) (blocks : Blocks)
    → has a (blocks z' k') ≡ true
    → has a (with_block k h blocks z' k') ≡ true
has-with a z' k' k h blocks i =
    let z = index (zone_of h) in
    let e = has-write_at a z k z' k' (h ∷ blocks z k) blocks in
    elim (Bool-cases (z == z' && k == k')) [
      | inl here ↦
          let ez : z' ≡ z = ground arith in
          let ek : k' ≡ k = ground arith in
          let old : has a (blocks z k) ≡ true =
            subst (λ x. has a (blocks x k) ≡ true) ez
              (subst (λ y. has a (blocks z' y) ≡ true) ek i) in
          ground arith
      | inr there ↦ ground arith
    ]

pub Covered-with :
    (f k h : ℕ) (blocks : Blocks) → Covered blocks f → Covered (with_block k h blocks) f
Covered-with f k h blocks (z', k', a, i, e) = (z', k', a, has-with a z' k' k h blocks i, e)

pub Covered-own :
    (f k h : ℕ) (blocks : Blocks) → half k f ≡ half k h → Covered (with_block k h blocks) f
Covered-own f k h blocks e =
    let z = index (zone_of h) in
    let i = has-write_at h z k z k (h ∷ blocks z k) blocks in (z, k, h, ground arith, e)

-- And so it is after another block went out.
pub Covered-without :
    (b : Buddy) (blocks : Blocks) (z k h f : ℕ)
    → IsLists b blocks
    → has h (blocks z k) ≡ true
    → Covered blocks f
    → Covered (without z k h blocks) f ⊎ (half k f ≡ half k h)
Covered-without b blocks z k h f l listed (z', k', a, i, e) =
    let w = has-write_at a z k z' k' (delete h (blocks z k)) blocks in
    elim (Bool-cases (z == z' && k == k')) [
      | inr there ↦ inl (z', k', a, ground arith, e)
      | inl here ↦
          let ez : z' ≡ z = ground arith in
          let ek : k' ≡ k = ground arith in
          let old : has a (blocks z k) ≡ true =
            subst (λ x. has a (blocks x k) ≡ true) ez
              (subst (λ y. has a (blocks z' y) ≡ true) ek i) in
          let d = has-delete a h (blocks z k) (l.distinct z k) listed in
          elim (Bool-cases (a == h)) [
            | inl own ↦
                let ea : a ≡ h = ground arith in
                inr (subst (λ n. half n f ≡ half n h) ek (e ∙ ap (half k') ea))
            | inr other ↦ inl (z', k', a, ground arith, e)
          ]
    ]

pub without-Merged :
    (b : Buddy) (blocks : Blocks) (zone : Zone) (k h : ℕ)
    → IsLists b blocks
    → has h (blocks (index zone) k) ≡ true
    → Merged blocks
    → Merged (without (index zone) k h blocks)
without-Merged b blocks zone k h l listed m y y' n a a' below i i' e =
    m y y' n a a' below (has-without b blocks zone k h l listed a y n i).0
      (has-without b blocks zone k h l listed a' y' n i').0 e

Lone-at :
    (blocks : Blocks) (k h y n a c : ℕ)
    → Lone blocks k h
    → n ≡ k
    → c ≡ h
    → n < max_order
    → has a (blocks y n) ≡ true
    → half (suc n) a ≢ half (suc n) c
Lone-at blocks k h y n a c lone en ec below i e =
    lone y a (subst (λ x. x < max_order) en below) (subst (λ x. has a (blocks y x) ≡ true) en i)
      (subst (λ x. half (suc x) a ≡ half (suc x) h) en (e ∙ ap (half (suc n)) ec))

with-Merged :
    (blocks : Blocks) (k h : ℕ) → Lone blocks k h → Merged blocks → Merged (with_block k h blocks)
with-Merged blocks k h lone m y y' n a a' below i i' e = elim (has-with_block k h blocks a y n i) [
  | inl (ea, ez, ek) ↦ elim (has-with_block k h blocks a' y' n i') [
    | inl (ea', ez', ek') ↦ ea ∙ sym ea'
    | inr old' ↦ absurd (Lone-at blocks k h y' n a' a lone (sym ek) ea below old' (sym e))
  ]
  | inr old ↦ elim (has-with_block k h blocks a' y' n i') [
    | inl (ea', ez', ek') ↦ absurd (Lone-at blocks k h y n a a' lone (sym ek') ea' below old e)
    | inr old' ↦ m y y' n a a' below old old' e
  ]
]

pub unlink-Pending :
    (b : Buddy) (blocks : Blocks) (zone : Zone) (k h : ℕ)
    → IsBuddy b blocks
    → has h (blocks (index zone) k) ≡ true
    → Pending (unlink h zone k b) (without (index zone) k h blocks) k h
unfolding unlink
unlink-Pending b blocks zone k h v listed =
    let own = v.lists.each (index zone) k h listed in
    record {
      lists = unlink-IsLists b blocks zone k h v.lists listed;
      merged = without-Merged b blocks zone k h v.lists listed v.merged;
      aligned = own.aligned;
      order = own.order;
      inside = own.inside;
      all_free = own.all_free;
      apart = λ z' k' h' f i e e'.
          let (old, ne) = has-without b blocks zone k h v.lists listed h' z' k' i in
          let same = v.lists.apart z' k' h' (index zone) k h f old listed e e' in
          absurd (ground (arith, same.1));
      cover = λ f lt free.
          Covered-without b blocks (index zone) k h f v.lists listed (v.cover f lt free);
    }

pub push-IsBuddy :
    (b : Buddy) (blocks : Blocks) (k h : ℕ)
    → Pending b blocks k h
    → Lone blocks k h
    → IsBuddy (push h k b) (with_block k h blocks)
unfolding push
push-IsBuddy b blocks k h p lone = record {
  lists = push-IsLists b blocks k h p.lists p.aligned p.order p.inside p.all_free p.apart;
  merged = with-Merged blocks k h lone p.merged;
  cover = λ f lt free. elim (p.cover f lt free) [
    | inl c ↦ Covered-with f k h blocks c
    | inr own ↦ Covered-own f k h blocks own
  ];
}

-- One half of a block goes into its list, the other stays on its way.
record Halves (k h pushed kept : ℕ) : Type 0 where
  aligned_pushed : Aligned k pushed
  aligned_kept : Aligned k kept
  high_pushed : pushed ≤ h + 2 ^ k
  high_kept : kept ≤ h + 2 ^ k
  in_pushed : (f : ℕ) → half k f ≡ half k pushed → half (suc k) f ≡ half (suc k) h
  in_kept : (f : ℕ) → half k f ≡ half k kept → half (suc k) f ≡ half (suc k) h
  two : half k pushed ≢ half k kept
  cases :
      (f : ℕ)
      → half (suc k) f ≡ half (suc k) h
      → (half k f ≡ half k kept) ⊎ (half k f ≡ half k pushed)

module _ (b : Buddy) (blocks : Blocks) (k h : ℕ) (p : Pending b blocks (suc k) h) where
  Halves-Pending :
      (pushed kept : ℕ)
      → Halves k h pushed kept
      → Pending (push pushed k b) (with_block k pushed blocks) k kept
  unfolding push
  Halves-Pending pushed kept t =
      let inside = p.inside in
      let high = t.high_pushed in
      let high' = t.high_kept in
      let pow = two-pow-succ k in
      record {
        lists =
            push-IsLists b blocks k pushed p.lists t.aligned_pushed (omega (arith, p.order))
              (omega arith) (λ f e. p.all_free f (t.in_pushed f e))
              (λ z' k' h' f i e e'. p.apart z' k' h' f i e (t.in_pushed f e'));
        merged =
            with-Merged blocks k pushed
              (λ z a below i e. p.apart z k a a i refl (e ∙ t.in_pushed pushed refl)) p.merged;
        aligned = t.aligned_kept;
        order = omega (arith, p.order);
        inside = omega arith;
        all_free = λ f e. p.all_free f (t.in_kept f e);
        apart = λ z' k' h' f i e e'. elim (has-with_block k pushed blocks h' z' k' i) [
          | inl (ea, ez, ek) ↦
              let e'' : half k f ≡ half k pushed =
                subst (λ n. half n f ≡ half n pushed) (sym ek) (e ∙ ap (half k') ea) in
              absurd (t.two (sym e'' ∙ e'))
          | inr old ↦ p.apart z' k' h' f old e (t.in_kept f e')
        ];
        cover = λ f lt free. elim (p.cover f lt free) [
          | inl c ↦ inl (Covered-with f k pushed blocks c)
          | inr own ↦ elim (t.cases f own) [
            | inl mine ↦ inr mine
            | inr other ↦ inl (Covered-own f k pushed blocks other)
          ]
        ];
      }

  abbrev upper : ℕ
  upper = h + 2 ^ k

  in_whole : (f : ℕ) → half k f ≡ half k h → half (suc k) f ≡ half (suc k) h
  in_whole f e = half-eq_le k (suc k) f h (omega arith) e

  upper_in_whole : (f : ℕ) → half k f ≡ half k upper → half (suc k) f ≡ half (suc k) h
  upper_in_whole f e =
      half-eq_le k (suc k) f upper (omega arith) e
      ∙ half-suc k upper
      ∙ omega (arith, half-upper k h p.aligned, half-even k h p.aligned)
      ∙ sym (half-suc k h)

  pub split-Pending : Pending (push upper k b) (with_block k upper blocks) k h
  split-Pending = Halves-Pending upper h record {
    aligned_pushed = Aligned-upper k h p.aligned;
    aligned_kept = Aligned_pred k h p.aligned;
    high_pushed = omega arith;
    high_kept = omega arith;
    in_pushed = upper_in_whole;
    in_kept = in_whole;
    two = let up = half-upper k h p.aligned in λ e. absurd (omega arith);
    cases = λ f own. half-suc-split k h f p.aligned own;
  }

  pub split_low-Pending : Pending (push h k b) (with_block k h blocks) k upper
  split_low-Pending = Halves-Pending h upper record {
    aligned_pushed = Aligned_pred k h p.aligned;
    aligned_kept = Aligned-upper k h p.aligned;
    high_pushed = omega arith;
    high_kept = omega arith;
    in_pushed = in_whole;
    in_kept = upper_in_whole;
    two = let up = half-upper k h p.aligned in λ e. absurd (omega arith);
    cases = λ f own. elim (half-suc-split k h f p.aligned own) [
      | inl low ↦ inr low
      | inr high ↦ inl high
    ];
  }
