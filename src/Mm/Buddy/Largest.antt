-- ===== src/Mm/Buddy/Largest.antt =====
-- Lists that cover the frames below one of them, without two buddies.
use Prim.Native.Nat.{ℕ, suc, ◌+◌, ◌≤◌, ◌<◌, ◌^◌, min}
use saeos.Prelude.{true, leb, ◌≡◌, ◌≢◌, refl, sym, ◌∙◌, ap, subst, arith, ◌⊎◌, inl, inr, Bool-cases}
use saeos.Mm.Buddy.Lists.{max_order, free, Buddy}
use saeos.Mm.Buddy.Blocks.{half, Aligned, Aligned-unique, range_of_half-eq}
use saeos.Mm.Buddy.Flip.{buddy_of, buddy-Aligned, min-buddy_lem, half-suc-cases}
use saeos.Mm.Buddy.Chain.{has}
use saeos.Mm.Buddy.Valid.{Blocks, IsLists, Covered, Merged, IsBuddy}

-- A frame that is not free, or none.
abbrev pub Taken : Buddy → ℕ → Type 0
Taken b f = (b.frame_count ≤ f) ⊎ (b.state f ≢ free)

-- A block that is the lower half of a larger one has a frame in the other half that is taken.
abbrev pub Largest : Buddy → Blocks → Type 0
Largest b blocks =
    (z k h : ℕ)
    → k < max_order
    → has h (blocks z k) ≡ true
    → Aligned (suc k) h
    → (f : ℕ) × (half (suc k) f ≡ half (suc k) h) × Taken b f

-- The lists have the free frames below `frame`.
pub record Built (b : Buddy) (blocks : Blocks) (frame : ℕ) : Type 0 where
  pub lists : IsLists b blocks
  pub largest : Largest b blocks
  pub below : (z k h : ℕ) → has h (blocks z k) ≡ true → h + 2 ^ k ≤ frame
  pub cover : (f : ℕ) → f < frame → f < b.frame_count → b.state f ≡ free → Covered blocks f

-- The frames of a larger block are in its halves, and those of listed ones are free.
not-Taken :
    (b : Buddy) (blocks : Blocks) (z k h f : ℕ)
    → IsLists b blocks
    → has h (blocks z k) ≡ true
    → half k f ≡ half k h
    → Taken b f
    → f ≢ f
not-Taken b blocks z k h f l i e taken same =
    let own = l.each z k h i in
    elim taken [
      | inl out ↦
          let r = range_of_half-eq k h f own.aligned e in
          let inside = own.inside in absurd (omega arith)
      | inr ne ↦ absurd (ne (own.all_free f e))
    ]

-- The lower of two buddies that are listed.
lower_listed :
    (blocks : Blocks) (z z' k h h' : ℕ)
    → has h (blocks z k) ≡ true
    → has h' (blocks z' k) ≡ true
    → h' ≡ buddy_of k h
    → Aligned k h
    → (y : ℕ) × (c : ℕ) × (has c (blocks y k) ≡ true)
      × (half (suc k) c ≡ half (suc k) h)
      × Aligned (suc k) c
lower_listed blocks z z' k h h' i i' e a =
    let lower = min-buddy_lem k h a in
    elim (Bool-cases (leb h (buddy_of k h))) [
      | inl first ↦
          let m : min h (buddy_of k h) ≡ h = ground arith in
          (z, h, i, refl, subst (Aligned (suc k)) m lower.0)
      | inr second ↦
          let m : min h (buddy_of k h) ≡ h' = ground arith in
          (z', h', i', ap (half (suc k)) (sym m) ∙ lower.1, subst (Aligned (suc k)) m lower.0)
    ]

Largest-Merged : (b : Buddy) (blocks : Blocks) → IsLists b blocks → Largest b blocks → Merged blocks
Largest-Merged b blocks l g z z' k h h' below i i' e =
    let own = l.each z k h i in
    let own' = l.each z' k h' i' in
    let a = own.aligned in
    let lower = min-buddy_lem k h a in
    elim (half-suc-cases k h a h' (sym e)) [
      | inl same ↦ Aligned-unique k h h' a own'.aligned (sym same)
      | inr buddy ↦
          let here : h' ≡ buddy_of k h =
            Aligned-unique k h' (buddy_of k h) own'.aligned (buddy-Aligned k h a) buddy in
          let (y, c, j, ec, up) = lower_listed blocks z z' k h h' i i' here a in
          let (f, ef, taken) = g y k c below j up in
          elim (half-suc-cases k h a f (ef ∙ ec)) [
            | inl low ↦ absurd (not-Taken b blocks z k h f l i low taken refl)
            | inr high ↦ absurd (not-Taken b blocks z' k h' f l i' (high ∙ sym buddy) taken refl)
          ]
    ]

pub Built-IsBuddy : (b : Buddy) (blocks : Blocks) → Built b blocks b.frame_count → IsBuddy b blocks
Built-IsBuddy b blocks t = record {
  lists = t.lists;
  merged = Largest-Merged b blocks t.lists t.largest;
  cover = λ f lt is_free. t.cover f lt lt is_free;
}
