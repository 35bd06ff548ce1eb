-- ===== src/Mm/Buddy/Serve.antt =====
-- What `allocate` promises its callers, and that `release` undoes it.
use Prim.Native.Nat.{ℕ, ◌+◌, ◌-◌, ◌≤◌, ◌^◌, ◌%◌}
use saeos.Prelude.{
  true, false, ◌&&◌, Option, none, some, List, [], ◌∷◌, ltb, leb, if◌then◌else◌, ◌≡◌, ◌≢◌, refl,
  sym, ◌∙◌, ap, subst, arith, inl, inr, Bool-cases,
}
use saeos.Mm.Buddy.Lists.{
  max_order, no_frame, free, Zone, index, zone_of, FreeNode, Buddy, allocate_in, allocate, release,
  ok,
}
use saeos.Mm.Buddy.Blocks.{Aligned_of_mod, range_of_half-eq}
use saeos.Mm.Buddy.Chain.{has, Chain}
use saeos.Mm.Buddy.Valid.{Blocks, IsBuddy}
use saeos.Mm.Buddy.Release.{AllIn, Owned, release-Owned, give_back-Marked}
use saeos.Mm.Buddy.Find.{same_zone, free-Within}
use saeos.Mm.Buddy.Allocate.{Handed, Empty, Result, among, allocate_in-Result}

abbrev pub Served : Option ℕ → Buddy → Buddy → ℕ → List Zone → Type 0
Served none b b' k zones = b' ≡ b
Served (some h) b b' k zones =
    (among (zone_of h) zones ≡ true) × Handed b b' (index (zone_of h)) k h

Result-Served :
    (r : Option ℕ) (b b' : Buddy) (k : ℕ) (zones : List Zone)
    → Result r b b' k zones
    → Served r b b' k zones
Result-Served none b b' k zones (same, rest) = same
Result-Served (some h) b b' k zones served = served

Chain-ne-no_frame :
    (node : ℕ → FreeNode) (prev p a : ℕ) (hs : List ℕ)
    → Chain node prev p hs
    → has a hs ≡ true
    → p ≢ no_frame
Chain-ne-no_frame node prev p a [] c i e = absurd (ground arith)
Chain-ne-no_frame node prev p a (h ∷ hs) c i e = absurd (omega (arith, c.0, c.1))

Result-Empty :
    (r : Option ℕ) (b b' : Buddy) (k : ℕ) (zones : List Zone) (zone : Zone)
    → Result r b b' k zones
    → r ≡ none
    → among zone zones ≡ true
    → Empty b (index zone) k (max_order + 1 - k)
Result-Empty none b b' k zones zone (same, rest) e i = rest zone i
Result-Empty (some h) b b' k zones zone result e i = absurd cc

module _ (b : Buddy) (blocks : Blocks) (v : IsBuddy b blocks) where
  -- `allocate` changes nothing; or its block is aligned, in a zone of the list and in range, its frames were free
  -- and are allocated now, all others stay as they were, and the lists are right again.
  pub allocate-Served :
      (k : ℕ) (zones : List Zone) → Served (allocate k zones b).0 b (allocate k zones b).1 k zones
  unfolding allocate
  allocate-Served k zones = elim (Bool-cases (ltb max_order k)) [
    | inl large ↦ simp large refl
    | inr small ↦ simp small (
        Result-Served (allocate_in k zones b).0 b (allocate_in k zones b).1 k zones
          (allocate_in-Result b blocks v k zones))
  ]

  -- Where an aligned block of the order, in a zone of the list and in range, is free as a whole, `allocate` finds
  -- a block.
  pub allocate-ne-none :
      (k : ℕ) (zones : List Zone) (h : ℕ)
      → k ≤ max_order
      → among (zone_of h) zones ≡ true
      → h % 2 ^ k ≡ 0
      → h + 2 ^ k ≤ b.frame_count
      → AllIn b h k free
      → (allocate k zones b).0 ≢ none
  unfolding allocate
  allocate-ne-none k zones h order zone aligned inside all e =
      let small : ltb max_order k ≡ false = ground arith in
      let a = Aligned_of_mod k h aligned in
      let w =
        free-Within b blocks v k h order a inside
          (λ f same. let r = range_of_half-eq k h f a same in all f r.0 r.1) in
      let own = v.lists.each w.z w.source w.head w.listed in
      let here : w.z ≡ index (zone_of h) =
        sym own.zone ∙ ap index (sym (same_zone w.source h w.head own.order w.same)) in
      let e' : (allocate_in k zones b).0 ≡ none =
        ap (λ t. (if t then (none, b) else allocate_in k zones b).0) (sym small) ∙ e in
      Chain-ne-no_frame b.node no_frame (b.heads w.z w.source) w.head (blocks w.z w.source)
        (v.lists.chains w.z w.source) w.listed
        (subst (λ z. b.heads z w.source ≡ no_frame) (sym here)
          (unfold Empty in
            Result-Empty (allocate_in k zones b).0 b (allocate_in k zones b).1 k zones (zone_of h)
              (allocate_in-Result b blocks v k zones) e' zone w.source w.large
              (omega (arith, own.order))))

-- What was handed out is an owner's.
pub Handed-Owned : (b b' : Buddy) (z k h : ℕ) → Handed b b' z k h → Owned b' k h
Handed-Owned b b' z k h d = record {
  order = d.order;
  aligned = d.aligned;
  inside = subst (λ n. h + 2 ^ k ≤ n) (sym d.marked.frame_count) d.inside;
  all_allocated = λ f low high. let s = d.marked.state f in ground arith;
}

restored :
    (b b' : Buddy) (z k h f : ℕ)
    → Handed b b' z k h
    → (if leb h f && ltb f (h + 2 ^ k) then free else b'.state f) ≡ b.state f
restored b b' z k h f d =
    let s = d.marked.state f in
    elim (Bool-cases (leb h f && ltb f (h + 2 ^ k))) [
      | inl inside ↦ simp inside (sym (d.all_free f (ground arith) (ground arith)))
      | inr outside ↦ simp outside (s ∙ simp outside refl)
    ]

-- What `allocate` handed out can be released, and then each frame is in the state that it was in before.
pub release-allocate :
    (b b' : Buddy) (blocks : Blocks) (k : ℕ) (zones : List Zone) (h : ℕ)
    → IsBuddy b blocks
    → allocate k zones b ≡ (some h, b')
    → ((release h k b').0 ≡ ok) × ((f : ℕ) → (release h k b').1.state f ≡ b.state f)
release-allocate b b' blocks k zones h v e =
    let served = subst (λ r. Served r.0 b r.1 k zones) e (allocate-Served b blocks v k zones) in
    let d = served.1 in
    let own = Handed-Owned b b' (index (zone_of h)) k h d in
    let runs = release-Owned b' k h d.marked.valid.lists.bounded own in
    let back = give_back-Marked b' d.marked.blocks k h d.marked.valid own in
    (
      ap (λ r. r.0) runs,
      λ f. ap (λ r. r.1.state f) runs ∙ back.state f ∙ restored b b' (index (zone_of h)) k h f d,
    )
