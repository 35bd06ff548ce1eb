-- ===== src/Mm/Buddy/Allocate.antt =====
-- `allocate`: the block that it hands out, and that it finds one where there is one.
use Prim.Native.Nat.{ℕ, zero, suc, ◌+◌, ◌-◌, ◌≤◌, ◌<◌, ◌^◌, ◌%◌}
use saeos.Prelude.{
  Bool, true, false, ◌&&◌, ◌||◌, Option, none, some, List, [], ◌∷◌, ltb, leb, ◌==◌, if◌then◌else◌,
  ◌≡◌, refl, sym, ◌∙◌, ap, subst, arith, inl, inr, Bool-cases,
}
use saeos.Mm.Buddy.Lists.{
  max_order, no_frame, free, allocated, Zone, index, zone_of, Buddy, push, unlink, mark, split,
  search, or_next, allocate_in,
}
use saeos.Mm.Buddy.Blocks.{mod_of_Aligned, half-eq_of_range}
use saeos.Mm.Buddy.Chain.{has}
use saeos.Mm.Buddy.Valid.{Blocks, IsBuddy, Pending}
use saeos.Mm.Buddy.Push.{Chain-first, with_block}
use saeos.Mm.Buddy.Unlink.{without}
use saeos.Mm.Buddy.Steps.{unlink-Pending, split-Pending}
use saeos.Mm.Buddy.Marks.{set_states_lem, mark-IsBuddy}
use saeos.Mm.Buddy.Release.{AllIn, Marked}

-- A block of order `k` from the zone with index `z` goes to a caller.
pub record Handed (b b' : Buddy) (z k h : ℕ) : Type 0 where
  pub zone : index (zone_of h) ≡ z
  pub order : k ≤ max_order
  pub aligned : h % 2 ^ k ≡ 0
  pub inside : h + 2 ^ k ≤ b.frame_count
  pub all_free : AllIn b h k free
  pub marked : Marked b b' k h allocated

-- What splitting leaves alone.
record Carved (b b' : Buddy) (k h : ℕ) : Type 0 where
  blocks : Blocks
  pending : Pending b' blocks k h
  state : (f : ℕ) → b'.state f ≡ b.state f
  frame_count : b'.frame_count ≡ b.frame_count

split-Carved :
    (n k h : ℕ) (b : Buddy) (blocks : Blocks)
    → Pending b blocks (k + n) h
    → Carved b (split h k n b) k h
unfolding split
split-Carved zero k h b blocks p = record {
  blocks = blocks;
  pending = subst (λ m. Pending b blocks m h) (omega arith) p;
  state = λ f. refl;
  frame_count = refl;
}
split-Carved (suc n) k h b blocks p =
    let upper = h + 2 ^ (k + n) in
    let next =
      split-Pending b blocks (k + n) h (subst (λ m. Pending b blocks m h) (omega arith) p) in
    let rest = split-Carved n k h (push upper (k + n) b) (with_block (k + n) upper blocks) next in
    record {
      blocks = rest.blocks;
      pending = rest.pending;
      state = λ f. rest.state f ∙ unfold push in refl;
      frame_count = rest.frame_count ∙ unfold push in refl;
    }

module _ (b : Buddy) (blocks : Blocks) (v : IsBuddy b blocks) where
  hand_over :
      (zone : Zone) (source k h : ℕ)
      → has h (blocks (index zone) source) ≡ true
      → k ≤ source
      → Handed b
          (mark (2 ^ k) h allocated (split h k (source - k) (unlink h zone source b)))
          (index zone)
          k
          h
  hand_over zone source k h listed le =
      let own = v.lists.each (index zone) source h listed in
      let p = unlink-Pending b blocks zone source h v listed in
      let out = unlink h zone source b in
      let blocks' = without (index zone) source h blocks in
      let c =
        split-Carved (source - k) k h out blocks'
          (subst (λ m. Pending out blocks' m h) (omega arith) p) in
      let cut = split h k (source - k) out in
      let state : (f : ℕ) → cut.state f ≡ b.state f = λ f. c.state f ∙ unfold unlink in refl in
      let frame_count : cut.frame_count ≡ b.frame_count = c.frame_count ∙ unfold unlink in refl in
      record {
        zone = own.zone;
        order = c.pending.order;
        aligned = mod_of_Aligned k h c.pending.aligned;
        inside = subst (λ m. h + 2 ^ k ≤ m) frame_count c.pending.inside;
        all_free = λ f low high.
            sym (state f)
            ∙ c.pending.all_free f (half-eq_of_range k h f c.pending.aligned low high);
        marked = record {
          blocks = c.blocks;
          valid =
              mark-IsBuddy cut c.blocks k h allocated (λ e. let t = e in ground arith) c.pending;
          frame_count = frame_count;
          state = λ f.
              set_states_lem (2 ^ k) h allocated cut.state f
              ∙ ap (λ s. if leb h f && ltb f (h + 2 ^ k) then allocated else s) (state f);
        };
      }

-- No list of the zone has a block, from the order `source` on and `n` orders up.
unfoldable pub Empty : Buddy → ℕ → ℕ → ℕ → Type 0
Empty b z source n = (m : ℕ) → source ≤ m → m < source + n → b.heads z m ≡ no_frame

abbrev Searched : Option ℕ → Buddy → Buddy → ℕ → ℕ → ℕ → ℕ → Type 0
Searched none b b' z k source n = (b' ≡ b) × Empty b z source n
Searched (some h) b b' z k source n = Handed b b' z k h

Searched-suc :
    (r : Option ℕ) (b b' : Buddy) (z k source n : ℕ)
    → b.heads z source ≡ no_frame
    → Searched r b b' z k (source + 1) n
    → Searched r b b' z k source (suc n)
unfolding Empty
Searched-suc none b b' z k source n out (same, rest) = (
  same,
  λ m low high. elim (Bool-cases (m == source)) [
    | inl here ↦ let e : m ≡ source = ground arith in ap (b.heads z) e ∙ out
    | inr other ↦ rest m (ground arith) (omega arith)
  ],
)
Searched-suc (some h) b b' z k source n out handed = handed

abbrev pub among : Zone → List Zone → Bool
among zone [] = false
among zone (z ∷ zs) = (index zone == index z) || among zone zs

-- What was searched in vain, or the block.
abbrev pub Result : Option ℕ → Buddy → Buddy → ℕ → List Zone → Type 0
Result none b b' k zones =
    (b' ≡ b)
    × ((zone : Zone) → among zone zones ≡ true → Empty b (index zone) k (max_order + 1 - k))
Result (some h) b b' k zones =
    (among (zone_of h) zones ≡ true) × Handed b b' (index (zone_of h)) k h

module _ (b : Buddy) (blocks : Blocks) (v : IsBuddy b blocks) where
  search-Searched :
      (n k source : ℕ) (zone : Zone)
      → k ≤ source
      → let r = search k zone n source b in Searched r.0 b r.1 (index zone) k source n
  unfolding search Empty
  search-Searched zero k source zone le = (refl, λ m low high. absurd (omega arith))
  search-Searched (suc n) k source zone le =
      let head = b.heads (index zone) source in
      elim (Bool-cases (head == no_frame)) [
        | inr found ↦
            elim (Chain-first b.node no_frame head (blocks (index zone) source)
              (v.lists.chains (index zone) source)) [
                | inl out ↦ absurd (ground arith)
                | inr listed ↦
                    simp (found, search) (hand_over b blocks v zone source k head listed le)
              ]
        | inl out ↦
            simp (out, search)
              (Searched-suc (search k zone n (source + 1) b).0 b (search k zone n (source + 1) b).1
                (index zone) k source n (ground arith)
                (search-Searched n k (source + 1) zone (omega arith)))
      ]

  more_zones :
      (r : Option ℕ × Buddy) (k : ℕ) (zone : Zone) (zones : List Zone)
      → Empty b (index zone) k (max_order + 1 - k)
      → Result r.0 b r.1 k zones
      → Result r.0 b r.1 k (zone ∷ zones)
  more_zones (some h, b') k zone zones empty (i, handed) = (let other = i in ground arith, handed)
  more_zones (none, b') k zone zones empty (same, rest) = (
    same,
    λ z i. elim (Bool-cases (index z == index zone)) [
      | inl here ↦
          let e : index zone ≡ index z = ground arith in
          subst (λ x. Empty b x k (max_order + 1 - k)) e empty
      | inr there ↦ rest z (ground arith)
    ],
  )

  or_next-Result :
      (r : Option ℕ × Buddy) (k : ℕ) (zone : Zone) (zones : List Zone)
      → Searched r.0 b r.1 (index zone) k k (max_order + 1 - k)
      → Result (allocate_in k zones b).0 b (allocate_in k zones b).1 k zones
      → let a = or_next r (allocate_in k zones) in Result a.0 b a.1 k (zone ∷ zones)
  or_next-Result (some h, b') k zone zones handed rest =
      let here : (index (zone_of h) == index zone) ≡ true = ground (arith, handed.zone) in
      (simp here refl, subst (λ z. Handed b b' z k h) (sym handed.zone) handed)
  or_next-Result (none, b') k zone zones (same, empty) rest =
      subst (λ c. let a = allocate_in k zones c in Result a.0 b a.1 k (zone ∷ zones)) (sym same)
        (more_zones (allocate_in k zones b) k zone zones empty rest)

  pub allocate_in-Result :
      (k : ℕ) (zones : List Zone)
      → Result (allocate_in k zones b).0 b (allocate_in k zones b).1 k zones
  unfolding allocate_in
  allocate_in-Result k [] = (refl, λ zone i. absurd (ground arith))
  allocate_in-Result k (zone ∷ zones) =
      or_next-Result (search k zone (max_order + 1 - k) k b) k zone zones
        (search-Searched (max_order + 1 - k) k k zone (omega arith)) (allocate_in-Result k zones)
