-- ===== src/Mm/Buddy/Owners.antt =====
-- Any sequence of allocations and releases: who has which block.
use Prim.Native.Nat.{ℕ, ◌+◌, ◌≤◌, ◌^◌, ◌%◌}
use saeos.Prelude.{
  Bool, ◌&&◌, some, List, [], ◌∷◌, ◌++◌, ltb, leb, if◌then◌else◌, ◌≡◌, refl, sym, ◌∙◌, subst, arith,
  inl, inr, Bool-cases,
}
use saeos.Mm.Buddy.Lists.{
  max_order, free, allocated, same_state, Zone, index, zone_of, Buddy, allocate, ok, release,
  give_back,
}
use saeos.Mm.Buddy.Valid.{Blocks, IsBuddy}
use saeos.Mm.Buddy.Tags.{same_state-eq}
use saeos.Mm.Buddy.Release.{Owned, Marked, Outcome, release-Outcome, release-Owned}
use saeos.Mm.Buddy.Allocate.{Handed}
use saeos.Mm.Buddy.Serve.{Served, allocate-Served}

-- Order and first frame of the blocks that were handed out and not released yet.
abbrev pub Held : Type 0
Held = List (ℕ × ℕ)

abbrev pub covers : ℕ → ℕ → ℕ → Bool
covers k h f = leb h f && ltb f (h + 2 ^ k)

-- How many of them have the frame.
abbrev pub holders : ℕ → Held → ℕ
holders f [] = 0
holders f ((k, h) ∷ held) = let rest = holders f held in if covers k h f then 1 + rest else rest

-- One step: the allocator's operations, as a caller sees them. A caller releases what it has.
pub data Run (start : Buddy) : Buddy → Held → Type 0 where
  begin : Run start start []
  take :
      (k : ℕ) (zones : List Zone) (h : ℕ) (b b' : Buddy) (held : Held)
      → Run start b held
      → allocate k zones b ≡ (some h, b')
      → Run start b' ((k, h) ∷ held)
  give :
      (k h : ℕ) (before after : Held) (b b' : Buddy)
      → Run start b (before ++ (k, h) ∷ after)
      → release h k b ≡ (ok, b')
      → Run start b' (before ++ after)

abbrev InRange : ℕ → Held → Type 0
InRange n [] = Unit {0}
InRange n ((k, h) ∷ held) = ((k ≤ max_order) × (h % 2 ^ k ≡ 0) × (h + 2 ^ k ≤ n)) × InRange n held

-- A frame is held once at most, and only when it is allocated.
pub record Owners (b : Buddy) (held : Held) : Type 0 where
  pub blocks : Blocks
  pub valid : IsBuddy b blocks
  pub in_range : InRange b.frame_count held
  pub once : (f : ℕ) → holders f held ≤ (if same_state (b.state f) allocated then 1 else 0)

holders_middle :
    (f k h : ℕ) (before after : Held)
    → holders f (before ++ (k, h) ∷ after)
      ≡ (if covers k h f then 1 + holders f (before ++ after) else holders f (before ++ after))
holders_middle f k h [] after = refl
holders_middle f k h ((k', h') ∷ before) after =
    let rest = holders_middle f k h before after in ground arith

InRange_middle :
    (n k h : ℕ) (before after : Held)
    → InRange n (before ++ (k, h) ∷ after)
    → ((k ≤ max_order) × (h % 2 ^ k ≡ 0) × (h + 2 ^ k ≤ n)) × InRange n (before ++ after)
InRange_middle n k h [] after i = i
InRange_middle n k h ((k', h') ∷ before) after (i, rest) =
    let (own, others) = InRange_middle n k h before after rest in (own, (i, others))

middle-Owned :
    (b : Buddy) (k h : ℕ) (before after : Held) → Owners b (before ++ (k, h) ∷ after) → Owned b k h
middle-Owned b k h before after o =
    let (own, others) = InRange_middle b.frame_count k h before after o.in_range in
    record {
      order = own.0;
      aligned = own.1;
      inside = own.2;
      all_allocated = λ f low high.
          let m = holders_middle f k h before after in
          let once = o.once f in same_state-eq (b.state f) allocated (ground arith);
    }

take-Owners :
    (b b' : Buddy) (k h z : ℕ) (held : Held)
    → Owners b held
    → Handed b b' z k h
    → Owners b' ((k, h) ∷ held)
take-Owners b b' k h z held o d = record {
  blocks = d.marked.blocks;
  valid = d.marked.valid;
  in_range =
      subst (λ n. InRange n ((k, h) ∷ held)) (sym d.marked.frame_count)
        ((d.order, d.aligned, d.inside), o.in_range);
  once = λ f.
      let once = o.once f in
      let s = d.marked.state f in
      elim (Bool-cases (covers k h f)) [
        | inl inside ↦
            let was = d.all_free f (ground arith) (ground arith) in
            let now : b'.state f ≡ allocated = s ∙ simp inside refl in
            simp (inside, now)
              (let none_yet : holders f held ≤ 0 =
                  subst (λ t. holders f held ≤ (if same_state t allocated then 1 else 0)) was
                    once in
                omega arith)
        | inr outside ↦
            let now : b'.state f ≡ b.state f = s ∙ simp outside refl in simp (outside, now) once
      ];
}

give-Owners :
    (b b' : Buddy) (k h : ℕ) (before after : Held)
    → Owners b (before ++ (k, h) ∷ after)
    → Marked b b' k h free
    → Owners b' (before ++ after)
give-Owners b b' k h before after o m = record {
  blocks = m.blocks;
  valid = m.valid;
  in_range =
      subst (λ n. InRange n (before ++ after)) (sym m.frame_count)
        (InRange_middle b.frame_count k h before after o.in_range).1;
  once = λ f.
      let once = o.once f in
      let s = m.state f in
      let split = holders_middle f k h before after in
      elim (Bool-cases (covers k h f)) [
        | inl inside ↦
            let now : b'.state f ≡ free = s ∙ simp inside refl in
            simp now (
              let e : holders f (before ++ (k, h) ∷ after) ≡ 1 + holders f (before ++ after) =
                split ∙ simp inside refl in
              ground arith)
        | inr outside ↦
            let now : b'.state f ≡ b.state f = s ∙ simp outside refl in
            let e : holders f (before ++ (k, h) ∷ after) ≡ holders f (before ++ after) =
              split ∙ simp outside refl in
            simp now (subst (λ n. n ≤ (if same_state (b.state f) allocated then 1 else 0)) e once)
      ];
}

-- After any sequence of allocations and releases the lists are right, no frame is in two blocks that were
-- handed out, and each frame of such a block is allocated.
pub Run-Owners :
    (start b : Buddy) (blocks : Blocks) (held : Held)
    → IsBuddy start blocks
    → Run start b held
    → Owners b held
Run-Owners start b blocks held v begin = record {
  blocks = blocks;
  valid = v;
  in_range = tt;
  once = λ f. omega arith;
}
Run-Owners start after_all blocks held_all v (take k zones h b b' held r e) =
    let o = Run-Owners start b blocks held v r in
    let served =
      subst (λ r. Served r.0 b r.1 k zones) e (allocate-Served b o.blocks o.valid k zones) in
    take-Owners b b' k h (index (zone_of h)) held o served.1
Run-Owners start after_all blocks held_all v (give k h before after b b' r e) =
    let o = Run-Owners start b blocks (before ++ (k, h) ∷ after) v r in
    let out = subst (λ r. Outcome r.0 b r.1 k h) e (release-Outcome b o.blocks k h o.valid) in
    give-Owners b b' k h before after o out.1

-- After any sequence of allocations and releases of what was handed out, the owner of a block can release it.
pub Run-release :
    (start b : Buddy) (blocks : Blocks) (k h : ℕ) (before after : Held)
    → IsBuddy start blocks
    → Run start b (before ++ (k, h) ∷ after)
    → release h k b ≡ (ok, give_back h k b)
Run-release start b blocks k h before after v r =
    let o = Run-Owners start b blocks (before ++ (k, h) ∷ after) v r in
    release-Owned b k h o.valid.lists.bounded (middle-Owned b k h before after o)
