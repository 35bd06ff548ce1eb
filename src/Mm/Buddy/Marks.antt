-- ===== src/Mm/Buddy/Marks.antt =====
-- The bitmap: marking a range, and testing one.
use Prim.Native.Nat.{ℕ, zero, suc, ◌+◌, ◌≤◌, ◌<◌, ◌^◌}
use saeos.Prelude.{
  true, false, ◌&&◌, ltb, leb, ◌==◌, if◌then◌else◌, ◌≡◌, ◌≢◌, refl, sym, ◌∙◌, ap, arith, inl, inr,
  Bool-cases,
}
use saeos.Mm.Buddy.Lists.{
  max_order, State, reserved, free, allocated, same_state, Buddy, write, set_states, mark, range_is,
}
use saeos.Mm.Buddy.Blocks.{half, Aligned, half-eq_of_range, range_of_half-eq}
use saeos.Mm.Buddy.Valid.{Blocks, IsLists, Apart, IsBuddy, Pending}
use saeos.Mm.Buddy.Tags.{same_state-eq}

pub set_states_lem :
    (n start : ℕ) (s : State) (state : ℕ → State) (f : ℕ)
    → set_states n start s state f ≡ (if leb start f && ltb f (start + n) then s else state f)
unfolding set_states write
set_states_lem zero start s state f = ground arith
set_states_lem (suc n) start s state f =
    ground (arith, set_states_lem n (suc start) s (write start s state) f)

pub same_state_refl : (s : State) → same_state s s ≡ true
same_state_refl reserved = refl
same_state_refl free = refl
same_state_refl allocated = refl

pub range_is_sound :
    (n : ℕ) (state : ℕ → State) (a : ℕ) (s : State)
    → range_is state a n s ≡ true
    → (f : ℕ) → a ≤ f
    → f < a + n
    → state f ≡ s
unfolding range_is
range_is_sound zero state a s e f low high = absurd (omega arith)
range_is_sound (suc n) state a s e f low high = elim (Bool-cases (a == f)) [
  | inl same ↦
      let ea : a ≡ f = ground arith in sym (ap state ea) ∙ same_state-eq (state a) s (ground arith)
  | inr other ↦ range_is_sound n state (suc a) s (ground arith) f (ground arith) (omega arith)
]

pub range_is_complete :
    (n : ℕ) (state : ℕ → State) (a : ℕ) (s : State)
    → ((f : ℕ) → a ≤ f → f < a + n → state f ≡ s)
    → range_is state a n s ≡ true
unfolding range_is
range_is_complete zero state a s h = refl
range_is_complete (suc n) state a s h =
    let here : same_state (state a) s ≡ true =
      ap (λ t. same_state t s) (h a (omega arith) (omega arith)) ∙ same_state_refl s in
    let rest =
      range_is_complete n state (suc a) s (λ f low high. h f (omega arith) (omega arith)) in
    rw (here, rest) refl

pub range_is_other :
    (n : ℕ) (state : ℕ → State) (a : ℕ) (s : State)
    → range_is state a n s ≡ false
    → (f : ℕ) × (a ≤ f) × (f < a + n) × (state f ≢ s)
unfolding range_is
range_is_other zero state a s e = absurd (ground arith)
range_is_other (suc n) state a s e = elim (Bool-cases (same_state (state a) s)) [
  | inr here ↦ (
    a,
    omega arith,
    omega arith,
    λ same. let yes_here = ap (λ t. same_state t s) same ∙ same_state_refl s in ground arith,
  )
  | inl later ↦
      let (f, low, high, ne) = range_is_other n state (suc a) s (ground arith) in
      (f, omega arith, omega arith, ne)
]

-- Marking a block, for the frames in it and those outside.
module _ (b : Buddy) (k h : ℕ) (s : State) (aligned : Aligned k h) where
  pub mark_in : (f : ℕ) → half k f ≡ half k h → (mark (2 ^ k) h s b).state f ≡ s
  mark_in f e =
      let r = range_of_half-eq k h f aligned e in
      let m = set_states_lem (2 ^ k) h s b.state f in ground arith

  pub mark_out : (f : ℕ) → half k f ≢ half k h → (mark (2 ^ k) h s b).state f ≡ b.state f
  mark_out f ne =
      let m = set_states_lem (2 ^ k) h s b.state f in
      elim (Bool-cases (leb h f && ltb f (h + 2 ^ k))) [
        | inl inside ↦ absurd (ne (half-eq_of_range k h f aligned (ground arith) (ground arith)))
        | inr outside ↦ m ∙ simp outside refl
      ]

mark-IsLists :
    (b : Buddy) (blocks : Blocks) (k h : ℕ) (s : State)
    → IsLists b blocks
    → Aligned k h
    → Apart blocks k h
    → IsLists (mark (2 ^ k) h s b) blocks
mark-IsLists b blocks k h s l aligned apart = record {
  bounded = l.bounded;
  chains = l.chains;
  counted = l.counted;
  distinct = l.distinct;
  each = λ z' k' h' i.
      let v = l.each z' k' h' i in
      record {
        zone = v.zone;
        aligned = v.aligned;
        order = v.order;
        inside = v.inside;
        tag = v.tag;
        node_order = v.node_order;
        all_free = λ f e. mark_out b k h s aligned f (apart z' k' h' f i e) ∙ v.all_free f e;
      };
  apart = l.apart;
}

-- A block on its way goes to a caller, or is reserved.
pub mark-IsBuddy :
    (b : Buddy) (blocks : Blocks) (k h : ℕ) (s : State)
    → s ≢ free
    → Pending b blocks k h
    → IsBuddy (mark (2 ^ k) h s b) blocks
mark-IsBuddy b blocks k h s ne p = record {
  merged = p.merged;
  lists = mark-IsLists b blocks k h s p.lists p.aligned p.apart;
  cover = λ f lt is_free. elim (Bool-cases (half k f == half k h)) [
    | inl inside ↦
        let taken = mark_in b k h s p.aligned f (ground arith) in absurd (ne (sym taken ∙ is_free))
    | inr outside ↦
        let same = mark_out b k h s p.aligned f (ground arith) in
        elim (p.cover f lt (sym same ∙ is_free)) [ inl c ↦ c | inr own ↦ absurd (ground arith) ]
  ];
}

-- A block of a caller's, or a reserved one, is on its way.
pub mark-Pending :
    (b : Buddy) (blocks : Blocks) (k h : ℕ)
    → IsBuddy b blocks
    → Aligned k h
    → k ≤ max_order
    → h + 2 ^ k ≤ b.frame_count
    → ((f : ℕ) → half k f ≡ half k h → b.state f ≢ free)
    → Pending (mark (2 ^ k) h free b) blocks k h
mark-Pending b blocks k h v aligned order inside owned =
    let apart : Apart blocks k h =
      λ z' k' h' f i e e'. owned f e' ((v.lists.each z' k' h' i).all_free f e) in
    record {
      merged = v.merged;
      lists = mark-IsLists b blocks k h free v.lists aligned apart;
      aligned = aligned;
      order = order;
      inside = inside;
      all_free = mark_in b k h free aligned;
      apart = apart;
      cover = λ f lt is_free. elim (Bool-cases (half k f == half k h)) [
        | inl here ↦ inr (ground arith)
        | inr there ↦
            let same = mark_out b k h free aligned f (ground arith) in
            inl (v.cover f lt (sym same ∙ is_free))
      ];
    }
