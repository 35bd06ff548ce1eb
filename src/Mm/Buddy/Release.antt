-- ===== src/Mm/Buddy/Release.antt =====
-- `release`: what it refuses, and what it does with a block that an owner has.
use Prim.Native.Nat.{ℕ, ◌+◌, ◌-◌, ◌≤◌, ◌<◌, ◌^◌, ◌%◌}
use saeos.Prelude.{
  true, false, not, ◌&&◌, ◌||◌, ltb, leb, ◌==◌, if◌then◌else◌, ◌≡◌, ◌≢◌, refl, sym, ◌∙◌, arith, ◌⊎◌,
  inl, inr, Bool-cases,
}
use saeos.Mm.Buddy.Lists.{
  max_order, no_frame, State, reserved, free, allocated, Buddy, mark, range_is, ReleaseError,
  out_of_range, unaligned, duplicate_release, double_free, invalid_range, Released, ok, err,
  check_release, after_check, give_back, release,
}
use saeos.Mm.Buddy.Blocks.{Aligned_of_mod, range_of_half-eq, pow_pos}
use saeos.Mm.Buddy.Valid.{Blocks, IsBuddy}
use saeos.Mm.Buddy.Merge.{coalesce-Coalesced}
use saeos.Mm.Buddy.Marks.{
  set_states_lem, range_is_sound, range_is_complete, range_is_other, mark-Pending,
}

-- All frames of `frame..frame + 2 ^ order` are in the state `s`.
abbrev pub AllIn : Buddy → ℕ → ℕ → State → Type 0
AllIn b frame order s = (f : ℕ) → frame ≤ f → f < frame + 2 ^ order → b.state f ≡ s

-- The block is an owner's.
pub record Owned (b : Buddy) (k frame : ℕ) : Type 0 where
  pub order : k ≤ max_order
  pub aligned : frame % 2 ^ k ≡ 0
  pub inside : frame + 2 ^ k ≤ b.frame_count
  pub all_allocated : AllIn b frame k allocated

-- The block's frames are in the state `s`, all others in the one that they had, and the lists are right.
pub record Marked (b b' : Buddy) (order frame : ℕ) (s : State) : Type 0 where
  pub blocks : Blocks
  pub valid : IsBuddy b' blocks
  pub frame_count : b'.frame_count ≡ b.frame_count
  pub state :
      (f : ℕ) → b'.state f ≡ (if leb frame f && ltb f (frame + 2 ^ order) then s else b.state f)

-- Why a release is refused.
abbrev pub Reason : ReleaseError → Buddy → ℕ → ℕ → Type 0
Reason out_of_range b order frame = b.frame_count < frame + 2 ^ order
Reason unaligned b order frame = frame % 2 ^ order ≢ 0
Reason duplicate_release b order frame = AllIn b frame order reserved
Reason double_free b order frame = AllIn b frame order free
Reason invalid_range b order frame =
    (max_order < order)
    ⊎ ((f : ℕ) × (frame ≤ f) × (f < frame + 2 ^ order) × (b.state f ≢ allocated))

abbrev pub Checked : Released → Buddy → ℕ → ℕ → Type 0
Checked ok b order frame = Owned b order frame
Checked (err e) b order frame = Reason e b order frame

check_release_lem :
    (order frame : ℕ) (b : Buddy)
    → b.frame_count < no_frame
    → Checked (check_release frame order b) b order frame
unfolding check_release
check_release_lem order frame b bounded =
    let n = 2 ^ order in
    elim (Bool-cases (ltb max_order order)) [
      | inl large ↦ simp large (inl (ground arith))
      | inr small ↦ elim (Bool-cases (leb (2 ^ 64) (frame + n) || ltb b.frame_count (frame + n))) [
        | inl beyond ↦ simp (small, beyond) (ground arith)
        | inr within ↦ elim (Bool-cases (not (frame % n == 0))) [
          | inl odd ↦ simp (small, within, odd) (let ne : frame % n ≢ 0 = ground arith in ne)
          | inr even ↦ elim (Bool-cases (range_is b.state frame n reserved)) [
            | inl r ↦ simp (small, within, even, r) (range_is_sound n b.state frame reserved r)
            | inr r ↦ elim (Bool-cases (range_is b.state frame n free)) [
              | inl f ↦ simp (small, within, even, r, f) (range_is_sound n b.state frame free f)
              | inr f ↦ elim (Bool-cases (range_is b.state frame n allocated)) [
                | inr a ↦
                    simp (small, within, even, r, f, a)
                      (inr (range_is_other n b.state frame allocated a))
                | inl a ↦
                    simp (small, within, even, r, f, a)
                      record {
                        order = ground arith;
                        aligned = ground arith;
                        inside = ground arith;
                        all_allocated = range_is_sound n b.state frame allocated a;
                      }
              ]
            ]
          ]
        ]
      ]
    ]

module _ (b : Buddy) (blocks : Blocks) (order frame : ℕ) (v : IsBuddy b blocks) where
  pub give_back-Marked : Owned b order frame → Marked b (give_back frame order b) order frame free
  give_back-Marked o =
      let aligned = Aligned_of_mod order frame o.aligned in
      let pending = mark-Pending b blocks order frame v aligned o.order o.inside (λ f e.
        let r = range_of_half-eq order frame f aligned e in
        let taken = o.all_allocated f r.0 r.1 in λ is_free. ground arith) in
      let c =
        coalesce-Coalesced (max_order - order) (mark (2 ^ order) frame free b) blocks order frame
          pending (omega arith) in
      record {
        blocks = c.blocks;
        valid = c.valid;
        frame_count = c.frame_count;
        state = λ f. c.state f ∙ set_states_lem (2 ^ order) frame free b.state f;
      }

abbrev pub Outcome : Released → Buddy → Buddy → ℕ → ℕ → Type 0
Outcome ok b b' order frame = Owned b order frame × Marked b b' order frame free
Outcome (err e) b b' order frame = Reason e b order frame × (b' ≡ b)

after_check-Outcome :
    (r : Released) (b : Buddy) (blocks : Blocks) (order frame : ℕ)
    → IsBuddy b blocks
    → Checked r b order frame
    → Outcome (after_check r frame order b).0 b (after_check r frame order b).1 order frame
after_check-Outcome ok b blocks order frame v o = (o, give_back-Marked b blocks order frame v o)
after_check-Outcome (err e) b blocks order frame v reason = (reason, refl)

-- A release is refused for the reason that its error names, and nothing changes; or the block is an owner's,
-- its frames become free, all others stay as they were, and the lists are right again.
pub release-Outcome :
    (b : Buddy) (blocks : Blocks) (order frame : ℕ)
    → IsBuddy b blocks
    → Outcome (release frame order b).0 b (release frame order b).1 order frame
unfolding release
release-Outcome b blocks order frame v =
    after_check-Outcome (check_release frame order b) b blocks order frame v
      (check_release_lem order frame b v.lists.bounded)

not_all :
    (b : Buddy) (n frame : ℕ) (s : State)
    → 0 < n
    → b.state frame ≢ s
    → range_is b.state frame n s ≡ false
not_all b n frame s pos ne = elim (Bool-cases (range_is b.state frame n s)) [
  | inl all ↦ absurd (ne (range_is_sound n b.state frame s all frame (omega arith) (omega arith)))
  | inr other ↦ other
]

-- What an owner has is not refused.
pub release-Owned :
    (b : Buddy) (order frame : ℕ)
    → b.frame_count < no_frame
    → Owned b order frame
    → release frame order b ≡ (ok, give_back frame order b)
unfolding release check_release
release-Owned b order frame bounded o =
    let n = 2 ^ order in
    let pos = pow_pos order in
    let here = o.all_allocated frame (omega arith) (omega (arith, pos)) in
    let small : ltb max_order order ≡ false = ground (arith, o.order) in
    let within : (leb (2 ^ 64) (frame + n) || ltb b.frame_count (frame + n)) ≡ false =
      ground (arith, o.inside) in
    let even : (frame % n == 0) ≡ true = ground (arith, o.aligned) in
    let r : range_is b.state frame n reserved ≡ false =
      not_all b n frame reserved pos (λ e. let t = sym here ∙ e in ground arith) in
    let f : range_is b.state frame n free ≡ false =
      not_all b n frame free pos (λ e. let t = sym here ∙ e in ground arith) in
    let a : range_is b.state frame n allocated ≡ true =
      range_is_complete n b.state frame allocated o.all_allocated in
    simp (small, within, even, r, f, a) refl
