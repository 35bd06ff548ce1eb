-- ===== src/Mm/Buddy/Isolate.antt =====
-- `isolate`: one free frame is taken out of the lists.
use Prim.Native.Nat.{ℕ, zero, suc, ◌+◌, ◌-◌, ◌*◌, ◌/◌, ◌%◌, ◌≤◌, ◌<◌, ◌^◌}
use native.Mathlib.Nat.{div-add-mod, mod-lt, mul-mod_right}
use saeos.Prelude.{
  Bool, true, false, not, ◌||◌, Option, none, some, leb, ◌==◌, if◌then◌else◌, ◌≡◌, ◌≢◌, refl, sym,
  ◌∙◌, ap, subst, arith, ◌⊎◌, inl, inr, Bool-cases,
}
use saeos.Mm.Buddy.Lists.{
  max_order, free, same_state, index, zone_of, Buddy, push, unlink, is_free_head,
}
use saeos.Mm.Buddy.Blocks.{
  half, range_of_half-eq, Aligned_pred, Aligned-upper, Aligned, Aligned_of_mod, Aligned-unique,
  half-eq_of_range, pow_pos,
}
use saeos.Mm.Buddy.Flip.{half-suc-split}
use saeos.Mm.Buddy.Chain.{has}
use saeos.Mm.Buddy.Valid.{Blocks, IsBuddy, Pending}
use saeos.Mm.Buddy.Push.{with_block}
use saeos.Mm.Buddy.Unlink.{without}
use saeos.Mm.Buddy.Tags.{same_state-eq, is_free_head-FreeHead, IsBlock-is_free_head}
use saeos.Mm.Buddy.Heads.{Tagged, push-Tagged, unlink-Tagged}
use saeos.Mm.Buddy.Steps.{unlink-Pending, split-Pending, split_low-Pending}

-- `frame & !((1 << order) - 1)`.
abbrev pub round_down : ℕ → ℕ → ℕ
round_down frame order = frame - frame % 2 ^ order

-- `while current > 0 { ... }`
unfoldable pub carve : ℕ → ℕ → ℕ → Buddy → Buddy
carve frame head zero b = b
carve frame head (suc current) b =
    let upper = head + 2 ^ current in
    elim (leb upper frame) [
      | true ↦ carve frame upper current (push head current b)
      | false ↦ carve frame head current (push upper current b)
    ]

-- The loop over the orders from `order` on, `n` of them; `none` is the panic after it.
unfoldable pub isolate_from : ℕ → ℕ → ℕ → Buddy → Option (Bool × Buddy)
isolate_from zero order frame b = none
isolate_from (suc n) order frame b =
    let head = round_down frame order in
    elim (is_free_head head order b) [
      | true ↦ some (true, carve frame head order (unlink head (zone_of head) order b))
      | false ↦ isolate_from n (order + 1) frame b
    ]

unfoldable pub isolate : ℕ → Buddy → Option (Bool × Buddy)
isolate frame b =
    if leb b.frame_count frame || not (same_state (b.state frame) free)
    then some (false, b)
    else isolate_from (max_order + 1) 0 frame b

module _ (frame order : ℕ) where
  rounded : round_down frame order ≡ 2 ^ order * (frame / 2 ^ order)
  rounded = let d = div-add-mod frame (2 ^ order) in omega arith

  round_down-Aligned : Aligned order (round_down frame order)
  round_down-Aligned =
      Aligned_of_mod order (round_down frame order)
        (ap (λ n. n % 2 ^ order) rounded ∙ mul-mod_right (2 ^ order) (frame / 2 ^ order))

  half-round_down : half order frame ≡ half order (round_down frame order)
  half-round_down =
      let low : frame % 2 ^ order < 2 ^ order = mod-lt frame (pow_pos order) in
      half-eq_of_range order (round_down frame order) frame round_down-Aligned (omega arith)
        (omega arith)

-- The frame is out of the lists, and all else is as it was.
pub record Isolated (b b' : Buddy) (frame : ℕ) : Type 0 where
  pub blocks : Blocks
  pub pending : Pending b' blocks 0 frame
  pub tagged : Tagged b' blocks
  pub state : (f : ℕ) → b'.state f ≡ b.state f
  pub frame_count : b'.frame_count ≡ b.frame_count

carve-Isolated :
    (k frame head : ℕ) (b : Buddy) (blocks : Blocks)
    → Pending b blocks k head
    → half k frame ≡ half k head
    → Tagged b blocks
    → Isolated b (carve frame head k b) frame
unfolding carve half
carve-Isolated zero frame head b blocks p e t = record {
  blocks = blocks;
  pending = subst (Pending b blocks 0) (sym e) p;
  tagged = t;
  state = λ f. refl;
  frame_count = refl;
}
carve-Isolated (suc k) frame head b blocks p e t =
    let upper = head + 2 ^ k in
    elim (Bool-cases (leb upper frame)) [
      | inl high ↦
          let inside : half k frame ≡ half k upper =
            elim (half-suc-split k head frame p.aligned e) [
              | inl mine ↦
                  let r = range_of_half-eq k head frame (Aligned_pred k head p.aligned) mine in
                  absurd (ground arith)
              | inr other ↦ other
            ] in
          let rest =
            carve-Isolated k frame upper (push head k b) (with_block k head blocks)
              (split_low-Pending b blocks k head p) inside (push-Tagged b blocks k head t) in
          simp (high, carve)
            record {
              blocks = rest.blocks;
              pending = rest.pending;
              tagged = rest.tagged;
              state = λ f. rest.state f ∙ unfold push in refl;
              frame_count = rest.frame_count ∙ unfold push in refl;
            }
      | inr low ↦
          let inside : half k frame ≡ half k head = elim (half-suc-split k head frame p.aligned e) [
            | inl mine ↦ mine
            | inr other ↦
                let r = range_of_half-eq k upper frame (Aligned-upper k head p.aligned) other in
                absurd (ground arith)
          ] in
          let rest =
            carve-Isolated k frame head (push upper k b) (with_block k upper blocks)
              (split-Pending b blocks k head p) inside (push-Tagged b blocks k upper t) in
          simp (low, carve)
            record {
              blocks = rest.blocks;
              pending = rest.pending;
              tagged = rest.tagged;
              state = λ f. rest.state f ∙ unfold push in refl;
              frame_count = rest.frame_count ∙ unfold push in refl;
            }
    ]

module _ (b : Buddy) (blocks : Blocks) (v : IsBuddy b blocks) (tagged : Tagged b blocks)
    (physical : b.frame_count ≤ 2 ^ 52) (frame : ℕ) where
  low_frame : (h k : ℕ) → is_free_head h k b ≡ true → h < 2 ^ 52
  low_frame h k test =
      let inside = (is_free_head-FreeHead b h k test).inside in omega (arith, pow_pos k)

  -- What passes the test of a head is listed.
  head-listed :
      (k : ℕ)
      → is_free_head (round_down frame k) k b ≡ true
      → has (round_down frame k) (blocks (index (zone_of (round_down frame k))) k) ≡ true
  head-listed k test =
      let h = round_down frame k in
      let t = is_free_head-FreeHead b h k test in
      let (z, m, i) = tagged h t.is_free t.tag in
      let own = v.lists.each z m h i in
      subst (λ x. has h (blocks x k) ≡ true) (sym own.zone)
        (subst (λ x. has h (blocks z x) ≡ true) (sym own.node_order ∙ t.order) i)

  isolate_from-Isolated :
      (n order z k h : ℕ)
      → has h (blocks z k) ≡ true
      → half k frame ≡ half k h
      → order ≤ k
      → k < order + n
      → (b' : Buddy) × (isolate_from n order frame b ≡ some (true, b')) × Isolated b b' frame
  unfolding isolate_from
  isolate_from-Isolated zero order z k h i e low high = absurd (omega arith)
  isolate_from-Isolated (suc n) order z k h i e low high =
      let head = round_down frame order in
      elim (Bool-cases (is_free_head head order b)) [
        | inl found ↦
            let listed = head-listed order found in
            let out = unlink head (zone_of head) order b in
            let p = unlink-Pending b blocks (zone_of head) order head v listed in
            let c =
              carve-Isolated order frame head out (without (index (zone_of head)) order head blocks)
                p (half-round_down frame order)
                (unlink-Tagged b blocks (zone_of head) order head v.lists listed
                  (low_frame head order found) tagged) in
            (
              carve frame head order out,
              simp (found, isolate_from) refl,
              record {
                blocks = c.blocks;
                pending = c.pending;
                tagged = c.tagged;
                state = λ f. c.state f ∙ unfold unlink in refl;
                frame_count = c.frame_count ∙ unfold unlink in refl;
              },
            )
        | inr other ↦ elim (Bool-cases (order == k)) [
          | inr below ↦
              let (b', runs, rest) =
                isolate_from-Isolated n (order + 1) z k h i e (ground arith) (omega arith) in
              (b', simp (other, isolate_from) runs, rest)
          | inl here ↦
              let own = v.lists.each z k h i in
              let ek : k ≡ order = ground arith in
              let same : h ≡ round_down frame k =
                Aligned-unique k h (round_down frame k) own.aligned (round_down-Aligned frame k)
                  (sym e ∙ half-round_down frame k) in
              let test : is_free_head head order b ≡ true =
                subst (λ m. is_free_head (round_down frame m) m b ≡ true) ek
                  (subst (λ a. is_free_head a k b ≡ true) same
                    (IsBlock-is_free_head b z k h own)) in
              absurd (ground arith)
        ]
      ]

  -- Where of the free frames only heads of listed blocks have their tag, and addresses have 64 bits, `isolate` answers
  -- true exactly on a free frame; then the frame is in no list, every other free frame is in a listed block, no
  -- state changes, and the lists and the tags are right.
  pub isolate_cases :
      ((frame < b.frame_count)
        × (b.state frame ≡ free)
        × ((b' : Buddy) × (isolate frame b ≡ some (true, b')) × Isolated b b' frame))
      ⊎ (((b.frame_count ≤ frame) ⊎ (b.state frame ≢ free)) × (isolate frame b ≡ some (false, b)))
  unfolding isolate
  isolate_cases = elim (Bool-cases (leb b.frame_count frame)) [
    | inl out ↦ inr (inl (ground arith), simp out refl)
    | inr inside ↦ elim (Bool-cases (same_state (b.state frame) free)) [
      | inr other ↦ inr (
        inr (λ e. let t = ap (λ s. same_state s free) e in ground arith),
        simp (inside, other) refl,
      )
      | inl same ↦
          let is_free = same_state-eq (b.state frame) free same in
          let lt : frame < b.frame_count = ground arith in
          let (z, k, h, i, e) = v.cover frame lt is_free in
          let order = (v.lists.each z k h i).order in
          let (b', runs, rest) =
            isolate_from-Isolated (max_order + 1) 0 z k h i e (omega arith) (omega arith) in
          inl (lt, is_free, (b', simp (inside, same) runs, rest))
    ]
  ]
