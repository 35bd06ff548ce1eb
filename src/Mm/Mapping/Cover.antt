-- ===== src/Mm/Mapping/Cover.antt =====
-- The plan of a page-aligned range covers it exactly, by the fewest pages.
use Prim.Native.Nat.{ℕ, ◌+◌, ◌-◌, ◌%◌, ◌<◌, ◌≤◌, zero, suc}
use mathlib.Core.List.{append_assoc, append-nil}
use saeos.Prelude.{
  Bool, true, false, Option, none, some, List, [], ◌∷◌, ◌++◌, ltb, leb, ◌==◌, ◌≡◌, refl, sym, ◌∙◌,
  subst, if◌then◌else◌, length, arith, Bool-cases, inl, inr, length-append,
}
use saeos.Mm.Mapping.Plan.{
  MappingError, PhysicalMemoryKind, MappingChunk, MapResult, ok, err, four_level_limit,
  kernel_virt_base, max_chunks, leaf_page, walk, walk_range, add_chunk, plan_range,
}
use saeos.Mm.Mapping.Tiles.{IsPage, Tiles, leaf_facts, virtual_facts, Behind, Tiles-Behind}

-- What the walk adds to the chunks so far: the fewest pages that cover the rest of the range. It fails only where all
-- covers by pages have too many.
abbrev pub Plans :
    Bool
    → Bool
    → PhysicalMemoryKind
    → ℕ
    → ℕ
    → List MappingChunk
    → Option (MapResult (List MappingChunk))
    → Type 0
Plans direct gb kind lo hi so_far none = ⊥
Plans direct gb kind lo hi so_far (some (err e)) =
    (e ≡ MappingError.too_many_chunks)
    × ¬ (
        (cs : List MappingChunk) × Tiles direct gb kind lo hi cs
        × (length so_far + length cs ≤ max_chunks))
Plans direct gb kind lo hi so_far (some (ok out)) =
    (rest : List MappingChunk) × (out ≡ so_far ++ rest)
    × Tiles direct gb kind lo hi rest
    × (length out ≤ max_chunks)
    × ¬ ((cs : List MappingChunk) × Tiles direct gb kind lo hi cs × (length cs < length rest))

module _ (direct : Bool) (kind : PhysicalMemoryKind) (gb : Bool) (end : ℕ) (he : end % 4096 ≡ 0)
    (limit : end ≤ four_level_limit) where
  cover-Behind :
      (c : MappingChunk) (cs : List MappingChunk)
      → IsPage direct gb kind end c
      → c.physical_start % 4096 ≡ 0
      → c.size ≡ (leaf_page c.physical_start (end - c.physical_start) kind gb).0
      → 0 < c.size
      → Tiles direct gb kind c.physical_start end cs
      → (r : Behind direct gb kind c.physical_start (c.physical_start + c.size) end cs) × (1
            + length r.rest
          ≤ length cs)
  cover-Behind c cs p a size pos tiles =
      let inside = p.inside in
      let r =
        subst (λ n. Behind direct gb kind c.physical_start (c.physical_start + n) end cs) (sym size)
          (Tiles-Behind direct gb kind c.physical_start end c.physical_start cs a he (omega arith)
            (omega arith) (omega arith) tiles) in
      let fewer = r.fewer in
      let before : ltb c.physical_start (c.physical_start + c.size) ≡ true = ground arith in
      (r, ground arith)

  -- The largest page at the start is in a cover of the fewest pages.
  prepend :
      (c : MappingChunk) (so_far : List MappingChunk) (out : Option (MapResult (List MappingChunk)))
      → IsPage direct gb kind end c
      → c.physical_start % 4096 ≡ 0
      → c.size ≡ (leaf_page c.physical_start (end - c.physical_start) kind gb).0
      → 0 < c.size
      → Plans direct gb kind (c.physical_start + c.size) end (so_far ++ c ∷ []) out
      → Plans direct gb kind c.physical_start end so_far out
  prepend c so_far none p a size pos t = t
  prepend c so_far (some (err e)) p a size pos (why, no_cover) = (
    why,
    λ (cs, tiles, few).
        let r = cover-Behind c cs p a size pos tiles in
        let fewer = r.1 in
        no_cover (r.0.rest, r.0.tiles, omega (arith, length-append so_far (c ∷ []))),
  )
  prepend c so_far (some (ok out)) p a size pos (rest, e, tiles, bound, fewest) = (
    c ∷ rest,
    e ∙ append_assoc so_far (c ∷ []) rest,
    (refl, p, tiles),
    bound,
    λ (cs, others, few).
        let r = cover-Behind c cs p a size pos others in
        let fewer = r.1 in fewest (r.0.rest, r.0.tiles, omega arith),
  )

  full_up :
      (cs : List MappingChunk) (physical : ℕ) (so_far : List MappingChunk)
      → physical < end
      → length so_far ≡ max_chunks
      → Tiles direct gb kind physical end cs
      → ¬ (length so_far + length cs ≤ max_chunks)
  full_up [] physical so_far lt full tiles few = absurd (omega arith)
  full_up (c ∷ cs) physical so_far lt full tiles few = absurd (omega arith)

  walk-Plans :
      (fuel physical : ℕ) (so_far : List MappingChunk)
      → physical % 4096 ≡ 0
      → physical ≤ end
      → end - physical < fuel
      → length so_far ≤ max_chunks
      → Plans direct gb kind physical end so_far
          (walk add_chunk fuel physical end direct kind gb so_far)
  unfolding walk
  walk-Plans zero physical so_far hp h f l = absurd (omega arith)
  walk-Plans (suc fuel) physical so_far hp h f l = elim (Bool-cases (ltb physical end)) [
    | inr done ↦
        rw (done, walk)
          ([], sym (append-nil so_far), ground arith, l, λ (cs, tiles, few). absurd (omega arith))
    | inl more ↦
        let leaf = leaf_page physical (end - physical) kind gb in
        let facts = leaf_facts physical (end - physical) kind gb hp (omega arith) (ground arith) in
        let c : MappingChunk = record {
          physical_start = physical;
          virtual_start = if direct then kernel_virt_base + physical else physical;
          size = leaf.0;
          page = leaf.1;
        } in
        let p : IsPage direct gb kind end c = record {
          size_of_page = facts.0;
          aligned = facts.1;
          inside = omega arith;
          address = refl;
          small_mmio = facts.5;
          allowed = facts.6;
        } in
        rw (more, walk, virtual_facts direct physical (ground arith))
          (elim (Bool-cases (length so_far == max_chunks)) [
            | inl full ↦ rw full (
              refl,
              λ (cs, tiles, few).
                  full_up cs physical so_far (ground arith) (ground arith) tiles few,
            )
            | inr room ↦ rw room (
                prepend c so_far _ p hp refl (omega arith) (
                  walk-Plans fuel (physical + leaf.0) (so_far ++ c ∷ []) (omega arith) (omega arith)
                    (omega arith) (ground (arith, length-append so_far (c ∷ [])))))
          ])
  ]

-- The plan of a page-aligned range below the four-level limit: its chunks are aligned pages that cover exactly
-- the range, end to end and in order, each at its direct or identity address, small for device memory and of
-- 1 GiB only where these may be used; they are at most `max_chunks`, and no other such pages cover the range with
-- fewer. Or the error is that of too many chunks, and no such pages cover the range with at most `max_chunks`.
pub plan_range-Plans :
    (start end : ℕ) (direct : Bool) (kind : PhysicalMemoryKind) (gb : Bool)
    → start % 4096 ≡ 0
    → end % 4096 ≡ 0
    → start < end
    → end ≤ four_level_limit
    → Plans direct gb kind start end [] (plan_range start end direct kind gb)
unfolding plan_range walk_range
plan_range-Plans start end direct kind gb hs he lt limit =
    let nonempty : leb end start ≡ false = ground arith in
    let canonical : ltb four_level_limit end ≡ false = ground arith in
    rw (nonempty, canonical)
      (walk-Plans direct kind gb end he limit (suc (end - start)) start [] hs (omega arith)
        (omega arith) (omega arith))
