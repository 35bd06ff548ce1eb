-- ===== src/Mm/Mapping/Check.antt =====
-- `check_memory_map` decides, without the table of chunks, what `plan_memory_map` decides; and every
-- walk ends.
use Prim.Native.Nat.{ℕ, ◌+◌, ◌-◌, ◌<◌, ◌≤◌, zero, suc}
use saeos.Prelude.{
  Bool, true, false, Option, none, some, List, [], ◌∷◌, ltb, leb, ◌==◌, ◌≡◌, refl, length, arith,
  Bool-cases, inl, inr, length-append, retain, ◌≢◌, Option-cases,
}
use saeos.Mm.Mapping.Plan.{
  PhysicalMemoryKind, MappingChunk, MapResult, ok, err, four_level_limit, max_chunks, leaf_page,
  virtual_address, walk, walk_range, add_chunk, count_chunk, walk_regions, check_memory_map,
  plan_memory_map, forget, PhysicalMemoryRegion, region_end, is_mapped, go_on,
}

leaf_pos :
    (physical remaining : ℕ) (kind : PhysicalMemoryKind) (gb : Bool)
    → 0 < (leaf_page physical remaining kind gb).0
unfolding leaf_page
leaf_pos physical remaining kind gb = ground arith

module _ {ℓ} {S : Type ℓ} (visit : MappingChunk → S → MapResult S) (end : ℕ) (direct : Bool)
    (kind : PhysicalMemoryKind) (gb : Bool) where
  walk-ne-none :
      (fuel physical : ℕ) (s : S)
      → end - physical < fuel
      → walk visit fuel physical end direct kind gb s ≢ none
  unfolding walk
  walk-ne-none zero physical s h = absurd (omega arith)
  walk-ne-none (suc fuel) physical s h = grind (
    arith,
    leaf_pos physical (end - physical) kind gb,
    walk-ne-none fuel (physical + (leaf_page physical (end - physical) kind gb).0),
  )

  -- Every walk over a range ends, aligned or not and whatever its closure does: the fuel is enough.
  pub walk_range-ne-none : (start : ℕ) (s : S) → walk_range visit start end direct kind gb s ≢ none
  unfolding walk_range
  walk_range-ne-none start s =
      ground (arith, walk-ne-none (suc (end - start)) start s (omega arith))

-- Both walks stopped alike, with as many chunks in the plan as were counted.
abbrev Alike : Option (MapResult (List MappingChunk)) → Option (MapResult ℕ) → Type 0
Alike none none = Unit {0}
Alike (some (err e)) (some (err f)) = e ≡ f
Alike (some (ok chunks)) (some (ok n)) = (length chunks ≡ n) × (n ≤ max_chunks)
Alike _ _ = ⊥

walk-Alike :
    (fuel physical end : ℕ) (direct : Bool) (kind : PhysicalMemoryKind) (gb : Bool)
    (chunks : List MappingChunk) (n : ℕ)
    → length chunks ≡ n
    → n ≤ max_chunks
    → Alike
        (walk add_chunk fuel physical end direct kind gb chunks)
        (walk count_chunk fuel physical end direct kind gb n)
unfolding walk
walk-Alike zero physical end direct kind gb chunks n e l = tt
walk-Alike (suc fuel) physical end direct kind gb chunks n e l =
    elim (Bool-cases (ltb physical end)) [
      | inr done ↦ rw (done, walk) (e, l)
      | inl more ↦
          let (size, page) = leaf_page physical (end - physical) kind gb in
          elim (Option-cases (virtual_address direct physical)) [
            | inl nowhere ↦ rw (more, walk, nowhere) refl
            | inr (address, somewhere) ↦
                rw (more, walk, somewhere)
                  (elim (Bool-cases (length chunks == max_chunks)) [
                    | inl full ↦
                        let counted : ltb max_chunks (n + 1) ≡ true = ground arith in
                        rw (full, counted) refl
                    | inr room ↦
                        let counted : ltb max_chunks (n + 1) ≡ false = ground arith in
                        rw (room, counted)
                          (walk-Alike fuel (physical + size) end direct kind gb _ (n + 1)
                            (omega (arith, length-append {0} chunks (_ ∷ []))) (ground arith))
                  ])
          ]
    ]

walk_range-Alike :
    (start end : ℕ) (direct : Bool) (kind : PhysicalMemoryKind) (gb : Bool)
    (chunks : List MappingChunk) (n : ℕ)
    → length chunks ≡ n
    → n ≤ max_chunks
    → Alike
        (walk_range add_chunk start end direct kind gb chunks)
        (walk_range count_chunk start end direct kind gb n)
unfolding walk_range
walk_range-Alike start end direct kind gb chunks n e l = elim (Bool-cases (leb end start)) [
  | inl empty ↦ rw empty refl
  | inr nonempty ↦ rw nonempty (elim (Bool-cases (ltb four_level_limit end)) [
    | inl far ↦ rw far refl
    | inr near ↦ rw near (walk-Alike (suc (end - start)) start end direct kind gb chunks n e l)
  ])
]

go_on-Alike :
    (o : Option (MapResult (List MappingChunk))) (p : Option (MapResult ℕ))
    (f : List MappingChunk → Option (MapResult (List MappingChunk))) (g : ℕ → Option (MapResult ℕ))
    → ((chunks : List MappingChunk) (n : ℕ)
        → length chunks ≡ n
        → n ≤ max_chunks
        → Alike (f chunks) (g n))
    → Alike o p
    → Alike (go_on o f) (go_on p g)
go_on-Alike none none f g h a = a
go_on-Alike none (some (err e)) f g h a = absurd a
go_on-Alike none (some (ok n)) f g h a = absurd a
go_on-Alike (some (err e)) none f g h a = absurd a
go_on-Alike (some (err e)) (some (err d)) f g h a = a
go_on-Alike (some (err e)) (some (ok n)) f g h a = absurd a
go_on-Alike (some (ok chunks)) none f g h a = absurd a
go_on-Alike (some (ok chunks)) (some (err e)) f g h a = absurd a
go_on-Alike (some (ok chunks)) (some (ok n)) f g h a = h chunks n a.0 a.1

walk_regions-Alike :
    (rs : List PhysicalMemoryRegion) (direct gb : Bool) (chunks : List MappingChunk) (n : ℕ)
    → length chunks ≡ n
    → n ≤ max_chunks
    → Alike (walk_regions add_chunk rs direct gb chunks) (walk_regions count_chunk rs direct gb n)
unfolding walk_regions
walk_regions-Alike [] direct gb chunks n e l = (e, l)
walk_regions-Alike (r ∷ rs) direct gb chunks n e l =
    go_on-Alike _ _ _ _ (λ c k p q. walk_regions-Alike rs direct gb c k p q)
      (walk_range-Alike r.start (region_end r) direct r.kind gb chunks n e l)

forget-Alike :
    (o : Option (MapResult (List MappingChunk))) (p : Option (MapResult ℕ))
    → Alike o p
    → forget p ≡ forget o
forget-Alike none none a = refl
forget-Alike none (some (err e)) a = absurd a
forget-Alike none (some (ok n)) a = absurd a
forget-Alike (some (err e)) none a = absurd a
forget-Alike (some (err e)) (some (err d)) a = cc
forget-Alike (some (err e)) (some (ok n)) a = absurd a
forget-Alike (some (ok chunks)) none a = absurd a
forget-Alike (some (ok chunks)) (some (err e)) a = absurd a
forget-Alike (some (ok chunks)) (some (ok n)) a = refl

-- `check_memory_map` accepts a memory map, or refuses it with the same error, exactly as
-- `plan_memory_map` does: counting the chunks is as good as storing them.
pub check_memory_map-plan :
    (regions : List PhysicalMemoryRegion) (direct gb : Bool)
    → check_memory_map regions direct gb ≡ forget (plan_memory_map regions direct gb)
unfolding check_memory_map plan_memory_map
check_memory_map-plan regions direct gb =
    forget-Alike _ _
      (walk_regions-Alike (retain is_mapped regions) direct gb [] 0 refl (omega arith))
