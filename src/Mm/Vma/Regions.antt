-- ===== src/Mm/Vma/Regions.antt =====
-- kernel/src/mm/vma.rs: the operations on the sorted list of regions.
use Prim.Native.Nat.{ℕ, ◌-◌, min, max}
use saeos.Prelude.{
  Bool, not, ◌&&◌, ◌||◌, Option, none, some, List, [], ◌∷◌, ltb, leb, if◌then◌else◌, keep_if, any,
  find, partition_point, insert_at,
}
use saeos.Prelude.Words.{checked_sub}
use saeos.Fs.Errno.{einval, enomem, ok, err}
use saeos.Mm.Vma.Region.{Region, Span, MemoryMap, piece, aligned}
use saeos.Mm.Vma.Monad.{M}

abbrev pub holds : ℕ → Region → Bool
holds address r = leb r.start address && ltb address r.end

abbrev pub meets : ℕ → ℕ → Region → Bool
meets start end r = ltb start r.end && ltb r.start end

-- `MemoryMap::region_at`.
abbrev pub region_at : MemoryMap → ℕ → Option Region
region_at m address = find (holds address) m.regions

-- `MemoryMap::overlaps`.
abbrev pub overlaps : List Region → ℕ → ℕ → Bool
overlaps rs start end = any (meets start end) rs

-- `MemoryMap::insert`.
unfoldable pub insert : Region → M (Unit {0})
insert r m =
    if leb r.end r.start || not (aligned r.start) || not (aligned r.end)
    then (err einval, m)
    else if overlaps m.regions r.start r.end
    then (err enomem, m)
    else (
      ok tt,
      record m {
        regions =
            insert_at (partition_point (λ other. ltb other.start r.start) m.regions) r m.regions;
      },
    )

-- One round of the loop of `MemoryMap::remove`, in front of what the later rounds keep and remove.
abbrev pub cut : ℕ → ℕ → Region → List Region × List Span → List Region × List Span
cut start end r (kept, removed) =
    if leb r.end start || leb end r.start then (r ∷ kept, removed) else (
      let upper = if ltb end r.end then piece r end r.end ∷ kept else kept in
          if ltb r.start start then piece r r.start start ∷ upper else upper,
      record { start = max r.start start; end = min r.end end; protection = r.protection }
          ∷ removed,
    )

unfoldable pub remove_loop : ℕ → ℕ → List Region → List Region × List Span
remove_loop start end [] = ([], [])
remove_loop start end (r ∷ rs) = cut start end r (remove_loop start end rs)

-- `MemoryMap::remove`.
unfoldable pub remove : ℕ → ℕ → M (List Span)
remove start end m =
    let (kept, removed) = remove_loop start end m.regions in
    (ok removed, record m { regions = kept })

-- The loop of `MemoryMap::find_free`, from the last region down, with `top` so far.
unfoldable pub find_gap : ℕ → ℕ → ℕ → List Region → Option ℕ
find_gap floor len top [] = elim (checked_sub top len) [
  | none ↦ none
  | some start ↦ keep_if (leb floor start) start
]
find_gap floor len top (r ∷ rs) =
    let skipped = find_gap floor len top rs in
    let lower = find_gap floor len (min top r.start) rs in
    if leb top r.start
    then skipped
    else if leb r.end top && leb len (top - r.end)
    then keep_if (leb floor (top - len)) (top - len)
    else lower
