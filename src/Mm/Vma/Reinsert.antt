-- ===== src/Mm/Vma/Reinsert.antt =====
-- The loop of `MemoryMap::mprotect` that puts the pieces of the old regions back.
use Prim.Native.Nat.{ℕ, ◌%◌, ◌≤◌, ◌<◌, min, max}
use saeos.Prelude.{
  false, ◌&&◌, Option, none, some, List, [], ◌∷◌, ◌≡◌, refl, arith, if◌then◌else◌, ap, is_some,
}
use saeos.Fs.Errno.{Result, ok, err}
use saeos.Mm.Vma.Region.{Region, Span, Protection, MemoryMap, piece}
use saeos.Mm.Vma.Monad.{follow}
use saeos.Mm.Vma.Regions.{overlaps}
use saeos.Mm.Vma.Ops.{reinsert}
use saeos.Mm.Vma.View.{Page, view, page, page-piece, view-cons}
use saeos.Mm.Vma.Sorted.{
  IsProper, IsSorted, insert_sorted, insert_sorted-IsSorted, view-insert_sorted, overlaps_of_view,
  view_below,
}
use saeos.Mm.Vma.Spans.{span_at}
use saeos.Mm.Vma.Valid.{IsValid, insert_free, in_range}

abbrev pub reprotect : Protection → Option Page → Option Page
reprotect protection none = none
reprotect protection (some p) = some (record p { protection = protection })

abbrev pub Meeting : ℕ → ℕ → List Region → Type 0
Meeting start end [] = Unit {0}
Meeting start end (r ∷ rs) = (start < r.end) × (r.start < end) × Meeting start end rs

-- What the loop did with the old regions `rs` to the map `m`.
pub record Reinserted (start end : ℕ) (protection : Protection) (rs : List Region) (m : MemoryMap)
    (spans : List Span) (n : MemoryMap) : Type 0 where
  pub valid : IsValid n
  pub changed :
      (a : ℕ)
      → view n.regions a ≡ (
          if in_range start end a && is_some (view rs a)
          then reprotect protection (view rs a)
          else view m.regions a)
  pub exact :
      (a : ℕ)
      → span_at spans a
        ≡ (if in_range start end a && is_some (view rs a) then some protection else none)
  pub brk_kept : n.brk ≡ m.brk

-- The loop does not fail.
abbrev pub Reinserts :
    ℕ → ℕ → Protection → List Region → MemoryMap → Result (List Span) × MemoryMap → Type 0
Reinserts start end protection rs m (ok spans, n) = Reinserted start end protection rs m spans n
Reinserts start end protection rs m (err e, n) = ⊥

module _ (start end : ℕ) (protection : Protection) where
  -- The piece of a region that changes.
  abbrev changing : Region → Region
  changing r = record (piece r (max r.start start) (min r.end end)) { protection = protection }

  page-changing :
      (r : Region) (a : ℕ)
      → r.start ≤ a
      → start ≤ a
      → page (changing r) a ≡ record (page r a) { protection = protection }
  unfolding page
  page-changing r a h k =
      ap (λ (p : Page). record p { protection = protection })
        (page-piece r (max r.start start) (min r.end end) a (omega arith) (omega arith))

  add_first :
      (r : Region) (rs : List Region) (m n : MemoryMap) (spans : List Span)
      → r.start < r.end
      → IsSorted r.end rs
      → overlaps m.regions (max r.start start) (min r.end end) ≡ false
      → Reinserted start end protection rs
          (record m { regions = insert_sorted (changing r) m.regions })
          spans
          n
      → Reinserted start end protection
          (r ∷ rs)
          m
          (record { start = max r.start start; end = min r.end end; protection = protection }
            ∷ spans)
          n
  unfolding span_at
  add_first r rs m n spans proper sorted free later = record {
    valid = later.valid;
    changed = λ a. ground (
      arith,
      later.changed a,
      view-insert_sorted a (changing r) m.regions free,
      view-cons r rs a,
      view_below r.end a rs sorted,
      page-changing r a,
    );
    exact = λ a. ground (arith, later.exact a, view-cons r rs a, view_below r.end a rs sorted);
    brk_kept = later.brk_kept;
  }

  add_span :
      (r : Region) (rs : List Region) (m : MemoryMap) (out : Result (List Span) × MemoryMap)
      → r.start < r.end
      → IsSorted r.end rs
      → overlaps m.regions (max r.start start) (min r.end end) ≡ false
      → Reinserts start end protection rs
          (record m { regions = insert_sorted (changing r) m.regions })
          out
      → Reinserts start end protection (r ∷ rs) m (
          follow out (λ spans n. (
            ok (
                record { start = max r.start start; end = min r.end end; protection = protection }
                ∷ spans),
            n,
          )))
  add_span r rs m (ok spans, n) proper sorted free later =
      add_first r rs m n spans proper sorted free later
  add_span r rs m (err e, n) proper sorted free later = later

  add_none : (m : MemoryMap) → IsValid m → Reinserted start end protection [] m [] m
  unfolding view span_at
  add_none m v = record {
    valid = v;
    changed = λ a. ground arith;
    exact = λ a. ground arith;
    brk_kept = refl;
  }

  -- On a map that is bare above `lo` inside the range, the loop puts every piece back.
  pub reinsert-Reinserts :
      (rs : List Region) (lo : ℕ) (m : MemoryMap)
      → IsValid m
      → start % 4096 ≡ 0
      → end % 4096 ≡ 0
      → start < end
      → IsSorted lo rs
      → Meeting start end rs
      → ((a : ℕ) → lo ≤ a → start ≤ a → a < end → view m.regions a ≡ none)
      → Reinserts start end protection rs m (reinsert start end protection rs m)
  unfolding reinsert
  reinsert-Reinserts [] lo m v hs he lt s meet bare = add_none m v
  reinsert-Reinserts (r ∷ rs) lo m v hs he lt s meet bare =
      let p = changing r in
      let nonempty : r.start < r.end = s.1.nonempty in
      let proper : IsProper p = omega arith in
      let free : overlaps m.regions p.start p.end ≡ false =
        overlaps_of_view 0 p.start p.end m.regions v.sorted (omega arith)
          (λ a h k. bare a (omega arith) (omega arith) (omega arith)) in
      let sorted : IsSorted 0 (insert_sorted p m.regions) =
        insert_sorted-IsSorted 0 p m.regions (omega arith) proper v.sorted free in
      rw (insert_free p m proper free) (
        add_span r rs m _ nonempty s.2 free (
          reinsert-Reinserts rs r.end (record m { regions = insert_sorted p m.regions })
            (record {
              sorted = sorted;
              brk_start_aligned = v.brk_start_aligned;
              mmap_top_aligned = v.mmap_top_aligned;
            })
            hs he lt s.2 meet.2
            (λ a h k l. bare_after r m a (omega arith) (bare a (omega arith) k l) free)))
    where
      bare_after :
          (x : Region) (n : MemoryMap) (a : ℕ)
          → x.end ≤ a
          → view n.regions a ≡ none
          → overlaps n.regions (max x.start start) (min x.end end) ≡ false
          → view (insert_sorted (changing x) n.regions) a ≡ none
      bare_after x n a h none_there free =
          ground (arith, view-insert_sorted a (changing x) n.regions free)
