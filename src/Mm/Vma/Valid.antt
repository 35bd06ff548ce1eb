-- ===== src/Mm/Vma/Valid.antt =====
-- Valid memory maps, and what insertion and removal do to them.
use Prim.Native.Nat.{ℕ, ◌%◌, ◌≤◌}
use saeos.Prelude.{Bool, false, ◌&&◌, none, List, ltb, leb, ◌≡◌, refl, arith, if◌then◌else◌}
use saeos.Fs.Errno.{ok}
use saeos.Mm.Vma.Region.{Region, Span, MemoryMap}
use saeos.Mm.Vma.Regions.{overlaps, insert, remove_loop}
use saeos.Mm.Vma.View.{view, view-remove_loop}
use saeos.Mm.Vma.Sorted.{IsProper, IsSorted, remove_loop-IsSorted, insert_sorted}
use saeos.Mm.Vma.Spans.{span_at, protection_of, span_at-remove_loop}

-- The regions are sorted, apart and page-aligned, and so are the heap's start and the mmap top.
pub record IsValid (m : MemoryMap) : Type 0 where
  pub sorted : IsSorted 0 m.regions
  pub brk_start_aligned : m.brk_start % 4096 ≡ 0
  pub mmap_top_aligned : m.mmap_top % 4096 ≡ 0

-- `insert` stores a proper region that meets no other.
pub insert_free :
    (r : Region) (m : MemoryMap)
    → IsProper r
    → overlaps m.regions r.start r.end ≡ false
    → insert r m ≡ (ok tt, record m { regions = insert_sorted r m.regions })
unfolding insert
insert_free r m p free = ground arith

abbrev pub in_range : ℕ → ℕ → ℕ → Bool
in_range start end address = leb start address && ltb address end

-- What `remove` leaves behind and reports.
pub record Removed (start end : ℕ) (m : MemoryMap) (spans : List Span) (n : MemoryMap)
    : Type 0 where
  pub valid : IsValid n
  pub bare : (a : ℕ) → view n.regions a ≡ (if in_range start end a then none else view m.regions a)
  pub exact :
      (a : ℕ)
      → span_at spans a ≡ (if in_range start end a then protection_of (view m.regions a) else none)
  pub brk_start_kept : n.brk_start ≡ m.brk_start
  pub brk_kept : n.brk ≡ m.brk
  pub mmap_top_kept : n.mmap_top ≡ m.mmap_top

pub remove-Removed :
    (start end : ℕ) (m : MemoryMap)
    → IsValid m
    → start ≤ end
    → start % 4096 ≡ 0
    → end % 4096 ≡ 0
    → Removed start end m
        (remove_loop start end m.regions).1
        (record m { regions = (remove_loop start end m.regions).0 })
remove-Removed start end m v h hs he = record {
  valid = record {
    sorted = remove_loop-IsSorted start end 0 m.regions h hs he v.sorted;
    brk_start_aligned = v.brk_start_aligned;
    mmap_top_aligned = v.mmap_top_aligned;
  };
  bare = λ a. view-remove_loop start end a m.regions h;
  exact = λ a. span_at-remove_loop start end a m.regions;
  brk_start_kept = refl;
  brk_kept = refl;
  mmap_top_kept = refl;
}
