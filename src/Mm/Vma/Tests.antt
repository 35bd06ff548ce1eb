-- ===== src/Mm/Vma/Tests.antt =====
-- Runs of the memory map on a small process, and the theorems at concrete inputs.
use Prim.Native.Nat.{ℕ, ◌≤◌}
use saeos.Prelude.{true, false, some, List, [], ◌∷◌, ◌≡◌, refl, arith}
use saeos.Fs.Errno.{ok, err, enomem}
use saeos.Mm.Vma.Region.{
  Region, RegionKind, Span, Protection, MemoryMap, BrkChange, MmapChange, read_write,
}
use saeos.Mm.Vma.Regions.{insert, remove, remove_loop, find_gap}
use saeos.Mm.Vma.Ops.{
  choose, finish, place, find_free, mmap, munmap, cover, protect, mprotect, put_heap, set_brk,
}
use saeos.Mm.Vma.View.{view}
use saeos.Mm.Vma.Valid.{IsValid}
use saeos.Mm.Vma.Place.{Places}
use saeos.Mm.Vma.Calls.{mmap-Places, mmap_highest, Unmaps, munmap-Unmaps}
use saeos.Mm.Vma.Protect.{Protects, mprotect-Protects, mprotect_succeeds}
use saeos.Mm.Vma.Brk.{Moves, set_brk-Moves, brk_claims_hole, covers}

abbrev read_execute : Protection
read_execute = record { read = true; write = false; execute = true }

abbrev image : Region
image = record {
  start = 0x40_0000;
  end = 0x40_2000;
  protection = read_execute;
  kind = RegionKind.image;
}

abbrev heap_end : ℕ → Region
heap_end e = record { start = 0x40_2000; end = e; protection = read_write; kind = RegionKind.heap }

abbrev stack : Region
stack = record {
  start = 0x7f_f000;
  end = 0x80_0000;
  protection = read_write;
  kind = RegionKind.stack;
}

-- A process with an image, two heap pages and a stack.
abbrev process : MemoryMap
process = record {
  regions = image ∷ heap_end 0x40_4000 ∷ stack ∷ [];
  brk_start = 0x40_2000;
  brk = 0x40_3800;
  mmap_top = 0x7f_e000;
}

-- The same once munmap took the first heap page.
abbrev holed : MemoryMap
holed = record process {
  regions = image ∷ record (heap_end 0x40_4000) { start = 0x40_3000 } ∷ stack ∷ [];
}

process-IsValid : IsValid process
process-IsValid = omega arith

holed-IsValid : IsValid holed
holed-IsValid = omega arith

munmap_heap_page :
    munmap 0x40_2000 1 process
    ≡ (ok (record { start = 0x40_2000; end = 0x40_3000; protection = read_write } ∷ []), holed)
unfolding munmap remove remove_loop
munmap_heap_page = refl

mmap_top_down :
    (mmap 0 5000 read_write false process).0
    ≡ ok (record {
      address = 0x7f_c000;
      replaced = [];
      new = record { start = 0x7f_c000; end = 0x7f_e000; protection = read_write };
    })
unfolding mmap place choose finish find_free find_gap insert
mmap_top_down = refl

mprotect_gap : mprotect 0x40_3000 0x2000 read_write process ≡ (err enomem, process)
unfolding mprotect protect cover
mprotect_gap = refl

mmap-Places_example :
    Places 0x2000 read_write RegionKind.anonymous process
      (mmap 0x40_3000 5000 read_write true process)
mmap-Places_example = mmap-Places 0x40_3000 5000 read_write true process process-IsValid

mmap_highest_example :
    (c : MmapChange) × ((mmap 0 5000 read_write false process).0 ≡ ok c) × (0x50_0000 ≤ c.address)
mmap_highest_example =
    mmap_highest 5000 0x50_0000 read_write process process-IsValid (omega arith) (omega arith)
      (record {
        above_min = omega arith;
        above_heap = omega arith;
        below_top = omega arith;
        free = refl;
        start_aligned = omega arith;
      })

munmap-Unmaps_example : Unmaps 0x40_2000 1 process (munmap 0x40_2000 1 process)
munmap-Unmaps_example = munmap-Unmaps 0x40_2000 1 process process-IsValid

mprotect-Protects_example :
    Protects 0x40_1000 0x40_3000 read_write process (mprotect 0x40_1000 0x2000 read_write process)
mprotect-Protects_example = mprotect-Protects 0x40_1000 0x2000 read_write process process-IsValid

mprotect_succeeds_example :
    (spans : List Span) × ((mprotect 0x40_1000 0x2000 read_write process).0 ≡ ok spans)
unfolding view
mprotect_succeeds_example =
    mprotect_succeeds 0x40_1000 0x2000 read_write process process-IsValid (omega arith)
      (omega arith) refl (λ a h k. ground arith)

set_brk-Moves_example : Moves 0x40_9000 process (set_brk 0x40_9000 process)
set_brk-Moves_example = set_brk-Moves 0x40_9000 process process-IsValid

-- After the munmap, brk grows by a page: the map claims 0x402000 again, only 0x404000 is mapped.
brk_claims_hole_example :
    (view (image ∷ heap_end 0x40_5000 ∷ stack ∷ []) 0x40_2000
      ≡ some (record { protection = read_write; kind = RegionKind.heap }))
    × (covers
          (BrkChange.map_span
            (record { start = 0x40_4000; end = 0x40_5000; protection = read_write }))
          0x40_2000
        ≡ false)
unfolding set_brk put_heap insert view
brk_claims_hole_example =
    brk_claims_hole 0x40_5000 0x40_2000 holed
      (record holed { regions = image ∷ heap_end 0x40_5000 ∷ stack ∷ []; brk = 0x40_5000 }) _
      holed-IsValid refl refl (omega arith) (omega arith) (omega arith)
