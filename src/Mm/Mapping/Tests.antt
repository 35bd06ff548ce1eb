-- ===== src/Mm/Mapping/Tests.antt =====
-- Runs of the planner, and its theorems at concrete inputs.
use saeos.Prelude.{true, false, some, List, [], ◌∷◌, ◌≡◌, refl, arith}
use saeos.Mm.Mapping.Plan.{
  PhysicalMemoryKind, PhysicalMemoryRegion, PageSize, ok, leaf_page, virtual_address, walk,
  walk_range, plan_range, check_memory_map, plan_memory_map, forget, usable_region_contains,
}
use saeos.Mm.Mapping.Cover.{Plans, plan_range-Plans}
use saeos.Mm.Mapping.Check.{check_memory_map-plan}

abbrev memory : List PhysicalMemoryRegion
memory =
    record { start = 0x10_0000; len = 0x30_0000; kind = PhysicalMemoryKind.usable }
    ∷ record { start = 0x40_0000; len = 0x1000; kind = PhysicalMemoryKind.reserved }
    ∷ record { start = 0xfe00_0000; len = 0x2000; kind = PhysicalMemoryKind.mmio }
    ∷ []

-- A 2 MiB page is used as soon as the address is aligned to it.
two_pages :
    plan_range 0x1f_f000 0x40_0000 true PhysicalMemoryKind.usable true
    ≡ some (
        ok (
          record {
            physical_start = 0x1f_f000;
            virtual_start = 0xffff_8000_001f_f000;
            size = 4096;
            page = PageSize.four_kib;
          }
          ∷ record {
            physical_start = 0x20_0000;
            virtual_start = 0xffff_8000_0020_0000;
            size = 0x20_0000;
            page = PageSize.two_mib_page;
          }
          ∷ []))
unfolding plan_range walk_range walk leaf_page virtual_address
two_pages = refl

reserved_hole : usable_region_contains memory 0x40_0000 ≡ false
unfolding usable_region_contains
reserved_hole = refl

plan_range-Plans_example :
    Plans true true PhysicalMemoryKind.usable 0x1f_f000 0x40_0000 []
      (plan_range 0x1f_f000 0x40_0000 true PhysicalMemoryKind.usable true)
plan_range-Plans_example =
    plan_range-Plans 0x1f_f000 0x40_0000 true PhysicalMemoryKind.usable true (omega arith)
      (omega arith) (omega arith) (omega arith)

check_memory_map-plan_example :
    check_memory_map memory true true ≡ forget (plan_memory_map memory true true)
check_memory_map-plan_example = check_memory_map-plan memory true true
