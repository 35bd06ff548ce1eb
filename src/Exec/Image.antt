-- ===== src/Exec/Image.antt =====
-- kernel/src/exec/mod.rs: the memory map of a freshly loaded image.
use Prim.Native.Nat.{ℕ, ◌+◌, ◌-◌, ◌*◌, max}
use saeos.Prelude.{true, List, [], ◌∷◌, ◌++◌, map}
use saeos.Fs.Errno.{enoexec, Result, ok, err}
use saeos.Mm.Vma.Region.{Region, RegionKind, MemoryMap, min_address, read_write}
use saeos.Mm.Vma.Ops.{new}
use saeos.Exec.Elf.Plan.{Segment, LoadPlan}

abbrev pub user_stack_top : ℕ
user_stack_top = 0x7fff_ffff_f000 - 4096

abbrev pub user_stack_pages : ℕ
user_stack_pages = 32

abbrev pub user_stack_guard : ℕ
user_stack_guard = user_stack_top - (user_stack_pages + 1) * 4096

abbrev pub region_of : Segment → Region
region_of s = record {
  start = s.start;
  end = s.end;
  protection = record { read = true; write = s.flags.write; execute = s.flags.execute };
  kind = RegionKind.image;
}

abbrev pub stack_region : Region
stack_region = record {
  start = user_stack_top - user_stack_pages * 4096;
  end = user_stack_top;
  protection = read_write;
  kind = RegionKind.stack;
}

-- `iter().map(|segment| segment.end).max().unwrap_or(MIN_ADDRESS)`.
abbrev pub highest_end : List Segment → ℕ
highest_end [] = min_address
highest_end (s ∷ []) = s.end
highest_end (s ∷ t ∷ ts) = max s.end (highest_end (t ∷ ts))

abbrev pub new_map : Result (Unit {0}) × MemoryMap → Result MemoryMap
new_map (ok u, m) = ok m
new_map (err e, m) = err enoexec

-- `memory_map`.
unfoldable pub memory_map : LoadPlan → Result MemoryMap
memory_map p =
    new_map (
      new (map region_of p.segments ++ stack_region ∷ []) (highest_end p.segments) user_stack_guard)
