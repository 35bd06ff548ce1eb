-- ===== src/Mm/Vma/Region.antt =====
-- kernel/src/mm/vma.rs: protections, regions and spans. Addresses are `u64`.
use Prim.Native.Nat.{ℕ, ◌+◌, ◌-◌, ◌*◌, ◌/◌, ◌%◌}
use saeos.Prelude.{
  List, Bool, true, false, not, ◌&&◌, Option, none, some, ltb, ◌==◌, if◌then◌else◌, keep_if,
}
use saeos.Prelude.Words.{u64_mod, add64}
use saeos.Fs.Errno.{einval, eacces, Result, ok, err}

abbrev pub page_size : ℕ
page_size = 4096

abbrev pub min_address : ℕ
min_address = 0x1_0000

pub record Protection : Type 0 where
  pub read : Bool
  pub write : Bool
  pub execute : Bool

abbrev pub read_write : Protection
read_write = record { read = true; write = true; execute = false }

-- The bit of weight `w` of `bits`.
abbrev pub has_bit : ℕ → ℕ → Bool
has_bit bits w = bits / w % 2 == 1

-- `Protection::from_linux`. On a `u64`, `bits & !7 != 0` says that `bits` is above 7.
unfoldable pub from_linux : ℕ → Result Protection
from_linux bits =
    if ltb 7 bits
    then err einval
    else if has_bit bits 2 && has_bit bits 4
    then err eacces
    else ok (record { read = not (bits == 0); write = has_bit bits 2; execute = has_bit bits 4 })

pub data RegionKind : Type 0 where
  image heap stack anonymous : RegionKind
  device : ℕ → RegionKind

abbrev pub is_heap : RegionKind → Bool
is_heap RegionKind.heap = true
is_heap _ = false

abbrev pub is_device : RegionKind → Bool
is_device (RegionKind.device p) = true
is_device _ = false

pub record Region : Type 0 where
  pub start : ℕ
  pub end : ℕ
  pub protection : Protection
  pub kind : RegionKind

-- A device region's physical address moves along with its start.
abbrev pub moved : ℕ → RegionKind → RegionKind
moved d (RegionKind.device physical) = RegionKind.device (add64 physical d)
moved d RegionKind.image = RegionKind.image
moved d RegionKind.heap = RegionKind.heap
moved d RegionKind.stack = RegionKind.stack
moved d RegionKind.anonymous = RegionKind.anonymous

-- `Region::piece`.
abbrev pub piece : Region → ℕ → ℕ → Region
piece r start end = record {
  start = start;
  end = end;
  protection = r.protection;
  kind = moved (start - r.start) r.kind;
}

-- `Region::device_address`.
device_address_of : ℕ → RegionKind → Option ℕ
device_address_of d (RegionKind.device physical) = some (add64 physical d)
device_address_of d _ = none

unfoldable pub device_address : Region → ℕ → Option ℕ
unfolding device_address_of
device_address r address = device_address_of (address - r.start) r.kind

pub record Span : Type 0 where
  pub start : ℕ
  pub end : ℕ
  pub protection : Protection

pub data BrkChange : Type 0 where
  unchanged : BrkChange
  map_span unmap_span : Span → BrkChange

pub record MmapChange : Type 0 where
  pub address : ℕ
  pub replaced : List Span
  pub new : Span

pub record MemoryMap : Type 0 where
  pub regions : List Region
  pub brk_start : ℕ
  pub brk : ℕ
  pub mmap_top : ℕ

-- `checked_next_multiple_of(PAGE_SIZE)`.
abbrev pub page_up : ℕ → Option ℕ
page_up address = let up = (address + 4095) / 4096 * 4096 in keep_if (ltb up u64_mod) up

abbrev pub aligned : ℕ → Bool
aligned address = address % 4096 == 0
