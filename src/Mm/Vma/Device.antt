-- ===== src/Mm/Vma/Device.antt =====
-- The physical address behind a page of device memory, through `Region::device_address`.
use Prim.Native.Nat.{ℕ, ◌+◌, ◌-◌, ◌≤◌, ◌<◌}
use saeos.Prelude.{
  ◌∙◌, Bool, not, ◌||◌, Option, none, some, List, [], ◌∷◌, ◌≡◌, refl, arith, Bool-cases, inl, inr,
  find,
}
use saeos.Prelude.Words.{add64}
use saeos.Fs.Errno.{ok}
use saeos.Mm.Vma.Region.{
  Region, RegionKind, Protection, MemoryMap, MmapChange, aligned, device_address,
}
use saeos.Mm.Vma.Regions.{holds, region_at}
use saeos.Mm.Vma.Ops.{mmap_device}
use saeos.Mm.Vma.View.{Page, view, page}
use saeos.Mm.Vma.Valid.{IsValid}
use saeos.Mm.Vma.Place.{Placed, Places, place-Places, round_up}

-- The physical address that the map gives for an address, as the kernel asks for it.
unfoldable pub physical_at : MemoryMap → ℕ → Option ℕ
physical_at m address = elim (region_at m address) [
  | none ↦ none
  | some r ↦ device_address r address
]

abbrev pub physical_of : Option Page → Option ℕ
physical_of none = none
physical_of (some p) = elim p.kind [ RegionKind.device physical ↦ some physical | _ ↦ none ]

device_address-page : (r : Region) (a : ℕ) → device_address r a ≡ physical_of (some (page r a))
unfolding device_address page
device_address-page r a = ground arith

find-view :
    (a : ℕ) (rs : List Region)
    → elim (find (holds a) rs) [ none ↦ none | some r ↦ device_address r a ]
      ≡ physical_of (view rs a)
unfolding view
find-view a [] = refl
find-view a (r ∷ rs) = ground (arith, find-view a rs, device_address-page r a)

pub physical_at-view : (m : MemoryMap) (a : ℕ) → physical_at m a ≡ physical_of (view m.regions a)
unfolding physical_at
physical_at-view m a = find-view a m.regions

-- mmap of device memory. On an error the map is as it was. On success it is placed as anonymous
-- memory is, the physical address was aligned and execution was not asked for.
pub mmap_device-Places :
    (hint length : ℕ) (protection : Protection) (physical : ℕ) (fixed : Bool) (m : MemoryMap)
    → IsValid m
    → Places
        (round_up length)
        protection
        (RegionKind.device physical)
        m
        (mmap_device hint length protection physical fixed m)
unfolding mmap_device
mmap_device-Places hint length protection physical fixed m v =
    elim (Bool-cases (not (aligned physical) || protection.execute)) [
      | inl barred ↦ rw barred refl
      | inr clear ↦
          rw clear (place-Places hint length protection fixed (RegionKind.device physical) m v)
    ]

-- Page `start + n` of a device mapping is the physical page `physical + n`.
pub mmap_device_physical :
    (hint length : ℕ) (protection : Protection) (physical : ℕ) (fixed : Bool) (m n : MemoryMap)
    (c : MmapChange) (a : ℕ)
    → IsValid m
    → mmap_device hint length protection physical fixed m ≡ (ok c, n)
    → c.address ≤ a
    → a < c.address + round_up length
    → physical_at n a ≡ some (add64 physical (a - c.address))
unfolding page
mmap_device_physical hint length protection physical fixed m n c a v e h k =
    let placed : Placed (round_up length) protection (RegionKind.device physical) m c n =
      rw e at (mmap_device-Places hint length protection physical fixed m v) in
    physical_at-view n a ∙ ground (arith, placed.mapped a)
