-- ===== src/Mm/Vma/Calls.antt =====
-- The calls behind mmap and munmap, on every branch.
use Prim.Native.Nat.{ℕ, ◌+◌, ◌%◌, ◌≤◌, ◌<◌}
use saeos.Prelude.{
  Bool, true, false, not, ◌||◌, Option, none, some, List, [], ltb, ◌==◌, ◌≡◌, refl, arith,
  Bool-cases, inl, inr,
}
use saeos.Prelude.Words.{u64_mod}
use saeos.Fs.Errno.{Result, ok, err}
use saeos.Mm.Vma.Region.{RegionKind, Span, Protection, MemoryMap, MmapChange, aligned}
use saeos.Mm.Vma.Regions.{remove, remove_loop}
use saeos.Mm.Vma.Ops.{find_free, choose, finish, place, mmap, munmap}
use saeos.Mm.Vma.Gap.{IsPlace, find_free-IsPlace, find_free_highest, AtLeast}
use saeos.Mm.Vma.Valid.{IsValid, insert_free, Removed, remove-Removed}
use saeos.Mm.Vma.Place.{Places, place-Places, round_up, new_region}
use saeos.Mm.Vma.Sorted.{IsProper}

-- mmap of anonymous memory, with any hint. On success exactly the returned range of whole pages has
-- the asked protection, every other address keeps its page, the replaced spans are exactly the
-- pages that lay there, the range lies between the lowest address and the mmap top, and the map
-- stays valid. On an error the map is as it was.
pub mmap-Places :
    (hint length : ℕ) (protection : Protection) (fixed : Bool) (m : MemoryMap)
    → IsValid m
    → Places
        (round_up length)
        protection
        RegionKind.anonymous
        m
        (mmap hint length protection fixed m)
unfolding mmap
mmap-Places hint length protection fixed m v =
    place-Places hint length protection fixed RegionKind.anonymous m v

found : (s : ℕ) (o : Option ℕ) → AtLeast s o → (a : ℕ) × (o ≡ some a) × (s ≤ a)
found s none h = absurd h
found s (some a) h = (a, refl, h)

-- With no hint and a free place at hand, the call places the region there.
place_at :
    (length a : ℕ) (protection : Protection) (kind : RegionKind) (m : MemoryMap)
    → IsPlace m (round_up length) a
    → m.mmap_top < u64_mod
    → 0 < length
    → find_free m (round_up length) ≡ some a
    → (place 0 length protection false kind m).0
      ≡ ok (record {
        address = a;
        replaced = [];
        new = record { start = a; end = a + round_up length; protection = protection };
      })
unfolding place choose finish
place_at length a protection kind m p ht pos e =
    let r = new_region a (round_up length) protection kind in
    let proper : IsProper r = omega arith in
    let nonzero : (length == 0) ≡ false = ground arith in
    let fits : ltb (round_up length) u64_mod ≡ true = ground arith in
    rw (nonzero, fits, e, insert_free r m proper p.free) refl

-- An mmap with no hint finds the highest place: where some free range of whole pages for a nonzero
-- length starts at `s`, above the heap and the lowest address and below the mmap top, it succeeds,
-- at an address not below `s`.
pub mmap_highest :
    (length s : ℕ) (protection : Protection) (m : MemoryMap)
    → IsValid m
    → m.mmap_top < u64_mod
    → 0 < length
    → IsPlace m (round_up length) s
    → (c : MmapChange) × ((mmap 0 length protection false m).0 ≡ ok c) × (s ≤ c.address)
unfolding mmap
mmap_highest length s protection m v ht pos p =
    let len = round_up length in
    let (a, e, le) =
      found s (find_free m len) (find_free_highest m len s v.sorted ht (ground arith) p) in
    let q = find_free-IsPlace m len a v.sorted v.mmap_top_aligned (omega arith) e in
    (_, place_at length a protection RegionKind.anonymous m q ht pos e, le)

-- munmap: what it removes, or the map as it was.
abbrev pub Unmaps : ℕ → ℕ → MemoryMap → Result (List Span) × MemoryMap → Type 0
Unmaps start length m (ok spans, n) = Removed start (start + round_up length) m spans n
Unmaps start length m (err e, n) = n ≡ m

-- On success munmap leaves no page in the range of whole pages and every other page as it was, and
-- its spans are exactly the pages that were mapped there; on an error the map is as it was.
pub munmap-Unmaps :
    (start length : ℕ) (m : MemoryMap) → IsValid m → Unmaps start length m (munmap start length m)
unfolding munmap remove
munmap-Unmaps start length m v = elim (Bool-cases (not (aligned start) || length == 0)) [
  | inl odd ↦ rw odd refl
  | inr even ↦ rw even (elim (Bool-cases (ltb (round_up length) u64_mod)) [
    | inr big ↦ rw big refl
    | inl fits ↦ rw fits (elim (Bool-cases (ltb (start + round_up length) u64_mod)) [
      | inr big ↦ rw big refl
      | inl ends ↦ rw ends (
          remove-Removed start (start + round_up length) m v (omega arith) (ground arith)
            (ground arith))
    ])
  ])
]

-- munmap succeeds on an aligned start and a nonzero length whose whole pages end within the
-- address space.
pub munmap_succeeds :
    (start length : ℕ) (m : MemoryMap)
    → start % 4096 ≡ 0
    → 0 < length
    → start + round_up length < u64_mod
    → (munmap start length m).0 ≡ ok (remove_loop start (start + round_up length) m.regions).1
unfolding munmap remove
munmap_succeeds start length m hs pos fits = ground arith
