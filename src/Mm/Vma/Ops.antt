-- ===== src/Mm/Vma/Ops.antt =====
-- kernel/src/mm/vma.rs: the methods of `MemoryMap` behind brk, mmap, munmap and mprotect.
use Prim.Native.Nat.{ℕ, ◌+◌, min, max}
use mathlib.Core.List.{reverse}
use saeos.Prelude.{
  Bool, true, false, not, ◌&&◌, ◌||◌, Option, none, some, List, [], ◌∷◌, ltb, leb, ◌==◌,
  if◌then◌else◌, any, retain,
}
use saeos.Prelude.Words.{checked_add}
use saeos.Fs.Errno.{einval, enomem, eacces, Result, ok}
use saeos.Mm.Vma.Region.{
  Region, RegionKind, Protection, Span, MemoryMap, BrkChange, MmapChange, piece, aligned, page_up,
  min_address, read_write, is_heap, is_device,
}
use saeos.Mm.Vma.Monad.{M, ret, fail_if, ok_or, get, ◌>>=◌, ◌>>◌}
use saeos.Mm.Vma.Regions.{meets, overlaps, insert, remove, find_gap}

unfoldable pub insert_all : List Region → M (Unit {0})
insert_all [] = ret tt
insert_all (r ∷ rs) = do insert r; insert_all rs

-- `MemoryMap::new`: the map that the image's regions and the stack make.
unfoldable pub new : List Region → ℕ → ℕ → Result (Unit {0}) × MemoryMap
new regions brk_start mmap_top =
    insert_all regions
      (record { regions = []; brk_start = brk_start; brk = brk_start; mmap_top = mmap_top })

-- `MemoryMap::find_free`.
unfoldable pub find_free : MemoryMap → ℕ → Option ℕ
find_free m len = elim (page_up m.brk) [
  | none ↦ none
  | some up ↦ find_gap (max up min_address) len m.mmap_top (reverse m.regions)
]

-- The closure `usable` of `MemoryMap::place`.
abbrev pub usable : MemoryMap → ℕ → ℕ → Bool
usable m len start =
    leb min_address start
    && aligned start
    && elim (checked_add start len) [ none ↦ false | some end ↦ leb end m.mmap_top ]

-- Where `MemoryMap::place` puts the region, and what it removes there.
unfoldable pub choose : ℕ → ℕ → Bool → M (ℕ × List Span)
choose hint len true = do
  m ← get
  fail_if (not (usable m len hint)) enomem
  replaced ← remove hint (hint + len)
  ret (hint, replaced)
choose hint len false = do
  m ← get
  if not (hint == 0) && usable m len hint && not (overlaps m.regions hint (hint + len))
      then ret (hint, [])
      else do address ← ok_or (find_free m len) enomem; ret (address, [])

-- The end of `MemoryMap::place`, with the address and the removed spans at hand.
unfoldable pub finish : ℕ → Protection → RegionKind → ℕ × List Span → M MmapChange
finish len protection kind (address, replaced) = do
  insert (record { start = address; end = address + len; protection = protection; kind = kind })
  ret (record {
    address = address;
    replaced = replaced;
    new = record { start = address; end = address + len; protection = protection };
  })

-- `MemoryMap::place`.
unfoldable pub place : ℕ → ℕ → Protection → Bool → RegionKind → M MmapChange
place hint length protection fixed kind = do
  fail_if (length == 0) einval
  len ← ok_or (page_up length) enomem
  fail_if (fixed && not (aligned hint)) einval
  chosen ← choose hint len fixed
  finish len protection kind chosen

-- `MemoryMap::mmap`.
unfoldable pub mmap : ℕ → ℕ → Protection → Bool → M MmapChange
mmap hint length protection fixed = place hint length protection fixed RegionKind.anonymous

-- `MemoryMap::mmap_device`.
unfoldable pub mmap_device : ℕ → ℕ → Protection → ℕ → Bool → M MmapChange
mmap_device hint length protection physical fixed = do
  fail_if (not (aligned physical) || protection.execute) einval
  place hint length protection fixed (RegionKind.device physical)

-- `MemoryMap::munmap`.
unfoldable pub munmap : ℕ → ℕ → M (List Span)
munmap start length = do
  fail_if (not (aligned start) || length == 0) einval
  len ← ok_or (page_up length) einval
  end ← ok_or (checked_add start len) einval
  remove start end

-- The loop of `MemoryMap::mprotect` that looks for gaps; `none` is its early return.
unfoldable pub cover : ℕ → ℕ → List Region → Option ℕ
cover end cursor [] = some cursor
cover end cursor (r ∷ rs) =
    let skip = cover end cursor rs in
    let next = cover end r.end rs in
    if leb r.end cursor || leb end r.start
    then skip
    else if ltb cursor r.start
    then none
    else if leb end r.end
    then some r.end
    else next

-- The loop of `MemoryMap::mprotect` that puts the pieces back with their new protection.
unfoldable pub reinsert : ℕ → ℕ → Protection → List Region → M (List Span)
reinsert start end protection [] = ret []
reinsert start end protection (r ∷ rs) = do
  let p = record (piece r (max r.start start) (min r.end end)) { protection = protection }
  insert p
  changed ← reinsert start end protection rs
  ret (record { start = p.start; end = p.end; protection = protection } ∷ changed)

-- What `MemoryMap::mprotect` does to a range that is not empty.
unfoldable pub protect : ℕ → ℕ → Protection → M (List Span)
protect start end protection = do
  m ← get
  cursor ← ok_or (cover end start m.regions) enomem
  fail_if (ltb cursor end) enomem
  fail_if (protection.execute && any (λ r. is_device r.kind) (retain (meets start end) m.regions))
      eacces
  removed ← remove start end
  reinsert start end protection (retain (meets start end) m.regions)

-- `MemoryMap::mprotect`.
unfoldable pub mprotect : ℕ → ℕ → Protection → M (List Span)
mprotect start length protection = do
  fail_if (not (aligned start)) einval
  len ← ok_or (page_up length) enomem
  end ← ok_or (checked_add start len) enomem
  if start == end then ret [] else protect start end protection

-- The first part of `MemoryMap::set_brk`: may the break move, with the heap's pages from `old_end`
-- to `new_end`?
abbrev pub blocked : MemoryMap → ℕ → ℕ → Bool
blocked m old_end new_end =
    ltb m.mmap_top new_end
    || any (λ r. not (is_heap r.kind) && ltb r.start (max old_end new_end) && ltb m.brk_start r.end)
        m.regions

abbrev pub brk_change : ℕ → ℕ → BrkChange
brk_change old_end new_end =
    if ltb old_end new_end
    then BrkChange.map_span (record { start = old_end; end = new_end; protection = read_write })
    else if ltb new_end old_end
    then BrkChange.unmap_span (record { start = new_end; end = old_end; protection = read_write })
    else BrkChange.unchanged

-- The heap region of `MemoryMap::set_brk` anew, once the old one has gone.
unfoldable pub put_heap : ℕ → M (Unit {0})
put_heap new_end m =
    if ltb m.brk_start new_end
    then insert
        (record {
          start = m.brk_start;
          end = new_end;
          protection = read_write;
          kind = RegionKind.heap;
        })
        m
    else (ok tt, m)

-- `MemoryMap::set_brk`.
unfoldable pub set_brk : ℕ → M BrkChange
set_brk address = do
  m ← get
  fail_if (ltb address m.brk_start) enomem
  old_end ← ok_or (page_up m.brk) enomem
  new_end ← ok_or (page_up address) enomem
  fail_if (blocked m old_end new_end) enomem
  λ m. (ok tt, record m { regions = retain (λ r. not (is_heap r.kind)) m.regions })
  put_heap new_end
  λ m. (ok tt, record m { brk = address })
  ret (brk_change old_end new_end)
