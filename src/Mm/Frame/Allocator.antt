-- ===== src/Mm/Frame/Allocator.antt =====
-- kernel/src/mm/frame.rs: `Allocator`, where the bitmap and the frames' nodes are those of the buddy lists.
-- The map of the memory, the holds and the reference counts are left out.
use Prim.Native.Nat.{ℕ, zero, suc, ◌+◌, ◌-◌, ◌*◌, ◌/◌, ◌%◌, ◌^◌, min, max}
use saeos.Prelude.{
  Bool, true, false, not, ◌&&◌, ◌||◌, Option, none, some, List, [], ◌∷◌, ◌++◌, ltb, leb, ◌==◌,
  if◌then◌else◌, ◌⊎◌, inl, inr,
}
use saeos.Mm.Buddy.Lists.{
  max_order, dma32_frames, State, reserved, free, allocated, Zone, dma32, normal, ReleaseError,
  Released, ok, err, Buddy, same_state, mark, range_is, allocate, release,
}
use saeos.Mm.Buddy.Build.{insert_reserved_range}
use saeos.Mm.Buddy.Isolate.{isolate}

abbrev pub page_size : ℕ
page_size = 4096

pub data FrameError : Type 0 where
  unaligned overflow invalid_range overlap duplicate_release double_free out_of_memory invalid_order
        unsupported_address not_shareable :
      FrameError

-- `From<ReleaseError>`.
abbrev pub frame_error : ReleaseError → FrameError
frame_error ReleaseError.out_of_range = FrameError.unsupported_address
frame_error ReleaseError.unaligned = FrameError.unaligned
frame_error ReleaseError.duplicate_release = FrameError.duplicate_release
frame_error ReleaseError.double_free = FrameError.double_free
frame_error ReleaseError.invalid_range = FrameError.invalid_range

pub record Allocator : Type 0 where
  pub lists : Buddy
  pub scan_cursor : ℕ
  pub buddy_active : Bool

abbrev set_lists : Allocator → Buddy → Allocator
set_lists a b = record a { lists = b }

unfoldable pub frame_index : ℕ → Allocator → FrameError ⊎ ℕ
frame_index address a =
    if not (address % page_size == 0)
    then inl FrameError.unaligned
    else if ltb (address / page_size) a.lists.frame_count
    then inr (address / page_size)
    else inl FrameError.unsupported_address

unfoldable pub range_state : ℕ → ℕ → State → Allocator → Bool
range_state start count s a =
    leb (start + count) a.lists.frame_count && range_is a.lists.state start count s

-- `min.div_ceil(PAGE_SIZE)` and `next_multiple_of`.
abbrev pub div_ceil : ℕ → ℕ → ℕ
div_ceil n m = (n + (m - 1)) / m

abbrev pub next_multiple : ℕ → ℕ → ℕ
next_multiple n count = div_ceil n count * count

-- `(from..to).step_by(count)`, with `n` elements at most.
unfoldable pub steps : ℕ → ℕ → ℕ → ℕ → List ℕ
steps zero from to count = []
steps (suc n) from to count =
    let rest = steps n (from + count) to count in if ltb from to then from ∷ rest else []

abbrev pub find : (ℕ → Bool) → List ℕ → Option ℕ
find p [] = none
find p (x ∷ xs) = if p x then some x else find p xs

-- One round of the loop that takes the frames; `none` is the panic of `isolate`.
abbrev take_out : Bool → ℕ → Buddy → Option Buddy
take_out false frame b = some (mark 1 frame allocated b)
take_out true frame b = elim (isolate frame b) [
  | none ↦ none
  | some (listed, b') ↦ some (mark 1 frame allocated b')
]

unfoldable pub take_frames : ℕ → Bool → ℕ → Buddy → Option Buddy
take_frames zero active frame b = some b
take_frames (suc n) active frame b = elim (take_out active frame b) [
  | none ↦ none
  | some b' ↦ take_frames n active (suc frame) b'
]

abbrev taken : ℕ → ℕ → Allocator → Option Buddy → Option ((FrameError ⊎ ℕ) × Allocator)
taken found count a none = none
taken found count a (some b) = some (inr found, record a { lists = b; scan_cursor = found + count })

abbrev take_found : ℕ → Allocator → Option ℕ → Option ((FrameError ⊎ ℕ) × Allocator)
take_found count a none = some (inl FrameError.out_of_memory, a)
take_found count a (some found) =
    taken found count a (take_frames count a.buddy_active found a.lists)

-- Whether the block of `count` frames fits below `high` and is free.
abbrev pub fits : ℕ → ℕ → Allocator → ℕ → Bool
fits count high a frame = leb (frame + count) high && range_state frame count free a

-- The frames that are tried: from the cursor up, then from the start up to it.
unfoldable pub candidates : ℕ → ℕ → ℕ → ℕ → List ℕ
candidates count low high cursor =
    let start = next_multiple (min (max cursor low) high) count in
    steps (high - start) start high count ++ steps (start - low) low start count

unfoldable pub allocate_scan : ℕ → ℕ → ℕ → Allocator → Option ((FrameError ⊎ ℕ) × Allocator)
allocate_scan order lowest highest a =
    let count = 2 ^ order in
    let low = next_multiple (div_ceil lowest page_size) count in
    let high = min (highest / page_size) a.lists.frame_count in
    if leb high low || ltb (high - low) count
    then some (inl FrameError.out_of_memory, a)
    else take_found count a (find (fits count high a) (candidates count low high a.scan_cursor))

unfoldable pub zones_for : ℕ → ℕ → List Zone
zones_for lowest highest =
    let boundary = dma32_frames * page_size in
    if leb highest boundary
    then dma32 ∷ []
    else if leb boundary lowest
    then normal ∷ []
    else normal ∷ dma32 ∷ []

-- `fits` of `allocate`.
abbrev pub in_bounds : ℕ → ℕ → ℕ → ℕ → Bool
in_bounds order lowest highest frame =
    let address = frame * page_size in
    leb lowest address
    && ltb (address + 2 ^ order * page_size) (2 ^ 64)
    && leb (address + 2 ^ order * page_size) highest

-- The answer of the lists; a refusal of the release is the panic of its `expect`.
abbrev given_back : ℕ → ℕ → ℕ → Allocator → Released × Buddy → Option ((FrameError ⊎ ℕ) × Allocator)
given_back order lowest highest a (ok, b) = allocate_scan order lowest highest (set_lists a b)
given_back order lowest highest a (err e, b) = none

abbrev from_lists : ℕ → ℕ → ℕ → Allocator → Option ℕ × Buddy → Option ((FrameError ⊎ ℕ) × Allocator)
from_lists order lowest highest a (none, b) = some (inl FrameError.out_of_memory, set_lists a b)
from_lists order lowest highest a (some frame, b) =
    if in_bounds order lowest highest frame
    then some (inr frame, set_lists a b)
    else given_back order lowest highest a (release frame order b)

-- `PhysFrame(frame as u64 * PAGE_SIZE)`
abbrev addressed : Option ((FrameError ⊎ ℕ) × Allocator) → Option ((FrameError ⊎ ℕ) × Allocator)
addressed none = none
addressed (some (inl e, a)) = some (inl e, a)
addressed (some (inr frame, a)) = some (inr (frame * page_size), a)

-- Without the reference counts that the source sets.
unfoldable pub allocate_frames : ℕ → ℕ → ℕ → Allocator → Option ((FrameError ⊎ ℕ) × Allocator)
allocate_frames order lowest highest a =
    if ltb max_order order
    then some (inl FrameError.invalid_order, a)
    else if a.buddy_active
    then addressed
        (from_lists order lowest highest a (allocate order (zones_for lowest highest) a.lists))
    else addressed (allocate_scan order lowest highest a)

-- The loop of `unreserve` over the bitmap.
unfoldable pub free_reserved : ℕ → ℕ → Buddy → Buddy
free_reserved zero frame b = b
free_reserved (suc n) frame b =
    free_reserved n (suc frame)
      (if same_state (b.state frame) reserved then mark 1 frame free b else b)

unfoldable pub unreserve : ℕ → ℕ → Allocator → Allocator
unreserve first last a = record a {
  lists =
      if a.buddy_active
      then insert_reserved_range first last a.lists
      else free_reserved (min last a.lists.frame_count - first) first a.lists;
}

-- `release` over the bitmap, from the index on.
unfoldable pub release_bitmap : ℕ → ℕ → Allocator → (FrameError ⊎ Unit {0}) × Allocator
release_bitmap order start a =
    let count = 2 ^ order in
    if not (start % count == 0)
    then (inl FrameError.unaligned, a)
    else if range_state start count reserved a
    then (inl FrameError.duplicate_release, a)
    else if range_state start count free a
    then (inl FrameError.double_free, a)
    else if not (range_state start count allocated a)
    then (inl FrameError.invalid_range, a)
    else (inr tt, set_lists a (mark count start free a.lists))

abbrev of_lists : Allocator → Released × Buddy → (FrameError ⊎ Unit {0}) × Allocator
of_lists a (ok, b) = (inr tt, set_lists a b)
of_lists a (err e, b) = (inl (frame_error e), set_lists a b)

abbrev release_at : ℕ → Allocator → FrameError ⊎ ℕ → (FrameError ⊎ Unit {0}) × Allocator
release_at order a (inl e) = (inl e, a)
release_at order a (inr start) =
    if a.buddy_active
    then of_lists a (release start order a.lists)
    else release_bitmap order start a

unfoldable pub release_frames : ℕ → ℕ → Allocator → (FrameError ⊎ Unit {0}) × Allocator
release_frames address order a =
    if ltb max_order order
    then (inl FrameError.invalid_order, a)
    else release_at order a (frame_index address a)

unfoldable pub endpoint : ℕ → Allocator → FrameError ⊎ ℕ
endpoint address a =
    if not (address % page_size == 0)
    then inl FrameError.unaligned
    else if leb (address / page_size) a.lists.frame_count
    then inr (address / page_size)
    else inl FrameError.unsupported_address

unfoldable pub any_allocated : ℕ → ℕ → Buddy → Bool
any_allocated zero frame b = false
any_allocated (suc n) frame b =
    same_state (b.state frame) allocated || any_allocated n (suc frame) b

-- One round of the loop of `reserve`; `none` is the panic of `isolate`.
abbrev pub put_isolated : ℕ → Option (Bool × Buddy) → Option Buddy
put_isolated frame none = none
put_isolated frame (some (listed, b)) = some (mark 1 frame reserved b)

abbrev pub put_away : Bool → ℕ → Buddy → Option Buddy
put_away false frame b = some (mark 1 frame reserved b)
put_away true frame b = put_isolated frame (isolate frame b)

unfoldable pub reserve_frames : ℕ → Bool → ℕ → Buddy → Option Buddy
reserve_frames zero active frame b = some b
reserve_frames (suc n) active frame b = elim (same_state (b.state frame) free) [
  | false ↦ reserve_frames n active (suc frame) b
  | true ↦ elim (put_away active frame b) [
    | none ↦ none
    | some b' ↦ reserve_frames n active (suc frame) b'
  ]
]

abbrev put_lists : Allocator → Option Buddy → Option ((FrameError ⊎ Unit {0}) × Allocator)
put_lists a none = none
put_lists a (some b) = some (inr tt, set_lists a b)

abbrev reserve_at :
    Allocator → FrameError ⊎ ℕ → FrameError ⊎ ℕ → Option ((FrameError ⊎ Unit {0}) × Allocator)
reserve_at a (inl e) last = some (inl e, a)
reserve_at a (inr first) (inl e) = some (inl e, a)
reserve_at a (inr first) (inr last) =
    if leb last first
    then some (inl FrameError.invalid_range, a)
    else if any_allocated (last - first) first a.lists
    then some (inl FrameError.overlap, a)
    else put_lists a (reserve_frames (last - first) a.buddy_active first a.lists)

-- The debug assertion on `end` is not made.
unfoldable pub reserve : ℕ → ℕ → Allocator → Option ((FrameError ⊎ Unit {0}) × Allocator)
reserve start end a =
    if leb end start || not (start % page_size == 0) || not (end % page_size == 0)
    then some (inl FrameError.invalid_range, a)
    else reserve_at a (frame_index start a) (endpoint end a)
