-- ===== src/Mm/Vma/Brk.antt =====
-- `MemoryMap::set_brk`: the heap region follows the break.
use Prim.Native.Nat.{ℕ, ◌-◌, ◌≤◌, ◌<◌, max}
use saeos.Prelude.{
  Bool, true, false, not, ◌&&◌, Option, none, some, List, [], ◌∷◌, ltb, ◌≡◌, refl, arith,
  if◌then◌else◌, Bool-cases, ◌⊎◌, inl, inr, retain, any,
}
use saeos.Prelude.Words.{u64_mod}
use saeos.Fs.Errno.{Result, ok, err}
use saeos.Mm.Vma.Region.{Region, RegionKind, MemoryMap, BrkChange, is_heap, moved, read_write}
use saeos.Mm.Vma.Regions.{overlaps, insert}
use saeos.Mm.Vma.Ops.{blocked, brk_change, put_heap, set_brk}
use saeos.Mm.Vma.View.{Page, view, page}
use saeos.Mm.Vma.Sorted.{
  IsProper, IsSorted, IsSorted-mono, view_below, insert_sorted, insert_sorted-IsSorted,
  view-insert_sorted,
}
use saeos.Mm.Vma.Valid.{IsValid, in_range, insert_free}
use saeos.Mm.Vma.Place.{round_up}

abbrev pub others : List Region → List Region
others rs = retain (λ r. not (is_heap r.kind)) rs

-- A page that is not the heap's.
abbrev pub drop_heap : Option Page → Option Page
drop_heap none = none
drop_heap (some p) = if is_heap p.kind then none else some p

is_heap-moved : (d : ℕ) (k : RegionKind) → is_heap (moved d k) ≡ is_heap k
is_heap-moved d RegionKind.image = refl
is_heap-moved d RegionKind.heap = refl
is_heap-moved d RegionKind.stack = refl
is_heap-moved d RegionKind.anonymous = refl
is_heap-moved d (RegionKind.device p) = refl

is_heap-page : (r : Region) (a : ℕ) → is_heap (page r a).kind ≡ is_heap r.kind
unfolding page
is_heap-page r a = is_heap-moved (a - r.start) r.kind

view-others :
    (lo a : ℕ) (rs : List Region) → IsSorted lo rs → view (others rs) a ≡ drop_heap (view rs a)
unfolding view
view-others lo a [] s = refl
view-others lo a (r ∷ rs) s =
    ground (arith, view-others r.end a rs s.2, view_below r.end a rs s.2, is_heap-page r a)

others-IsSorted : (lo : ℕ) (rs : List Region) → IsSorted lo rs → IsSorted lo (others rs)
others-IsSorted lo [] s = tt
others-IsSorted lo (r ∷ rs) s =
    ground (arith, others-IsSorted r.end rs s.2, IsSorted-mono lo r.end (others rs))

-- Where nothing but the heap meets the heap's range, the other regions leave it free.
others-free :
    (start end limit : ℕ) (rs : List Region)
    → end ≤ limit
    → any (λ r. not (is_heap r.kind) && ltb r.start limit && ltb start r.end) rs ≡ false
    → overlaps (others rs) start end ≡ false
others-free start end limit [] h free = refl
others-free start end limit (r ∷ rs) h free = ground (arith, others-free start end limit rs h)

-- What a successful brk does: the heap's pages are those from its start to the new break, rounded
-- up, and every other page stays.
pub record Moved (address : ℕ) (m : MemoryMap) (change : BrkChange) (n : MemoryMap) : Type 0 where
  pub valid : IsValid n
  pub brk_moved : n.brk ≡ address
  pub above : m.brk_start ≤ address
  pub pages :
      (a : ℕ)
      → view n.regions a ≡ (
          if in_range m.brk_start (round_up address) a
          then some (record { protection = read_write; kind = RegionKind.heap })
          else drop_heap (view m.regions a))
  pub reported : change ≡ brk_change (round_up m.brk) (round_up address)

abbrev pub Moves : ℕ → MemoryMap → Result BrkChange × MemoryMap → Type 0
Moves address m (ok change, n) = Moved address m change n
Moves address m (err e, n) = n ≡ m

heap_region : ℕ → ℕ → Region
heap_region start end = record {
  start = start;
  end = end;
  protection = read_write;
  kind = RegionKind.heap;
}

module _ (address : ℕ) (m : MemoryMap) (v : IsValid m) (above : m.brk_start ≤ address)
    (free : overlaps (others m.regions) m.brk_start (round_up address) ≡ false) where
  -- The map once the old heap region has gone.
  abbrev without : MemoryMap
  without = record m { regions = others m.regions }

  no_heap :
      round_up address ≤ m.brk_start
      → Moved address m
          (brk_change (round_up m.brk) (round_up address))
          (record without { brk = address })
  no_heap h = record {
    valid = record {
      sorted = others-IsSorted 0 m.regions v.sorted;
      brk_start_aligned = v.brk_start_aligned;
      mmap_top_aligned = v.mmap_top_aligned;
    };
    brk_moved = refl;
    above = above;
    pages = λ a. ground (arith, view-others 0 a m.regions v.sorted);
    reported = refl;
  }

  new_heap :
      m.brk_start < round_up address
      → let r = heap_region m.brk_start (round_up address) in
        (insert r without ≡ (ok tt, record m { regions = insert_sorted r (others m.regions) }))
        × Moved address m
            (brk_change (round_up m.brk) (round_up address))
            (record m { regions = insert_sorted r (others m.regions); brk = address })
  unfolding heap_region page
  new_heap h =
      let r = heap_region m.brk_start (round_up address) in
      let proper : IsProper r = record {
        nonempty = h;
        start_aligned = v.brk_start_aligned;
        end_aligned = omega arith;
      } in
      (
        insert_free r without proper free,
        record {
          valid = record {
            sorted =
                insert_sorted-IsSorted 0 r (others m.regions) (omega arith) proper
                  (others-IsSorted 0 m.regions v.sorted) free;
            brk_start_aligned = v.brk_start_aligned;
            mmap_top_aligned = v.mmap_top_aligned;
          };
          brk_moved = refl;
          above = above;
          pages = λ a. ground (
            arith,
            view-insert_sorted a r (others m.regions) free,
            view-others 0 a m.regions v.sorted,
          );
          reported = refl;
        },
      )

  put_heap_cases :
      (ltb m.brk_start (round_up address) ≡ true) ⊎ (ltb m.brk_start (round_up address) ≡ false)
      → (n : MemoryMap) × (put_heap (round_up address) without ≡ (ok tt, n))
        × Moved address m
            (brk_change (round_up m.brk) (round_up address))
            (record n { brk = address })
  unfolding put_heap heap_region
  put_heap_cases (inl some_heap) =
      let (e, moves) = new_heap (ground arith) in
      (
        record m {
          regions = insert_sorted (heap_region m.brk_start (round_up address)) (others m.regions);
        },
        rw some_heap e,
        moves,
      )
  put_heap_cases (inr none_left) = (without, rw none_left refl, no_heap (ground arith))

-- brk on every branch. On success the break is the address asked for, the heap's pages are those
-- from its start to the new break rounded up, readable and writable, every page that was not the
-- heap's stays, and the change reported is the one from the old rounded break to the new. On an
-- error the map is as it was: in particular the old heap region is not lost.
pub set_brk-Moves : (address : ℕ) (m : MemoryMap) → IsValid m → Moves address m (set_brk address m)
unfolding set_brk
set_brk-Moves address m v = elim (Bool-cases (ltb address m.brk_start)) [
  | inl low ↦ rw low refl
  | inr above ↦ rw above (elim (Bool-cases (ltb (round_up m.brk) u64_mod)) [
    | inr big ↦ rw big refl
    | inl fits ↦ rw fits (elim (Bool-cases (ltb (round_up address) u64_mod)) [
      | inr big ↦ rw big refl
      | inl ends ↦ rw ends (elim (Bool-cases (blocked m (round_up m.brk) (round_up address))) [
        | inl barred ↦ rw barred refl
        | inr clear ↦
            let free =
              others-free m.brk_start (round_up address) (max (round_up m.brk) (round_up address))
                m.regions (omega arith) (ground arith) in
            let (n, e, moves) = put_heap_cases address m v (ground arith) free (Bool-cases _) in
            rw (clear, e) moves
      ])
    ])
  ])
]

-- Whether a change maps the address.
abbrev pub covers : BrkChange → ℕ → Bool
covers (BrkChange.map_span s) a = in_range s.start s.end a
covers BrkChange.unchanged a = false
covers (BrkChange.unmap_span s) a = false

-- The bug: a heap page that munmap took away, or a mapping that was placed over it and removed,
-- comes back in the map with the next brk beyond it, while the span to map leaves it out. So the
-- map claims a page that the kernel was never told to map.
pub brk_claims_hole :
    (address a : ℕ) (m n : MemoryMap) (change : BrkChange)
    → IsValid m
    → set_brk address m ≡ (ok change, n)
    → view m.regions a ≡ none
    → m.brk_start ≤ a
    → a < round_up m.brk
    → a < round_up address
    → (view n.regions a ≡ some (record { protection = read_write; kind = RegionKind.heap }))
      × (covers change a ≡ false)
brk_claims_hole address a m n change v e hole low high new =
    let moved : Moved address m change n = rw e at (set_brk-Moves address m v) in
    (ground (arith, moved.pages a), ground (arith, moved.reported))
