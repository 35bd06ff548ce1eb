-- ===== src/Mm/Vma/Gap.antt =====
-- `MemoryMap::find_free`: the gap that it finds is free, and the highest one.
use Prim.Native.Nat.{ℕ, ◌+◌, ◌*◌, ◌/◌, ◌%◌, ◌≤◌, ◌<◌, min, max}
use mathlib.Core.List.{reverse, reverse-cons}
use saeos.Prelude.{
  Bool, false, ◌||◌, Option, none, some, List, [], ◌∷◌, ◌++◌, ◌≡◌, refl, arith, any,
}
use saeos.Prelude.Words.{u64_mod}
use saeos.Mm.Vma.Region.{Region, MemoryMap, min_address}
use saeos.Mm.Vma.Regions.{meets, overlaps, find_gap}
use saeos.Mm.Vma.Ops.{find_free}
use saeos.Mm.Vma.Sorted.{IsSorted, IsProper}

-- The regions, the highest first, lie below `hi` and one below the other.
abbrev Falls : ℕ → List Region → Type 0
Falls hi [] = Unit {0}
Falls hi (r ∷ rs) = (r.end ≤ hi) × IsProper r × Falls r.start rs

Falls-mono : (lo hi : ℕ) (rs : List Region) → lo ≤ hi → Falls lo rs → Falls hi rs
Falls-mono lo hi [] h f = tt
Falls-mono lo hi (r ∷ rs) h f = (omega arith, f.1, f.2)

abbrev StartAbove : ℕ → List Region → Type 0
StartAbove lo [] = Unit {0}
StartAbove lo (r ∷ rs) = (lo ≤ r.start) × StartAbove lo rs

StartAbove-append :
    (lo : ℕ) (rs : List Region) (r : Region)
    → StartAbove lo rs
    → lo ≤ r.start
    → StartAbove lo (rs ++ r ∷ [])
StartAbove-append lo [] r a h = (h, tt)
StartAbove-append lo (x ∷ rs) r a h = (a.0, StartAbove-append lo rs r a.1 h)

Falls-append :
    (hi : ℕ) (rs : List Region) (r : Region)
    → Falls hi rs
    → StartAbove r.end rs
    → IsProper r
    → r.end ≤ hi
    → Falls hi (rs ++ r ∷ [])
Falls-append hi [] r f a p h = (h, p, tt)
Falls-append hi (x ∷ rs) r f a p h = (f.0, f.1, Falls-append x.start rs r f.2 a.1 p a.0)

StartAbove-reverse :
    (lo hi : ℕ) (rs : List Region) → lo ≤ hi → IsSorted hi rs → StartAbove lo (reverse rs)
StartAbove-reverse lo hi [] h s = tt
StartAbove-reverse lo hi (r ∷ rs) h s = rw (reverse-cons r rs) (
    StartAbove-append lo (reverse rs) r
      (StartAbove-reverse lo r.end rs (omega (arith, s.1.nonempty)) s.2) (omega arith))

-- Where the last region ends.
abbrev last_end : ℕ → List Region → ℕ
last_end lo [] = lo
last_end lo (r ∷ rs) = last_end r.end rs

last_end_ge : (lo : ℕ) (rs : List Region) → IsSorted lo rs → lo ≤ last_end lo rs
last_end_ge lo [] s = omega arith
last_end_ge lo (r ∷ rs) s = omega (arith, last_end_ge r.end rs s.2)

Falls-reverse : (lo : ℕ) (rs : List Region) → IsSorted lo rs → Falls (last_end lo rs) (reverse rs)
Falls-reverse lo [] s = tt
Falls-reverse lo (r ∷ rs) s = rw (reverse-cons r rs) (
    Falls-append (last_end r.end rs) (reverse rs) r (Falls-reverse r.end rs s.2)
      (StartAbove-reverse r.end r.end rs (omega arith) s.2) s.1 (last_end_ge r.end rs s.2))

-- A free range of `len` bytes below `top`.
record IsGap (floor len top : ℕ) (rs : List Region) (start : ℕ) : Type 0 where
  above : floor ≤ start
  below : start + len ≤ top
  free : overlaps rs start (start + len) ≡ false

overlaps_below :
    (start end hi : ℕ) (rs : List Region) → Falls hi rs → hi ≤ start → overlaps rs start end ≡ false
overlaps_below start end hi [] f h = refl
overlaps_below start end hi (r ∷ rs) f h = ground (arith, overlaps_below start end r.start rs)

-- What the loop finds is a gap, and aligned.
find_gap-IsGap :
    (floor len top hi : ℕ) (rs : List Region) (start : ℕ)
    → Falls hi rs
    → len % 4096 ≡ 0
    → top % 4096 ≡ 0
    → find_gap floor len top rs ≡ some start
    → IsGap floor len top rs start × (start % 4096 ≡ 0)
unfolding find_gap
find_gap-IsGap floor len top hi [] start f hl ht e = ground arith
find_gap-IsGap floor len top hi (r ∷ rs) start f hl ht e = ground (
  arith,
  find_gap-IsGap floor len top r.start rs start f.2 hl ht,
  find_gap-IsGap floor len (min top r.start) r.start rs start f.2 hl,
  overlaps_below start (start + len) r.start rs f.2,
)

abbrev pub AtLeast : ℕ → Option ℕ → Type 0
AtLeast s none = ⊥
AtLeast s (some x) = s ≤ x

-- And no gap lies above it.
find_gap_highest :
    (floor len top hi : ℕ) (rs : List Region) (s : ℕ)
    → Falls hi rs
    → 0 < len
    → IsGap floor len top rs s
    → AtLeast s (find_gap floor len top rs)
unfolding find_gap
find_gap_highest floor len top hi [] s f h g = ground arith
find_gap_highest floor len top hi (r ∷ rs) s f h g = ground (
  arith,
  find_gap_highest floor len top r.start rs s f.2 h,
  find_gap_highest floor len (min top r.start) r.start rs s f.2 h,
)

any-append : (p : Region → Bool) (xs ys : List Region) → any p (xs ++ ys) ≡ (any p xs || any p ys)
any-append p [] ys = refl
any-append p (x ∷ xs) ys = ground (arith, any-append p xs ys)

overlaps-reverse :
    (start end : ℕ) (rs : List Region) → overlaps (reverse rs) start end ≡ overlaps rs start end
overlaps-reverse start end [] = refl
overlaps-reverse start end (r ∷ rs) =
    rw (reverse-cons r rs, any-append (meets start end) (reverse rs) (r ∷ []))
      (ground (arith, overlaps-reverse start end rs))

-- A place for `len` bytes: free, below the stack guard, and above the heap and the lowest pages.
pub record IsPlace (m : MemoryMap) (len start : ℕ) : Type 0 where
  pub above_min : min_address ≤ start
  pub above_heap : m.brk ≤ start
  pub below_top : start + len ≤ m.mmap_top
  pub free : overlaps m.regions start (start + len) ≡ false
  pub start_aligned : start % 4096 ≡ 0

-- What `find_free` returns, for an aligned length, is a place.
pub find_free-IsPlace :
    (m : MemoryMap) (len start : ℕ)
    → IsSorted 0 m.regions
    → m.mmap_top % 4096 ≡ 0
    → len % 4096 ≡ 0
    → find_free m len ≡ some start
    → IsPlace m len start
unfolding find_free
find_free-IsPlace m len start s ht hl e = ground (
  arith,
  overlaps-reverse start (start + len) m.regions,
  find_gap-IsGap (max ((m.brk + 4095) / 4096 * 4096) min_address) len m.mmap_top
      (last_end 0 m.regions) (reverse m.regions) start (Falls-reverse 0 m.regions s) hl ht,
)

-- `find_free` is top-down: where there is a place, it finds one, and none lies above it.
pub find_free_highest :
    (m : MemoryMap) (len s : ℕ)
    → IsSorted 0 m.regions
    → m.mmap_top < u64_mod
    → 0 < len
    → IsPlace m len s
    → AtLeast s (find_free m len)
unfolding find_free
find_free_highest m len s sorted ht h g = ground (
  arith,
  overlaps-reverse s (s + len) m.regions,
  find_gap_highest (max ((m.brk + 4095) / 4096 * 4096) min_address) len m.mmap_top
      (last_end 0 m.regions) (reverse m.regions) s (Falls-reverse 0 m.regions sorted) h,
)
