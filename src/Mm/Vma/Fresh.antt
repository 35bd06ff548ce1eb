-- ===== src/Mm/Vma/Fresh.antt =====
-- `MemoryMap::new`: a map made of regions that are apart.
use Prim.Native.Nat.{ℕ, zero, suc}
use saeos.Prelude.{
  Bool, false, ◌||◌, Option, some, List, [], ◌∷◌, ltb, any, insert_at, partition_point,
  if◌then◌else◌, ◌≡◌, refl, ◌∙◌, ap, arith,
}
use saeos.Fs.Errno.{ok}
use saeos.Mm.Vma.Region.{Region, MemoryMap}
use saeos.Mm.Vma.Regions.{holds, meets, overlaps}
use saeos.Mm.Vma.Ops.{insert_all}
use saeos.Mm.Vma.View.{Page, page, view}
use saeos.Mm.Vma.Sorted.{
  IsProper, IsSorted, insert_sorted, insert_sorted-IsSorted, view-insert_sorted,
}
use saeos.Mm.Vma.Valid.{insert_free}

-- The regions may be inserted one after the other.
abbrev pub Fits : List Region → List Region → Type 0
Fits [] present = Unit {0}
Fits (r ∷ rs) present =
    IsProper r × (overlaps present r.start r.end ≡ false) × Fits rs (insert_sorted r present)

any-insert_at :
    (p : Region → Bool) (n : ℕ) (r : Region) (rs : List Region)
    → any p (insert_at n r rs) ≡ (p r || any p rs)
any-insert_at p zero r rs = refl
any-insert_at p (suc n) r [] = refl
any-insert_at p (suc n) r (x ∷ xs) = ground (arith, any-insert_at p n r xs)

pub overlaps-insert_sorted :
    (r : Region) (rs : List Region) (start end : ℕ)
    → overlaps (insert_sorted r rs) start end ≡ (meets start end r || overlaps rs start end)
overlaps-insert_sorted r rs start end =
    any-insert_at (meets start end) (partition_point (λ other. ltb other.start r.start) rs) r rs

-- The page of the last of the regions that holds the address, and else the page behind it.
abbrev pub over : List Region → ℕ → Option Page → Option Page
over [] address behind = behind
over (r ∷ rs) address behind =
    over rs address (if holds address r then some (page r address) else behind)

-- What inserting them all leads to.
pub record Filled (rs : List Region) (m n : MemoryMap) : Type 0 where
  pub in_order : IsSorted 0 n.regions
  pub pages : (a : ℕ) → view n.regions a ≡ over rs a (view m.regions a)
  pub brk_start_kept : n.brk_start ≡ m.brk_start
  pub brk_kept : n.brk ≡ m.brk
  pub mmap_top_kept : n.mmap_top ≡ m.mmap_top

pub insert_all-Filled :
    (rs : List Region) (m : MemoryMap)
    → IsSorted 0 m.regions
    → Fits rs m.regions
    → (n : MemoryMap) × (insert_all rs m ≡ (ok tt, n)) × Filled rs m n
unfolding insert_all
insert_all-Filled [] m s f = (
  m,
  refl,
  record {
    in_order = s;
    pages = λ a. refl;
    brk_start_kept = refl;
    brk_kept = refl;
    mmap_top_kept = refl;
  },
)
insert_all-Filled (r ∷ rs) m s (p, free, fits) =
    let next : MemoryMap = record m { regions = insert_sorted r m.regions } in
    let (n, done, filled) =
      insert_all-Filled rs next (insert_sorted-IsSorted 0 r m.regions (omega arith) p s free)
        fits in
    (
      n,
      rw (insert_free r m p free) done,
      record {
        in_order = filled.in_order;
        pages = λ a. filled.pages a ∙ ap (over rs a) (view-insert_sorted a r m.regions free);
        brk_start_kept = filled.brk_start_kept;
        brk_kept = filled.brk_kept;
        mmap_top_kept = filled.mmap_top_kept;
      },
    )
