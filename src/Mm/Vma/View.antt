-- ===== src/Mm/Vma/View.antt =====
-- What a memory map means: which page of what, with which protection, is behind each address.
use Prim.Native.Nat.{ℕ, ◌+◌, ◌-◌, ◌≤◌}
use saeos.Prelude.{
  ◌∙◌, ◌&&◌, Option, none, some, List, [], ◌∷◌, ltb, leb, ◌≡◌, refl, arith, if◌then◌else◌, ap,
}
use saeos.Mm.Vma.Region.{Span, Region, RegionKind, Protection, piece, moved}
use saeos.Mm.Vma.Regions.{holds, cut, remove_loop}

-- The page behind an address: its protection, and the region's kind with the physical address moved
-- to that address.
pub record Page : Type 0 where
  pub protection : Protection
  pub kind : RegionKind

unfoldable pub page : Region → ℕ → Page
page r address = record { protection = r.protection; kind = moved (address - r.start) r.kind }

-- The page of the first region that holds the address.
unfoldable pub view : List Region → ℕ → Option Page
view [] address = none
view (r ∷ rs) address = if holds address r then some (page r address) else view rs address

moved-moved : (d e : ℕ) (k : RegionKind) → moved d (moved e k) ≡ moved (e + d) k
moved-moved d e RegionKind.image = refl
moved-moved d e RegionKind.heap = refl
moved-moved d e RegionKind.stack = refl
moved-moved d e RegionKind.anonymous = refl
moved-moved d e (RegionKind.device p) = ap RegionKind.device (omega arith)

-- A piece of a region has the region's pages.
pub page-piece :
    (r : Region) (start end address : ℕ)
    → r.start ≤ start
    → start ≤ address
    → page (piece r start end) address ≡ page r address
unfolding page
page-piece r start end address h k =
    rw (moved-moved (address - start) (start - r.start) r.kind)
      (ap (λ d. record { protection = r.protection; kind = moved d r.kind }) (omega arith))

pub view-cons :
    (r : Region) (rs : List Region) (address : ℕ)
    → view (r ∷ rs) address ≡ (if holds address r then some (page r address) else view rs address)
unfolding view
view-cons r rs address = refl

-- One round of the removal: the range is left to the later regions, and the rest keeps its pages.
view-cut :
    (start end address : ℕ) (r : Region) (kept : List Region) (removed : List Span)
    → start ≤ end
    → view (cut start end r (kept, removed)).0 address ≡ (
        if leb start address && ltb address end then view kept address else view (r ∷ kept) address)
view-cut start end address r kept removed h = ground (
  arith,
  view-cons r kept address,
  view-cons (piece r r.start start) kept address,
  view-cons (piece r end r.end) kept address,
  view-cons (piece r r.start start) (piece r end r.end ∷ kept) address,
  page-piece r r.start start address,
  page-piece r end r.end address,
)

pub view-remove_loop :
    (start end address : ℕ) (rs : List Region)
    → start ≤ end
    → view (remove_loop start end rs).0 address
      ≡ (if leb start address && ltb address end then none else view rs address)
unfolding view remove_loop
view-remove_loop start end address [] h = ground arith
view-remove_loop start end address (r ∷ rs) h =
    let rest = remove_loop start end rs in
    view-cut start end address r rest.0 rest.1 h
    ∙ ground (arith, view-remove_loop start end address rs h)
