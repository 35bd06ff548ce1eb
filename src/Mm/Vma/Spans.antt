-- ===== src/Mm/Vma/Spans.antt =====
-- The spans that `MemoryMap::remove` reports are exactly the mapped pages of the range.
use Prim.Native.Nat.{ℕ}
use saeos.Prelude.{
  ◌∙◌, ◌&&◌, Option, none, some, List, [], ◌∷◌, ltb, leb, ◌≡◌, arith, if◌then◌else◌,
}
use saeos.Mm.Vma.Region.{Region, Span, Protection}
use saeos.Mm.Vma.Regions.{holds, cut, remove_loop}
use saeos.Mm.Vma.View.{Page, view, page}

-- The protection that the spans give to an address, if one of them covers it.
unfoldable pub span_at : List Span → ℕ → Option Protection
span_at [] address = none
span_at (s ∷ ss) address =
    if leb s.start address && ltb address s.end then some s.protection else span_at ss address

abbrev pub protection_of : Option Page → Option Protection
protection_of none = none
protection_of (some p) = some p.protection

span_at-cut :
    (start end address : ℕ) (r : Region) (kept : List Region) (removed : List Span)
    → span_at (cut start end r (kept, removed)).1 address ≡ (
        if (leb start address && ltb address end) && holds address r
        then some r.protection
        else span_at removed address)
unfolding span_at
span_at-cut start end address r kept removed = ground arith

pub span_at-remove_loop :
    (start end address : ℕ) (rs : List Region)
    → span_at (remove_loop start end rs).1 address
      ≡ (if leb start address && ltb address end then protection_of (view rs address) else none)
unfolding span_at remove_loop view page
span_at-remove_loop start end address [] = ground arith
span_at-remove_loop start end address (r ∷ rs) =
    let rest = remove_loop start end rs in
    span_at-cut start end address r rest.0 rest.1
    ∙ ground (arith, span_at-remove_loop start end address rs)
