-- ===== src/Mm/Vma/Sorted.antt =====
-- The regions of a memory map are aligned, not empty, sorted and apart; insertion and removal keep
-- that.
use Prim.Native.Nat.{ℕ, ◌%◌, ◌≤◌, ◌<◌, max, zero, suc}
use saeos.Prelude.{
  false, none, some, List, [], ◌∷◌, ltb, ◌≡◌, refl, arith, if◌then◌else◌, insert_at,
  partition_point,
}
use saeos.Mm.Vma.Region.{Region, Span}
use saeos.Mm.Vma.Regions.{holds, overlaps, cut, remove_loop}
use saeos.Mm.Vma.View.{view, page, view-cons}

pub record IsProper (r : Region) : Type 0 where
  pub nonempty : r.start < r.end
  pub start_aligned : r.start % 4096 ≡ 0
  pub end_aligned : r.end % 4096 ≡ 0

-- The regions lie above `lo` and one above the other.
abbrev pub IsSorted : ℕ → List Region → Type 0
IsSorted lo [] = Unit {0}
IsSorted lo (r ∷ rs) = (lo ≤ r.start) × IsProper r × IsSorted r.end rs

pub IsSorted-mono : (lo hi : ℕ) (rs : List Region) → lo ≤ hi → IsSorted hi rs → IsSorted lo rs
IsSorted-mono lo hi [] h s = tt
IsSorted-mono lo hi (r ∷ rs) h s = (omega arith, s.1, s.2)

cut-IsSorted :
    (start end lo : ℕ) (r : Region) (kept : List Region) (removed : List Span)
    → start ≤ end
    → start % 4096 ≡ 0
    → end % 4096 ≡ 0
    → lo ≤ r.start
    → IsProper r
    → IsSorted r.end kept
    → IsSorted lo (cut start end r (kept, removed)).0
cut-IsSorted start end lo r kept removed h hs he l p s =
    ground (arith, IsSorted-mono lo r.end kept, IsSorted-mono start r.end kept)

pub remove_loop-IsSorted :
    (start end lo : ℕ) (rs : List Region)
    → start ≤ end
    → start % 4096 ≡ 0
    → end % 4096 ≡ 0
    → IsSorted lo rs
    → IsSorted lo (remove_loop start end rs).0
unfolding remove_loop
remove_loop-IsSorted start end lo [] h hs he s = tt
remove_loop-IsSorted start end lo (r ∷ rs) h hs he s =
    let rest = remove_loop start end rs in
    cut-IsSorted start end lo r rest.0 rest.1 h hs he s.0 s.1
      (remove_loop-IsSorted start end r.end rs h hs he s.2)

abbrev pub insert_sorted : Region → List Region → List Region
insert_sorted r rs = insert_at (partition_point (λ other. ltb other.start r.start) rs) r rs

pub insert_sorted-IsSorted :
    (lo : ℕ) (r : Region) (rs : List Region)
    → lo ≤ r.start
    → IsProper r
    → IsSorted lo rs
    → overlaps rs r.start r.end ≡ false
    → IsSorted lo (insert_sorted r rs)
insert_sorted-IsSorted lo r [] l p s free = (l, p, tt)
insert_sorted-IsSorted lo r (x ∷ rs) l p s free = ground (arith, insert_sorted-IsSorted x.end r rs)

pub view_below :
    (lo address : ℕ) (rs : List Region) → IsSorted lo rs → address < lo → view rs address ≡ none
unfolding view
view_below lo address [] s h = refl
view_below lo address (r ∷ rs) s h = ground (arith, view_below r.end address rs s.2)

pub view-insert_at :
    (address n : ℕ) (r : Region) (rs : List Region)
    → overlaps rs r.start r.end ≡ false
    → view (insert_at n r rs) address
      ≡ (if holds address r then some (page r address) else view rs address)
unfolding view
view-insert_at address zero r rs free = refl
view-insert_at address (suc n) r [] free = refl
view-insert_at address (suc n) r (x ∷ rs) free = ground (arith, view-insert_at address n r rs)

pub view-insert_sorted :
    (address : ℕ) (r : Region) (rs : List Region)
    → overlaps rs r.start r.end ≡ false
    → view (insert_sorted r rs) address
      ≡ (if holds address r then some (page r address) else view rs address)
view-insert_sorted address r rs free =
    view-insert_at address (partition_point (λ other. ltb other.start r.start) rs) r rs free

-- A range with no page behind any address meets no region.
pub overlaps_of_view :
    (lo start end : ℕ) (rs : List Region)
    → IsSorted lo rs
    → start < end
    → ((address : ℕ) → start ≤ address → address < end → view rs address ≡ none)
    → overlaps rs start end ≡ false
overlaps_of_view lo start end [] s h bare = refl
overlaps_of_view lo start end (r ∷ rs) s h bare =
    let later = overlaps_of_view r.end start end rs s.2 h (λ a p q. later_bare a (bare a p q)) in
    ground (arith, bare (max start r.start), view-cons r rs (max start r.start))
  where
    later_bare : (a : ℕ) → view (r ∷ rs) a ≡ none → view rs a ≡ none
    later_bare a e = ground (arith, view-cons r rs a)

-- The converse.
pub view_of_overlaps :
    (start end address : ℕ) (rs : List Region)
    → overlaps rs start end ≡ false
    → start ≤ address
    → address < end
    → view rs address ≡ none
unfolding view
view_of_overlaps start end address [] free h k = refl
view_of_overlaps start end address (r ∷ rs) free h k =
    ground (arith, view_of_overlaps start end address rs)
