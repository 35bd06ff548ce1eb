-- ===== src/Exec/Loads.antt =====
-- A program that `plan` accepts gets its memory map, with the stack above its segments.
use Prim.Native.Nat.{ℕ, ◌%◌}
use saeos.Prelude.{
  true, false, ◌&&◌, Option, none, some, List, [], ◌∷◌, ◌++◌, map, length, ltb, leb, if◌then◌else◌,
  ◌≡◌, refl, ◌∙◌, ap, sym, arith, inl, inr, Bool-cases,
}
use saeos.Fs.Errno.{ok}
use saeos.Mm.Vma.Region.{Region, MemoryMap}
use saeos.Mm.Vma.Regions.{holds, overlaps}
use saeos.Mm.Vma.Ops.{new}
use saeos.Mm.Vma.View.{Page, page, view}
use saeos.Mm.Vma.Sorted.{IsProper, insert_sorted}
use saeos.Mm.Vma.Valid.{IsValid}
use saeos.Mm.Vma.Fresh.{Fits, over, overlaps-insert_sorted, insert_all-Filled}
use saeos.Exec.Elf.Plan.{Segment, LoadPlan, plan}
use saeos.Exec.Elf.Segments.{IsSegment, Clear, Segments, IsPlan, plan-IsPlan}
use saeos.Exec.Image.{region_of, stack_region, user_stack_guard, highest_end, new_map, memory_map}

-- None of the segments meets a region.
abbrev Free : List Segment → List Region → Type 0
Free [] present = Unit {0}
Free (s ∷ ss) present = (overlaps present s.start s.end ≡ false) × Free ss present

Free-insert :
    (s : Segment) (ss : List Segment) (present : List Region)
    → Clear s ss
    → Free ss present
    → Free ss (insert_sorted (region_of s) present)
Free-insert s [] present c f = tt
Free-insert s (t ∷ ts) present c f = (
  ground (arith, overlaps-insert_sorted (region_of s) present t.start t.end, c.0),
  Free-insert s ts present c.1 f.1,
)

Free-empty : (ss : List Segment) → Free ss []
Free-empty [] = tt
Free-empty (s ∷ ss) = (refl, Free-empty ss)

segment-IsProper :
    {file_length user_top : ℕ} {s : Segment}
    → IsSegment file_length user_top s
    → IsProper (region_of s)
segment-IsProper v = record {
  nonempty = omega (arith, v.covers_start, v.covers_end, v.some_bytes);
  start_aligned = v.start_aligned;
  end_aligned = v.end_aligned;
}

image-Fits :
    (file_length : ℕ) (ss : List Segment) (present : List Region)
    → Segments file_length user_stack_guard ss
    → Free ss present
    → overlaps present stack_region.start stack_region.end ≡ false
    → Fits (map region_of ss ++ stack_region ∷ []) present
image-Fits file_length [] present g f apart =
    (record { nonempty = omega arith; start_aligned = refl; end_aligned = refl }, apart, tt)
image-Fits file_length (s ∷ ss) present (is, clear, rest) (free, f) apart = (
  segment-IsProper is,
  free,
  image-Fits file_length ss (insert_sorted (region_of s) present) rest
      (Free-insert s ss present clear f)
      (ground (
        arith,
        overlaps-insert_sorted (region_of s) present stack_region.start stack_region.end,
        is.below,
      )),
)

-- The page behind an address of an image: a segment's, with the segment's rights, or the stack's.
abbrev pub image_page : List Segment → ℕ → Option Page
image_page [] a = if holds a stack_region then some (page stack_region a) else none
image_page (s ∷ ss) a =
    if leb s.start a && ltb a s.end then some (page (region_of s) a) else image_page ss a

image_page_apart :
    (file_length a : ℕ) (s : Segment) (ss : List Segment)
    → IsSegment file_length user_stack_guard s
    → Clear s ss
    → holds a (region_of s) ≡ true
    → image_page ss a ≡ none
image_page_apart file_length a s [] v c h = ground (arith, v.below)
image_page_apart file_length a s (t ∷ ts) v c h =
    ground (arith, c.0, image_page_apart file_length a s ts v c.1 h)

abbrev or_page : Option Page → Option Page → Option Page
or_page none behind = behind
or_page (some p) behind = some p

over-image :
    (file_length a : ℕ) (ss : List Segment) (behind : Option Page)
    → Segments file_length user_stack_guard ss
    → over (map region_of ss ++ stack_region ∷ []) a behind ≡ or_page (image_page ss a) behind
over-image file_length a [] behind g = elim (Bool-cases (holds a stack_region)) [
  | inl h ↦ rw h refl
  | inr h ↦ rw h refl
]
over-image file_length a (s ∷ ss) behind (is, clear, rest) =
    elim (Bool-cases (holds a (region_of s))) [
      | inl h ↦
          over-image file_length a ss _ rest
          ∙ rw (image_page_apart file_length a s ss is clear h, h) refl
      | inr h ↦ over-image file_length a ss _ rest ∙ rw h refl
    ]

or_page-none : (o : Option Page) → or_page o none ≡ o
or_page-none none = refl
or_page-none (some p) = refl

highest_end_aligned :
    (file_length user_top : ℕ) (ss : List Segment)
    → Segments file_length user_top ss
    → highest_end ss % 4096 ≡ 0
highest_end_aligned file_length user_top [] g = refl
highest_end_aligned file_length user_top (s ∷ []) g = g.0.end_aligned
highest_end_aligned file_length user_top (s ∷ t ∷ ts) (is, clear, rest) =
    omega (arith, is.end_aligned, highest_end_aligned file_length user_top (t ∷ ts) rest)

page_guarded :
    (r : Region) (a : ℕ) (p : Page)
    → some (page r a) ≡ some p
    → (r.protection.write && r.protection.execute) ≡ false
    → (p.protection.write && p.protection.execute) ≡ false
unfolding page
page_guarded r a p e g = ground arith

image_page_guarded :
    (file_length a : ℕ) (ss : List Segment) (p : Page)
    → Segments file_length user_stack_guard ss
    → image_page ss a ≡ some p
    → (p.protection.write && p.protection.execute) ≡ false
image_page_guarded file_length a [] p g e = elim (Bool-cases (holds a stack_region)) [
  | inl h ↦ page_guarded stack_region a p (ground arith) refl
  | inr h ↦ absurd (ground arith)
]
image_page_guarded file_length a (s ∷ ss) p (is, clear, rest) e =
    elim (Bool-cases (leb s.start a && ltb a s.end)) [
      | inl h ↦ page_guarded (region_of s) a p (ground arith) is.guarded
      | inr h ↦ image_page_guarded file_length a ss p rest (ground arith)
    ]

-- The memory map of a plan.
pub record Loads (segments : List Segment) (m : MemoryMap) : Type 0 where
  pub valid : IsValid m
  pub pages : (a : ℕ) → view m.regions a ≡ image_page segments a
  pub guarded :
      (a : ℕ) (p : Page)
      → view m.regions a ≡ some p
      → (p.protection.write && p.protection.execute) ≡ false
  pub heap_empty : m.brk ≡ m.brk_start
  pub heap_at : m.brk_start ≡ highest_end segments
  pub top_at : m.mmap_top ≡ user_stack_guard

plan-Loads :
    (file_length : ℕ) (p : LoadPlan)
    → IsPlan file_length user_stack_guard p
    → (m : MemoryMap) × (memory_map p ≡ ok m) × Loads p.segments m
unfolding memory_map new view
plan-Loads file_length p v =
    let empty : MemoryMap = record {
      regions = [];
      brk_start = highest_end p.segments;
      brk = highest_end p.segments;
      mmap_top = user_stack_guard;
    } in
    let (m, done, filled) =
      insert_all-Filled (map region_of p.segments ++ stack_region ∷ []) empty tt
        (image-Fits file_length p.segments [] v.good (Free-empty p.segments) refl) in
    let pages : (a : ℕ) → view m.regions a ≡ image_page p.segments a =
      λ a. filled.pages a ∙ over-image file_length a p.segments none v.good ∙ or_page-none _ in
    (
      m,
      ap new_map done,
      record {
        valid = record {
          sorted = filled.in_order;
          brk_start_aligned =
              ap (λ b. b % 4096) filled.brk_start_kept
              ∙ highest_end_aligned file_length user_stack_guard p.segments v.good;
          mmap_top_aligned = ap (λ b. b % 4096) filled.mmap_top_kept;
        };
        pages = pages;
        guarded = λ a q e. image_page_guarded file_length a p.segments q v.good (sym (pages a) ∙ e);
        heap_empty = filled.brk_kept ∙ sym filled.brk_start_kept;
        heap_at = filled.brk_start_kept;
        top_at = filled.mmap_top_kept;
      },
    )

-- The two parts of `exec` that check a program agree: whatever the bytes of the file are, where `plan`
-- accepts them below the stack's guard page, `memory_map` does not fail. The map is valid, behind each
-- address is the page of the segment there with the segment's rights, or the stack's page, and no page
-- is writable and executable. The heap is empty and starts at the highest end of a segment, and mmap
-- uses what lies below the guard page.
pub accepted-Loads :
    (file : List ℕ) (p : LoadPlan)
    → plan file user_stack_guard ≡ ok p
    → (m : MemoryMap) × (memory_map p ≡ ok m) × Loads p.segments m
accepted-Loads file p e = plan-Loads (length file) p (plan-IsPlan file user_stack_guard p e)
