-- ===== src/Mm/Vma/Choose.antt =====
-- `MemoryMap::place` chooses where to map.
use Prim.Native.Nat.{ℕ, ◌+◌, ◌%◌, ◌≤◌, ◌<◌}
use saeos.Prelude.{
  Bool, true, false, not, ◌&&◌, Option, none, some, List, [], ◌==◌, ◌≡◌, refl, arith, Bool-cases,
  inl, inr,
}
use saeos.Fs.Errno.{Result, ok, err}
use saeos.Mm.Vma.Region.{Span, MemoryMap, min_address}
use saeos.Mm.Vma.Regions.{overlaps, remove}
use saeos.Mm.Vma.Ops.{usable, find_free, choose}
use saeos.Mm.Vma.Sorted.{overlaps_of_view, view_of_overlaps}
use saeos.Mm.Vma.Gap.{IsPlace, find_free-IsPlace}
use saeos.Mm.Vma.Spans.{span_at}
use saeos.Mm.Vma.Valid.{IsValid, Removed, remove-Removed}

-- What `choose` did: a free place within the limits, and what went there before.
pub record Chosen (m : MemoryMap) (len a : ℕ) (spans : List Span) (n : MemoryMap) : Type 0 where
  pub removed : Removed a (a + len) m spans n
  pub place : IsPlace (record n { brk = 0 }) len a

abbrev pub Chooses : MemoryMap → ℕ → Result (ℕ × List Span) × MemoryMap → Type 0
Chooses m len (ok (a, spans), n) = Chosen m len a spans n
Chooses m len (err e, n) = n ≡ m

-- A free range has nothing to remove.
free-Removed :
    (start end : ℕ) (m : MemoryMap)
    → IsValid m
    → overlaps m.regions start end ≡ false
    → Removed start end m [] m
unfolding span_at
free-Removed start end m v free = record {
  valid = v;
  bare = λ a. ground (arith, view_of_overlaps start end a m.regions free);
  exact = λ a. ground (arith, view_of_overlaps start end a m.regions free);
  brk_start_kept = refl;
  brk_kept = refl;
  mmap_top_kept = refl;
}

usable_facts :
    (m : MemoryMap) (len a : ℕ)
    → usable m len a ≡ true
    → (min_address ≤ a) × (a % 4096 ≡ 0) × (a + len ≤ m.mmap_top)
usable_facts m len a u = ground arith

choose_fixed :
    (hint len : ℕ) (m : MemoryMap)
    → IsValid m
    → len % 4096 ≡ 0
    → 0 < len
    → Chooses m len (choose hint len true m)
unfolding choose remove
choose_fixed hint len m v hl pos = elim (Bool-cases (usable m len hint)) [
  | inl u ↦
      let facts = usable_facts m len hint u in
      let gone = remove-Removed hint (hint + len) m v (omega arith) facts.1 (omega arith) in
      rw u (record {
        removed = gone;
        place = record {
          above_min = facts.0;
          above_heap = omega arith;
          below_top = facts.2;
          free =
              overlaps_of_view 0 hint (hint + len) _ gone.valid.sorted (omega arith)
                (λ a p q. ground (arith, gone.bare a));
          start_aligned = facts.1;
        };
      })
  | inr u ↦ rw u refl
]

find_free_cases :
    (len : ℕ) (m : MemoryMap) (o : Option ℕ)
    → find_free m len ≡ o
    → IsValid m
    → len % 4096 ≡ 0
    → Chooses m len (choose 0 len false m)
unfolding choose
find_free_cases len m none e v hl = rw e refl
find_free_cases len m (some a) e v hl =
    let p = find_free-IsPlace m len a v.sorted v.mmap_top_aligned hl e in
    rw e (record {
      removed = free-Removed a (a + len) m v p.free;
      place = record {
        above_min = p.above_min;
        above_heap = omega arith;
        below_top = p.below_top;
        free = p.free;
        start_aligned = p.start_aligned;
      };
    })

hinted :
    (m : MemoryMap) (len a : ℕ)
    → IsValid m
    → overlaps m.regions a (a + len) ≡ false
    → usable m len a ≡ true
    → Chosen m len a [] m
hinted m len a v free u =
    let facts = usable_facts m len a u in
    record {
      removed = free-Removed a (a + len) m v free;
      place = record {
        above_min = facts.0;
        above_heap = omega arith;
        below_top = facts.2;
        free = free;
        start_aligned = facts.1;
      };
    }

choose_anywhere :
    (hint len : ℕ) (m : MemoryMap)
    → IsValid m
    → len % 4096 ≡ 0
    → Chooses m len (choose hint len false m)
unfolding choose
choose_anywhere hint len m v hl =
    elim (Bool-cases
      (not (hint == 0) && usable m len hint && not (overlaps m.regions hint (hint + len)))) [
        | inl u ↦ rw u (hinted m len hint v (ground arith) (ground arith))
        | inr u ↦ rw u (find_free_cases len m (find_free m len) refl v hl)
      ]

pub choose-Chooses :
    (hint len : ℕ) (fixed : Bool) (m : MemoryMap)
    → IsValid m
    → len % 4096 ≡ 0
    → 0 < len
    → Chooses m len (choose hint len fixed m)
choose-Chooses hint len true m v hl pos = choose_fixed hint len m v hl pos
choose-Chooses hint len false m v hl pos = choose_anywhere hint len m v hl
