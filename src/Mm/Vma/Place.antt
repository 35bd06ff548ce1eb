-- ===== src/Mm/Vma/Place.antt =====
-- `MemoryMap::place`, the body of mmap: what it maps, where, and what stays.
use Prim.Native.Nat.{ℕ, ◌+◌, ◌*◌, ◌/◌, ◌%◌, ◌≤◌, ◌<◌}
use saeos.Prelude.{
  Bool, not, ◌&&◌, none, some, List, ltb, ◌==◌, ◌≡◌, refl, arith, if◌then◌else◌, Bool-cases, inl,
  inr,
}
use saeos.Prelude.Words.{u64_mod}
use saeos.Fs.Errno.{Result, ok, err}
use saeos.Mm.Vma.Region.{
  Region, RegionKind, Span, Protection, MemoryMap, MmapChange, min_address, aligned,
}
use saeos.Mm.Vma.Monad.{follow}
use saeos.Mm.Vma.Ops.{choose, finish, place}
use saeos.Mm.Vma.View.{view, page}
use saeos.Mm.Vma.Sorted.{IsProper, insert_sorted-IsSorted, view-insert_sorted}
use saeos.Mm.Vma.Spans.{span_at, protection_of}
use saeos.Mm.Vma.Valid.{IsValid, insert_free, in_range}
use saeos.Mm.Vma.Choose.{Chooses, choose-Chooses}

-- The region that `place` makes.
abbrev pub new_region : ℕ → ℕ → Protection → RegionKind → Region
new_region a len protection kind = record {
  start = a;
  end = a + len;
  protection = protection;
  kind = kind;
}

-- The pages of the new region are what was asked for; all other addresses keep theirs.
pub record Placed (len : ℕ) (protection : Protection) (kind : RegionKind) (m : MemoryMap)
    (c : MmapChange) (n : MemoryMap) : Type 0 where
  pub valid : IsValid n
  pub mapped :
      (a : ℕ)
      → view n.regions a ≡ (
          if in_range c.address (c.address + len) a
          then some (page (new_region c.address len protection kind) a)
          else view m.regions a)
  pub replaced_exact :
      (a : ℕ)
      → span_at c.replaced a ≡ (
          if in_range c.address (c.address + len) a then protection_of (view m.regions a) else none)
  pub new_span :
      c.new ≡ record { start = c.address; end = c.address + len; protection = protection }
  pub above_min : min_address ≤ c.address
  pub below_top : c.address + len ≤ m.mmap_top
  pub brk_kept : n.brk ≡ m.brk

-- An error leaves the map as it was.
abbrev pub Places : ℕ → Protection → RegionKind → MemoryMap → Result MmapChange × MemoryMap → Type 0
Places len protection kind m (ok c, n) = Placed len protection kind m c n
Places len protection kind m (err e, n) = n ≡ m

finish-Places :
    (len : ℕ) (protection : Protection) (kind : RegionKind) (m : MemoryMap)
    (out : Result (ℕ × List Span) × MemoryMap)
    → len % 4096 ≡ 0
    → 0 < len
    → Chooses m len out
    → Places len protection kind m (follow out (finish len protection kind))
unfolding finish
finish-Places len protection kind m (err e, n) hl pos c = c
finish-Places len protection kind m (ok (a, spans), n) hl pos c =
    let r = new_region a len protection kind in
    let p : IsProper r = omega arith in
    rw (insert_free r n p c.place.free) (record {
      valid = record {
        sorted =
            insert_sorted-IsSorted 0 r n.regions (omega arith) p c.removed.valid.sorted
              c.place.free;
        brk_start_aligned = c.removed.valid.brk_start_aligned;
        mmap_top_aligned = c.removed.valid.mmap_top_aligned;
      };
      mapped = λ x. ground (arith, view-insert_sorted x r n.regions c.place.free, c.removed.bare x);
      replaced_exact = c.removed.exact;
      new_span = refl;
      above_min = c.place.above_min;
      below_top = omega arith;
      brk_kept = c.removed.brk_kept;
    })

-- A length rounded up to whole pages.
abbrev pub round_up : ℕ → ℕ
round_up length = (length + 4095) / 4096 * 4096

pub place-Places :
    (hint length : ℕ) (protection : Protection) (fixed : Bool) (kind : RegionKind) (m : MemoryMap)
    → IsValid m
    → Places (round_up length) protection kind m (place hint length protection fixed kind m)
unfolding place
place-Places hint length protection fixed kind m v = elim (Bool-cases (length == 0)) [
  | inl zero_length ↦ rw zero_length refl
  | inr some_length ↦ rw some_length (elim (Bool-cases (ltb (round_up length) u64_mod)) [
    | inr big ↦ rw big refl
    | inl fits ↦ rw fits (elim (Bool-cases (fixed && not (aligned hint))) [
      | inl odd ↦ rw odd refl
      | inr even ↦ rw even (
          finish-Places (round_up length) protection kind m (choose hint (round_up length) fixed m)
            (omega arith) (ground arith)
            (choose-Chooses hint (round_up length) fixed m v (omega arith) (ground arith)))
    ])
  ])
]
