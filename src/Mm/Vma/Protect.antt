-- ===== src/Mm/Vma/Protect.antt =====
-- `MemoryMap::mprotect`: all or nothing.
use Prim.Native.Nat.{ℕ, ◌+◌, ◌%◌, ◌≤◌, ◌<◌}
use saeos.Prelude.{
  Bool, true, false, not, ◌&&◌, Option, none, some, List, [], ◌∷◌, ltb, ◌==◌, ◌≡◌, refl, arith,
  if◌then◌else◌, Bool-cases, inl, inr, is_some, retain, any,
}
use saeos.Prelude.Words.{u64_mod}
use saeos.Fs.Errno.{Result, ok, err}
use saeos.Mm.Vma.Region.{Region, Span, Protection, MemoryMap, is_device, aligned}
use saeos.Mm.Vma.Regions.{meets, remove, remove_loop}
use saeos.Mm.Vma.Ops.{cover, reinsert, protect, mprotect}
use saeos.Mm.Vma.View.{view, view-cons}
use saeos.Mm.Vma.Sorted.{IsSorted, IsSorted-mono, view_below}
use saeos.Mm.Vma.Spans.{span_at}
use saeos.Mm.Vma.Valid.{IsValid, in_range, remove-Removed}
use saeos.Mm.Vma.Place.{round_up}
use saeos.Mm.Vma.Reinsert.{reprotect, Meeting, Reinserts, reinsert-Reinserts}

-- Every address of the range has a page.
abbrev pub Covered : ℕ → ℕ → List Region → Type 0
Covered start end rs = (a : ℕ) → start ≤ a → a < end → is_some (view rs a) ≡ true

-- Where the loop over the regions ends at the end of the range, it has seen no gap.
cover-Covered :
    (end cursor c a : ℕ) (rs : List Region)
    → cover end cursor rs ≡ some c
    → end ≤ c
    → cursor ≤ a
    → a < end
    → is_some (view rs a) ≡ true
unfolding cover view
cover-Covered end cursor c a [] e le h k = ground arith
cover-Covered end cursor c a (r ∷ rs) e le h k =
    ground (arith, cover-Covered end cursor c a rs, cover-Covered end r.end c a rs)

abbrev Reaches : ℕ → Option ℕ → Type 0
Reaches end none = ⊥
Reaches end (some c) = end ≤ c

later_Covered :
    (end start later : ℕ) (r : Region) (rs : List Region)
    → r.end ≤ later
    → start ≤ later
    → Covered start end (r ∷ rs)
    → Covered later end rs
later_Covered end start later r rs h k c = λ a p q. ground (arith, c a, view-cons r rs a)

-- And without a gap it ends there.
Covered-cover :
    (end cursor lo : ℕ) (rs : List Region)
    → IsSorted lo rs
    → cursor < end
    → Covered cursor end rs
    → Reaches end (cover end cursor rs)
unfolding cover view
Covered-cover end cursor lo [] s lt c = ground (arith, c cursor)
Covered-cover end cursor lo (r ∷ rs) s lt c = ground (
  arith,
  c cursor,
  view_below r.end cursor rs s.2,
  λ (p : r.end ≤ cursor).
      Covered-cover end cursor r.end rs s.2 lt
        (later_Covered end cursor cursor r rs p (omega arith) c),
  λ (p : cursor ≤ r.end) (q : r.end < end).
      Covered-cover end r.end r.end rs s.2 q
        (later_Covered end cursor r.end r rs (omega arith) p c),
)

retain-Meeting :
    (start end : ℕ) (rs : List Region) → Meeting start end (retain (meets start end) rs)
retain-Meeting start end [] = tt
retain-Meeting start end (r ∷ rs) = ground (arith, retain-Meeting start end rs)

retain-IsSorted :
    (p : Region → Bool) (lo : ℕ) (rs : List Region) → IsSorted lo rs → IsSorted lo (retain p rs)
retain-IsSorted p lo [] s = tt
retain-IsSorted p lo (r ∷ rs) s =
    ground (arith, retain-IsSorted p r.end rs s.2, IsSorted-mono lo r.end (retain p rs))

-- The regions that meet the range have its pages.
view-retain :
    (start end a : ℕ) (rs : List Region)
    → start ≤ a
    → a < end
    → view (retain (meets start end) rs) a ≡ view rs a
unfolding view
view-retain start end a [] h k = refl
view-retain start end a (r ∷ rs) h k = ground (arith, view-retain start end a rs h k)

-- What mprotect does on success.
pub record Protected (start end : ℕ) (protection : Protection) (m : MemoryMap) (spans : List Span)
    (n : MemoryMap) : Type 0 where
  pub valid : IsValid n
  pub covered : Covered start end m.regions
  pub changed :
      (a : ℕ)
      → view n.regions a ≡ (
          if in_range start end a
          then reprotect protection (view m.regions a)
          else view m.regions a)
  pub exact : (a : ℕ) → span_at spans a ≡ (if in_range start end a then some protection else none)
  pub brk_kept : n.brk ≡ m.brk

abbrev pub Protects : ℕ → ℕ → Protection → MemoryMap → Result (List Span) × MemoryMap → Type 0
Protects start end protection m (ok spans, n) = Protected start end protection m spans n
Protects start end protection m (err e, n) = n ≡ m

-- It succeeds, and did that.
abbrev Succeeds : ℕ → ℕ → Protection → MemoryMap → Result (List Span) × MemoryMap → Type 0
Succeeds start end protection m (ok spans, n) = Protected start end protection m spans n
Succeeds start end protection m (err e, n) = ⊥

Succeeds-Protects :
    (start end : ℕ) (protection : Protection) (m : MemoryMap) (out : Result (List Span) × MemoryMap)
    → Succeeds start end protection m out
    → Protects start end protection m out
Succeeds-Protects start end protection m (ok spans, n) p = p
Succeeds-Protects start end protection m (err e, n) p = absurd p

ok_of_Succeeds :
    (start end : ℕ) (protection : Protection) (m : MemoryMap) (out : Result (List Span) × MemoryMap)
    → Succeeds start end protection m out
    → (spans : List Span) × (out.0 ≡ ok spans)
ok_of_Succeeds start end protection m (ok spans, n) p = (spans, refl)
ok_of_Succeeds start end protection m (err e, n) p = absurd p

empty_range :
    (start end : ℕ) (protection : Protection) (m : MemoryMap)
    → IsValid m
    → end ≤ start
    → Protected start end protection m [] m
unfolding span_at
empty_range start end protection m v h = record {
  valid = v;
  covered = λ a p q. absurd (omega arith);
  changed = λ a. ground arith;
  exact = λ a. ground arith;
  brk_kept = refl;
}

module _ (start end : ℕ) (protection : Protection) (m : MemoryMap) (v : IsValid m)
    (hs : start % 4096 ≡ 0) (he : end % 4096 ≡ 0) (lt : start < end) where
  abbrev inside : List Region
  inside = retain (meets start end) m.regions

  abbrev bared : MemoryMap
  bared = record m { regions = (remove_loop start end m.regions).0 }

  put_back :
      (out : Result (List Span) × MemoryMap)
      → Covered start end m.regions
      → Reinserts start end protection inside bared out
      → Succeeds start end protection m out
  put_back (err e, n) c r = r
  put_back (ok spans, n) c r =
      let gone = remove-Removed start end m v (omega arith) hs he in
      record {
        valid = r.valid;
        covered = c;
        changed =
            λ a. ground (arith, r.changed a, gone.bare a, c a, view-retain start end a m.regions);
        exact = λ a. ground (arith, r.exact a, c a, view-retain start end a m.regions);
        brk_kept = r.brk_kept;
      }

  reinsert-Succeeds :
      Covered start end m.regions
      → Succeeds start end protection m (reinsert start end protection inside bared)
  reinsert-Succeeds c =
      let gone = remove-Removed start end m v (omega arith) hs he in
      put_back _ c (
        reinsert-Reinserts start end protection inside 0 bared gone.valid hs he lt
          (retain-IsSorted (meets start end) 0 m.regions v.sorted)
          (retain-Meeting start end m.regions) (λ a h k l. ground (arith, gone.bare a)))

  protect-Protects :
      (o : Option ℕ)
      → cover end start m.regions ≡ o
      → Protects start end protection m (protect start end protection m)
  unfolding protect remove
  protect-Protects none e = rw e refl
  protect-Protects (some c) e = rw e (elim (Bool-cases (ltb c end)) [
    | inl gap ↦ rw gap refl
    | inr whole ↦
        rw whole (elim (Bool-cases (protection.execute && any (λ r. is_device r.kind) inside)) [
          | inl barred ↦ rw barred refl
          | inr free ↦ rw free (
              Succeeds-Protects start end protection m _ (
                reinsert-Succeeds
                  (λ a h k. cover-Covered end start c a m.regions e (ground arith) h k)))
        ])
  ])

  protect_ok :
      (protection.execute && any (λ r. is_device r.kind) inside) ≡ false
      → Covered start end m.regions
      → (o : Option ℕ) → cover end start m.regions ≡ o
      → Succeeds start end protection m (protect start end protection m)
  unfolding protect remove
  protect_ok x c none e = absurd (rw e at (Covered-cover end start 0 m.regions v.sorted lt c))
  protect_ok x c (some cursor) e =
      let reached : end ≤ cursor = rw e at (Covered-cover end start 0 m.regions v.sorted lt c) in
      let whole : ltb cursor end ≡ false = ground arith in rw (e, whole, x) (reinsert-Succeeds c)

-- On success mprotect gives every page of the range its new protection and leaves every other page
-- as it was, all of the range was mapped, and its spans are exactly the range; on an error,
-- whichever check failed, the map is as it was.
pub mprotect-Protects :
    (start length : ℕ) (protection : Protection) (m : MemoryMap)
    → IsValid m
    → Protects start (start + round_up length) protection m (mprotect start length protection m)
unfolding mprotect
mprotect-Protects start length protection m v = elim (Bool-cases (not (aligned start))) [
  | inl odd ↦ rw odd refl
  | inr even ↦ rw even (elim (Bool-cases (ltb (round_up length) u64_mod)) [
    | inr big ↦ rw big refl
    | inl fits ↦ rw fits (elim (Bool-cases (ltb (start + round_up length) u64_mod)) [
      | inr big ↦ rw big refl
      | inl ends ↦ rw ends (elim (Bool-cases (start == start + round_up length)) [
        | inl same ↦
            rw same (empty_range start (start + round_up length) protection m v (ground arith))
        | inr nonempty ↦ rw nonempty (
            protect-Protects start (start + round_up length) protection m v (ground arith)
              (ground arith) (ground arith) (cover (start + round_up length) start m.regions) refl)
      ])
    ])
  ])
]

-- mprotect of an aligned range within the address space that is mapped throughout succeeds, unless
-- it asks for execution and a device region meets the range.
pub mprotect_succeeds :
    (start length : ℕ) (protection : Protection) (m : MemoryMap)
    → IsValid m
    → start % 4096 ≡ 0
    → start + round_up length < u64_mod
    → (protection.execute
        && any (λ r. is_device r.kind) (retain (meets start (start + round_up length)) m.regions))
      ≡ false
    → Covered start (start + round_up length) m.regions
    → (spans : List Span) × ((mprotect start length protection m).0 ≡ ok spans)
unfolding mprotect
mprotect_succeeds start length protection m v hs fits x c =
    let even : aligned start ≡ true = ground arith in
    let small : ltb (round_up length) u64_mod ≡ true = ground arith in
    let ends : ltb (start + round_up length) u64_mod ≡ true = ground arith in
    rw (even, small, ends)
      (elim (Bool-cases (start == start + round_up length)) [
        | inl same ↦ rw same ([], refl)
        | inr nonempty ↦
            let lt : start < start + round_up length = ground arith in
            let he : (start + round_up length) % 4096 ≡ 0 = omega arith in
            rw nonempty (
              ok_of_Succeeds start (start + round_up length) protection m _ (
                protect_ok start (start + round_up length) protection m v hs he lt x c
                  (cover (start + round_up length) start m.regions) refl))
      ])
