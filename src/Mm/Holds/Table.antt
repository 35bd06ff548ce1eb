-- ===== src/Mm/Holds/Table.antt =====
-- kernel/src/mm/holds.rs: `HoldTable` and its operations. An id is a 32-bit number; `release` hands each
-- range to a closure, which is the list of the ranges in the order of the calls.
use Prim.Native.Nat.{ℕ, zero, suc, ◌+◌, ◌-◌, ◌%◌}
use saeos.Prelude.{
  Bool, true, false, ◌&&◌, ◌||◌, Option, none, some, List, [], ◌∷◌, ltb, leb, ◌==◌, if◌then◌else◌,
  set, slot, is_none, position, replicate,
}

abbrev pub max_hold_ranges : ℕ
max_hold_ranges = 32

pub record Range : Type 0 where
  pub id : ℕ
  pub first : ℕ
  pub last : ℕ

abbrev pub Ranges : Type 0
Ranges = List (Option Range)

pub record HoldTable : Type 0 where
  pub ranges : Ranges
  pub next_id : ℕ

abbrev pub new : HoldTable
new = record { ranges = replicate max_hold_ranges none; next_id = 0 }

abbrev pub new_id : HoldTable → ℕ × HoldTable
new_id t = let id = (t.next_id + 1) % 4294967296 in (id, record t { next_id = id })

-- The body of `HoldTable::add`, on the array.
unfoldable pub add_range : ℕ → ℕ → ℕ → Ranges → Bool × Ranges
add_range id first last ranges =
    if leb last first then (true, ranges) else elim (position is_none ranges) [
      | some index ↦
          (true, set ranges index (some (record { id = id; first = first; last = last })))
      | none ↦ (false, ranges)
    ]

abbrev pub add : ℕ → ℕ → ℕ → HoldTable → Bool × HoldTable
add id first last t = let r = add_range id first last t.ranges in (r.0, record t { ranges = r.1 })

-- `left.or(right).map(...)`: what stays in the slot.
abbrev pub remainder : Range → ℕ → ℕ → Option Range
remainder r first last =
    if ltb r.first first
    then some (record r { last = first })
    else if ltb last r.last
    then some (record r { first = last })
    else none

-- `complete &= self.add(...)`.
abbrev pub and_add : ℕ → ℕ → ℕ → Bool → Ranges → Bool × Ranges
and_add id first last complete ranges =
    let added = add_range id first last ranges in (complete && added.0, added.1)

-- The body of the loop of `HoldTable::punch` at a range.
unfoldable pub punch_range : ℕ → ℕ → ℕ → Range → Bool × Ranges → Bool × Ranges
punch_range first last index r (complete, ranges) =
    let ranges' = set ranges index (remainder r first last) in
    if leb r.last first || leb last r.first
    then (complete, ranges)
    else if ltb r.first first && ltb last r.last
    then and_add r.id last r.last complete ranges'
    else (complete, ranges')

abbrev pub punch_slot : ℕ → ℕ → ℕ → Option Range → Bool × Ranges → Bool × Ranges
punch_slot first last index none s = s
punch_slot first last index (some r) s = punch_range first last index r s

-- The loop over the indices from `index` on, `n` of them.
unfoldable pub punch_loop : ℕ → ℕ → ℕ → ℕ → Bool × Ranges → Bool × Ranges
punch_loop first last zero index s = s
punch_loop first last (suc n) index s =
    punch_loop first last n (suc index) (punch_slot first last index (slot s.1 index) s)

abbrev pub punch : ℕ → ℕ → HoldTable → Bool × HoldTable
punch first last t =
    let s = punch_loop first last max_hold_ranges 0 (true, t.ranges) in
    (s.0, record t { ranges = s.1 })

-- The loop of `HoldTable::release`: the calls of the closure, and the array.
abbrev pub release_slot : ℕ → Option Range → List (ℕ × ℕ) × Ranges → List (ℕ × ℕ) × Ranges
release_slot id none (calls, ranges) = (calls, none ∷ ranges)
release_slot id (some r) (calls, ranges) =
    if r.id == id then ((r.first, r.last) ∷ calls, none ∷ ranges) else (calls, some r ∷ ranges)

unfoldable pub release_loop : ℕ → Ranges → List (ℕ × ℕ) × Ranges
release_loop id [] = ([], [])
release_loop id (s ∷ ss) = release_slot id s (release_loop id ss)

abbrev pub release : ℕ → HoldTable → List (ℕ × ℕ) × HoldTable
release id t = let r = release_loop id t.ranges in (r.0, record t { ranges = r.1 })

abbrev pub frames : Option Range → ℕ
frames none = 0
frames (some r) = r.last - r.first

unfoldable pub held_in : Ranges → ℕ
held_in [] = 0
held_in (s ∷ ss) = frames s + held_in ss

abbrev pub held_frames : HoldTable → ℕ
held_frames t = held_in t.ranges
