-- ===== src/Mm/Buddy/Build.antt =====
-- kernel/src/mm/buddy.rs: filling the lists, from the bitmap at boot and with memory that is handed back
-- later. The loops have the number of rounds that they have left at most.
use Prim.Native.Nat.{ℕ, zero, suc, ◌+◌, ◌-◌, ◌/◌, ◌%◌, ◌^◌, min}
use saeos.Prelude.{true, false, ltb, ◌==◌, if◌then◌else◌}
use saeos.Mm.Buddy.Lists.{
  max_order, State, reserved, free, same_state, Buddy, clear, push, mark, coalesce_and_push,
}

-- `frame.trailing_zeros()` of a number that is not 0, with the number's bits.
unfoldable pub trailing_zeros : ℕ → ℕ → ℕ
trailing_zeros zero frame = 0
trailing_zeros (suc bits) frame =
    let rest = trailing_zeros bits (frame / 2) in if frame % 2 == 0 then suc rest else 0

unfoldable pub first_order : ℕ → ℕ
first_order frame = if frame == 0 then max_order else min max_order (trailing_zeros 64 frame)

-- `while frame + (1 << order) > end { order -= 1 }`
unfoldable pub fit : ℕ → ℕ → ℕ → ℕ
fit zero frame end = 0
fit (suc order) frame end =
    let rest = fit order frame end in if ltb end (frame + 2 ^ suc order) then rest else suc order

unfoldable pub block_order : ℕ → ℕ → ℕ
block_order frame end = fit (first_order frame) frame end

unfoldable pub insert_run : ℕ → ℕ → ℕ → Buddy → Buddy
insert_run zero frame end b = b
insert_run (suc n) frame end b =
    let order = block_order frame end in
    elim (ltb frame end) [
      | true ↦ insert_run n (frame + 2 ^ order) end (push frame order b)
      | false ↦ b
    ]

-- `while end < count && store.state(end) == s { end += 1 }`, where `count` is `end + n`.
unfoldable pub run_end : ℕ → State → ℕ → (ℕ → State) → ℕ
run_end zero s end state = end
run_end (suc n) s end state = elim (same_state (state end) s) [
  | true ↦ run_end n s (end + 1) state
  | false ↦ end
]

-- The loop of `build`.
unfoldable pub build_from : ℕ → ℕ → Buddy → Buddy
build_from zero frame b = b
build_from (suc n) frame b =
    let end = run_end (b.frame_count - frame) free frame b.state in
    elim (ltb frame b.frame_count) [
      | false ↦ b
      | true ↦ elim (same_state (b.state frame) free) [
        | false ↦ build_from n (frame + 1) b
        | true ↦ build_from n end (insert_run (end - frame) frame end b)
      ]
    ]

unfoldable pub build : Buddy → Buddy
build b = build_from b.frame_count 0 (clear b)

-- The pieces of a run of reserved frames, one at a time.
unfoldable pub free_pieces : ℕ → ℕ → ℕ → Buddy → Buddy
free_pieces zero cursor end b = b
free_pieces (suc n) cursor end b =
    let order = block_order cursor end in
    elim (ltb cursor end) [
      | true ↦
          free_pieces n (cursor + 2 ^ order) end
            (coalesce_and_push cursor order (mark (2 ^ order) cursor free b))
      | false ↦ b
    ]

unfoldable pub insert_reserved_from : ℕ → ℕ → ℕ → Buddy → Buddy
insert_reserved_from zero index end b = b
insert_reserved_from (suc n) index end b =
    let next = run_end (end - index) reserved index b.state in
    elim (ltb index end) [
      | false ↦ b
      | true ↦ elim (same_state (b.state index) reserved) [
        | true ↦ insert_reserved_from n next end (free_pieces (next - index) index next b)
        | false ↦ insert_reserved_from n (index + 1) end b
      ]
    ]

unfoldable pub insert_reserved_range : ℕ → ℕ → Buddy → Buddy
insert_reserved_range frame end b =
    let last = min end b.frame_count in insert_reserved_from (last - frame) frame last b
