-- ===== src/Mm/Buddy/Lists.antt =====
-- kernel/src/mm/buddy.rs: `BuddyLists` with the `FrameStore` that it works on: the state of each frame and
-- the node in its first bytes. An array with an index of zone and order is a function of both.
use Prim.Native.Nat.{ℕ, zero, suc, ◌+◌, ◌-◌, ◌%◌, ◌^◌, min, bit_xor}
use saeos.Prelude.{
  Bool, true, false, not, ◌&&◌, ◌||◌, Option, none, some, List, [], ◌∷◌, ltb, leb, ◌==◌,
  if◌then◌else◌,
}

abbrev pub max_order : ℕ
max_order = 18

abbrev pub dma32_frames : ℕ
dma32_frames = 2 ^ 20

-- `NONE`, the largest `usize`.
abbrev pub no_frame : ℕ
no_frame = 2 ^ 64 - 1

abbrev pub free_magic : ℕ
free_magic = 0x5341454f42554459

unfoldable pub head_tag : ℕ → ℕ
head_tag frame = bit_xor free_magic frame

pub data State : Type 0 where
  reserved free allocated : State

abbrev pub same_state : State → State → Bool
same_state reserved reserved = true
same_state free free = true
same_state allocated allocated = true
same_state s t = false

pub data Zone : Type 0 where
  dma32 normal : Zone

-- `zone as usize`.
abbrev pub index : Zone → ℕ
index dma32 = 0
index normal = 1

unfoldable pub zone_of : ℕ → Zone
zone_of frame = if ltb frame dma32_frames then dma32 else normal

pub data ReleaseError : Type 0 where
  out_of_range unaligned duplicate_release double_free invalid_range : ReleaseError

pub record FreeNode : Type 0 where
  pub magic : ℕ
  pub order : ℕ
  pub prev : ℕ
  pub next : ℕ

pub record Buddy : Type 0 where
  pub heads : ℕ → ℕ → ℕ
  pub counts : ℕ → ℕ → ℕ
  pub frame_count : ℕ
  pub state : ℕ → State
  pub node : ℕ → FreeNode

-- A write at an index, and at two.
unfoldable pub write {ℓ} : {A : Type ℓ} → ℕ → A → (ℕ → A) → ℕ → A
write i v f j = if i == j then v else f j

unfoldable pub write_at {ℓ} : {A : Type ℓ} → ℕ → ℕ → A → (ℕ → ℕ → A) → ℕ → ℕ → A
write_at z k v f z' k' = if z == z' && k == k' then v else f z' k'

-- `BuddyLists::new`, on the store of `b`.
abbrev pub clear : Buddy → Buddy
clear b = record b { heads = λ z k. no_frame; counts = λ z k. 0 }

abbrev pub set_prev : ℕ → ℕ → (ℕ → FreeNode) → ℕ → FreeNode
set_prev frame prev node = write frame (record (node frame) { prev = prev }) node

abbrev pub set_next : ℕ → ℕ → (ℕ → FreeNode) → ℕ → FreeNode
set_next frame next node = write frame (record (node frame) { next = next }) node

abbrev pub set_magic : ℕ → ℕ → (ℕ → FreeNode) → ℕ → FreeNode
set_magic frame magic node = write frame (record (node frame) { magic = magic }) node

-- The nodes after `push`.
unfoldable pub push_node : ℕ → ℕ → ℕ → (ℕ → FreeNode) → ℕ → FreeNode
push_node head frame order node =
    let written =
      write frame (record { magic = head_tag frame; order = order; prev = no_frame; next = head })
        node in
    if head == no_frame then written else set_prev head frame written

unfoldable pub push : ℕ → ℕ → Buddy → Buddy
push frame order b =
    let zone = index (zone_of frame) in
    record b {
      heads = write_at zone order frame b.heads;
      counts = write_at zone order (b.counts zone order + 1) b.counts;
      node = push_node (b.heads zone order) frame order b.node;
    }

-- The nodes after `unlink`.
unfoldable pub unlink_node : ℕ → (ℕ → FreeNode) → ℕ → FreeNode
unlink_node frame node =
    let prev = (node frame).prev in
    let next = (node frame).next in
    let before = if prev == no_frame then node else set_next prev next node in
    let after = if next == no_frame then before else set_prev next prev before in
    set_magic frame 0 after

unfoldable pub unlink : ℕ → Zone → ℕ → Buddy → Buddy
unlink frame z order b =
    let zone = index z in
    let n = b.node frame in
    record b {
      heads = if n.prev == no_frame then write_at zone order n.next b.heads else b.heads;
      counts = write_at zone order (b.counts zone order - 1) b.counts;
      node = unlink_node frame b.node;
    }

-- `for frame in start..start + n { store.set_state(frame, s) }`
unfoldable pub set_states : ℕ → ℕ → State → (ℕ → State) → ℕ → State
set_states zero start s state = state
set_states (suc n) start s state = set_states n (suc start) s (write start s state)

abbrev pub mark : ℕ → ℕ → State → Buddy → Buddy
mark n start s b = record b { state = set_states n start s b.state }

unfoldable pub range_is : (ℕ → State) → ℕ → ℕ → State → Bool
range_is state frame zero s = true
range_is state frame (suc n) s = same_state (state frame) s && range_is state (suc frame) n s

unfoldable pub is_free_head : ℕ → ℕ → Buddy → Bool
is_free_head frame order b =
    if ltb b.frame_count (frame + 2 ^ order) || not (same_state (b.state frame) free)
    then false
    else ((b.node frame).magic == head_tag frame && (b.node frame).order == order)

-- The loop of `coalesce_and_push`, with the number of rounds that it has left at most.
unfoldable pub coalesce : ℕ → ℕ → ℕ → Buddy → Buddy
coalesce zero frame order b = push frame order b
coalesce (suc rounds) frame order b =
    let buddy = bit_xor frame (2 ^ order) in
    elim (ltb order max_order && is_free_head buddy order b) [
      | true ↦ coalesce rounds (min frame buddy) (order + 1) (unlink buddy (zone_of buddy) order b)
      | false ↦ push frame order b
    ]

abbrev pub coalesce_and_push : ℕ → ℕ → Buddy → Buddy
coalesce_and_push frame order b = coalesce (max_order - order) frame order b

-- `while current > order { ... }`, where `current` is `order + n`.
unfoldable pub split : ℕ → ℕ → ℕ → Buddy → Buddy
split head order zero b = b
split head order (suc n) b = split head order n (push (head + 2 ^ (order + n)) (order + n) b)

-- The loop over the orders from `source` on, `n` of them.
unfoldable pub search : ℕ → Zone → ℕ → ℕ → Buddy → Option ℕ × Buddy
search order zone zero source b = (none, b)
search order zone (suc n) source b =
    let head = b.heads (index zone) source in
    elim (head == no_frame) [
      | true ↦ search order zone n (source + 1) b
      | false ↦ (
        some head,
        mark (2 ^ order) head allocated
            (split head order (source - order) (unlink head zone source b)),
      )
    ]

-- The loop over the zones.
abbrev pub or_next : Option ℕ × Buddy → (Buddy → Option ℕ × Buddy) → Option ℕ × Buddy
or_next (some frame, b) next = (some frame, b)
or_next (none, b) next = next b

unfoldable pub allocate_in : ℕ → List Zone → Buddy → Option ℕ × Buddy
allocate_in order [] b = (none, b)
allocate_in order (zone ∷ zones) b =
    or_next (search order zone (max_order + 1 - order) order b) (allocate_in order zones)

unfoldable pub allocate : ℕ → List Zone → Buddy → Option ℕ × Buddy
allocate order zones b = if ltb max_order order then (none, b) else allocate_in order zones b

pub data Released : Type 0 where
  ok : Released
  err : ReleaseError → Released

-- What `release` checks.
unfoldable pub check_release : ℕ → ℕ → Buddy → Released
check_release frame order b =
    let count = 2 ^ order in
    if ltb max_order order
    then err invalid_range
    else if leb (2 ^ 64) (frame + count) || ltb b.frame_count (frame + count)
    then err out_of_range
    else if not (frame % count == 0)
    then err unaligned
    else if range_is b.state frame count reserved
    then err duplicate_release
    else if range_is b.state frame count free
    then err double_free
    else if not (range_is b.state frame count allocated)
    then err invalid_range
    else ok

-- `Free` in the bitmap, and merged into the lists.
abbrev pub give_back : ℕ → ℕ → Buddy → Buddy
give_back frame order b = coalesce_and_push frame order (mark (2 ^ order) frame free b)

abbrev pub after_check : Released → ℕ → ℕ → Buddy → Released × Buddy
after_check ok frame order b = (ok, give_back frame order b)
after_check (err e) frame order b = (err e, b)

unfoldable pub release : ℕ → ℕ → Buddy → Released × Buddy
release frame order b = after_check (check_release frame order b) frame order b
