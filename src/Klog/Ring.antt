-- ===== src/Klog/Ring.antt =====
-- kernel/src/klog_ring.rs: `Ring` and its operations. The array of `capacity` bytes is a list.
use Prim.Native.Nat.{ℕ, zero, suc, ◌+◌, ◌-◌, ◌%◌, min}
use saeos.Prelude.{
  Bool, true, false, ◌&&◌, ◌||◌, List, [], ◌∷◌, ltb, leb, ◌==◌, if◌then◌else◌, length, get_or, take,
  drop, replicate, copy_at,
}

pub record Ring : Type 0 where
  pub bytes : List ℕ
  pub head : ℕ
  pub len : ℕ

abbrev pub new : ℕ → Ring
new capacity = record { bytes = replicate capacity 0; head = 0; len = 0 }

abbrev pub is_empty : Ring → Bool
is_empty r = r.len == 0

-- `Ring::push` from the second statement on, where the text fits.
unfoldable pub store : ℕ → List ℕ → Ring → Ring
store capacity text r =
    let first = min (length text) (capacity - r.head) in
    record {
      bytes = copy_at 0 (drop first text) (copy_at r.head (take first text) r.bytes);
      head = (r.head + length text) % capacity;
      len = min (r.len + length text) capacity;
    }

unfoldable pub push : ℕ → List ℕ → Ring → Ring
push capacity text r = store capacity (drop (length text - capacity) text) r

-- `bytes[start..end]`.
abbrev pub slice : ℕ → ℕ → List ℕ → List ℕ
slice start end bytes = take (end - start) (drop start bytes)

unfoldable pub as_slices : ℕ → Ring → List ℕ × List ℕ
as_slices capacity r =
    let start = (r.head + capacity - r.len) % capacity in
    if leb (start + r.len) capacity
    then (slice start (start + r.len) r.bytes, [])
    else (drop start r.bytes, take r.head r.bytes)

-- The closure `at` of `contains`.
abbrev pub byte_at : List ℕ × List ℕ → ℕ → ℕ
byte_at s index =
    if ltb index (length s.0) then get_or s.0 index 0 else get_or s.1 (index - length s.0) 0

-- `(0..needle.len()).all(...)`: the needle from `offset` on.
unfoldable pub matches_at : List ℕ × List ℕ → ℕ → List ℕ → Bool
matches_at s index [] = true
matches_at s index (b ∷ needle) = byte_at s index == b && matches_at s (suc index) needle

-- `(0..=self.len - needle.len()).any(...)`: `n` more starts from `start` on.
unfoldable pub search_from : List ℕ × List ℕ → List ℕ → ℕ → ℕ → Bool
search_from s needle zero start = false
search_from s needle (suc n) start = matches_at s start needle || search_from s needle n (suc start)

unfoldable pub contains : ℕ → List ℕ → Ring → Bool
contains capacity needle r =
    if ltb r.len (length needle)
    then false
    else search_from (as_slices capacity r) needle (r.len - length needle + 1) 0
