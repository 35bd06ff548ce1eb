-- ===== src/Klog/Contents.antt =====
-- The log ring holds the last bytes written to it, as many as it has room for.
use Prim.Native.Nat.{ℕ, ◌+◌, ◌-◌, ◌%◌, ◌≤◌, ◌<◌, min}
use native.Mathlib.Nat.{mod-eq_of_lt, mod-eq-sub-mod}
use saeos.Prelude.{
  true, false, ◌&&◌, List, [], ◌++◌, ltb, leb, if◌then◌else◌, length, get_or, take, drop, copy_at,
  ◌≡◌, ◌⊎◌, refl, ◌∙◌, arith, Bool-cases, inl, inr, length-append, length-take, length-drop,
  length-copy_at, get_or-append, get_or-take, get_or-drop, get_or-copy_at,
}
use saeos.Klog.Ring.{Ring, store, as_slices}

pub record IsRing (capacity : ℕ) (r : Ring) : Type 0 where
  pub size : length r.bytes ≡ capacity
  pub inside : r.head < capacity
  pub bounded : r.len ≤ capacity

-- The stored bytes, oldest first.
abbrev pub contents : ℕ → Ring → List ℕ
contents capacity r = let s = as_slices capacity r in s.0 ++ s.1

-- The last `n` elements.
abbrev pub last : ℕ → List ℕ → List ℕ
last n xs = drop (length xs - n) xs

-- An index that goes past the end once starts again.
abbrev pub wrap : ℕ → ℕ → ℕ
wrap capacity k = if ltb k capacity then k else k - capacity

pub wrap_lem : (capacity k : ℕ) → k < capacity + capacity → k % capacity ≡ wrap capacity k
wrap_lem capacity k h = elim (Bool-cases (ltb k capacity)) [
  | inl low ↦ simp low (mod-eq_of_lt (ground arith))
  | inr high ↦ simp high (mod-eq-sub-mod (ground arith) ∙ mod-eq_of_lt (ground arith))
]

-- Where the oldest byte stands.
pub start_of :
    (capacity : ℕ) (r : Ring)
    → IsRing capacity r
    → (s : ℕ) × ((r.head + capacity - r.len) % capacity ≡ s)
      × (s < capacity)
      × ((s + r.len ≡ r.head) ⊎ (s + r.len ≡ r.head + capacity))
start_of capacity r v =
    let k = r.head + capacity - r.len in
    let wrapped = wrap_lem capacity k (omega (arith, v.inside, v.bounded)) in
    let bound = v.bounded in
    let inside = v.inside in
    elim (Bool-cases (ltb k capacity)) [
      | inl low ↦ (k, wrapped ∙ simp low refl, ground arith, inr (ground arith))
      | inr high ↦ (k - capacity, wrapped ∙ simp high refl, ground arith, inl (ground arith))
    ]

module _ (capacity : ℕ) (r : Ring) (v : IsRing capacity r) (s : ℕ)
    (e : (r.head + capacity - r.len) % capacity ≡ s) (low : s < capacity)
    (end : (s + r.len ≡ r.head) ⊎ (s + r.len ≡ r.head + capacity)) where
  contents_straight :
      leb (s + r.len) capacity ≡ true
      → contents capacity r ≡ take (s + r.len - s) (drop s r.bytes) ++ []
  unfolding as_slices
  contents_straight h = rw (e, as_slices) (simp h refl)

  contents_wrapped :
      leb (s + r.len) capacity ≡ false → contents capacity r ≡ drop s r.bytes ++ take r.head r.bytes
  unfolding as_slices
  contents_wrapped h = rw (e, as_slices) (simp h refl)

  pub length-contents : length (contents capacity r) ≡ r.len
  length-contents = elim (Bool-cases (leb (s + r.len) capacity)) [
    | inl h ↦ rw (contents_straight h) (
        ground (
          arith,
          length-append (take (s + r.len - s) (drop s r.bytes)) [],
          length-take (s + r.len - s) (drop s r.bytes),
          length-drop s r.bytes,
          v.size,
          v.bounded,
        ))
    | inr h ↦ rw (contents_wrapped h) (
        ground (
          arith,
          length-append (drop s r.bytes) (take r.head r.bytes),
          length-take r.head r.bytes,
          length-drop s r.bytes,
          v.size,
          v.inside,
        ))
  ]

  pub get_or-contents :
      (i : ℕ)
      → i < r.len
      → get_or (contents capacity r) i 0 ≡ get_or r.bytes (wrap capacity (s + i)) 0
  get_or-contents i h = elim (Bool-cases (leb (s + r.len) capacity)) [
    | inl fits ↦ rw (contents_straight fits) (
        ground (
          arith,
          get_or-append (take (s + r.len - s) (drop s r.bytes)) [] i 0,
          length-take (s + r.len - s) (drop s r.bytes),
          length-drop s r.bytes,
          v.size,
          v.bounded,
          get_or-take (s + r.len - s) i (drop s r.bytes) 0,
          get_or-drop s i r.bytes 0,
        ))
    | inr over ↦ rw (contents_wrapped over) (
        ground (
          arith,
          get_or-append (drop s r.bytes) (take r.head r.bytes) i 0,
          length-drop s r.bytes,
          v.size,
          v.inside,
          get_or-take r.head (i - length (drop s r.bytes)) r.bytes 0,
          get_or-drop s i r.bytes 0,
        ))
  ]

module _ (capacity : ℕ) (r : Ring) (v : IsRing capacity r) (text : List ℕ)
    (fits : length text ≤ capacity) where
  abbrev pub first : ℕ
  first = min (length text) (capacity - r.head)

  abbrev pub copied : List ℕ
  copied = copy_at 0 (drop first text) (copy_at r.head (take first text) r.bytes)

  length-copied_once : length (copy_at r.head (take first text) r.bytes) ≡ capacity
  length-copied_once =
      length-copy_at r.head (take first text) r.bytes
        (omega (arith, length-take first text, v.size, v.inside))
      ∙ v.size

  pub length-copied : length copied ≡ capacity
  length-copied =
      length-copy_at 0 (drop first text) (copy_at r.head (take first text) r.bytes)
        (omega (arith, length-drop first text, length-copied_once, v.inside, fits))
      ∙ length-copied_once

  -- The byte of the array at an index: one of the text's, or the one that was there.
  get_or-copied :
      (k : ℕ)
      → get_or copied k 0 ≡ (
          if ltb k (length text - first)
          then get_or text (first + k) 0
          else if leb r.head k && ltb k (r.head + first)
          then get_or text (k - r.head) 0
          else get_or r.bytes k 0)
  get_or-copied k =
      let once = copy_at r.head (take first text) r.bytes in
      let fit : r.head + length (take first text) ≤ length r.bytes =
        omega (arith, length-take first text, v.size, v.inside) in
      let fit' : 0 + length (drop first text) ≤ length once =
        omega (arith, length-drop first text, length-copied_once, v.inside, fits) in
      ground (
        arith,
        get_or-copy_at 0 (drop first text) once k 0 fit',
        length-drop first text,
        get_or-drop first k text 0,
        get_or-copy_at r.head (take first text) r.bytes k 0 fit,
        length-take first text,
        get_or-take first (k - r.head) text 0,
      )

  pub get_or-copied_text :
      (j : ℕ) → j < length text → get_or copied (wrap capacity (r.head + j)) 0 ≡ get_or text j 0
  get_or-copied_text j h = elim (Bool-cases (ltb (r.head + j) capacity)) [
    | inl low ↦ simp low (ground (arith, get_or-copied (r.head + j), v.inside))
    | inr high ↦ simp high (ground (arith, get_or-copied (r.head + j - capacity), v.inside))
  ]

  pub get_or-copied_old :
      (j : ℕ)
      → length text ≤ j
      → j < capacity
      → get_or copied (wrap capacity (r.head + j)) 0 ≡ get_or r.bytes (wrap capacity (r.head + j)) 0
  get_or-copied_old j h lt = elim (Bool-cases (ltb (r.head + j) capacity)) [
    | inl low ↦ simp low (ground (arith, get_or-copied (r.head + j), v.inside))
    | inr high ↦ simp high (ground (arith, get_or-copied (r.head + j - capacity), v.inside))
  ]

  pub store-IsRing : IsRing capacity (store capacity text r)
  unfolding store
  store-IsRing =
      let k = wrap_lem capacity (r.head + length text) (omega (arith, v.inside, fits)) in
      record {
        size = length-copied;
        inside = ground (arith, k, v.inside, fits);
        bounded = omega arith;
      }
