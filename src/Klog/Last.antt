-- ===== src/Klog/Last.antt =====
-- What was written to the log last is what its ring holds.
use Prim.Native.Nat.{ℕ, ◌+◌, ◌-◌, ◌%◌, ◌≤◌, ◌<◌, min}
use saeos.Prelude.{
  true, false, List, [], ◌∷◌, ◌++◌, ltb, length, get_or, drop, ◌≡◌, ◌⊎◌, refl, sym, ◌∙◌, ap, arith,
  Bool-cases, ltb→lt, inl, inr, length-append, length-drop, length-replicate, get_or-append,
  get_or-drop, List-ext, append_assoc, append_nil,
}
use saeos.Klog.Ring.{Ring, new, store, push}
use saeos.Klog.Contents.{
  IsRing, contents, last, wrap, wrap_lem, start_of, length-contents, get_or-contents, copied,
  get_or-copied_text, get_or-copied_old, store-IsRing,
}

length-last : (n : ℕ) (xs : List ℕ) → length (last n xs) ≡ min (length xs) n
length-last n xs = omega (arith, length-drop (length xs - n) xs)

get_or-last :
    (n : ℕ) (xs : List ℕ) (i : ℕ) → get_or (last n xs) i 0 ≡ get_or xs (length xs - n + i) 0
get_or-last n xs i = get_or-drop (length xs - n) i xs 0

-- Of a text that is longer than the ring, only the end matters.
last-append_last : (n : ℕ) (xs ys : List ℕ) → last n (xs ++ last n ys) ≡ last n (xs ++ ys)
last-append_last n xs ys =
    List-ext (last n (xs ++ last n ys)) (last n (xs ++ ys)) 0
      (omega (
        arith,
        length-last n (xs ++ last n ys),
        length-last n (xs ++ ys),
        length-append xs (last n ys),
        length-append xs ys,
        length-last n ys,
      ))
      (λ i h. ground (
        arith,
        get_or-last n (xs ++ last n ys) i,
        get_or-last n (xs ++ ys) i,
        length-append xs (last n ys),
        length-append xs ys,
        length-last n ys,
        length-last n (xs ++ last n ys),
        get_or-append xs (last n ys) (length (xs ++ last n ys) - n + i) 0,
        get_or-append xs ys (length (xs ++ ys) - n + i) 0,
        get_or-last n ys (length (xs ++ last n ys) - n + i - length xs),
      ))

-- So it is for what was there before.
last-last_append : (n : ℕ) (xs ys : List ℕ) → last n (last n xs ++ ys) ≡ last n (xs ++ ys)
last-last_append n xs ys =
    List-ext (last n (last n xs ++ ys)) (last n (xs ++ ys)) 0
      (omega (
        arith,
        length-last n (last n xs ++ ys),
        length-last n (xs ++ ys),
        length-append (last n xs) ys,
        length-append xs ys,
        length-last n xs,
      ))
      (λ i h. ground (
        arith,
        get_or-last n (last n xs ++ ys) i,
        get_or-last n (xs ++ ys) i,
        length-append (last n xs) ys,
        length-append xs ys,
        length-last n xs,
        length-last n (last n xs ++ ys),
        get_or-append (last n xs) ys (length (last n xs ++ ys) - n + i) 0,
        get_or-append xs ys (length (xs ++ ys) - n + i) 0,
        get_or-last n xs (length (last n xs ++ ys) - n + i),
      ))

-- Where the `i`-th byte of the new contents stands, seen from the old head.
wrap_new :
    (capacity head len m i s : ℕ)
    → head < capacity
    → len ≤ capacity
    → m ≤ capacity
    → s < capacity
    → i < min (len + m) capacity
    → len ≤ len + m - capacity + i
    → ((s + min (len + m) capacity ≡ wrap capacity (head + m))
        ⊎ (s + min (len + m) capacity ≡ wrap capacity (head + m) + capacity))
    → wrap capacity (s + i) ≡ wrap capacity (head + (len + m - capacity + i - len))
wrap_new capacity head len m i s inside bounded fits low h q e = ground arith

wrap_old :
    (capacity head len m i s s' : ℕ)
    → head < capacity
    → len ≤ capacity
    → m ≤ capacity
    → s < capacity
    → s' < capacity
    → i < min (len + m) capacity
    → len + m - capacity + i < len
    → ((s + min (len + m) capacity ≡ wrap capacity (head + m))
        ⊎ (s + min (len + m) capacity ≡ wrap capacity (head + m) + capacity))
    → ((s' + len ≡ head) ⊎ (s' + len ≡ head + capacity))
    → (wrap capacity (s + i) ≡ wrap capacity (head + (capacity - len + (len + m - capacity + i))))
      × (wrap capacity (s' + (len + m - capacity + i))
          ≡ wrap capacity (head + (capacity - len + (len + m - capacity + i))))
wrap_old capacity head len m i s s' inside bounded fits low low' h q e e' =
    (ground arith, ground arith)

module _ (capacity : ℕ) (r : Ring) (v : IsRing capacity r) (text : List ℕ)
    (fits : length text ≤ capacity) where
  abbrev stored : Ring
  stored = store capacity text r

  stored-IsRing : IsRing capacity stored
  stored-IsRing = store-IsRing capacity r v text fits

  head-stored : stored.head ≡ wrap capacity (r.head + length text)
  unfolding store
  head-stored = wrap_lem capacity (r.head + length text) (omega (arith, v.inside, fits))

  len-stored : stored.len ≡ min (r.len + length text) capacity
  unfolding store
  len-stored = refl

  bytes-stored : stored.bytes ≡ copied capacity r v text fits
  unfolding store
  bytes-stored = refl

  pub length-held : length (contents capacity r) ≡ r.len
  length-held =
      let (s, e, low, end) = start_of capacity r v in length-contents capacity r v s e low end

  length-stored : length (contents capacity stored) ≡ min (r.len + length text) capacity
  length-stored =
      let (s, e, low, end) = start_of capacity stored stored-IsRing in
      length-contents capacity stored stored-IsRing s e low end ∙ len-stored

  module _ (s : ℕ) (e : (stored.head + capacity - stored.len) % capacity ≡ s) (low : s < capacity)
      (end : (s + stored.len ≡ stored.head) ⊎ (s + stored.len ≡ stored.head + capacity)) (i : ℕ)
      (h : i < min (r.len + length text) capacity) where
    end_at :
        (s + min (r.len + length text) capacity ≡ wrap capacity (r.head + length text))
        ⊎ (s + min (r.len + length text) capacity ≡ wrap capacity (r.head + length text) + capacity)
    end_at = rw (← head-stored, ← len-stored) end

    stored_byte :
        get_or (contents capacity stored) i 0
        ≡ get_or (copied capacity r v text fits) (wrap capacity (s + i)) 0
    stored_byte =
        get_or-contents capacity stored stored-IsRing s e low end i (omega (arith, h, len-stored))
        ∙ ap (λ bytes. get_or bytes (wrap capacity (s + i)) 0) bytes-stored

    stored_new :
        ltb (r.len + length text - capacity + i) r.len ≡ false
        → get_or (contents capacity stored) i 0
          ≡ get_or text (r.len + length text - capacity + i - r.len) 0
    stored_new new =
        let j = r.len + length text - capacity + i - r.len in
        stored_byte
        ∙ ap (λ k. get_or (copied capacity r v text fits) k 0)
            (wrap_new capacity r.head r.len (length text) i s v.inside v.bounded fits low h
              (ground arith) end_at)
        ∙ get_or-copied_text capacity r v text fits j (ground arith)

    stored_old :
        ltb (r.len + length text - capacity + i) r.len ≡ true
        → get_or (contents capacity stored) i 0
          ≡ get_or (contents capacity r) (r.len + length text - capacity + i) 0
    stored_old old =
        let q = r.len + length text - capacity + i in
        let (s', e', low', end') = start_of capacity r v in
        let w =
          wrap_old capacity r.head r.len (length text) i s s' v.inside v.bounded fits low low' h
            (ltb→lt q r.len old) end_at end' in
        stored_byte
        ∙ ap (λ k. get_or (copied capacity r v text fits) k 0) w.0
        ∙ get_or-copied_old capacity r v text fits (capacity - r.len + q)
            (omega (arith, v.bounded, fits)) (omega (arith, v.bounded, ltb→lt q r.len old))
        ∙ sym (ap (λ k. get_or r.bytes k 0) w.1)
        ∙ sym (get_or-contents capacity r v s' e' low' end' q (ltb→lt q r.len old))

  stored_both :
      (i : ℕ)
      → i < min (r.len + length text) capacity
      → get_or (contents capacity stored) i 0
        ≡ get_or (contents capacity r ++ text) (r.len + length text - capacity + i) 0
  stored_both i h =
      let (s, e, low, end) = start_of capacity stored stored-IsRing in
      let q = r.len + length text - capacity + i in
      elim (Bool-cases (ltb q r.len)) [
        | inl old ↦
            stored_old s e low end i h old
            ∙ sym (get_or-append (contents capacity r) text q 0 ∙ rw length-held (simp old refl))
        | inr new ↦
            stored_new s e low end i h new
            ∙ sym (get_or-append (contents capacity r) text q 0 ∙ rw length-held (simp new refl))
      ]

  store-contents : contents capacity stored ≡ last capacity (contents capacity r ++ text)
  store-contents =
      let all = contents capacity r ++ text in
      let size = length-append (contents capacity r) text in
      List-ext (contents capacity stored) (last capacity all) 0
        (omega (arith, length-stored, length-last capacity all, size, length-held))
        (λ i h.
          let from : length all - capacity + i ≡ r.len + length text - capacity + i =
            omega (arith, size, length-held) in
          stored_both i (omega (arith, h, length-stored))
          ∙ sym (get_or-last capacity all i ∙ ap (λ k. get_or all k 0) from))

push-IsRing :
    (capacity : ℕ) (text : List ℕ) (r : Ring)
    → IsRing capacity r
    → IsRing capacity (push capacity text r)
unfolding push
push-IsRing capacity text r v =
    store-IsRing capacity r v (last capacity text) (omega (arith, length-last capacity text))

push-contents :
    (capacity : ℕ) (text : List ℕ) (r : Ring)
    → IsRing capacity r
    → contents capacity (push capacity text r) ≡ last capacity (contents capacity r ++ text)
unfolding push
push-contents capacity text r v =
    store-contents capacity r v (last capacity text) (omega (arith, length-last capacity text))
    ∙ last-append_last capacity (contents capacity r) text

-- The writes one after the other, and all that they wrote.
unfoldable pub push_all : ℕ → List (List ℕ) → Ring → Ring
push_all capacity [] r = r
push_all capacity (text ∷ texts) r = push_all capacity texts (push capacity text r)

unfoldable pub written : List (List ℕ) → List ℕ
written [] = []
written (text ∷ texts) = text ++ written texts

last_short : (n : ℕ) (xs : List ℕ) → length xs ≤ n → last n xs ≡ xs
last_short n xs h = let none : length xs - n ≡ 0 = omega arith in ap (λ k. drop k xs) none

push_all-last :
    (capacity : ℕ) (texts : List (List ℕ)) (r : Ring)
    → IsRing capacity r
    → (IsRing capacity (push_all capacity texts r))
      × (contents capacity (push_all capacity texts r)
          ≡ last capacity (contents capacity r ++ written texts))
unfolding push_all written
push_all-last capacity [] r v =
    let short : length (contents capacity r) ≤ capacity =
      omega (arith, length-held capacity r v [] (omega arith), v.bounded) in
    (v, sym (ap (last capacity) (append_nil (contents capacity r)) ∙ last_short capacity _ short))
push_all-last capacity (text ∷ texts) r v =
    let (v', e) =
      push_all-last capacity texts (push capacity text r) (push-IsRing capacity text r v) in
    (
      v',
      e
          ∙ ap (λ xs. last capacity (xs ++ written texts)) (push-contents capacity text r v)
          ∙ last-last_append capacity (contents capacity r ++ text) (written texts)
          ∙ ap (last capacity) (append_assoc (contents capacity r) text (written texts)),
    )

new-IsRing : (capacity : ℕ) → 0 < capacity → IsRing capacity (new capacity)
new-IsRing capacity h = record {
  size = length-replicate {A = ℕ} capacity 0;
  inside = h;
  bounded = omega arith;
}

nil_of_length : (xs : List ℕ) → length xs ≡ 0 → xs ≡ []
nil_of_length [] e = refl
nil_of_length (x ∷ xs) e = absurd (omega arith)

-- After any writes to a new ring with room for a byte, its two slices hold, in order, the last bytes
-- of all that was written, as many as the ring has room for.
pub contents-push_all :
    (capacity : ℕ) (texts : List (List ℕ))
    → 0 < capacity
    → contents capacity (push_all capacity texts (new capacity)) ≡ last capacity (written texts)
contents-push_all capacity texts h =
    let v = new-IsRing capacity h in
    let empty = nil_of_length _ (length-held capacity (new capacity) v [] (omega arith)) in
    (push_all-last capacity texts (new capacity) v).1
    ∙ ap (λ xs. last capacity (xs ++ written texts)) empty
