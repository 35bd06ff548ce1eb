-- ===== src/Exec/Stack/Layout.antt =====
-- The bytes of the initial stack: its size and alignment, its words, and the texts that they point at.
use Prim.Native.Nat.{ℕ, zero, suc, ◌+◌, ◌*◌, ◌/◌, ◌%◌, ◌≤◌}
use saeos.Prelude.{
  some, List, [], ◌∷◌, ◌++◌, length, take, get_elem?, ◌≡◌, refl, sym, ◌∙◌, ap, subst, arith,
  length-append, append_assoc,
}
use saeos.Prelude.Bytes.{le_at}
use saeos.Exec.Stack.Build.{
  at_null, at_random, le_bytes, words_bytes, addresses, pairs, stack_words,
}

-- A number that `count` bytes hold.
abbrev pub Fits : ℕ → ℕ → Type 0
Fits zero value = value ≡ 0
Fits (suc count) value = Fits count (value / 256)

get_elem?-append_at :
    (before : List ℕ) (x : ℕ) (rest : List ℕ)
    → get_elem? (before ++ x ∷ rest) (length before) ≡ some x
get_elem?-append_at [] x rest = refl
get_elem?-append_at (b ∷ before) x rest = get_elem?-append_at before x rest

le_at-le_bytes :
    (count value : ℕ) (before rest : List ℕ)
    → Fits count value
    → le_at count (before ++ (le_bytes count value ++ rest)) (length before) ≡ some value
unfolding le_at le_bytes
le_at-le_bytes zero value before rest h = ap some (sym h)
le_at-le_bytes (suc count) value before rest h =
    let low = value % 256 in
    let file = before ++ (low ∷ (le_bytes count (value / 256) ++ rest)) in
    let same : before ++ low ∷ [] ++ (le_bytes count (value / 256) ++ rest) ≡ file =
      append_assoc before (low ∷ []) (le_bytes count (value / 256) ++ rest) in
    let next : length (before ++ low ∷ []) ≡ length before + 1 =
      omega (arith, length-append before (low ∷ [])) in
    let high : le_at count file (length before + 1) ≡ some (value / 256) =
      subst (λ l. le_at count l (length before + 1) ≡ some (value / 256)) same
        (subst
          (λ k.
            le_at count (before ++ low ∷ [] ++ (le_bytes count (value / 256) ++ rest)) k
            ≡ some (value / 256))
          next (le_at-le_bytes count (value / 256) (before ++ low ∷ []) rest h)) in
    let whole : low + 256 * (value / 256) ≡ value = omega arith in
    rw (get_elem?-append_at before low (le_bytes count (value / 256) ++ rest), le_at)
      (rw (high, le_at) (ap some whole))

-- The 64-bit numbers from `offset` on are `values`.
abbrev pub WordsAt : ℕ → List ℕ → List ℕ → Type 0
WordsAt offset [] bytes = Unit {0}
WordsAt offset (value ∷ values) bytes =
    (le_at 8 bytes offset ≡ some value) × WordsAt (offset + 8) values bytes

abbrev pub AllFit : List ℕ → Type 0
AllFit [] = Unit {0}
AllFit (value ∷ values) = Fits 8 value × AllFit values

length-le_bytes : (count value : ℕ) → length (le_bytes count value) ≡ count
unfolding le_bytes
length-le_bytes zero value = refl
length-le_bytes (suc count) value = ap suc (length-le_bytes count (value / 256))

pub words_bytes-WordsAt :
    (values before rest : List ℕ)
    → AllFit values
    → WordsAt (length before) values (before ++ (words_bytes values ++ rest))
unfolding words_bytes
words_bytes-WordsAt [] before rest h = tt
words_bytes-WordsAt (value ∷ values) before rest h =
    let tail = words_bytes values ++ rest in
    let split : le_bytes 8 value ++ words_bytes values ++ rest ≡ le_bytes 8 value ++ tail =
      append_assoc (le_bytes 8 value) (words_bytes values) rest in
    let size : length (before ++ le_bytes 8 value) ≡ length before + 8 =
      omega (arith, length-append before (le_bytes 8 value), length-le_bytes 8 value) in
    let same : before ++ le_bytes 8 value ++ tail
        ≡ before ++ (le_bytes 8 value ++ words_bytes values ++ rest) =
      append_assoc before (le_bytes 8 value) tail ∙ ap (λ l. before ++ l) (sym split) in
    (
      subst (λ l. le_at 8 (before ++ l) (length before) ≡ some value) (sym split)
          (le_at-le_bytes 8 value before tail h.0),
      subst (λ l. WordsAt (length before + 8) values l) same
          (subst (λ k. WordsAt k values (before ++ le_bytes 8 value ++ tail)) size
            (words_bytes-WordsAt values (before ++ le_bytes 8 value) rest h.1)),
    )

pub length-words_bytes : (values : List ℕ) → length (words_bytes values) ≡ length values * 8
unfolding words_bytes
length-words_bytes [] = refl
length-words_bytes (value ∷ values) = omega (
  arith,
  length-append (le_bytes 8 value) (words_bytes values),
  length-le_bytes 8 value,
  length-words_bytes values,
)

length-addresses : (start : ℕ) (os : List ℕ) → length (addresses start os) ≡ length os
unfolding addresses
length-addresses start [] = refl
length-addresses start (o ∷ os) = ap suc (length-addresses start os)

length-pairs : (ps : List (ℕ × ℕ)) → length (pairs ps) ≡ length ps * 2
unfolding pairs
length-pairs [] = refl
length-pairs ((k, v) ∷ ps) = omega (arith, length-pairs ps)

pub length-stack_words :
    (start : ℕ) (argv envp : List ℕ) (auxv : List (ℕ × ℕ)) (random_offset : ℕ)
    → length (stack_words start argv envp auxv random_offset)
      ≡ 1 + length argv + 1 + length envp + 1 + (length auxv + 2) * 2
unfolding stack_words
length-stack_words start argv envp auxv random_offset =
    let aux = auxv ++ (at_random, start + random_offset) ∷ (at_null, 0) ∷ [] in
    omega (
      arith,
      length-append (addresses start argv) (0 ∷ (addresses start envp ++ (0 ∷ pairs aux))),
      length-append (addresses start envp) (0 ∷ pairs aux),
      length-addresses start argv,
      length-addresses start envp,
      length-pairs aux,
      length-append auxv ((at_random, start + random_offset) ∷ (at_null, 0) ∷ []),
    )

pub take_all : (n : ℕ) (xs : List ℕ) → length xs ≤ n → take n xs ≡ xs
take_all zero [] h = refl
take_all zero (x ∷ xs) h = absurd (omega arith)
take_all (suc n) [] h = refl
take_all (suc n) (x ∷ xs) h = ap (λ l. x ∷ l) (take_all n xs (omega arith))
