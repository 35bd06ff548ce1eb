-- ===== src/Exec/Stack/Texts.antt =====
-- The texts of the arguments and of the environment, where the pointers point.
use Prim.Native.Nat.{ℕ, suc, ◌+◌, ◌-◌, ◌%◌, ◌≤◌, ◌<◌}
use saeos.Prelude.{
  List, [], ◌∷◌, ◌++◌, length, ◌≡◌, refl, sym, ◌∙◌, ap, subst, arith, length-append, append_assoc,
  append_nil,
}
use saeos.Fs.Errno.{ok}
use saeos.Exec.Stack.Build.{
  at_null, at_random, InitialStack, terminated, offsets, words_bytes, addresses, pairs, stack_words,
  build,
}
use saeos.Exec.Stack.Layout.{Fits, WordsAt, AllFit}
use saeos.Exec.Stack.Start.{
  Finished, finish-Finished, padding, words, bytes_lem, length-bytes, pointer-aligned, start_lem,
  words_at,
}

-- Where `bytes` stand from the address `base` on, each text with its NUL stands at its address.
abbrev pub Placed : ℕ → List ℕ → List (List ℕ) → List ℕ → Type 0
Placed base [] [] bytes = Unit {0}
Placed base [] (v ∷ vs) bytes = ⊥
Placed base (a ∷ rest) [] bytes = ⊥
Placed base (a ∷ rest) (v ∷ vs) bytes =
    ((before : List ℕ) × (after : List ℕ) × (bytes ≡ before ++ (terminated v ++ after))
      × (a ≡ base + length before))
    × Placed base rest vs bytes

offsets_grow :
    (values : List (List ℕ)) (strings : List ℕ)
    → (tail : List ℕ) × ((offsets values strings).1 ≡ strings ++ tail)
unfolding offsets
offsets_grow [] strings = ([], sym (append_nil strings))
offsets_grow (v ∷ vs) strings =
    let (tail, e) = offsets_grow vs (strings ++ terminated v) in
    (terminated v ++ tail, e ∙ append_assoc strings (terminated v) tail)

offsets-Placed :
    (values : List (List ℕ)) (strings more : List ℕ)
    → Placed 0 (offsets values strings).0 values ((offsets values strings).1 ++ more)
unfolding offsets
offsets-Placed [] strings more = tt
offsets-Placed (v ∷ vs) strings more =
    let (tail, e) = offsets_grow vs (strings ++ terminated v) in
    (
      (
        strings,
        tail ++ more,
        ap (λ l. l ++ more) (e ∙ append_assoc strings (terminated v) tail)
            ∙ append_assoc strings (terminated v ++ tail) more
            ∙ ap (λ l. strings ++ l) (append_assoc (terminated v) tail more),
        omega arith,
      ),
      offsets-Placed vs (strings ++ terminated v) more,
    )

length-offsets :
    (values : List (List ℕ)) (strings : List ℕ) → length (offsets values strings).0 ≡ length values
unfolding offsets
length-offsets [] strings = refl
length-offsets (v ∷ vs) strings = ap suc (length-offsets vs (strings ++ terminated v))

-- Strings that stand behind `front`.
Placed-addresses :
    (base start : ℕ) (front strings bytes : List ℕ) (os : List ℕ) (vs : List (List ℕ))
    → start ≡ base + length front
    → bytes ≡ front ++ strings
    → Placed 0 os vs strings
    → Placed base (addresses start os) vs bytes
unfolding addresses
Placed-addresses base start front strings bytes [] [] e b p = tt
Placed-addresses base start front strings bytes [] (v ∷ vs) e b p = p
Placed-addresses base start front strings bytes (o ∷ os) [] e b p = p
Placed-addresses base start front strings bytes (o ∷ os) (v ∷ vs) e b
      ((before, after, at, off), p) =
    (
      (
        front ++ before,
        after,
        b ∙ ap (λ l. front ++ l) at ∙ sym (append_assoc front before (terminated v ++ after)),
        omega (arith, length-append front before, off, e),
      ),
      Placed-addresses base start front strings bytes os vs e b p,
    )

word-Fits : (value : ℕ) → value < 18446744073709551616 → Fits 8 value
word-Fits value h = omega arith

AllFit-append : (xs ys : List ℕ) → AllFit xs → AllFit ys → AllFit (xs ++ ys)
AllFit-append [] ys h k = k
AllFit-append (x ∷ xs) ys h k = (h.0, AllFit-append xs ys h.1 k)

pairs-append : (xs ys : List (ℕ × ℕ)) → pairs (xs ++ ys) ≡ pairs xs ++ pairs ys
unfolding pairs
pairs-append [] ys = refl
pairs-append ((k, v) ∷ xs) ys = ap (λ l. k ∷ v ∷ l) (pairs-append xs ys)

Placed-AllFit :
    (base : ℕ) (rest : List ℕ) (vs : List (List ℕ)) (bytes : List ℕ)
    → base + length bytes < 18446744073709551616
    → Placed base rest vs bytes
    → AllFit rest
Placed-AllFit base [] [] bytes h p = tt
Placed-AllFit base [] (v ∷ vs) bytes h p = elim p [ ]
Placed-AllFit base (a ∷ rest) [] bytes h p = elim p [ ]
Placed-AllFit base (a ∷ rest) (v ∷ vs) bytes h ((before, after, at, e), p) = (
  word-Fits a (omega (arith, ap length at, length-append before (terminated v ++ after), e)),
  Placed-AllFit base rest vs bytes h p,
)

-- The stack that a program of these arguments starts on.
pub record Starts (top limit : ℕ) (argv envp : List (List ℕ)) (auxv : List (ℕ × ℕ))
    (random : List ℕ) (s : InitialStack) : Type 0 where
  pub aligned : s.stack_pointer % 16 ≡ 0
  pub ends : s.stack_pointer + length s.bytes ≡ top
  pub within : length s.bytes ≤ limit
  pub argument_pointers : List ℕ
  pub environment_pointers : List ℕ
  pub random_pointer : ℕ
  pub words :
      WordsAt 0
        (length argv
          ∷ (argument_pointers
              ++ (0
                  ∷ (environment_pointers
                      ++ (0 ∷ pairs (auxv ++ (at_random, random_pointer) ∷ (at_null, 0) ∷ []))))))
        s.bytes
  pub arguments : Placed s.stack_pointer argument_pointers argv s.bytes
  pub environment : Placed s.stack_pointer environment_pointers envp s.bytes
  pub random_bytes :
      (before : List ℕ) × (s.bytes ≡ before ++ random)
      × (random_pointer ≡ s.stack_pointer + length before)

module _ (top limit : ℕ) (argv envp : List (List ℕ)) (auxv : List (ℕ × ℕ)) (random : List ℕ)
    (s : InitialStack) where
  abbrev first : List ℕ × List ℕ
  first = offsets argv []

  abbrev second : List ℕ × List ℕ
  second = offsets envp first.1

  abbrev strings : List ℕ
  strings = second.1 ++ random

  abbrev string_start : ℕ
  string_start = top - length strings

  module _ (f : Finished top limit first.0 second.0 auxv strings (length second.1) s)
      (low : top < 18446744073709551616) (fit : AllFit (pairs auxv)) where
    abbrev front : List ℕ
    front =
        words_bytes (words top limit first.0 second.0 auxv strings (length second.1))
        ++ padding top limit first.0 second.0 auxv strings (length second.1)

    bytes_front : s.bytes ≡ front ++ strings
    bytes_front =
        bytes_lem top limit first.0 second.0 auxv strings (length second.1) s f
        ∙ sym (append_assoc _ _ strings)

    start_front : string_start ≡ s.stack_pointer + length front
    start_front = start_lem top limit first.0 second.0 auxv strings (length second.1) s f

    arguments-Placed : Placed s.stack_pointer (addresses string_start first.0) argv s.bytes
    arguments-Placed =
        let (tail, e) = offsets_grow envp first.1 in
        let same : first.1 ++ (tail ++ random) ≡ strings =
          sym (append_assoc first.1 tail random) ∙ ap (λ l. l ++ random) (sym e) in
        Placed-addresses s.stack_pointer string_start front strings s.bytes first.0 argv start_front
          bytes_front (subst (Placed 0 first.0 argv) same (offsets-Placed argv [] (tail ++ random)))

    environment-Placed : Placed s.stack_pointer (addresses string_start second.0) envp s.bytes
    environment-Placed =
        Placed-addresses s.stack_pointer string_start front strings s.bytes second.0 envp
          start_front bytes_front (offsets-Placed envp first.1 random)

    ends_at : s.stack_pointer + length s.bytes ≡ top
    ends_at = length-bytes top limit first.0 second.0 auxv strings (length second.1) s f

    random_found :
        (before : List ℕ) × (s.bytes ≡ before ++ random)
        × (string_start + length second.1 ≡ s.stack_pointer + length before)
    random_found = (
      front ++ second.1,
      bytes_front ∙ sym (append_assoc front second.1 random),
      omega (arith, start_front, length-append front second.1),
    )

    words_fit : AllFit (words top limit first.0 second.0 auxv strings (length second.1))
    unfolding stack_words pairs
    words_fit =
        let bound : s.stack_pointer + length s.bytes < 18446744073709551616 =
          omega (arith, ends_at) in
        let (before, at, e) = random_found in
        let random_fits : string_start + length second.1 < 18446744073709551616 =
          omega (arith, ap length at, length-append before random, e, ends_at) in
        (
          word-Fits (length first.0) (omega (arith, f.room)),
          AllFit-append (addresses string_start first.0) _
              (Placed-AllFit s.stack_pointer _ argv s.bytes bound arguments-Placed)
              (
                refl,
                AllFit-append (addresses string_start second.0) _
                    (Placed-AllFit s.stack_pointer _ envp s.bytes bound environment-Placed)
                    (
                      refl,
                      subst AllFit
                          (sym (
                            pairs-append auxv
                              ((at_random, string_start + length second.1) ∷ (at_null, 0) ∷ [])))
                          (AllFit-append (pairs auxv) _ fit (
                            refl,
                            (
                              word-Fits (string_start + length second.1) random_fits,
                              (refl, (refl, tt)),
                            ),
                          )),
                    ),
              ),
        )

    finished-Starts : Starts top limit argv envp auxv random s
    unfolding stack_words
    finished-Starts =
        let sizes = length-offsets argv [] in
        record {
          aligned = pointer-aligned top limit first.0 second.0 auxv strings (length second.1) s f;
          ends = ends_at;
          within = omega (arith, ends_at, f.within, f.at);
          argument_pointers = addresses string_start first.0;
          environment_pointers = addresses string_start second.0;
          random_pointer = string_start + length second.1;
          words =
              subst
                (λ n.
                  WordsAt 0
                    (n
                      ∷ (addresses string_start first.0
                          ++ (0
                              ∷ (addresses string_start second.0
                                  ++ (0
                                      ∷ pairs (
                                          auxv
                                          ++ (at_random, string_start + length second.1)
                                            ∷ (at_null, 0)
                                            ∷ []))))))
                    s.bytes)
                sizes
                (words_at top limit first.0 second.0 auxv strings (length second.1) s f words_fit);
          arguments = arguments-Placed;
          environment = environment-Placed;
          random_bytes = random_found;
        }

-- A stack that `build` makes, for a top and auxiliary values of 64 bits, ends at the top within the limit,
-- its pointer is a multiple of 16, and from the pointer up stand the count of the arguments, pointers to
-- them and a 0, pointers to the environment and a 0, and the auxiliary pairs with AT_RANDOM and AT_NULL,
-- where each pointer leads to its text with a NUL, and AT_RANDOM to the random bytes.
pub build-Starts :
    (top limit : ℕ) (argv envp : List (List ℕ)) (auxv : List (ℕ × ℕ)) (random : List ℕ)
    (s : InitialStack)
    → build top argv envp auxv random limit ≡ ok s
    → top < 18446744073709551616
    → AllFit (pairs auxv)
    → Starts top limit argv envp auxv random s
unfolding build
build-Starts top limit argv envp auxv random s e low fit =
    finished-Starts top limit argv envp auxv random s (finish-Finished top limit _ _ auxv _ _ s e)
      low fit
