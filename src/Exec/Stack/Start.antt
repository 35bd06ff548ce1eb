-- ===== src/Exec/Stack/Start.antt =====
-- What a program finds at its start: the stack pointer, the words above it, and the texts they point at.
use Prim.Native.Nat.{ℕ, ◌+◌, ◌-◌, ◌*◌, ◌%◌, ◌≤◌}
use saeos.Prelude.{
  List, [], ◌++◌, length, replicate, ltb, leb, ◌≡◌, sym, ◌∙◌, ap, subst, arith, Bool-cases, inl,
  inr, length-append, length-replicate, append_assoc,
}
use saeos.Fs.Errno.{ok}
use saeos.Exec.Stack.Build.{InitialStack, words_bytes, resize_zero, stack_words, finish}
use saeos.Exec.Stack.Layout.{
  WordsAt, AllFit, words_bytes-WordsAt, length-words_bytes, length-stack_words, take_all,
}

abbrev pub word_count : List ℕ → List ℕ → List (ℕ × ℕ) → ℕ
word_count argv envp auxv = 1 + length argv + 1 + length envp + 1 + (length auxv + 2) * 2

module _ (top limit : ℕ) (argv envp : List ℕ) (auxv : List (ℕ × ℕ)) (strings : List ℕ)
    (random_offset : ℕ) where
  abbrev pub start : ℕ
  start = top - length strings

  abbrev pub below : ℕ
  below = start - word_count argv envp auxv * 8

  abbrev pub pointer : ℕ
  pointer = below - below % 16

  abbrev pub words : List ℕ
  words = stack_words start argv envp auxv random_offset

  pub record Finished (s : InitialStack) : Type 0 where
    pub fits : length strings ≤ top
    pub room : word_count argv envp auxv * 8 ≤ start
    pub at : s.stack_pointer ≡ pointer
    pub layout :
        s.bytes ≡ resize_zero (top - pointer - length strings) (words_bytes words) ++ strings
    pub within : top - pointer ≤ limit

  pub finish-Finished :
      (s : InitialStack) → finish top limit argv envp auxv strings random_offset ≡ ok s → Finished s
  unfolding finish
  finish-Finished s e = elim (Bool-cases (leb (length strings) top)) [
    | inr long ↦ absurd (ground arith)
    | inl fits ↦ elim (Bool-cases (leb (word_count argv envp auxv * 8) start)) [
      | inr long ↦ absurd (ground arith)
      | inl room ↦ elim (Bool-cases (ltb limit (top - pointer))) [
        | inl long ↦ absurd (ground arith)
        | inr within ↦ record {
          fits = ground arith;
          room = ground arith;
          at = ground arith;
          layout = ground arith;
          within = ground arith;
        }
      ]
    ]
  ]

  -- The bytes are the words, zeroes and the strings.
  abbrev pub padding : List ℕ
  padding = replicate (top - pointer - length strings - length (words_bytes words)) 0

  module _ (s : InitialStack) (f : Finished s) where
    room_for_words : length (words_bytes words) ≤ top - pointer - length strings
    room_for_words = omega (
      arith,
      length-words_bytes words,
      length-stack_words start argv envp auxv random_offset,
      f.room,
      f.fits,
    )

    pub bytes_lem : s.bytes ≡ words_bytes words ++ (padding ++ strings)
    bytes_lem =
        f.layout
        ∙ ap (λ l. l ++ padding ++ strings)
            (take_all (top - pointer - length strings) (words_bytes words) room_for_words)
        ∙ append_assoc (words_bytes words) padding strings

    pub length-bytes : s.stack_pointer + length s.bytes ≡ top
    length-bytes = omega (
      arith,
      ap length bytes_lem,
      f.at,
      f.room,
      f.fits,
      room_for_words,
      length-append (words_bytes words) (padding ++ strings),
      length-append padding strings,
      length-replicate {A = ℕ} (top - pointer - length strings - length (words_bytes words)) 0,
    )

    pub pointer-aligned : s.stack_pointer % 16 ≡ 0
    pointer-aligned = omega (arith, f.at)

    pub start_lem : start ≡ s.stack_pointer + length (words_bytes words ++ padding)
    start_lem = omega (
      arith,
      length-bytes,
      ap length bytes_lem,
      length-append (words_bytes words) padding,
      length-append (words_bytes words) (padding ++ strings),
      length-append padding strings,
      f.fits,
    )

    pub words_at : AllFit words → WordsAt 0 words s.bytes
    words_at fit =
        subst (λ l. WordsAt 0 words l) (sym bytes_lem)
          (words_bytes-WordsAt words [] (padding ++ strings) fit)
