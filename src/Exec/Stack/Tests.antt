-- ===== src/Exec/Stack/Tests.antt =====
-- The initial stack of a program with one argument, below the address 4096.
use Prim.Native.Nat.{ℕ}
use saeos.Prelude.{List, [], ◌∷◌, ◌≡◌, refl, arith}
use saeos.Fs.Errno.{ok}
use saeos.Exec.Stack.Build.{
  InitialStack, build, offsets, finish, stack_words, words_bytes, le_bytes, addresses, pairs,
}
use saeos.Exec.Stack.Texts.{Starts, build-Starts}

abbrev random : List ℕ
random = 1 ∷ 2 ∷ 3 ∷ 4 ∷ 5 ∷ 6 ∷ 7 ∷ 8 ∷ 9 ∷ 10 ∷ 11 ∷ 12 ∷ 13 ∷ 14 ∷ 15 ∷ 16 ∷ []

abbrev stack : InitialStack
stack = record {
  bytes =
      1 ∷ 0 ∷ 0 ∷ 0 ∷ 0 ∷ 0 ∷ 0 ∷ 0 ∷ 238 ∷ 15 ∷ 0 ∷ 0 ∷ 0 ∷ 0 ∷ 0 ∷ 0 ∷ 0 ∷ 0 ∷ 0 ∷ 0 ∷ 0 ∷ 0 ∷ 0
      ∷ 0 ∷ 0 ∷ 0 ∷ 0 ∷ 0 ∷ 0 ∷ 0 ∷ 0 ∷ 0 ∷ 6 ∷ 0 ∷ 0 ∷ 0 ∷ 0 ∷ 0 ∷ 0 ∷ 0 ∷ 0 ∷ 16 ∷ 0 ∷ 0 ∷ 0 ∷ 0
      ∷ 0 ∷ 0 ∷ 25 ∷ 0 ∷ 0 ∷ 0 ∷ 0 ∷ 0 ∷ 0 ∷ 0 ∷ 240 ∷ 15 ∷ 0 ∷ 0 ∷ 0 ∷ 0 ∷ 0 ∷ 0 ∷ 0 ∷ 0 ∷ 0 ∷ 0
      ∷ 0 ∷ 0 ∷ 0 ∷ 0 ∷ 0 ∷ 0 ∷ 0 ∷ 0 ∷ 0 ∷ 0 ∷ 0 ∷ 0 ∷ 0 ∷ 0 ∷ 0 ∷ 0 ∷ 0 ∷ 0 ∷ 0 ∷ 0 ∷ 0 ∷ 0 ∷ 0
      ∷ 0 ∷ 0 ∷ 0 ∷ 97 ∷ 0 ∷ 1 ∷ 2 ∷ 3 ∷ 4 ∷ 5 ∷ 6 ∷ 7 ∷ 8 ∷ 9 ∷ 10 ∷ 11 ∷ 12 ∷ 13 ∷ 14 ∷ 15 ∷ 16
      ∷ [];
  stack_pointer = 3984;
}

built : build 4096 ((b'a' ∷ []) ∷ []) [] ((6, 4096) ∷ []) random 4096 ≡ ok stack
unfolding build offsets finish stack_words words_bytes le_bytes addresses pairs
built = refl

build-Starts_example : Starts 4096 4096 ((b'a' ∷ []) ∷ []) [] ((6, 4096) ∷ []) random stack
unfolding pairs
build-Starts_example =
    build-Starts 4096 4096 ((b'a' ∷ []) ∷ []) [] ((6, 4096) ∷ []) random stack built (omega arith)
      (refl, (refl, tt))
