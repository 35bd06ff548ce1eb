-- ===== src/Exec/Stack/Build.antt =====
-- kernel/src/exec/stack.rs: `build`. A text is the list of its bytes.
use Prim.Native.Nat.{ℕ, zero, suc, ◌+◌, ◌-◌, ◌*◌, ◌/◌, ◌%◌}
use saeos.Prelude.{List, [], ◌∷◌, ◌++◌, length, take, replicate, ltb}
use saeos.Prelude.Words.{checked_sub}
use saeos.Fs.Errno.{e2big, Result}
use saeos.Fs.Results.{◌>>=◌, ◌>>◌, ok_or, fail_if, ret}

abbrev pub at_null : ℕ
at_null = 0

abbrev pub at_random : ℕ
at_random = 25

pub record InitialStack : Type 0 where
  pub bytes : List ℕ
  pub stack_pointer : ℕ

-- A text with its NUL.
abbrev pub terminated : List ℕ → List ℕ
terminated value = value ++ 0 ∷ []

-- The closure `offsets`: the offset of each text, and the strings after them.
unfoldable pub offsets : List (List ℕ) → List ℕ → List ℕ × List ℕ
offsets [] strings = ([], strings)
offsets (value ∷ values) strings =
    let r = offsets values (strings ++ terminated value) in (length strings ∷ r.0, r.1)

-- `to_le_bytes`.
unfoldable pub le_bytes : ℕ → ℕ → List ℕ
le_bytes zero value = []
le_bytes (suc count) value = (value % 256) ∷ le_bytes count (value / 256)

-- The calls of the closure `word`.
unfoldable pub words_bytes : List ℕ → List ℕ
words_bytes [] = []
words_bytes (value ∷ values) = le_bytes 8 value ++ words_bytes values

unfoldable pub addresses : ℕ → List ℕ → List ℕ
addresses start [] = []
addresses start (offset ∷ rest) = (start + offset) ∷ addresses start rest

unfoldable pub pairs : List (ℕ × ℕ) → List ℕ
pairs [] = []
pairs ((kind, value) ∷ rest) = kind ∷ value ∷ pairs rest

-- `Vec::resize` with zeroes.
abbrev pub resize_zero : ℕ → List ℕ → List ℕ
resize_zero count bytes = take count bytes ++ replicate (count - length bytes) 0

-- The words from argc to AT_NULL.
unfoldable pub stack_words : ℕ → List ℕ → List ℕ → List (ℕ × ℕ) → ℕ → List ℕ
stack_words start argv envp auxv random_offset =
    length argv
    ∷ (addresses start argv
        ++ (0
            ∷ (addresses start envp
                ++ (0 ∷ pairs (auxv ++ (at_random, start + random_offset) ∷ (at_null, 0) ∷ [])))))

-- `build` from the string area on.
unfoldable pub finish : ℕ → ℕ → List ℕ → List ℕ → List (ℕ × ℕ) → List ℕ → ℕ → Result InitialStack
finish top limit argv envp auxv strings random_offset = do
  start ← ok_or (checked_sub top (length strings)) e2big
  let count = 1 + length argv + 1 + length envp + 1 + (length auxv + 2) * 2
  below ← ok_or (checked_sub start (count * 8)) e2big
  let stack_pointer = below - below % 16
  let total = top - stack_pointer
  fail_if (ltb limit total) e2big
  ret record {
    bytes =
        resize_zero (total - length strings)
          (words_bytes (stack_words start argv envp auxv random_offset))
        ++ strings;
    stack_pointer = stack_pointer;
  }

unfoldable pub build :
    ℕ → List (List ℕ) → List (List ℕ) → List (ℕ × ℕ) → List ℕ → ℕ → Result InitialStack
build top argv envp auxv random limit =
    let a = offsets argv [] in
    let e = offsets envp a.1 in finish top limit a.0 e.0 auxv (e.1 ++ random) (length e.1)
