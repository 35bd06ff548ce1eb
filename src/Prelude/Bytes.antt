-- ===== src/Prelude/Bytes.antt =====
-- Little-endian numbers in a list of bytes.
use Prim.Native.Nat.{ℕ, zero, suc, ◌+◌, ◌*◌}
use mathlib.Core.List.{List}
use mathlib.Core.Option.{Option, none, some}
use saeos.Prelude.Lists.{get_elem?}

-- `from_le_bytes` of the `count` bytes at the offset, where they are within the list.
unfoldable pub le_at : ℕ → List ℕ → ℕ → Option ℕ
le_at zero file offset = some 0
le_at (suc count) file offset = elim (get_elem? file offset) [
  | none ↦ none
  | some byte ↦ elim (le_at count file (offset + 1)) [
    | none ↦ none
    | some high ↦ some (byte + 256 * high)
  ]
]
