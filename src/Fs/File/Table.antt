-- ===== src/Fs/File/Table.antt =====
-- kernel/src/fs/file.rs: `FileTable` and `OpenFlags`.
use Prim.Native.Nat.{ℕ, ◌+◌, ◌-◌, bit_and}
use saeos.Prelude.{
  Bool, Option, none, some, List, [], ◌∷◌, ◌++◌, leb, ◌==◌, if◌then◌else◌, length, set, replicate,
  position, is_none, slot,
}
use saeos.Fs.Errno.{emfile, ebadf, Result, ok, err}

-- `OpenFlags::contains`.
abbrev pub contains : ℕ → ℕ → Bool
contains flags other = bit_and flags other == other

abbrev pub read_flag : ℕ
read_flag = 1

abbrev pub write_flag : ℕ
write_flag = 2

abbrev pub max_fds : ℕ
max_fds = 256

module _ {ℓ} {File : Type ℓ} where
  -- `FileTable::insert`.
  unfoldable pub insert : File → List (Option File) → Result ℕ × List (Option File)
  insert file slots = elim (position is_none slots) [
    | some index ↦ (ok index, set slots index (some file))
    | none ↦
        if leb max_fds (length slots)
        then (err emfile, slots)
        else (ok (length slots), slots ++ some file ∷ [])
  ]

  -- `FileTable::get`.
  abbrev pub get : List (Option File) → ℕ → Result File
  get slots fd = elim (slot slots fd) [ none ↦ err ebadf | some file ↦ ok file ]

  abbrev pub trim_step : Option File → List (Option File) → List (Option File)
  trim_step none [] = []
  trim_step (some f) [] = some f ∷ []
  trim_step s (t ∷ ts) = s ∷ t ∷ ts

  -- `while slots.last().is_some_and(Option::is_none) { slots.pop() }`.
  unfoldable pub trim : List (Option File) → List (Option File)
  trim [] = []
  trim (s ∷ ss) = trim_step s (trim ss)

  -- `FileTable::remove`.
  unfoldable pub remove : ℕ → List (Option File) → Result File × List (Option File)
  remove fd slots = elim (slot slots fd) [
    | none ↦ (err ebadf, slots)
    | some file ↦ (ok file, trim (set slots fd none))
  ]

  -- `FileTable::open_count`.
  unfoldable pub open_count : List (Option File) → ℕ
  open_count [] = 0
  open_count (s ∷ ss) = (if is_none s then 0 else 1) + open_count ss

  -- `FileTable::dup`.
  unfoldable pub dup : ℕ → List (Option File) → Result ℕ × List (Option File)
  dup fd slots = elim (slot slots fd) [ none ↦ (err ebadf, slots) | some file ↦ insert file slots ]

  -- `slots.resize(count, None)` where the vector is not longer.
  abbrev pub resize : ℕ → List (Option File) → List (Option File)
  resize count slots = slots ++ replicate (count - length slots) none

  -- `FileTable::dup2`.
  unfoldable pub dup2 : ℕ → ℕ → List (Option File) → Result ℕ × List (Option File)
  dup2 old new slots = elim (slot slots old) [
    | none ↦ (err ebadf, slots)
    | some file ↦
        if old == new
        then (ok new, slots)
        else if leb max_fds new
        then (err ebadf, slots)
        else (ok new, set (resize (new + 1) slots) new (some file))
  ]

  -- `FileTable::fork`: the child's table.
  abbrev pub fork : List (Option File) → List (Option File)
  fork slots = slots
