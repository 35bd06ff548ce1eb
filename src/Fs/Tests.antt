-- ===== src/Fs/Tests.antt =====
-- Paths and descriptor tables at concrete inputs: open files are named by numbers.
use Prim.Native.Nat.{ℕ}
use saeos.Prelude.{but_last, ◌++◌, true, Option, none, some, List, [], ◌∷◌, ◌≡◌, refl, arith}
use saeos.Fs.Errno.{ok}
use saeos.Fs.Path.Resolve.{
  Text, Names, slash, join, resolve, walk, split, is_whole, is_name, component,
}
use saeos.Fs.Path.Steps.{resolve_path}
use saeos.Fs.File.Table.{insert, remove, dup2, trim}
use saeos.Fs.File.Trimmed.{IsTable}
use saeos.Fs.File.Methods.{Inserts, Duplicates, insert-Inserts, dup2-Duplicates}
use saeos.Fs.File.RoundTrip.{remove-insert}

-- "/usr/bin" and ".././/lib/".
abbrev cwd : Text
cwd = b'/' ∷ b'u' ∷ b's' ∷ b'r' ∷ b'/' ∷ b'b' ∷ b'i' ∷ b'n' ∷ []

abbrev path : Text
path = b'.' ∷ b'.' ∷ b'/' ∷ b'.' ∷ b'/' ∷ b'/' ∷ b'l' ∷ b'i' ∷ b'b' ∷ b'/' ∷ []

resolved : resolve cwd path ≡ b'/' ∷ b'u' ∷ b's' ∷ b'r' ∷ b'/' ∷ b'l' ∷ b'i' ∷ b'b' ∷ []
unfolding resolve walk split join
resolved = refl

resolve_path_example :
    (names : List Text) × Names names
    × (resolve cwd path ≡ slash ∷ join names)
    × ((other : Text) → resolve other (resolve cwd path) ≡ resolve cwd path)
    × (resolve cwd (path ++ slash ∷ b'.' ∷ b'.' ∷ []) ≡ slash ∷ join (but_last names))
    × (resolve cwd (path ++ slash ∷ b'.' ∷ []) ≡ slash ∷ join names)
    × ((name : Text)
        → is_whole name ≡ true
        → is_name (component name) ≡ true
        → resolve cwd (path ++ slash ∷ name) ≡ slash ∷ join (names ++ name ∷ []))
resolve_path_example =
    resolve_path cwd b'.' (b'.' ∷ b'/' ∷ b'.' ∷ b'/' ∷ b'/' ∷ b'l' ∷ b'i' ∷ b'b' ∷ b'/' ∷ [])

-- Descriptors 0 and 2 are open, and 1 is free.
abbrev table : List (Option ℕ)
table = some 10 ∷ none ∷ some 12 ∷ []

table-IsTable : IsTable table
table-IsTable = record { bounded = omega arith; trimmed = tt }

insert-Inserts_example : Inserts 11 table (insert 11 table)
insert-Inserts_example = insert-Inserts 11 table table-IsTable

removed : remove 2 table ≡ (ok 12, some 10 ∷ [])
unfolding remove trim
removed = refl

dup2-Duplicates_example : Duplicates 0 4 table (dup2 0 4 table)
dup2-Duplicates_example = dup2-Duplicates 0 4 table

inserted : (insert 11 table).0 ≡ ok 1
unfolding insert
inserted = refl

remove-insert_example : remove 1 (insert 11 table).1 ≡ (ok 11, table)
remove-insert_example = remove-insert 11 table 1 table-IsTable inserted
