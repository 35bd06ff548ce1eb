-- ===== src/Drivers/Tty/Discipline.antt =====
-- kernel/src/drivers/tty.rs: `LineDiscipline` and its operations. The two vectors that grow and shrink at
-- their end, `line` and `widths`, are lists with the end first. What is echoed is appended to a list.
use Prim.Native.Nat.{ℕ, zero, suc, ◌+◌, ◌-◌, ◌%◌, min, bit_and}
use saeos.Prelude.{
  Bool, true, false, not, ◌&&◌, ◌||◌, Option, none, some, List, [], ◌∷◌, ◌++◌, ltb, leb, ◌==◌,
  if◌then◌else◌, length, take, drop, replicate,
}

abbrev pub line_max : ℕ
line_max = 4096

abbrev pub backspace : ℕ
backspace = 0x08

abbrev pub delete : ℕ
delete = 0x7f

abbrev pub control_c : ℕ
control_c = 0x03

abbrev pub control_d : ℕ
control_d = 0x04

abbrev pub control_u : ℕ
control_u = 0x15

abbrev pub control_w : ℕ
control_w = 0x17

abbrev pub erase_echo : List ℕ
erase_echo = 0x08 ∷ b' ' ∷ 0x08 ∷ []

pub data Record : Type 0 where
  line : List ℕ → ℕ → Record
  end_of_file : Record

pub record LineDiscipline : Type 0 where
  pub line : List ℕ
  pub widths : List ℕ
  pub ready : List Record

abbrev pub new : LineDiscipline
new = record { line = []; widths = []; ready = [] }

abbrev pub has_input : LineDiscipline → Bool
has_input d = elim d.ready [ [] ↦ false | r ∷ rs ↦ true ]

-- A byte that goes on with a character of UTF-8.
unfoldable pub is_continuation : ℕ → Bool
is_continuation byte = bit_and byte 0xc0 == 0x80

-- The loop of `erase_character`, with the byte that was popped last.
unfoldable pub drop_to_start : ℕ → List ℕ → List ℕ
drop_to_start last [] = []
drop_to_start last (byte ∷ bytes) =
    if is_continuation last then drop_to_start byte bytes else byte ∷ bytes

abbrev pub pop : List ℕ → List ℕ
pop [] = []
pop (w ∷ ws) = ws

-- `widths.pop().unwrap_or(1)`.
abbrev pub top_width : List ℕ → ℕ
top_width [] = 1
top_width (w ∷ ws) = w

unfoldable pub erase_echoes : ℕ → List ℕ
erase_echoes zero = []
erase_echoes (suc n) = erase_echo ++ erase_echoes n

abbrev pub State : Type 0
State = LineDiscipline × List ℕ

abbrev pub erase_line : List ℕ → State → Bool × State
erase_line [] s = (false, s)
erase_line (last ∷ bytes) (d, echo) = (
  true,
  (
    record d { line = drop_to_start last bytes; widths = pop d.widths },
    echo ++ erase_echoes (top_width d.widths),
  ),
)

-- `erase_character`.
unfoldable pub erase_character : State → Bool × State
erase_character s = erase_line s.0.line s

unfoldable pub column : List ℕ → ℕ
column [] = 0
column (w ∷ ws) = w + column ws

-- A vector that is read from its start.
unfoldable pub from_start : List ℕ → List ℕ → List ℕ
from_start [] bytes = bytes
from_start (b ∷ bs) bytes = from_start bs (b ∷ bytes)

abbrev pub complete : LineDiscipline → LineDiscipline
complete d = record d {
  line = [];
  widths = [];
  ready = d.ready ++ Record.line (from_start d.line []) 0 ∷ [];
}

-- `while test(self.line.last()) { self.erase_character(echo); }`
unfoldable pub erase_while : (List ℕ → Bool) → ℕ → State → State
erase_while test zero s = s
erase_while test (suc fuel) s = elim (test s.0.line) [
  | true ↦ erase_while test fuel (erase_character s).1
  | false ↦ s
]

abbrev pub is_empty : List ℕ → Bool
is_empty [] = true
is_empty (b ∷ bs) = false

abbrev pub ends_in_space : List ℕ → Bool
ends_in_space [] = false
ends_in_space (b ∷ bs) = b == b' '

abbrev pub ends_in_word : List ℕ → Bool
ends_in_word [] = false
ends_in_word (b ∷ bs) = not (b == b' ')

-- `while self.erase_character(echo) {}`.
unfoldable pub erase_until_empty : ℕ → State → State
erase_until_empty zero s = s
erase_until_empty (suc fuel) s =
    let r = erase_character s in elim r.0 [ true ↦ erase_until_empty fuel r.1 | false ↦ r.1 ]

unfoldable pub erase_all : State → State
erase_all s = erase_until_empty (suc (length s.0.line)) s

unfoldable pub erase_word : State → State
erase_word s =
    let spaces = erase_while ends_in_space (length s.0.line) s in
    erase_while ends_in_word (length spaces.0.line) spaces

abbrev pub type_tab : State → State
type_tab (d, echo) =
    let width = 8 - column d.widths % 8 in
    (record d { line = b'\t' ∷ d.line; widths = width ∷ d.widths }, echo ++ replicate width b' ')

abbrev pub type_byte : ℕ → State → State
type_byte byte (d, echo) = (
  record d {
    line = byte ∷ d.line;
    widths = if is_continuation byte then d.widths else 1 ∷ d.widths;
  },
  echo ++ byte ∷ [],
)

-- The arms for text.
unfoldable pub input_text : ℕ → State → State
input_text byte s =
    if byte == b'\t' && ltb (length s.0.line) (line_max - 1)
    then type_tab s
    else if leb 0x20 byte && ltb (length s.0.line) (line_max - 1)
    then type_byte byte s
    else s

-- The arms for Ctrl-D and Ctrl-C.
unfoldable pub input_control : ℕ → State → State
input_control byte (d, echo) =
    if byte == control_d
    then (if is_empty d.line
        then (record d { ready = d.ready ++ end_of_file ∷ [] }, echo)
        else (complete d, echo))
    else if byte == control_c
    then (record d { line = []; widths = [] }, echo ++ b'^' ∷ b'C' ∷ b'\n' ∷ [])
    else input_text byte (d, echo)

-- `input`.
unfoldable pub input : ℕ → State → State
input byte s =
    if byte == b'\r' || byte == b'\n'
    then (complete (record s.0 { line = b'\n' ∷ s.0.line }), s.1 ++ b'\n' ∷ [])
    else if byte == backspace || byte == delete
    then (erase_character s).1
    else if byte == control_u
    then erase_all s
    else if byte == control_w
    then erase_word s
    else input_control byte s

abbrev pub read_line : ℕ → List ℕ → ℕ → List Record → Option (List ℕ) × List Record
read_line room bytes consumed rest =
    let count = min (length bytes - consumed) room in
    (
      some (take count (drop consumed bytes)),
      (if consumed + count == length bytes
          then rest
          else Record.line bytes (consumed + count) ∷ rest),
    )

-- What `read` copies, for a buffer of `room` bytes, and the records that are left.
unfoldable pub read_ready : ℕ → List Record → Option (List ℕ) × List Record
read_ready room [] = (none, [])
read_ready room (end_of_file ∷ rs) = (some [], rs)
read_ready room (Record.line bytes consumed ∷ rs) = read_line room bytes consumed rs

abbrev pub read : ℕ → LineDiscipline → Option (List ℕ) × LineDiscipline
read room d = let r = read_ready room d.ready in (r.0, record d { ready = r.1 })
