-- ===== src/Drivers/Tty/Valid.antt =====
-- What holds of the line discipline at all times: room for the end of the line, a width for each character,
-- and no completed line that has been read to its end.
use Prim.Native.Nat.{ℕ, zero, suc, ◌+◌, ◌-◌, ◌≤◌, ◌<◌, min}
use saeos.Prelude.{
  Bool, true, false, ◌&&◌, ◌||◌, List, [], ◌∷◌, ◌++◌, ltb, leb, ◌==◌, if◌then◌else◌, length, ◌≡◌,
  refl, arith, Bool-cases, inl, inr, ap,
}
use saeos.Drivers.Tty.Discipline.{
  line_max, backspace, delete, control_c, control_d, control_u, control_w, Record, end_of_file,
  LineDiscipline, State, is_continuation, drop_to_start, pop, erase_line, erase_character,
  from_start, complete, erase_while, erase_until_empty, is_empty, ends_in_space, ends_in_word,
  erase_all, erase_word, type_tab, type_byte, input_text, input_control, input, read_ready, read,
}

-- The characters of a text: its bytes that do not go on with one.
unfoldable pub characters : List ℕ → ℕ
characters [] = 0
characters (b ∷ bs) = (if is_continuation b then 0 else 1) + characters bs

abbrev pub IsReady : List Record → Type 0
IsReady [] = Unit {0}
IsReady (end_of_file ∷ rs) = IsReady rs
IsReady (Record.line bytes consumed ∷ rs) =
    (consumed < length bytes) × (length bytes ≤ line_max) × IsReady rs

pub record IsValid (d : LineDiscipline) : Type 0 where
  pub bounded : length d.line < line_max
  pub drawn : length d.widths ≡ characters d.line
  pub ready_lines : IsReady d.ready

characters-drop_to_start :
    (last : ℕ) (bytes : List ℕ)
    → characters (drop_to_start last bytes) ≡ characters (last ∷ bytes) - 1
unfolding characters drop_to_start
characters-drop_to_start last [] = ground arith
characters-drop_to_start last (byte ∷ bytes) = elim (Bool-cases (is_continuation last)) [
  | inl goes_on ↦ simp goes_on (omega (arith, characters-drop_to_start byte bytes))
  | inr starts ↦ simp starts (omega arith)
]

pub length-drop_to_start :
    (last : ℕ) (bytes : List ℕ) → length (drop_to_start last bytes) ≤ length bytes
unfolding drop_to_start
length-drop_to_start last [] = omega arith
length-drop_to_start last (byte ∷ bytes) = elim (Bool-cases (is_continuation last)) [
  | inl goes_on ↦ simp goes_on (omega (arith, length-drop_to_start byte bytes))
  | inr starts ↦ simp starts (omega arith)
]

length-pop : (ws : List ℕ) → length (pop ws) ≡ length ws - 1
length-pop [] = refl
length-pop (w ∷ ws) = omega arith

erase_line-IsValid :
    (bytes : List ℕ) (s : State) → s.0.line ≡ bytes → IsValid s.0 → IsValid (erase_line bytes s).1.0
erase_line-IsValid [] s e v = v
erase_line-IsValid (last ∷ bytes) s e v =
    let size = ap length e in
    let drawn = ap characters e in
    record {
      bounded = omega (arith, length-drop_to_start last bytes, size, v.bounded);
      drawn =
          omega (arith, length-pop s.0.widths, characters-drop_to_start last bytes, drawn, v.drawn);
      ready_lines = v.ready_lines;
    }

erase_character-IsValid : (s : State) → IsValid s.0 → IsValid (erase_character s).1.0
unfolding erase_character
erase_character-IsValid s v = erase_line-IsValid s.0.line s refl v

erase_while-IsValid :
    (test : List ℕ → Bool) (fuel : ℕ) (s : State)
    → IsValid s.0
    → IsValid (erase_while test fuel s).0
unfolding erase_while
erase_while-IsValid test zero s v = v
erase_while-IsValid test (suc fuel) s v = elim (Bool-cases (test s.0.line)) [
  | inl more ↦
      rw (more, erase_while)
        (erase_while-IsValid test fuel (erase_character s).1 (erase_character-IsValid s v))
  | inr done ↦ rw (done, erase_while) v
]

erase_until_empty-IsValid :
    (fuel : ℕ) (s : State) → IsValid s.0 → IsValid (erase_until_empty fuel s).0
unfolding erase_until_empty
erase_until_empty-IsValid zero s v = v
erase_until_empty-IsValid (suc fuel) s v = elim (Bool-cases (erase_character s).0) [
  | inl more ↦
      rw (more, erase_until_empty)
        (erase_until_empty-IsValid fuel (erase_character s).1 (erase_character-IsValid s v))
  | inr done ↦ rw (done, erase_until_empty) (erase_character-IsValid s v)
]

pub length-from_start :
    (bs bytes : List ℕ) → length (from_start bs bytes) ≡ length bs + length bytes
unfolding from_start
length-from_start [] bytes = omega arith
length-from_start (b ∷ bs) bytes = omega (arith, length-from_start bs (b ∷ bytes))

IsReady-append :
    (rs : List Record) (r : Record) → IsReady rs → IsReady (r ∷ []) → IsReady (rs ++ r ∷ [])
IsReady-append [] r h k = k
IsReady-append (end_of_file ∷ rs) r h k = IsReady-append rs r h k
IsReady-append (Record.line bytes consumed ∷ rs) r h k = (h.0, h.1, IsReady-append rs r h.2 k)

-- A line with a byte in it and no more than `line_max` is completed.
complete-IsValid :
    (d : LineDiscipline)
    → 0 < length d.line
    → length d.line ≤ line_max
    → IsReady d.ready
    → IsValid (complete d)
unfolding characters
complete-IsValid d some_bytes h ready = record {
  bounded = omega arith;
  drawn = refl;
  ready_lines =
      IsReady-append d.ready (Record.line (from_start d.line []) 0) ready (
        omega (arith, length-from_start d.line []),
        omega (arith, length-from_start d.line []),
        tt,
      );
}

tab_starts : is_continuation b'\t' ≡ false
unfolding is_continuation
tab_starts = refl

type_tab-IsValid :
    (s : State) → length s.0.line < line_max - 1 → IsValid s.0 → IsValid (type_tab s).0
unfolding characters
type_tab-IsValid s h v = record {
  bounded = omega arith;
  drawn = ground (arith, tab_starts, v.drawn);
  ready_lines = v.ready_lines;
}

type_byte-IsValid :
    (byte : ℕ) (s : State)
    → length s.0.line < line_max - 1
    → IsValid s.0
    → IsValid (type_byte byte s).0
unfolding characters
type_byte-IsValid byte s h v = record {
  bounded = omega arith;
  drawn = ground (arith, v.drawn);
  ready_lines = v.ready_lines;
}

input_text-IsValid : (byte : ℕ) (s : State) → IsValid s.0 → IsValid (input_text byte s).0
unfolding input_text
input_text-IsValid byte s v =
    elim (Bool-cases (byte == b'\t' && ltb (length s.0.line) (line_max - 1))) [
      | inl tab ↦ simp tab (type_tab-IsValid s (ground arith) v)
      | inr other ↦ elim (Bool-cases (leb 0x20 byte && ltb (length s.0.line) (line_max - 1))) [
        | inl text ↦ simp other (simp text (type_byte-IsValid byte s (ground arith) v))
        | inr ignored ↦ simp other (simp ignored v)
      ]
    ]

is_empty→eq : (bs : List ℕ) → is_empty bs ≡ true → bs ≡ []
is_empty→eq [] e = refl
is_empty→eq (b ∷ bs) e = cc

is_empty→lt : (bs : List ℕ) → is_empty bs ≡ false → 0 < length bs
is_empty→lt [] e = cc
is_empty→lt (b ∷ bs) e = omega arith

input_control-IsValid : (byte : ℕ) (s : State) → IsValid s.0 → IsValid (input_control byte s).0
unfolding input_control characters
input_control-IsValid byte s v = elim (Bool-cases (byte == control_d)) [
  | inl d ↦ elim (Bool-cases (is_empty s.0.line)) [
    | inl empty ↦ simp d (
        simp empty record {
          bounded = v.bounded;
          drawn = v.drawn;
          ready_lines = IsReady-append s.0.ready end_of_file v.ready_lines tt;
        })
    | inr some_bytes ↦ simp d (
        simp some_bytes (
          complete-IsValid s.0 (is_empty→lt s.0.line some_bytes) (omega (arith, v.bounded))
            v.ready_lines))
  ]
  | inr not_d ↦ elim (Bool-cases (byte == control_c)) [
    | inl c ↦
        simp not_d
          (simp c (record { bounded = omega arith; drawn = refl; ready_lines = v.ready_lines }))
    | inr not_c ↦ simp not_d (simp not_c (input_text-IsValid byte s v))
  ]
]

erase_word-IsValid : (s : State) → IsValid s.0 → IsValid (erase_word s).0
unfolding erase_word
erase_word-IsValid s v =
    erase_while-IsValid ends_in_word _ _ (erase_while-IsValid ends_in_space (length s.0.line) s v)

input-IsValid : (byte : ℕ) (s : State) → IsValid s.0 → IsValid (input byte s).0
unfolding input erase_all
input-IsValid byte s v = elim (Bool-cases (byte == b'\r' || byte == b'\n')) [
  | inl enter ↦ simp enter (
      complete-IsValid (record s.0 { line = b'\n' ∷ s.0.line }) (omega arith)
        (omega (arith, v.bounded)) v.ready_lines)
  | inr not_enter ↦ elim (Bool-cases (byte == backspace || byte == delete)) [
    | inl back ↦ simp not_enter (simp back (erase_character-IsValid s v))
    | inr not_back ↦ elim (Bool-cases (byte == control_u)) [
      | inl u ↦
          simp not_enter
            (simp not_back (simp u (erase_until_empty-IsValid (suc (length s.0.line)) s v)))
      | inr not_u ↦ elim (Bool-cases (byte == control_w)) [
        | inl w ↦ simp not_enter (simp not_back (simp not_u (simp w (erase_word-IsValid s v))))
        | inr not_w ↦
            simp not_enter
              (simp not_back (simp not_u (simp not_w (input_control-IsValid byte s v))))
      ]
    ]
  ]
]

read_ready-IsReady : (room : ℕ) (rs : List Record) → IsReady rs → IsReady (read_ready room rs).1
unfolding read_ready
read_ready-IsReady room [] h = tt
read_ready-IsReady room (end_of_file ∷ rs) h = h
read_ready-IsReady room (Record.line bytes consumed ∷ rs) h =
    let count = min (length bytes - consumed) room in
    elim (Bool-cases (consumed + count == length bytes)) [
      | inl whole ↦ simp whole h.2
      | inr part ↦
          simp part (let lt : consumed + count < length bytes = ground arith in (lt, h.1, h.2))
    ]

-- Whatever bytes come in and however much is read: the line being edited has room for its end, each of its
-- characters has a width, and each completed line has at most 4096 bytes, one of them still to be read.
pub calls-IsValid :
    (d : LineDiscipline) (echo : List ℕ)
    → IsValid d
    → ((byte : ℕ) → IsValid (input byte (d, echo)).0) × ((room : ℕ) → IsValid (read room d).1)
calls-IsValid d echo v = (
  λ byte. input-IsValid byte (d, echo) v,
  λ room. record {
    bounded = v.bounded;
    drawn = v.drawn;
    ready_lines = read_ready-IsReady room d.ready v.ready_lines;
  },
)
