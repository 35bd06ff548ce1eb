-- ===== src/Drivers/Tty/Typing.antt =====
-- A line that is typed, and what its reader gets.
use Prim.Native.Nat.{ℕ, zero, suc, ◌+◌, ◌-◌, ◌≤◌, ◌<◌, min}
use saeos.Prelude.{
  true, false, ◌&&◌, ◌||◌, Option, none, some, List, [], ◌∷◌, ◌++◌, ltb, leb, ◌==◌, length, take,
  drop, ◌≡◌, ◌≢◌, refl, arith, Bool-cases, inl, inr, ap, sym, ◌∙◌, append_assoc, append_nil,
  length-append,
}
use saeos.Drivers.Tty.Discipline.{
  line_max, backspace, delete, control_c, control_d, control_u, control_w, Record, LineDiscipline,
  State, from_start, complete, type_byte, input_text, input_control, input, read_ready,
}

-- The bytes one after the other.
unfoldable pub feed : List ℕ → State → State
feed [] s = s
feed (byte ∷ bytes) s = feed bytes (input byte s)

-- Bytes of text: neither control characters nor DEL.
abbrev pub Printable : List ℕ → Type 0
Printable [] = Unit {0}
Printable (b ∷ bs) = (0x20 ≤ b) × (b ≢ delete) × Printable bs

input-Printable :
    (byte : ℕ) (s : State)
    → 0x20 ≤ byte
    → byte ≢ delete
    → length s.0.line < line_max - 1
    → input byte s ≡ type_byte byte s
unfolding input input_control input_text
input-Printable byte s low not_delete room =
    let not_enter : (byte == b'\r' || byte == b'\n') ≡ false = ground arith in
    let not_back : (byte == backspace || byte == delete) ≡ false = ground arith in
    let not_u : (byte == control_u) ≡ false = ground arith in
    let not_w : (byte == control_w) ≡ false = ground arith in
    let not_d : (byte == control_d) ≡ false = ground arith in
    let not_c : (byte == control_c) ≡ false = ground arith in
    let not_tab : (byte == b'\t' && ltb (length s.0.line) (line_max - 1)) ≡ false = ground arith in
    let text : (leb 0x20 byte && ltb (length s.0.line) (line_max - 1)) ≡ true = ground arith in
    simp (not_enter, not_back, not_u, not_w, not_d, not_c, not_tab, text)

from_start_lem : (bs bytes : List ℕ) → from_start bs bytes ≡ from_start bs [] ++ bytes
unfolding from_start
from_start_lem [] bytes = refl
from_start_lem (b ∷ bs) bytes =
    from_start_lem bs (b ∷ bytes)
    ∙ sym (
        ap (λ l. l ++ bytes) (from_start_lem bs (b ∷ []))
        ∙ append_assoc (from_start bs []) (b ∷ []) bytes)

feed-Printable :
    (text : List ℕ) (s : State)
    → Printable text
    → length s.0.line + length text < line_max
    → (widths : List ℕ) × (held : List ℕ) × (feed text s
        ≡ (record s.0 { line = held; widths = widths }, s.1 ++ text))
      × (from_start held [] ≡ from_start s.0.line [] ++ text)
unfolding feed from_start
feed-Printable [] s p h =
    (s.0.widths, s.0.line, ap (λ l. (s.0, l)) (sym (append_nil s.1)), sym (append_nil _))
feed-Printable (b ∷ bs) s p h =
    let s' = type_byte b s in
    let (widths, held, e, typed) = feed-Printable bs s' p.2 (omega arith) in
    (
      widths,
      held,
      ap (feed bs) (input-Printable b s p.0 p.1 (omega arith))
          ∙ e
          ∙ ap (λ l. (record s.0 { line = held; widths = widths }, l))
              (append_assoc s.1 (b ∷ []) bs),
      typed
          ∙ ap (λ l. l ++ bs) (from_start_lem s.0.line (b ∷ []))
          ∙ append_assoc (from_start s.0.line []) (b ∷ []) bs,
    )

feed-append : (bs cs : List ℕ) (s : State) → feed (bs ++ cs) s ≡ feed cs (feed bs s)
unfolding feed
feed-append [] cs s = refl
feed-append (b ∷ bs) cs s = feed-append bs cs (input b s)

input-enter :
    (s : State)
    → input b'\n' s ≡ (complete (record s.0 { line = b'\n' ∷ s.0.line }), s.1 ++ b'\n' ∷ [])
unfolding input
input-enter s = refl

feed-line :
    (text : List ℕ) (d : LineDiscipline) (echo : List ℕ)
    → Printable text
    → length text < line_max
    → d.line ≡ []
    → feed (text ++ b'\n' ∷ []) (d, echo) ≡ (
      record { line = []; widths = []; ready = d.ready ++ Record.line (text ++ b'\n' ∷ []) 0 ∷ [] },
      echo ++ (text ++ b'\n' ∷ []),
    )
unfolding feed
feed-line text d echo p h empty =
    let room : length d.line + length text < line_max = omega (arith, ap length empty) in
    let (widths, held, e, typed) = feed-Printable text (d, echo) p room in
    let from_empty : from_start d.line [] ++ text ≡ text =
      ap (λ bs. from_start bs [] ++ text) empty ∙ unfold from_start in refl in
    let whole : from_start (b'\n' ∷ held) [] ≡ text ++ b'\n' ∷ [] =
      unfold from_start in
      (from_start_lem held (b'\n' ∷ []) ∙ ap (λ bs. bs ++ b'\n' ∷ []) (typed ∙ from_empty)) in
    let done : List ℕ → List ℕ → State =
      λ bs l. (record { line = []; widths = []; ready = d.ready ++ Record.line bs 0 ∷ [] }, l) in
    feed-append text (b'\n' ∷ []) (d, echo)
    ∙ ap (feed (b'\n' ∷ [])) e
    ∙ input-enter (record d { line = held; widths = widths }, echo ++ text)
    ∙ ap (λ bs. done bs (echo ++ text ++ b'\n' ∷ [])) whole
    ∙ ap (done (text ++ b'\n' ∷ [])) (append_assoc echo text (b'\n' ∷ []))

-- What a reader gets who reads again and again, with a buffer of `room` bytes.
abbrev pub after_read : (List Record → List ℕ) → Option (List ℕ) × List Record → List ℕ
after_read rest (none, rs) = []
after_read rest (some bytes, rs) = bytes ++ rest rs

unfoldable pub drain : ℕ → ℕ → List Record → List ℕ
drain zero room rs = []
drain (suc fuel) room rs = after_read (drain fuel room) (read_ready room rs)

take-append-drop : (n : ℕ) (xs : List ℕ) → take n xs ++ drop n xs ≡ xs
take-append-drop zero xs = refl
take-append-drop (suc n) [] = refl
take-append-drop (suc n) (x ∷ xs) = ap (λ l. x ∷ l) (take-append-drop n xs)

drop-nil : (n : ℕ) → drop {A = ℕ} n [] ≡ []
drop-nil zero = refl
drop-nil (suc n) = refl

drop-drop : (m n : ℕ) (xs : List ℕ) → drop n (drop m xs) ≡ drop (m + n) xs
drop-drop zero n xs = ap (λ k. drop k xs) (let e : n ≡ 0 + n = omega arith in e)
drop-drop (suc m) n [] = drop-nil n ∙ sym (drop-nil (suc m + n))
drop-drop (suc m) n (x ∷ xs) =
    drop-drop m n xs
    ∙ ap (λ k. drop k (x ∷ xs)) (let e : suc (m + n) ≡ suc m + n = omega arith in e)

drop-length : (xs : List ℕ) → drop (length xs) xs ≡ []
drop-length [] = refl
drop-length (x ∷ xs) = drop-length xs

drain-nil : (fuel room : ℕ) → drain fuel room [] ≡ []
unfolding drain read_ready
drain-nil zero room = refl
drain-nil (suc fuel) room = refl

drain-line :
    (fuel room consumed : ℕ) (bytes : List ℕ)
    → 0 < room
    → consumed < length bytes
    → length bytes - consumed ≤ fuel
    → drain fuel room (Record.line bytes consumed ∷ []) ≡ drop consumed bytes
unfolding drain read_ready
drain-line zero room consumed bytes r h f = absurd (omega arith)
drain-line (suc fuel) room consumed bytes r h f =
    let count = min (length bytes - consumed) room in
    let parts : take count (drop consumed bytes) ++ drop (consumed + count) bytes
        ≡ drop consumed bytes =
      ap (λ l. take count (drop consumed bytes) ++ l) (sym (drop-drop consumed count bytes))
      ∙ take-append-drop count (drop consumed bytes) in
    elim (Bool-cases (consumed + count == length bytes)) [
      | inl whole ↦
          let end : length bytes ≡ consumed + count = ground arith in
          let nothing : drain fuel room [] ≡ drop (consumed + count) bytes =
            drain-nil fuel room ∙ sym (drop-length bytes) ∙ ap (λ k. drop k bytes) end in
          simp whole (ap (λ l. take count (drop consumed bytes) ++ l) nothing ∙ parts)
      | inr part ↦
          let rest = drain-line fuel room (consumed + count) bytes r (ground arith) (omega arith) in
          simp part (ap (λ l. take count (drop consumed bytes) ++ l) rest ∙ parts)
    ]

-- Printable text of fewer than 4096 bytes typed on an empty line, and Enter, is echoed as it is, and a
-- reader with a buffer of any size but zero gets it all, with the end of the line, and nothing else.
pub typed-drain :
    (text : List ℕ) (d : LineDiscipline) (echo : List ℕ) (fuel room : ℕ)
    → Printable text
    → length text < line_max
    → d.line ≡ []
    → d.ready ≡ []
    → 0 < room
    → length text < fuel
    → (drain fuel room (feed (text ++ b'\n' ∷ []) (d, echo)).0.ready ≡ text ++ b'\n' ∷ [])
      × ((feed (text ++ b'\n' ∷ []) (d, echo)).1 ≡ echo ++ (text ++ b'\n' ∷ []))
typed-drain text d echo fuel room p h empty none_ready r f =
    let typed = feed-line text d echo p h empty in
    let size = length-append text (b'\n' ∷ []) in
    (
      ap (λ (s : State). drain fuel room s.0.ready) typed
          ∙ ap (λ rs. drain fuel room (rs ++ Record.line (text ++ b'\n' ∷ []) 0 ∷ [])) none_ready
          ∙ drain-line fuel room 0 (text ++ b'\n' ∷ []) r (omega (arith, size))
              (omega (arith, size)),
      ap (λ (s : State). s.1) typed,
    )
