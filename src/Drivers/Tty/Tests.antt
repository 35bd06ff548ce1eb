-- ===== src/Drivers/Tty/Tests.antt =====
-- Typing at the console.
use Prim.Native.Nat.{ℕ}
use saeos.Prelude.{[], ◌∷◌, ◌≡◌, refl, arith}
use saeos.Drivers.Tty.Discipline.{
  Record, end_of_file, LineDiscipline, new, input, input_control, input_text, is_continuation,
  from_start, erase_character, drop_to_start, erase_word, erase_while, read,
}
use saeos.Drivers.Tty.Valid.{IsValid, calls-IsValid, characters}
use saeos.Drivers.Tty.Typing.{feed, drain, typed-drain}

-- "cd" after a first line.
abbrev console : LineDiscipline
console = record {
  line = b'd' ∷ b'c' ∷ [];
  widths = 1 ∷ 1 ∷ [];
  ready = Record.line (b'l' ∷ b's' ∷ b'\n' ∷ []) 1 ∷ end_of_file ∷ [];
}

console-IsValid : IsValid console
unfolding characters is_continuation
console-IsValid = record {
  bounded = omega arith;
  drawn = refl;
  ready_lines = (omega arith, omega arith, tt);
}

calls-IsValid_example :
    ((byte : ℕ) → IsValid (input byte (console, [])).0)
    × ((room : ℕ) → IsValid (read room console).1)
calls-IsValid_example = calls-IsValid console [] console-IsValid

typed-drain_example :
    (drain 9 2 (feed (b'l' ∷ b's' ∷ b'\n' ∷ []) (new, [])).0.ready ≡ b'l' ∷ b's' ∷ b'\n' ∷ [])
    × ((feed (b'l' ∷ b's' ∷ b'\n' ∷ []) (new, [])).1 ≡ b'l' ∷ b's' ∷ b'\n' ∷ [])
typed-drain_example =
    typed-drain (b'l' ∷ b's' ∷ []) new [] 9 2
      (omega arith, λ e. absurd (omega arith), (omega arith, λ e. absurd (omega arith), tt))
      (omega arith) refl refl (omega arith) (omega arith)

-- "a b", Ctrl-W, "c", Backspace, Ctrl-D.
edited :
    (feed (b'a' ∷ b' ' ∷ b'b' ∷ 0x17 ∷ b'c' ∷ 0x08 ∷ 0x04 ∷ []) (new, [])).0.ready
    ≡ Record.line (b'a' ∷ b' ' ∷ []) 0 ∷ []
unfolding feed input input_control input_text is_continuation from_start erase_character
    drop_to_start erase_word erase_while
edited = refl
