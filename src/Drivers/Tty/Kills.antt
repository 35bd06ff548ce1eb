-- ===== src/Drivers/Tty/Kills.antt =====
-- The loops of Ctrl-U and Ctrl-W end by their tests.
use Prim.Native.Nat.{ℕ, zero, suc, ◌≤◌, ◌<◌}
use saeos.Prelude.{Bool, true, false, List, [], ◌∷◌, length, ◌≡◌, refl, arith, Bool-cases, inl, inr}
use saeos.Drivers.Tty.Discipline.{
  control_u, control_w, State, erase_line, erase_character, erase_while, erase_until_empty,
  ends_in_space, ends_in_word, erase_all, erase_word, input,
}
use saeos.Drivers.Tty.Valid.{length-drop_to_start}

-- An erasure takes a byte or more, unless there is none.
length-erase_line :
    (bytes : List ℕ) (s : State)
    → s.0.line ≡ bytes
    → (erase_line bytes s).0 ≡ true
    → length (erase_line bytes s).1.0.line < length bytes
length-erase_line [] s e more = absurd (ground arith)
length-erase_line (last ∷ bytes) s e more = omega (arith, length-drop_to_start last bytes)

line-erase_line :
    (bytes : List ℕ) (s : State)
    → s.0.line ≡ bytes
    → (erase_line bytes s).0 ≡ false
    → (erase_line bytes s).1.0.line ≡ []
line-erase_line [] s e none = e
line-erase_line (last ∷ bytes) s e none = cc

erase_line_some : (bytes : List ℕ) (s : State) → 0 < length bytes → (erase_line bytes s).0 ≡ true
erase_line_some [] s h = absurd (omega arith)
erase_line_some (last ∷ bytes) s h = refl

length-erase_character :
    (s : State)
    → (erase_character s).0 ≡ true
    → length (erase_character s).1.0.line < length s.0.line
unfolding erase_character
length-erase_character s more = length-erase_line s.0.line s refl more

erase_until_empty-line :
    (fuel : ℕ) (s : State) → length s.0.line < fuel → (erase_until_empty fuel s).0.line ≡ []
unfolding erase_until_empty
erase_until_empty-line zero s h = absurd (omega arith)
erase_until_empty-line (suc fuel) s h = elim (Bool-cases (erase_character s).0) [
  | inl more ↦
      rw (more, erase_until_empty)
        (erase_until_empty-line fuel (erase_character s).1
          (omega (arith, length-erase_character s more)))
  | inr done ↦
      rw (done, erase_until_empty) (unfold erase_character in line-erase_line s.0.line s refl done)
]

test_some :
    (test : List ℕ → Bool) (bytes : List ℕ) → test [] ≡ false → test bytes ≡ true → 0 < length bytes
test_some test [] e h = absurd (ground arith)
test_some test (b ∷ bs) e h = omega arith

erase_while_stops :
    (test : List ℕ → Bool) (fuel : ℕ) (s : State)
    → test [] ≡ false
    → length s.0.line ≤ fuel
    → test (erase_while test fuel s).0.line ≡ false
unfolding erase_while
erase_while_stops test zero s e h = elim (Bool-cases (test s.0.line)) [
  | inl more ↦ let some_bytes = test_some test s.0.line e more in absurd (omega arith)
  | inr done ↦ done
]
erase_while_stops test (suc fuel) s e h = elim (Bool-cases (test s.0.line)) [
  | inl more ↦
      let erased : (erase_character s).0 ≡ true =
        unfold erase_character in erase_line_some s.0.line s (test_some test s.0.line e more) in
      rw (more, erase_while)
        (erase_while_stops test fuel (erase_character s).1 e
          (omega (arith, length-erase_character s erased)))
  | inr done ↦ rw (done, erase_while) done
]

-- Ctrl-U leaves an empty line, and after Ctrl-W the line does not end in a word.
pub kills_stop :
    (s : State)
    → ((input control_u s).0.line ≡ []) × (ends_in_word (input control_w s).0.line ≡ false)
unfolding input erase_all erase_word
kills_stop s = (
  erase_until_empty-line (suc (length s.0.line)) s (omega arith),
  erase_while_stops ends_in_word _ (erase_while ends_in_space (length s.0.line) s) refl
      (omega arith),
)
