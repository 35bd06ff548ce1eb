-- ===== src/Fs/Results.antt =====
-- Sequencing of results with an error number: Rust's `?`.
use saeos.Prelude.{Bool, true, false, Option, none, some, ◌≡◌, ◌⊎◌, inl, inr, refl}
use saeos.Fs.Errno.{Errno, Result, ok, err}

infixl 5 ◌>>=◌ ◌>>◌
abbrev pub ◌>>=◌ : {A B : Type 0} → Result A → (A → Result B) → Result B
ok a >>= f = f a
err e >>= f = err e

abbrev pub ◌>>◌ : {B : Type 0} → Result (Unit {0}) → Result B → Result B
ok u >> r = r
err e >> r = err e

abbrev pub ret : {A : Type 0} → A → Result A
ret a = ok a

abbrev pub ok_or : {A : Type 0} → Option A → Errno → Result A
ok_or none e = err e
ok_or (some a) e = ok a

abbrev pub fail_if : Bool → Errno → Result (Unit {0})
fail_if true e = err e
fail_if false e = ok tt

pub Result-cases :
    {A : Type 0} (r : Result A) → ((e : Errno) × (r ≡ err e)) ⊎ ((a : A) × (r ≡ ok a))
Result-cases (ok a) = inr (a, refl)
Result-cases (err e) = inl (e, refl)
