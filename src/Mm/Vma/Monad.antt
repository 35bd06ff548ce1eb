-- ===== src/Mm/Vma/Monad.antt =====
-- The methods of `MemoryMap` that take `&mut self` and return a `Result`: the map is passed on, also
-- beside an error, so what a method did to the map before it failed can be seen.
use saeos.Prelude.{Bool, true, false, Option, none, some}
use saeos.Fs.Errno.{Errno, Result, ok, err}
use saeos.Mm.Vma.Region.{MemoryMap}

abbrev pub M : Type 0 → Type 0
M A = MemoryMap → Result A × MemoryMap

abbrev pub ret : {A : Type 0} → A → M A
ret a m = (ok a, m)

abbrev pub fail : {A : Type 0} → Errno → M A
fail e m = (err e, m)

abbrev pub follow : {A B : Type 0} → Result A × MemoryMap → (A → M B) → Result B × MemoryMap
follow (ok a, m) f = f a m
follow (err e, m) f = (err e, m)

infixl 5 ◌>>=◌ ◌>>◌
abbrev pub ◌>>=◌ : {A B : Type 0} → M A → (A → M B) → M B
◌>>=◌ c f m = follow (c m) f

abbrev pub ◌>>◌ : {B : Type 0} → M (Unit {0}) → M B → M B
c >> k = c >>= λ _. k

-- `if test { return Err(e) }`.
abbrev pub fail_if : Bool → Errno → M (Unit {0})
fail_if true e = fail e
fail_if false e = ret tt

-- `option.ok_or(e)?`.
abbrev pub ok_or : {A : Type 0} → Option A → Errno → M A
ok_or none e = fail e
ok_or (some a) e = ret a

-- The map as it is.
abbrev pub get : M MemoryMap
get m = (ok m, m)
