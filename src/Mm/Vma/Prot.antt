-- ===== src/Mm/Vma/Prot.antt =====
-- `Protection::from_linux`: no page is writable and executable at once.
use saeos.Prelude.{
  ℕ, ◌+◌, ◌≤◌, ◌<◌, zero, suc, ◌⊎◌, inl, inr, Bool-cases, true, false, ◌&&◌, ◌||◌, ◌≡◌, refl, arith,
  ltb, if◌then◌else◌,
}
use saeos.Fs.Errno.{ok, err, einval, eacces}
use saeos.Mm.Vma.Region.{Protection, from_linux}

-- The Linux bits of a protection.
abbrev pub bits_of : Protection → ℕ
bits_of p = (if p.read then 1 else 0) + (if p.write then 2 else 0) + (if p.execute then 4 else 0)

-- The three answers to `bits`.
abbrev pub Answers : ℕ → Type 0
Answers bits =
    ((7 < bits) × (from_linux bits ≡ err einval))
    ⊎ ((6 ≤ bits) × (bits ≤ 7) × (from_linux bits ≡ err eacces))
    ⊎ ((p : Protection) × (from_linux bits ≡ ok p)
        × ((p.write && p.execute) ≡ false)
        × ((p.write || p.execute) ≡ true → p.read ≡ true)
        × (bits ≤ bits_of p)
        × (bits_of p ≤ bits + 1))

small-Answers : (bits : ℕ) → bits < 8 → Answers bits
unfolding from_linux
small-Answers zero h = inr (
    inr (
      record { read = false; write = false; execute = false },
      refl,
      refl,
      λ e. cc,
      omega arith,
      omega arith,
    ))
small-Answers (suc zero) h = inr (
    inr (
      record { read = true; write = false; execute = false },
      refl,
      refl,
      λ e. cc,
      omega arith,
      omega arith,
    ))
small-Answers (suc (suc zero)) h = inr (
    inr (
      record { read = true; write = true; execute = false },
      refl,
      refl,
      λ e. refl,
      omega arith,
      omega arith,
    ))
small-Answers (suc (suc (suc zero))) h = inr (
    inr (
      record { read = true; write = true; execute = false },
      refl,
      refl,
      λ e. refl,
      omega arith,
      omega arith,
    ))
small-Answers (suc (suc (suc (suc zero)))) h = inr (
    inr (
      record { read = true; write = false; execute = true },
      refl,
      refl,
      λ e. refl,
      omega arith,
      omega arith,
    ))
small-Answers (suc (suc (suc (suc (suc zero))))) h = inr (
    inr (
      record { read = true; write = false; execute = true },
      refl,
      refl,
      λ e. refl,
      omega arith,
      omega arith,
    ))
small-Answers (suc (suc (suc (suc (suc (suc zero)))))) h =
    inr (inl (omega arith, omega arith, refl))
small-Answers (suc (suc (suc (suc (suc (suc (suc zero))))))) h =
    inr (inl (omega arith, omega arith, refl))
small-Answers (suc (suc (suc (suc (suc (suc (suc (suc k)))))))) h = absurd (omega arith)

-- `from_linux` on every word: unknown bits are EINVAL, write with execute is EACCES, and any other
-- bits give a protection that is never writable and executable, that is readable if it is writable
-- or executable, and that has the bits asked for and no more than the read bit besides.
pub from_linux-Answers : (bits : ℕ) → Answers bits
unfolding from_linux
from_linux-Answers bits = elim (Bool-cases (ltb 7 bits)) [
  | inl unknown ↦ inl (ground arith, rw unknown refl)
  | inr known ↦ small-Answers bits (ground arith)
]
