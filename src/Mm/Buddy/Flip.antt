-- ===== src/Mm/Buddy/Flip.antt =====
-- The buddy of a block, `frame ^ (1 << order)`.
use Prim.Native.Nat.{
  ℕ, zero, suc, ◌+◌, ◌-◌, ◌*◌, ◌/◌, ◌%◌, ◌^◌, ◌≤◌, min, bit_xor, digits, differ, bit_xor-bitwise,
}
use native.Mathlib.Nat.{two-pow-succ}
use saeos.Prelude.{
  ◌≡◌, ◌≢◌, refl, sym, ◌∙◌, ap, subst, arith, ◌⊎◌, inl, inr, Bool-cases, leb, ltb, ◌==◌,
  if◌then◌else◌,
}
use saeos.Mm.Buddy.Blocks.{half, half-suc, Aligned, half-upper, half-even}

abbrev xor_digits : ℕ → ℕ → ℕ → ℕ
xor_digits n a b = digits (λ b. b) differ n a b

xor_digits_fuel : (n m a b : ℕ) → a ≤ n → a ≤ m → xor_digits n a b ≡ xor_digits m a b
xor_digits_fuel zero zero a b p q = refl
xor_digits_fuel zero (suc m) zero b p q = refl
xor_digits_fuel zero (suc m) (suc a) b p q = absurd (omega arith)
xor_digits_fuel (suc n) zero zero b p q = refl
xor_digits_fuel (suc n) zero (suc a) b p q = absurd (omega arith)
xor_digits_fuel (suc n) (suc m) zero b p q = refl
xor_digits_fuel (suc n) (suc m) (suc a) b p q =
    omega (arith, xor_digits_fuel n m (suc a / 2) (b / 2) (omega arith) (omega arith))

zero-bit_xor : (b : ℕ) → bit_xor 0 b ≡ b
zero-bit_xor b = bit_xor-bitwise 0 b

pub bit_xor_step : (a b : ℕ) → bit_xor a b ≡ bit_xor (a / 2) (b / 2) * 2 + differ (a % 2) (b % 2)
bit_xor_step zero b = omega (arith, zero-bit_xor b, zero-bit_xor (b / 2))
bit_xor_step (suc a) b = omega (
  arith,
  bit_xor-bitwise (suc a) b,
  bit_xor-bitwise (suc a / 2) (b / 2),
  xor_digits_fuel a (suc a / 2) (suc a / 2) (b / 2) (omega arith) (omega arith),
)

differ-zero : (x : ℕ) → differ x 0 ≡ x
differ-zero zero = refl
differ-zero (suc x) = refl

bit_xor-zero_fuel : (n a : ℕ) → a ≤ n → bit_xor a 0 ≡ a
bit_xor-zero_fuel n zero h = zero-bit_xor 0
bit_xor-zero_fuel zero (suc a) h = absurd (omega arith)
bit_xor-zero_fuel (suc n) (suc a) h = omega (
  arith,
  bit_xor_step (suc a) 0,
  bit_xor-zero_fuel n (suc a / 2) (omega arith),
  differ-zero (suc a % 2),
)

pub bit_xor-zero : (a : ℕ) → bit_xor a 0 ≡ a
bit_xor-zero a = bit_xor-zero_fuel a a (omega arith)

-- The other of two halves.
abbrev pub other : ℕ → ℕ
other m = if ltb (m % 2) 1 then m + 1 else m - 1

bit_xor-one : (a : ℕ) → bit_xor a 1 ≡ other a
bit_xor-one a = elim (Bool-cases (ltb (a % 2) 1)) [
  | inl even ↦
      let low : a % 2 ≡ 0 = ground arith in
      simp even (omega (arith, bit_xor_step a 1, bit_xor-zero (a / 2), ap (λ x. differ x 1) low))
  | inr odd ↦
      let high : a % 2 ≡ 1 = ground arith in
      simp odd (omega (arith, bit_xor_step a 1, bit_xor-zero (a / 2), ap (λ x. differ x 1) high))
]

abbrev pub buddy_of : ℕ → ℕ → ℕ
buddy_of k h = bit_xor h (2 ^ k)

buddy_step : (k h : ℕ) → h % 2 ≡ 0 → buddy_of (suc k) h ≡ buddy_of k (h / 2) * 2
buddy_step k h e =
    let even : 2 ^ suc k % 2 ≡ 0 = omega (arith, two-pow-succ k) in
    let rest : 2 ^ suc k / 2 ≡ 2 ^ k = omega (arith, two-pow-succ k) in
    omega (
      arith,
      bit_xor_step h (2 ^ suc k),
      ap (λ n. bit_xor (h / 2) n) rest,
      ap (λ n. differ (h % 2) n) even,
      ap (λ n. differ n 0) e,
      differ-zero 0,
    )

pub buddy-Aligned : (k h : ℕ) → Aligned k h → Aligned k (buddy_of k h)
buddy-Aligned zero h a = tt
buddy-Aligned (suc k) h a =
    let e = buddy_step k h a.0 in
    let rest : buddy_of (suc k) h / 2 ≡ buddy_of k (h / 2) = omega (arith, e) in
    (omega (arith, e), subst (Aligned k) (sym rest) (buddy-Aligned k (h / 2) a.1))

pub half-buddy : (k h : ℕ) → Aligned k h → half k (buddy_of k h) ≡ other (half k h)
unfolding half
half-buddy zero h a = bit_xor-one h
half-buddy (suc k) h a =
    let rest : buddy_of (suc k) h / 2 ≡ buddy_of k (h / 2) = omega (arith, buddy_step k h a.0) in
    ap (half k) rest ∙ half-buddy k (h / 2) a.1

other_facts :
    (m : ℕ)
    → (other m ≢ m)
      × (other m / 2 ≡ m / 2)
      × (m ≤ other m → m % 2 ≡ 0)
      × (other m ≤ m → other m % 2 ≡ 0)
other_facts m = (λ e. ground arith, ground arith, λ h. ground arith, λ h. ground arith)

same_pair : (m n : ℕ) → m / 2 ≡ n / 2 → (m ≡ n) ⊎ (m ≡ other n)
same_pair m n e = elim (Bool-cases (m == n)) [
  | inl same ↦ inl (ground arith)
  | inr two ↦ inr (ground arith)
]

pub half-le : (k a b : ℕ) → a ≤ b → half k a ≤ half k b
unfolding half
half-le zero a b h = h
half-le (suc k) a b h = half-le k (a / 2) (b / 2) (omega arith)

Aligned_of_even : (k h : ℕ) → Aligned k h → half k h % 2 ≡ 0 → Aligned (suc k) h
unfolding half
Aligned_of_even zero h a e = (e, tt)
Aligned_of_even (suc k) h a e = (a.0, Aligned_of_even k (h / 2) a.1 e)

module _ (k h : ℕ) (a : Aligned k h) where
  -- A block and its buddy are two, and the halves of one.
  pub half-buddy-ne : half k (buddy_of k h) ≢ half k h
  half-buddy-ne e = (other_facts (half k h)).0 (sym (half-buddy k h a) ∙ e)

  pub half-suc-buddy : half (suc k) (buddy_of k h) ≡ half (suc k) h
  half-suc-buddy =
      half-suc k (buddy_of k h)
      ∙ ap (λ m. m / 2) (half-buddy k h a)
      ∙ (other_facts (half k h)).1
      ∙ sym (half-suc k h)

  pub min-buddy_lem :
      Aligned (suc k) (min h (buddy_of k h))
      × (half (suc k) (min h (buddy_of k h)) ≡ half (suc k) h)
  min-buddy_lem =
      let o = half-buddy k h a in
      elim (Bool-cases (leb h (buddy_of k h))) [
        | inl low ↦
            let le : half k h ≤ other (half k h) =
              subst (λ m. half k h ≤ m) o (half-le k h (buddy_of k h) (ground arith)) in
            let same : min h (buddy_of k h) ≡ h = ground arith in
            (
              subst (Aligned (suc k)) (sym same)
                  (Aligned_of_even k h a ((other_facts (half k h)).2 le)),
              ap (half (suc k)) same,
            )
        | inr high ↦
            let le : other (half k h) ≤ half k h =
              subst (λ m. m ≤ half k h) o (half-le k (buddy_of k h) h (ground arith)) in
            let same : min h (buddy_of k h) ≡ buddy_of k h = ground arith in
            let even : half k (buddy_of k h) % 2 ≡ 0 =
              ap (λ m. m % 2) o ∙ (other_facts (half k h)).3 le in
            (
              subst (Aligned (suc k)) (sym same)
                  (Aligned_of_even k (buddy_of k h) (buddy-Aligned k h a) even),
              ap (half (suc k)) same ∙ half-suc-buddy,
            )
      ]

  -- The frames of both are those of either.
  pub half-suc-cases :
      (f : ℕ)
      → half (suc k) f ≡ half (suc k) h
      → (half k f ≡ half k h) ⊎ (half k f ≡ half k (buddy_of k h))
  half-suc-cases f e =
      let e' : half k f / 2 ≡ half k h / 2 = sym (half-suc k f) ∙ e ∙ half-suc k h in
      elim (same_pair (half k f) (half k h) e') [
        | inl same ↦ inl same
        | inr two ↦ inr (two ∙ sym (half-buddy k h a))
      ]

-- The frames of a block of order `suc k` are those of its halves.
pub half-suc-split :
    (k h f : ℕ)
    → Aligned (suc k) h
    → half (suc k) f ≡ half (suc k) h
    → (half k f ≡ half k h) ⊎ (half k f ≡ half k (h + 2 ^ k))
half-suc-split k h f a e =
    let e' : half k f / 2 ≡ half k h / 2 = sym (half-suc k f) ∙ e ∙ half-suc k h in
    elim (same_pair (half k f) (half k h) e') [
      | inl same ↦ inl same
      | inr two ↦ inr (let up = half-upper k h a in let even = half-even k h a in ground arith)
    ]
