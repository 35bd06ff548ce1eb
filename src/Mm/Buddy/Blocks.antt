-- ===== src/Mm/Buddy/Blocks.antt =====
-- Blocks of frames: which frames an aligned block has, and how blocks lie to one another. The frames of
-- the block of order `k` at `head` are those with the same halves.
use Prim.Native.Nat.{ℕ, zero, suc, ◌+◌, ◌-◌, ◌*◌, ◌/◌, ◌%◌, ◌^◌, ◌≤◌, ◌<◌}
use native.Mathlib.Nat.{two-pow-succ, div-add-mod, mul-mod_right, add-mul}
use saeos.Prelude.{◌≡◌, refl, sym, ◌∙◌, ap, subst, arith, inl, inr, Bool-cases, ◌==◌}

-- `frame >> k`.
unfoldable pub half : ℕ → ℕ → ℕ
half zero frame = frame
half (suc k) frame = half k (frame / 2)

-- A multiple of `2 ^ k`.
abbrev pub Aligned : ℕ → ℕ → Type 0
Aligned zero frame = Unit {0}
Aligned (suc k) frame = (frame % 2 ≡ 0) × Aligned k (frame / 2)

pub pow_pos : (k : ℕ) → 0 < 2 ^ k
pow_pos zero = omega arith
pow_pos (suc k) = omega (arith, two-pow-succ k, pow_pos k)

pub half-suc : (k f : ℕ) → half (suc k) f ≡ half k f / 2
unfolding half
half-suc zero f = refl
half-suc (suc k) f = half-suc k (f / 2)

-- The frames of a block are those of the range.
pub half-eq_of_range : (k h f : ℕ) → Aligned k h → h ≤ f → f < h + 2 ^ k → half k f ≡ half k h
unfolding half
half-eq_of_range zero h f a low high = omega arith
half-eq_of_range (suc k) h f a low high =
    half-eq_of_range k (h / 2) (f / 2) a.1 (omega arith) (omega (arith, two-pow-succ k))

pub range_of_half-eq : (k h f : ℕ) → Aligned k h → half k f ≡ half k h → (h ≤ f) × (f < h + 2 ^ k)
unfolding half
range_of_half-eq zero h f a e = omega arith
range_of_half-eq (suc k) h f a e =
    let r = range_of_half-eq k (h / 2) (f / 2) a.1 e in
    (omega (arith, r.0), omega (arith, r.1, two-pow-succ k))

-- Two blocks with a frame in common: the larger has all frames of the smaller.
pub half-eq_mono : (k d a b : ℕ) → half k a ≡ half k b → half (d + k) a ≡ half (d + k) b
half-eq_mono k zero a b e =
    subst (λ n. half n a ≡ half n b) (let z : k ≡ 0 + k = omega arith in z) e
half-eq_mono k (suc d) a b e =
    let next : suc (d + k) ≡ suc d + k = omega arith in
    let ih = half-eq_mono k d a b e in
    subst (λ n. half n a ≡ half n b) next
      (half-suc (d + k) a ∙ ap (λ n. n / 2) ih ∙ sym (half-suc (d + k) b))

pub half-eq_le : (k k' a b : ℕ) → k ≤ k' → half k a ≡ half k b → half k' a ≡ half k' b
half-eq_le k k' a b h e =
    subst (λ n. half n a ≡ half n b) (let z : k' - k + k ≡ k' = omega arith in z)
      (half-eq_mono k (k' - k) a b e)

pub Aligned_pred : (k f : ℕ) → Aligned (suc k) f → Aligned k f
Aligned_pred zero f a = tt
Aligned_pred (suc k) f a = (a.0, Aligned_pred k (f / 2) a.1)

-- Aligned numbers with the same halves are the same.
pub Aligned-unique : (k a b : ℕ) → Aligned k a → Aligned k b → half k a ≡ half k b → a ≡ b
unfolding half
Aligned-unique zero a b p q e = e
Aligned-unique (suc k) a b p q e = omega (arith, Aligned-unique k (a / 2) (b / 2) p.1 q.1 e)

pub Aligned_of_mod : (k f : ℕ) → f % 2 ^ k ≡ 0 → Aligned k f
Aligned_of_mod zero f e = tt
Aligned_of_mod (suc k) f e =
    let p = 2 ^ k in
    let q = f / 2 ^ suc k in
    let whole : f ≡ p * q + p * q =
      sym (div-add-mod f (2 ^ suc k))
      ∙ ap (λ m. 2 ^ suc k * q + m) e
      ∙ omega (arith, ap (λ m. m * q) (two-pow-succ k), add-mul p p q) in
    let rest : f / 2 ≡ p * q = omega (arith, whole) in
    (omega (arith, whole), Aligned_of_mod k (f / 2) (ap (λ m. m % p) rest ∙ mul-mod_right p q))

pub mul-half : (k f : ℕ) → Aligned k f → f ≡ 2 ^ k * half k f
unfolding half
mul-half zero f a = omega arith
mul-half (suc k) f a =
    let rest = mul-half k (f / 2) a.1 in
    let m = half k (f / 2) in
    omega (arith, a.0, rest, ap (λ p. p * m) (two-pow-succ k), add-mul (2 ^ k) (2 ^ k) m)

pub mod_of_Aligned : (k f : ℕ) → Aligned k f → f % 2 ^ k ≡ 0
mod_of_Aligned k f a = ap (λ n. n % 2 ^ k) (mul-half k f a) ∙ mul-mod_right (2 ^ k) (half k f)

pub Aligned-zero : (k : ℕ) → Aligned k 0
Aligned-zero zero = tt
Aligned-zero (suc k) = (refl, Aligned-zero k)

pub half-zero : (k : ℕ) → half k 0 ≡ 0
unfolding half
half-zero zero = refl
half-zero (suc k) = half-zero k

-- The halves of a block of order `suc k`.
pub Aligned-upper : (k h : ℕ) → Aligned (suc k) h → Aligned k (h + 2 ^ k)
Aligned-upper zero h a = tt
Aligned-upper (suc k) h a =
    let e : (h + 2 ^ suc k) / 2 ≡ h / 2 + 2 ^ k = omega (arith, two-pow-succ k, a.0) in
    (omega (arith, two-pow-succ k, a.0), subst (Aligned k) (sym e) (Aligned-upper k (h / 2) a.1))

pub half-upper : (k h : ℕ) → Aligned (suc k) h → half k (h + 2 ^ k) ≡ half k h + 1
unfolding half
half-upper zero h a = omega arith
half-upper (suc k) h a =
    let e : (h + 2 ^ suc k) / 2 ≡ h / 2 + 2 ^ k = omega (arith, two-pow-succ k, a.0) in
    ap (half k) e ∙ half-upper k (h / 2) a.1

pub half-even : (k h : ℕ) → Aligned (suc k) h → half k h % 2 ≡ 0
unfolding half
half-even zero h a = a.0
half-even (suc k) h a = half-even k (h / 2) a.1

pub Aligned_le : (k k' f : ℕ) → k ≤ k' → Aligned k' f → Aligned k f
Aligned_le k zero f h a = subst (λ n. Aligned n f) (let e : 0 ≡ k = omega arith in e) a
Aligned_le k (suc k') f h a = elim (Bool-cases (k == suc k')) [
  | inl same ↦ subst (λ n. Aligned n f) (let e : suc k' ≡ k = ground arith in e) a
  | inr other ↦ Aligned_le k k' f (ground arith) (Aligned_pred k' f a)
]
