-- ===== src/Klog/Search.antt =====
-- The search for a text in the log ring.
use Prim.Native.Nat.{ℕ, zero, suc, ◌+◌, ◌-◌, ◌≤◌, ◌<◌}
use saeos.Prelude.{
  true, List, [], ◌∷◌, ◌++◌, ltb, ◌==◌, length, get_or, ◌≡◌, ◌↔◌, refl, sym, ◌∙◌, ap, subst, arith,
  Bool-cases, inl, inr, get_or-append, ltb→lt, ==_iff,
}
use saeos.Klog.Ring.{Ring, as_slices, byte_at, matches_at, search_from, contains}
use saeos.Klog.Contents.{IsRing, contents}
use saeos.Klog.Last.{length-held}

-- The bytes of `needle` stand in `xs` from `i` on.
abbrev pub StandsAt : ℕ → List ℕ → List ℕ → Type 0
StandsAt i needle xs = (k : ℕ) → k < length needle → get_or xs (i + k) 0 ≡ get_or needle k 0

abbrev pub Occurs : List ℕ → List ℕ → Type 0
Occurs needle xs = (i : ℕ) × (i + length needle ≤ length xs) × StandsAt i needle xs

module _ (s : List ℕ × List ℕ) where
  byte_at_lem : (i : ℕ) → byte_at s i ≡ get_or (s.0 ++ s.1) i 0
  byte_at_lem i = sym (get_or-append s.0 s.1 i 0)

  matches_at_sound :
      (i : ℕ) (needle : List ℕ) → matches_at s i needle ≡ true → StandsAt i needle (s.0 ++ s.1)
  unfolding matches_at
  matches_at_sound i [] e k h = absurd (omega arith)
  matches_at_sound i (b ∷ needle) e zero h =
      let at : i ≡ i + 0 = omega arith in
      sym (ap (λ j. get_or (s.0 ++ s.1) j 0) at)
      ∙ sym (byte_at_lem i)
      ∙ (==_iff (byte_at s i) b).0 (ground arith)
  matches_at_sound i (b ∷ needle) e (suc k) h =
      let at : suc i + k ≡ i + suc k = omega arith in
      sym (ap (λ j. get_or (s.0 ++ s.1) j 0) at)
      ∙ matches_at_sound (suc i) needle (ground arith) k (omega arith)

  matches_at_complete :
      (i : ℕ) (needle : List ℕ) → StandsAt i needle (s.0 ++ s.1) → matches_at s i needle ≡ true
  unfolding matches_at
  matches_at_complete i [] h = refl
  matches_at_complete i (b ∷ needle) h =
      let here : i + 0 ≡ i = omega arith in
      let first : byte_at s i ≡ b =
        byte_at_lem i ∙ sym (ap (λ j. get_or (s.0 ++ s.1) j 0) here) ∙ h 0 (omega arith) in
      let rest = matches_at_complete (suc i) needle (λ k lt.
        let at : suc i + k ≡ i + suc k = omega arith in
        ap (λ j. get_or (s.0 ++ s.1) j 0) at ∙ h (suc k) (omega arith)) in
      rw ((==_iff (byte_at s i) b).1 first, rest) refl

  search_from_sound :
      (needle : List ℕ) (n i : ℕ)
      → search_from s needle n i ≡ true
      → (j : ℕ) × (i ≤ j) × (j < i + n) × StandsAt j needle (s.0 ++ s.1)
  unfolding search_from
  search_from_sound needle zero i e = absurd (ground arith)
  search_from_sound needle (suc n) i e = elim (Bool-cases (matches_at s i needle)) [
    | inl here ↦ (i, omega arith, omega arith, matches_at_sound i needle here)
    | inr not_here ↦
        let (j, low, high, at) = search_from_sound needle n (suc i) (ground arith) in
        (j, omega arith, omega arith, at)
  ]

  search_from_complete :
      (needle : List ℕ) (n i j : ℕ)
      → i ≤ j
      → j < i + n
      → StandsAt j needle (s.0 ++ s.1)
      → search_from s needle n i ≡ true
  unfolding search_from
  search_from_complete needle zero i j low high at = absurd (omega arith)
  search_from_complete needle (suc n) i j low high at = elim (Bool-cases (i == j)) [
    | inl same ↦
        let eq : j ≡ i = ground arith in
        rw (matches_at_complete i needle (subst (λ k. StandsAt k needle (s.0 ++ s.1)) eq at)) refl
    | inr other ↦
        let later = search_from_complete needle n (suc i) j (ground arith) (omega arith) at in
        elim (Bool-cases (matches_at s i needle)) [
          | inl here ↦ rw here refl
          | inr not_here ↦ rw (not_here, later) refl
        ]
  ]

-- `contains` answers whether the text stands somewhere in the stored bytes, also across the end of the
-- array.
pub contains-Occurs :
    (capacity : ℕ) (needle : List ℕ) (r : Ring)
    → IsRing capacity r
    → (contains capacity needle r ≡ true) ↔ Occurs needle (contents capacity r)
unfolding contains
contains-Occurs capacity needle r v =
    let size = length-held capacity r v [] (omega arith) in
    elim (Bool-cases (ltb r.len (length needle))) [
      | inl long ↦ simp long (λ e. cc, λ o. absurd (omega (arith, o.1, ltb→lt _ _ long)))
      | inr room ↦ simp room (
        λ e.
            let (j, low, high, at) =
              search_from_sound (as_slices capacity r) needle (r.len - length needle + 1) 0 e in
            (j, ground arith, at),
        λ o.
            search_from_complete (as_slices capacity r) needle (r.len - length needle + 1) 0 o.0
              (omega arith) (ground arith) o.2,
      )
    ]
