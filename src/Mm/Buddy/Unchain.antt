-- ===== src/Mm/Buddy/Unchain.antt =====
-- `unlink` on the nodes of a linked list.
use Prim.Native.Nat.{ℕ}
use saeos.Prelude.{
  true, false, List, [], ◌∷◌, ◌==◌, if◌then◌else◌, ◌≡◌, ◌≢◌, sym, ◌∙◌, ap, subst, arith, ◌⊎◌, inl,
  inr, Bool-cases,
}
use saeos.Mm.Buddy.Lists.{no_frame, write, unlink_node}
use saeos.Mm.Buddy.Chain.{Nodes, has, delete, Distinct, Chain, Chain-same, ne_of_has}

module _ (node : Nodes) (h : ℕ) where
  abbrev pub before : ℕ
  before = (node h).prev

  abbrev pub after : ℕ
  after = (node h).next

  abbrev pub node' : Nodes
  node' = unlink_node h node

  pub unlink_node-next :
      (a : ℕ)
      → (node' a).next ≡ (
          if a == before
          then (if before == no_frame then (node a).next else after)
          else (node a).next)
  unfolding unlink_node write
  unlink_node-next a = ground arith

  pub unlink_node-prev :
      (a : ℕ)
      → (node' a).prev ≡ (
          if a == after
          then (if after == no_frame then (node a).prev else before)
          else (node a).prev)
  unfolding unlink_node write
  unlink_node-prev a = ground arith

  pub unlink_node_tag :
      (a : ℕ)
      → (a == h) ≡ false
      → ((node' a).order ≡ (node a).order) × ((node' a).magic ≡ (node a).magic)
  unfolding unlink_node write
  unlink_node_tag a ne = (ground arith, ground arith)

  -- The block after one in a chain stands in the rest of it, and so does that before one, unless it is first.
  pub next_in :
      (prev p : ℕ) (x : ℕ) (hs : List ℕ)
      → Chain node prev p (x ∷ hs)
      → has h (x ∷ hs) ≡ true
      → (after ≡ no_frame) ⊎ (has after hs ≡ true)
  next_in prev p x [] c i = let e : h ≡ x = ground arith in inl (ap (λ a. (node a).next) e ∙ c.3)
  next_in prev p x (y ∷ hs) c i = elim (Bool-cases (h == x)) [
    | inl here ↦
        let e : h ≡ x = ground arith in
        let e' : after ≡ y = ap (λ a. (node a).next) e ∙ c.3.0 in inr (ground arith)
    | inr later ↦ elim (next_in x (node x).next y hs c.3 (ground arith)) [
      | inl none ↦ inl none
      | inr some_next ↦ inr (ground arith)
    ]
  ]

  pub prev_in :
      (prev p : ℕ) (x : ℕ) (hs : List ℕ)
      → Chain node prev p (x ∷ hs)
      → has h hs ≡ true
      → has before (x ∷ hs) ≡ true
  prev_in prev p x [] c i = absurd (ground arith)
  prev_in prev p x (y ∷ hs) c i = elim (Bool-cases (h == y)) [
    | inl here ↦
        let e : h ≡ y = ground arith in
        let e' : before ≡ x = ap (λ a. (node a).prev) e ∙ c.3.2 in ground arith
    | inr later ↦ let rest = prev_in x (node x).next y hs c.3 (ground arith) in ground arith
  ]

  -- Where `h` comes first.
  unlink_first :
      (hs : List ℕ)
      → Chain node h after hs
      → Distinct hs
      → has before hs ≡ false
      → Chain node' before after hs
  unlink_first [] c d out = c
  unlink_first (y ∷ hs) c d out =
      let link = unlink_node-prev y in
      let first : (node' y).prev ≡ before = ground (arith, link) in
      let next = unlink_node-next y in
      let next' : (node' y).next ≡ (node y).next = ground (arith, next) in
      (
        c.0,
        c.1,
        first,
        subst (λ n. Chain node' y n hs) (sym next')
            (Chain-same node node' y (node y).next hs
              (λ a i.
                let ne : a ≢ after = λ e. ne_of_has a y hs i d.0 (e ∙ c.0) in
                let ne' : a ≢ before = ne_of_has a before hs i (ground arith) in
                (ground (arith, unlink_node-prev a), ground (arith, unlink_node-next a)))
              c.3),
      )

  abbrev pub start : List ℕ → ℕ → ℕ
  start [] p = p
  start (x ∷ hs) p = if x == h then after else p

  next-start :
      (prev p x : ℕ) (hs : List ℕ)
      → Chain node prev p (x ∷ hs)
      → Distinct (x ∷ hs)
      → has h hs ≡ true
      → (node' x).next ≡ start hs (node x).next
  next-start prev p x [] c d i = absurd (ground arith)
  next-start prev p x (y ∷ hs) c d i = elim (Bool-cases (y == h)) [
    | inl here ↦
        let e : h ≡ y = ground arith in
        let e' : before ≡ x = ap (λ a. (node a).prev) e ∙ c.3.2 in
        simp here (ground (arith, unlink_node-next x, c.1))
    | inr later ↦
        let ne : x ≢ before = λ e.
          ne_of_has before x (y ∷ hs) (prev_in x (node x).next y hs c.3 (ground arith)) d.0
            (sym e) in
        simp later (ground (arith, unlink_node-next x))
  ]

  pub unlink_node-Chain :
      (prev p : ℕ) (hs : List ℕ)
      → Chain node prev p hs
      → Distinct hs
      → has prev hs ≡ false
      → has h hs ≡ true
      → Chain node' prev (start hs p) (delete h hs)
  unlink_node-Chain prev p [] c d out i = absurd (ground arith)
  unlink_node-Chain prev p (x ∷ hs) c d out i = elim (Bool-cases (x == h)) [
    | inl here ↦
        let e : x ≡ h = ground arith in
        let same : before ≡ prev = sym (ap (λ a. (node a).prev) e) ∙ c.2 in
        let rest : Chain node h after hs = subst (λ a. Chain node a (node a).next hs) e c.3 in
        simp here (
          subst (λ q. Chain node' q after hs) same
            (unlink_first hs rest d.1 (subst (λ q. has q hs ≡ false) (sym same) (ground arith))))
    | inr later ↦
        let i' : has h hs ≡ true = ground arith in
        let prev' : (node' x).prev ≡ prev = elim (next_in prev p x hs c (ground arith)) [
          | inl none ↦ ground (arith, unlink_node-prev x, c.1, c.2)
          | inr some_next ↦
              let ne : x ≢ after = λ e. ne_of_has after x hs some_next d.0 (sym e) in
              ground (arith, unlink_node-prev x, c.2)
        ] in
        simp later (
          c.0,
          c.1,
          prev',
          subst (λ n. Chain node' x n (delete h hs)) (sym (next-start prev p x hs c d i'))
              (unlink_node-Chain x (node x).next hs c.3 d.1 d.0 i'),
        )
  ]
