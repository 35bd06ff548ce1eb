-- ===== src/Mm/Buddy/Chain.antt =====
-- The linked lists of free blocks: what `push` and `unlink` do to the nodes.
use Prim.Native.Nat.{ℕ, ◌-◌, ◌<◌}
use saeos.Prelude.{
  Bool, true, false, ◌||◌, List, [], ◌∷◌, ◌==◌, if◌then◌else◌, length, ◌≡◌, ◌≢◌, refl, sym, ◌∙◌, ap,
  subst, arith, inl, inr, Bool-cases,
}
use saeos.Mm.Buddy.Lists.{FreeNode, no_frame, head_tag, write, push_node}

abbrev pub Nodes : Type 0
Nodes = ℕ → FreeNode

abbrev pub has : ℕ → List ℕ → Bool
has a [] = false
has a (h ∷ hs) = (a == h) || has a hs

abbrev pub delete : ℕ → List ℕ → List ℕ
delete a [] = []
delete a (h ∷ hs) = if h == a then hs else h ∷ delete a hs

abbrev pub Distinct : List ℕ → Type 0
Distinct [] = Unit {0}
Distinct (h ∷ hs) = (has h hs ≡ false) × Distinct hs

-- From `p` on the blocks `hs` follow one another, and the first has `prev` before it.
abbrev pub Chain : Nodes → ℕ → ℕ → List ℕ → Type 0
Chain node prev p [] = p ≡ no_frame
Chain node prev p (h ∷ hs) =
    (p ≡ h) × (h < no_frame) × ((node h).prev ≡ prev) × Chain node h (node h).next hs

-- A change that leaves the links of the blocks alone.
pub Chain-same :
    (node node' : Nodes) (prev p : ℕ) (hs : List ℕ)
    → ((a : ℕ)
        → has a hs ≡ true
        → ((node' a).prev ≡ (node a).prev) × ((node' a).next ≡ (node a).next))
    → Chain node prev p hs
    → Chain node' prev p hs
Chain-same node node' prev p [] same c = c
Chain-same node node' prev p (h ∷ hs) same c =
    let here = same h (ground arith) in
    (
      c.0,
      c.1,
      here.0 ∙ c.2,
      subst (λ n. Chain node' h n hs) (sym here.1)
          (Chain-same node node' h (node h).next hs (λ a i. same a (ground arith)) c.3),
    )

pub has-lt :
    (node : Nodes) (prev p : ℕ) (hs : List ℕ) (a : ℕ)
    → Chain node prev p hs
    → has a hs ≡ true
    → a < no_frame
has-lt node prev p [] a c i = absurd (ground arith)
has-lt node prev p (h ∷ hs) a c i = elim (Bool-cases (a == h)) [
  | inl here ↦ let e : a ≡ h = ground arith in omega (arith, c.1)
  | inr later ↦ has-lt node h (node h).next hs a c.3 (ground arith)
]

pub has-delete :
    (a h : ℕ) (hs : List ℕ)
    → Distinct hs
    → has h hs ≡ true
    → has a (delete h hs) ≡ (if a == h then false else has a hs)
has-delete a h [] d i = absurd (ground arith)
has-delete a h (x ∷ hs) d i = elim (Bool-cases (x == h)) [
  | inl here ↦ let e : x ≡ h = ground arith in simp here (ground (arith, d.0))
  | inr later ↦ simp later (ground (arith, has-delete a h hs d.1))
]

pub ne_of_has : (a h : ℕ) (hs : List ℕ) → has a hs ≡ true → has h hs ≡ false → a ≢ h
ne_of_has a h hs i o e = let same = ap (λ x. has x hs) e in cc

pub Distinct-delete : (h : ℕ) (hs : List ℕ) → Distinct hs → has h hs ≡ true → Distinct (delete h hs)
Distinct-delete h [] d i = tt
Distinct-delete h (x ∷ hs) d i = elim (Bool-cases (x == h)) [
  | inl here ↦ simp here d.1
  | inr later ↦
      simp later
        (ground (arith, has-delete x h hs d.1, d.0), Distinct-delete h hs d.1 (ground arith))
]

length_pos : (h : ℕ) (hs : List ℕ) → has h hs ≡ true → 0 < length hs
length_pos h [] i = absurd (ground arith)
length_pos h (x ∷ hs) i = omega arith

pub length-delete : (h : ℕ) (hs : List ℕ) → has h hs ≡ true → length (delete h hs) ≡ length hs - 1
length-delete h [] i = absurd (ground arith)
length-delete h (x ∷ hs) i = elim (Bool-cases (x == h)) [
  | inl here ↦ simp here (omega arith)
  | inr later ↦ simp later (
      let some_left : has h hs ≡ true = ground arith in
      omega (arith, length-delete h hs some_left, length_pos h hs some_left))
]

-- `push`: the new node, and the link back of the old first one.
module _ (node : Nodes) (head frame order : ℕ) where
  pub push_node-links :
      (a : ℕ)
      → (a == frame) ≡ false
      → ((push_node head frame order node a).next ≡ (node a).next)
        × ((push_node head frame order node a).prev ≡ (
            if a == head
            then (if head == no_frame then (node a).prev else frame)
            else (node a).prev))
  unfolding push_node write
  push_node-links a ne = (ground arith, ground arith)

  pub push_node_tag :
      (a : ℕ)
      → (a == frame) ≡ false
      → ((push_node head frame order node a).order ≡ (node a).order)
        × ((push_node head frame order node a).magic ≡ (node a).magic)
  unfolding push_node write
  push_node_tag a ne = (ground arith, ground arith)

  pub push_node_here :
      (head == frame) ≡ false
      → ((push_node head frame order node frame).next ≡ head)
        × ((push_node head frame order node frame).prev ≡ no_frame)
        × ((push_node head frame order node frame).order ≡ order)
        × ((push_node head frame order node frame).magic ≡ head_tag frame)
  unfolding push_node write
  push_node_here ne = (ground arith, ground arith, ground arith, ground arith)

  pub push_node-Chain :
      (hs : List ℕ)
      → Chain node no_frame head hs
      → Distinct hs
      → has frame hs ≡ false
      → frame < no_frame
      → Chain (push_node head frame order node) no_frame frame (frame ∷ hs)
  push_node-Chain [] c d out low =
      let here = push_node_here (ground arith) in (refl, low, here.1, here.0 ∙ c)
  push_node-Chain (h ∷ hs) c d out low =
      let here = push_node_here (ground arith) in
      let there = push_node-links h (ground arith) in
      let first : (push_node head frame order node h).prev ≡ frame = ground (arith, there.1) in
      (
        refl,
        low,
        here.1,
        (
          here.0 ∙ c.0,
          c.1,
          first,
          subst (λ n. Chain (push_node head frame order node) h n hs) (sym there.0)
              (Chain-same node (push_node head frame order node) h (node h).next hs
                (λ a i.
                  let links = push_node-links a (ground arith) in
                  let ne : (a == head) ≡ false =
                    let apart = ne_of_has a h hs i d.0 in ground arith in
                  (links.1 ∙ simp ne refl, links.0))
                c.3),
        ),
      )
