-- ===== src/Mm/Buddy/Valid.antt =====
-- What the lists of free blocks are at all times: chains of aligned free blocks of their order and zone,
-- no two with a frame in common; and that they have every free frame.
use Prim.Native.Nat.{ℕ, suc, ◌+◌, ◌≤◌, ◌<◌, ◌^◌}
use saeos.Prelude.{
  true, false, ◌&&◌, List, ◌==◌, if◌then◌else◌, length, ◌≡◌, ◌≢◌, refl, sym, ◌∙◌, subst, arith, ◌⊎◌,
  inl, inr, Bool-cases,
}
use saeos.Mm.Buddy.Lists.{max_order, no_frame, head_tag, free, index, zone_of, Buddy, write_at}
use saeos.Mm.Buddy.Blocks.{half, Aligned}
use saeos.Mm.Buddy.Chain.{has, Distinct, Chain}

-- The heads of the blocks that a zone has of an order.
abbrev pub Blocks : Type 0
Blocks = ℕ → ℕ → List ℕ

pub record IsBlock (b : Buddy) (z k h : ℕ) : Type 0 where
  pub zone : index (zone_of h) ≡ z
  pub aligned : Aligned k h
  pub order : k ≤ max_order
  pub inside : h + 2 ^ k ≤ b.frame_count
  pub tag : (b.node h).magic ≡ head_tag h
  pub node_order : (b.node h).order ≡ k
  pub all_free : (f : ℕ) → half k f ≡ half k h → b.state f ≡ free

pub record IsLists (b : Buddy) (blocks : Blocks) : Type 0 where
  pub bounded : b.frame_count < no_frame
  pub chains : (z k : ℕ) → Chain b.node no_frame (b.heads z k) (blocks z k)
  pub counted : (z k : ℕ) → b.counts z k ≡ length (blocks z k)
  pub distinct : (z k : ℕ) → Distinct (blocks z k)
  pub each : (z k h : ℕ) → has h (blocks z k) ≡ true → IsBlock b z k h
  pub apart :
      (z k h z' k' h' f : ℕ)
      → has h (blocks z k) ≡ true
      → has h' (blocks z' k') ≡ true
      → half k f ≡ half k h
      → half k' f ≡ half k' h'
      → (k ≡ k') × (h ≡ h')

-- A listed block has the frame.
abbrev pub Covered : Blocks → ℕ → Type 0
Covered blocks f = (z : ℕ) × (k : ℕ) × (h : ℕ) × (has h (blocks z k) ≡ true) × (half k f ≡ half k h)

-- No listed block has a frame of the block of order `k` at `h`.
abbrev pub Apart : Blocks → ℕ → ℕ → Type 0
Apart blocks k h =
    (z k' h' f : ℕ) → has h' (blocks z k') ≡ true → half k' f ≡ half k' h' → half k f ≢ half k h

-- Of two buddies one at most is listed.
abbrev pub Merged : Blocks → Type 0
Merged blocks =
    (z z' k h h' : ℕ)
    → k < max_order
    → has h (blocks z k) ≡ true
    → has h' (blocks z' k) ≡ true
    → half (suc k) h ≡ half (suc k) h'
    → h ≡ h'

-- The buddy of the block of order `k` at `h` is not listed.
abbrev pub Lone : Blocks → ℕ → ℕ → Type 0
Lone blocks k h =
    (z h' : ℕ) → k < max_order → has h' (blocks z k) ≡ true → half (suc k) h' ≢ half (suc k) h

pub record IsBuddy (b : Buddy) (blocks : Blocks) : Type 0 where
  pub lists : IsLists b blocks
  pub merged : Merged blocks
  pub cover : (f : ℕ) → f < b.frame_count → b.state f ≡ free → Covered blocks f

-- A block of order `k` at `h` on its way: its frames are free, and it is in no list.
pub record Pending (b : Buddy) (blocks : Blocks) (k h : ℕ) : Type 0 where
  pub lists : IsLists b blocks
  pub merged : Merged blocks
  pub aligned : Aligned k h
  pub order : k ≤ max_order
  pub inside : h + 2 ^ k ≤ b.frame_count
  pub all_free : (f : ℕ) → half k f ≡ half k h → b.state f ≡ free
  pub apart : Apart blocks k h
  pub cover :
      (f : ℕ) → f < b.frame_count → b.state f ≡ free → Covered blocks f ⊎ (half k f ≡ half k h)

-- A block stands in the list of its zone and order alone.
pub one_list :
    (b : Buddy) (blocks : Blocks) (z k z' k' a : ℕ)
    → IsLists b blocks
    → has a (blocks z k) ≡ true
    → has a (blocks z' k') ≡ true
    → (z ≡ z') × (k ≡ k')
one_list b blocks z k z' k' a l i i' = (
  sym (l.each z k a i).zone ∙ (l.each z' k' a i').zone,
  (l.apart z k a z' k' a a i i' refl refl).0,
)

-- Membership after a list was replaced.
pub has-write_at :
    (a z k z' k' : ℕ) (hs : List ℕ) (blocks : Blocks)
    → has a (write_at z k hs blocks z' k')
      ≡ (if z == z' && k == k' then has a hs else has a (blocks z' k'))
unfolding write_at
has-write_at a z k z' k' hs blocks = elim (Bool-cases (z == z' && k == k')) [
  | inl here ↦ simp here refl
  | inr there ↦ simp there refl
]

-- A property of the lists, for the one that was replaced and for each other.
pub write_at-elim {ℓ κ} :
    {A : Type ℓ} (P : ℕ → ℕ → A → Type κ) (z k : ℕ) (v : A) (f : ℕ → ℕ → A)
    → P z k v
    → ((z' k' : ℕ) → (z == z' && k == k') ≡ false → P z' k' (f z' k'))
    → (z' k' : ℕ) → P z' k' (write_at z k v f z' k')
unfolding write_at
write_at-elim P z k v f here there z' k' = elim (Bool-cases (z == z' && k == k')) [
  | inl e ↦
      let ez : z ≡ z' = ground arith in
      let ek : k ≡ k' = ground arith in
      simp e (subst (λ x. P x k' v) ez (subst (λ y. P z y v) ek here))
  | inr e ↦ simp e (there z' k' e)
]

pub write_at-elim_two {ℓ μ κ} :
    {A : Type ℓ} {B : Type μ} (P : ℕ → ℕ → A → B → Type κ) (z k : ℕ) (v : A) (f : ℕ → ℕ → A) (w : B)
    (g : ℕ → ℕ → B)
    → P z k v w
    → ((z' k' : ℕ) → (z == z' && k == k') ≡ false → P z' k' (f z' k') (g z' k'))
    → (z' k' : ℕ) → P z' k' (write_at z k v f z' k') (write_at z k w g z' k')
unfolding write_at
write_at-elim_two P z k v f w g here there z' k' = elim (Bool-cases (z == z' && k == k')) [
  | inl e ↦
      let ez : z ≡ z' = ground arith in
      let ek : k ≡ k' = ground arith in
      simp e (subst (λ x. P x k' v w) ez (subst (λ y. P z y v w) ek here))
  | inr e ↦ simp e (there z' k' e)
]
