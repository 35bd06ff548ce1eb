-- ===== src/Mm/Mapping/Tiles.antt =====
-- Covers of a page-aligned range by pages, and that the largest page at the start is in one of the fewest.
use Prim.Native.Nat.{ℕ, ◌+◌, ◌-◌, ◌%◌, ◌<◌, ◌≤◌}
use saeos.Prelude.{
  Bool, true, false, some, List, [], ◌∷◌, ltb, ◌≡◌, refl, subst, if◌then◌else◌, length, arith,
  Bool-cases, inl, inr,
}
use saeos.Mm.Mapping.Plan.{
  PageSize, PhysicalMemoryKind, is_mmio, MappingChunk, page_size, two_mib, gigabyte,
  four_level_limit, kernel_virt_base, leaf_page, virtual_address,
}

abbrev pub bytes_of : PageSize → ℕ
bytes_of PageSize.one_gib = gigabyte
bytes_of PageSize.two_mib_page = two_mib
bytes_of PageSize.four_kib = page_size

-- A page of the plan for `kind` memory up to `end`: aligned to its size and inside the range, at the
-- direct or the identity address, never large for device memory, and of 1 GiB only where the CPU has such.
pub record IsPage (direct gb : Bool) (kind : PhysicalMemoryKind) (end : ℕ) (c : MappingChunk)
    : Type 0 where
  pub size_of_page : c.size ≡ bytes_of c.page
  pub aligned : c.physical_start % bytes_of c.page ≡ 0
  pub inside : c.physical_start + c.size ≤ end
  pub address :
      c.virtual_start ≡ (if direct then kernel_virt_base + c.physical_start else c.physical_start)
  pub small_mmio : is_mmio kind ≡ true → c.page ≡ PageSize.four_kib
  pub allowed : c.page ≡ PageSize.one_gib → gb ≡ true

-- The chunks lie end to end from `lo` to `hi`.
abbrev pub Tiles : Bool → Bool → PhysicalMemoryKind → ℕ → ℕ → List MappingChunk → Type 0
Tiles direct gb kind lo hi [] = lo ≡ hi
Tiles direct gb kind lo hi (c ∷ cs) =
    (c.physical_start ≡ lo) × IsPage direct gb kind hi c × Tiles direct gb kind (lo + c.size) hi cs

pub leaf_facts :
    (physical remaining : ℕ) (kind : PhysicalMemoryKind) (gb : Bool)
    → physical % 4096 ≡ 0
    → remaining % 4096 ≡ 0
    → 0 < remaining
    → let (size, page) = leaf_page physical remaining kind gb in
      (size ≡ bytes_of page)
      × (physical % bytes_of page ≡ 0)
      × (size ≤ remaining)
      × (size % 4096 ≡ 0)
      × (0 < size)
      × (is_mmio kind ≡ true → page ≡ PageSize.four_kib)
      × (page ≡ PageSize.one_gib → gb ≡ true)
unfolding leaf_page
leaf_facts physical remaining kind gb hp hr pos = ground arith

pub virtual_facts :
    (direct : Bool) (physical : ℕ)
    → physical < four_level_limit
    → virtual_address direct physical
      ≡ some (if direct then kernel_virt_base + physical else physical)
unfolding virtual_address
virtual_facts direct physical h = ground arith

-- No page that may be used goes over the end of the largest one at `lo`.
page_within :
    (lo hi p : ℕ) (kind : PhysicalMemoryKind) (gb : Bool) (page : PageSize)
    → lo % 4096 ≡ 0
    → hi % 4096 ≡ 0
    → lo ≤ p
    → p < lo + (leaf_page lo (hi - lo) kind gb).0
    → p % bytes_of page ≡ 0
    → p + bytes_of page ≤ hi
    → (is_mmio kind ≡ true → page ≡ PageSize.four_kib)
    → (page ≡ PageSize.one_gib → gb ≡ true)
    → p + bytes_of page ≤ lo + (leaf_page lo (hi - lo) kind gb).0
unfolding leaf_page
page_within lo hi p kind gb PageSize.four_kib hl hh low high a e small allowed = ground arith
page_within lo hi p kind gb PageSize.two_mib_page hl hh low high a e small allowed =
    elim (Bool-cases (is_mmio kind)) [
      | inl mmio ↦ let wrong = small mmio in absurd cc
      | inr other ↦ ground arith
    ]
page_within lo hi p kind gb PageSize.one_gib hl hh low high a e small allowed =
    elim (Bool-cases (is_mmio kind)) [
      | inl mmio ↦ let wrong = small mmio in absurd cc
      | inr other ↦ let large = allowed refl in ground arith
    ]

-- A tiling from `p` on has a boundary at the end of the largest page at `lo`: the tiles behind it, and at
-- least one before it unless `p` is there.
pub record Behind (direct gb : Bool) (kind : PhysicalMemoryKind) (p at hi : ℕ)
    (cs : List MappingChunk) : Type 0 where
  pub rest : List MappingChunk
  pub tiles : Tiles direct gb kind at hi rest
  pub fewer : (if ltb p at then 1 else 0) + length rest ≤ length cs

pub Tiles-Behind :
    (direct gb : Bool) (kind : PhysicalMemoryKind) (lo hi p : ℕ) (cs : List MappingChunk)
    → lo % 4096 ≡ 0
    → hi % 4096 ≡ 0
    → lo ≤ p
    → p ≤ lo + (leaf_page lo (hi - lo) kind gb).0
    → lo + (leaf_page lo (hi - lo) kind gb).0 ≤ hi
    → Tiles direct gb kind p hi cs
    → Behind direct gb kind p (lo + (leaf_page lo (hi - lo) kind gb).0) hi cs
Tiles-Behind direct gb kind lo hi p [] hl hh low high inside t =
    let there : ltb p (lo + (leaf_page lo (hi - lo) kind gb).0) ≡ false = ground arith in
    record {
      rest = [];
      tiles = let e : lo + (leaf_page lo (hi - lo) kind gb).0 ≡ hi = omega arith in e;
      fewer = simp there (omega arith);
    }
Tiles-Behind direct gb kind lo hi p (c ∷ cs) hl hh low high inside (start, page, more) =
    let at = lo + (leaf_page lo (hi - lo) kind gb).0 in
    elim (Bool-cases (ltb p at)) [
      | inr there ↦
          let e : p ≡ at = ground arith in
          record {
            rest = c ∷ cs;
            tiles = subst (λ x. Tiles direct gb kind x hi (c ∷ cs)) e (start, page, more);
            fewer = simp there (omega arith);
          }
      | inl before ↦
          let size = page.size_of_page in
          let aligned : p % bytes_of c.page ≡ 0 =
            subst (λ x. x % bytes_of c.page ≡ 0) start page.aligned in
          let end : p + bytes_of c.page ≤ hi = let in_range = page.inside in omega arith in
          let fits =
            page_within lo hi p kind gb c.page hl hh low (ground arith) aligned end page.small_mmio
              page.allowed in
          let r =
            Tiles-Behind direct gb kind lo hi (p + c.size) cs hl hh (omega arith) (omega arith)
              inside more in
          let fewer = r.fewer in
          record { rest = r.rest; tiles = r.tiles; fewer = simp before (ground arith) }
    ]
