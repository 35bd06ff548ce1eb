-- ===== src/Mm/Mapping/Plan.antt =====
-- kernel/src/mm/mapping_model.rs, with the memory map of kernel/src/boot/boot_info.rs. An array with a
-- count is the list of its first `count` entries.
use Prim.Native.Nat.{ℕ, ◌+◌, ◌-◌, ◌%◌, ◌^◌, zero, suc}
use saeos.Prelude.{
  Bool, true, false, not, ◌&&◌, Option, none, some, List, [], ◌∷◌, ◌++◌, ltb, leb, ◌==◌,
  if◌then◌else◌, any, retain, length,
}
use saeos.Prelude.Words.{saturating_add}

abbrev pub page_size : ℕ
page_size = 4096

abbrev pub two_mib : ℕ
two_mib = 2 ^ 21

abbrev pub gigabyte : ℕ
gigabyte = 2 ^ 30

abbrev pub four_level_limit : ℕ
four_level_limit = 2 ^ 47

abbrev pub kernel_virt_base : ℕ
kernel_virt_base = 0xffff_8000_0000_0000

abbrev pub max_chunks : ℕ
max_chunks = 4096

pub data MappingError : Type 0 where
  empty_range non_canonical_range too_many_chunks : MappingError

pub data PageSize : Type 0 where
  one_gib two_mib_page four_kib : PageSize

pub data PhysicalMemoryKind : Type 0 where
  usable reserved acpi_reclaimable acpi_nvs runtime mmio : PhysicalMemoryKind

abbrev pub is_mmio : PhysicalMemoryKind → Bool
is_mmio PhysicalMemoryKind.mmio = true
is_mmio _ = false

pub record MappingChunk : Type 0 where
  pub physical_start : ℕ
  pub virtual_start : ℕ
  pub size : ℕ
  pub page : PageSize

pub data MapResult {ℓ} (A : Type ℓ) : Type ℓ where
  ok : A → MapResult A
  err : MappingError → MapResult A

pub direct_virtual_address : ℕ → Option ℕ
direct_virtual_address physical =
    if ltb physical four_level_limit then some (kernel_virt_base + physical) else none

pub identity_virtual_address : ℕ → Option ℕ
identity_virtual_address physical = if ltb physical four_level_limit then some physical else none

unfoldable pub leaf_page : ℕ → ℕ → PhysicalMemoryKind → Bool → ℕ × PageSize
leaf_page physical remaining kind gigabyte_pages =
    if not (is_mmio kind) && gigabyte_pages && physical % gigabyte == 0 && leb gigabyte remaining
    then (gigabyte, PageSize.one_gib)
    else if not (is_mmio kind) && physical % two_mib == 0 && leb two_mib remaining
    then (two_mib, PageSize.two_mib_page)
    else (page_size, PageSize.four_kib)

unfoldable pub virtual_address : Bool → ℕ → Option ℕ
unfolding direct_virtual_address identity_virtual_address
virtual_address direct physical =
    if direct then direct_virtual_address physical else identity_virtual_address physical

module _ {ℓ} {S : Type ℓ} (visit : MappingChunk → S → MapResult S) where
  -- The loop of `walk_range`, over the state of the closure `visit`; `none` is a lack of fuel.
  unfoldable pub walk : ℕ → ℕ → ℕ → Bool → PhysicalMemoryKind → Bool → S → Option (MapResult S)
  walk zero physical end direct kind gigabyte_pages s = none
  walk (suc fuel) physical end direct kind gigabyte_pages s = elim (ltb physical end) [
    | false ↦ some (ok s)
    | true ↦
        let (size, page) = leaf_page physical (end - physical) kind gigabyte_pages in
        elim (virtual_address direct physical) [
          | none ↦ some (err MappingError.non_canonical_range)
          | some virtual_start ↦
              elim (visit
                (record {
                  physical_start = physical;
                  virtual_start = virtual_start;
                  size = size;
                  page = page;
                })
                s) [
                  | err e ↦ some (err e)
                  | ok t ↦ walk fuel (physical + size) end direct kind gigabyte_pages t
                ]
        ]
  ]

  -- `walk_range`. A round moves on by a page at least, so as many rounds as there are bytes do.
  unfoldable pub walk_range : ℕ → ℕ → Bool → PhysicalMemoryKind → Bool → S → Option (MapResult S)
  walk_range start end direct kind gigabyte_pages s =
      if leb end start
      then some (err MappingError.empty_range)
      else if ltb four_level_limit end
      then some (err MappingError.non_canonical_range)
      else walk (suc (end - start)) start end direct kind gigabyte_pages s

-- The closure of `plan_range` and of `plan_memory_map`, on the chunks so far.
abbrev pub add_chunk : MappingChunk → List MappingChunk → MapResult (List MappingChunk)
add_chunk chunk chunks =
    if length chunks == max_chunks
    then err MappingError.too_many_chunks
    else ok (chunks ++ chunk ∷ [])

unfoldable pub plan_range :
    ℕ → ℕ → Bool → PhysicalMemoryKind → Bool → Option (MapResult (List MappingChunk))
plan_range start end direct kind gigabyte_pages =
    walk_range add_chunk start end direct kind gigabyte_pages []

pub record PhysicalMemoryRegion : Type 0 where
  pub start : ℕ
  pub len : ℕ
  pub kind : PhysicalMemoryKind

abbrev pub region_end : PhysicalMemoryRegion → ℕ
region_end r = saturating_add r.start r.len

-- The filter of `check_memory_map` and of `plan_memory_map`.
abbrev pub is_mapped : PhysicalMemoryRegion → Bool
is_mapped r = elim r.kind [ PhysicalMemoryKind.reserved ↦ false | _ ↦ true ]

-- The `?` behind a walk.
abbrev pub go_on {ℓ} :
    {S : Type ℓ} → Option (MapResult S) → (S → Option (MapResult S)) → Option (MapResult S)
go_on none rest = none
go_on (some (err e)) rest = some (err e)
go_on (some (ok t)) rest = rest t

module _ {ℓ} {S : Type ℓ} (visit : MappingChunk → S → MapResult S) where
  -- The loop of both over the regions.
  unfoldable pub walk_regions : List PhysicalMemoryRegion → Bool → Bool → S → Option (MapResult S)
  walk_regions [] direct gigabyte_pages s = some (ok s)
  walk_regions (r ∷ rs) direct gigabyte_pages s =
      go_on (walk_range visit r.start (region_end r) direct r.kind gigabyte_pages s)
        (λ t. walk_regions rs direct gigabyte_pages t)

-- The closure of `check_memory_map`, on the count so far.
abbrev pub count_chunk : MappingChunk → ℕ → MapResult ℕ
count_chunk chunk count =
    if ltb max_chunks (count + 1) then err MappingError.too_many_chunks else ok (count + 1)

abbrev pub forget {ℓ} : {A : Type ℓ} → Option (MapResult A) → Option (MapResult (Unit {0}))
forget none = none
forget (some (ok a)) = some (ok tt)
forget (some (err e)) = some (err e)

unfoldable pub check_memory_map :
    List PhysicalMemoryRegion → Bool → Bool → Option (MapResult (Unit {0}))
check_memory_map regions direct gigabyte_pages =
    forget (walk_regions count_chunk (retain is_mapped regions) direct gigabyte_pages 0)

unfoldable pub plan_memory_map :
    List PhysicalMemoryRegion → Bool → Bool → Option (MapResult (List MappingChunk))
plan_memory_map regions direct gigabyte_pages =
    walk_regions add_chunk (retain is_mapped regions) direct gigabyte_pages []

unfoldable pub usable_region_contains : List PhysicalMemoryRegion → ℕ → Bool
usable_region_contains regions frame =
    any
      (λ r.
        elim r.kind [ PhysicalMemoryKind.usable ↦ true | _ ↦ false ]
        && leb r.start frame
        && leb (saturating_add frame page_size) (region_end r))
      regions
