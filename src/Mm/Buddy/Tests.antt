-- ===== src/Mm/Buddy/Tests.antt =====
-- kernel/src/mm/buddy.rs on a small pool: eight frames, the first two reserved.
use Prim.Native.Nat.{ℕ, ◌≤◌, ◌<◌, ◌^◌, ◌+◌, min}
use saeos.Prelude.{
  Bool, true, false, none, some, List, [], ◌∷◌, ◌≡◌, ◌∙◌, ◌≢◌, ◌⊎◌, inl, inr, refl, arith, ◌==◌,
  Option, ltb, if◌then◌else◌,
}
use saeos.Mm.Buddy.Lists.{
  reserved, free, allocated, same_state, Zone, dma32, normal, Buddy, allocate, ok, err, double_free,
  release, give_back, zone_of, split, search, push, unlink, coalesce, set_states, allocate_in,
  unlink_node, push_node, write, write_at, head_tag, check_release, range_is, is_free_head,
}
use saeos.Mm.Buddy.Build.{
  build, build_from, insert_run, run_end, block_order, fit, first_order, trailing_zeros,
  insert_reserved_range, insert_reserved_from, free_pieces,
}
use saeos.Mm.Buddy.Release.{AllIn, Outcome, release-Outcome}
use saeos.Mm.Buddy.Allocate.{among}
use saeos.Mm.Buddy.Serve.{Served, allocate-Served, allocate-ne-none, release-allocate}
use saeos.Mm.Buddy.Owners.{Run, begin, take, give, Owners, Run-Owners, Run-release}
use saeos.Mm.Buddy.Restore.{Returned, insert_reserved_range-Returned}
use saeos.Mm.Buddy.Heads.{Tagged}
use saeos.Mm.Buddy.Isolate.{isolate, isolate_from, carve, Isolated, isolate_cases}
use saeos.Mm.Buddy.Rebuild.{Rebuilt, build-Rebuilt}

abbrev pool : Buddy
pool = record {
  heads = λ z k. 0;
  counts = λ z k. 0;
  frame_count = 8;
  state = λ f. if ltb f 2 then reserved else free;
  node = λ f. record { magic = head_tag f + 1; order = 0; prev = 0; next = 0 };
}

abbrev built : Buddy
built = build pool

abbrev zones : List Zone
zones = normal ∷ dma32 ∷ []

abbrev one : Buddy
one = (allocate 1 zones built).1

abbrev two : Buddy
two = (allocate 0 zones one).1

abbrev three : Buddy
three = (release 2 1 two).1

abbrev whole : Buddy
whole = insert_reserved_range 0 100 built

first_two : allocate 1 zones built ≡ (some 2, one)
unfolding allocate allocate_in search split unlink unlink_node build build_from run_end insert_run
    block_order fit first_order trailing_zeros push push_node write write_at zone_of head_tag
    set_states release check_release range_is coalesce is_free_head insert_reserved_range
    insert_reserved_from free_pieces
first_two = refl

then_four : allocate 0 zones one ≡ (some 4, two)
unfolding allocate allocate_in search split unlink unlink_node build build_from run_end insert_run
    block_order fit first_order trailing_zeros push push_node write write_at zone_of head_tag
    set_states release check_release range_is coalesce is_free_head insert_reserved_range
    insert_reserved_from free_pieces
then_four = refl

two_back : release 2 1 two ≡ (ok, three)
unfolding allocate allocate_in search split unlink unlink_node build build_from run_end insert_run
    block_order fit first_order trailing_zeros push push_node write write_at zone_of head_tag
    set_states release check_release range_is coalesce is_free_head insert_reserved_range
    insert_reserved_from free_pieces
two_back = refl

abbrev right : Rebuilt pool built
right = build-Rebuilt pool (omega arith)

all_taken : Run built two ((0, 4) ∷ (1, 2) ∷ [])
all_taken =
    take 0 zones 4 one two ((1, 2) ∷ []) (take 1 zones 2 built one [] begin first_two) then_four

build-Rebuilt_example : Rebuilt pool (build pool)
build-Rebuilt_example = build-Rebuilt pool (omega arith)

Run-Owners_example : Owners three ((0, 4) ∷ [])
Run-Owners_example =
    Run-Owners built three right.blocks ((0, 4) ∷ []) right.valid
      (give 1 2 ((0, 4) ∷ []) [] two three all_taken two_back)

Run-release_example : release 2 1 two ≡ (ok, give_back 2 1 two)
Run-release_example = Run-release built two right.blocks 1 2 ((0, 4) ∷ []) [] right.valid all_taken

built_tags : Tagged built right.blocks
built_tags f is_free tag = elim (right.tags f) [
  | inl same ↦ absurd (omega arith)
  | inr listed ↦ listed
]

physical : built.frame_count ≤ 2 ^ 52
physical = omega (arith, right.frame_count)

isolate_cases_example :
    ((5 < built.frame_count)
      × (built.state 5 ≡ free)
      × ((b' : Buddy) × (isolate 5 built ≡ some (true, b')) × Isolated built b' 5))
    ⊎ (((built.frame_count ≤ 5) ⊎ (built.state 5 ≢ free)) × (isolate 5 built ≡ some (false, built)))
isolate_cases_example = isolate_cases built right.blocks right.valid built_tags physical 5

release-Outcome_example : Outcome (release 2 1 built).0 built (release 2 1 built).1 1 2
release-Outcome_example = release-Outcome built right.blocks 1 2 right.valid

allocate-Served_example : Served (allocate 1 zones built).0 built (allocate 1 zones built).1 1 zones
allocate-Served_example = allocate-Served built right.blocks right.valid 1 zones

upper_free : AllIn built 4 2 free
upper_free f low high = right.state f ∙ (let out : ltb f 2 ≡ false = ground arith in simp out refl)

built_count : 4 + 2 ^ 2 ≤ built.frame_count
unfolding build build_from run_end insert_run block_order fit first_order trailing_zeros push
built_count = omega arith

in_dma32 : among (zone_of 4) zones ≡ true
unfolding zone_of
in_dma32 = refl

allocate-ne-none_example : (allocate 2 zones built).0 ≢ none
allocate-ne-none_example =
    allocate-ne-none built right.blocks right.valid 2 zones 4 (omega arith) in_dma32 refl
      built_count upper_free

release-allocate_example :
    ((release 2 1 one).0 ≡ ok) × ((f : ℕ) → (release 2 1 one).1.state f ≡ built.state f)
release-allocate_example = release-allocate built one right.blocks 1 zones 2 right.valid first_two

insert_reserved_range-Returned_example :
    Returned built (insert_reserved_range 0 100 built) 0 (min 100 built.frame_count)
insert_reserved_range-Returned_example =
    insert_reserved_range-Returned built right.blocks 0 100 right.valid

twice : (release 2 1 built).0 ≡ err double_free
unfolding allocate allocate_in search split unlink unlink_node build build_from run_end insert_run
    block_order fit first_order trailing_zeros push push_node write write_at zone_of head_tag
    set_states release check_release range_is coalesce is_free_head insert_reserved_range
    insert_reserved_from free_pieces
twice = refl

-- All eight frames merge.
merged_all :
    (whole.heads 0 3 ≡ 0) × (whole.counts 0 3 ≡ 1) × (whole.counts 0 1 ≡ 0) × (whole.counts 0 2 ≡ 0)
unfolding allocate allocate_in search split unlink unlink_node build build_from run_end insert_run
    block_order fit first_order trailing_zeros push push_node write write_at zone_of head_tag
    set_states release check_release range_is coalesce is_free_head insert_reserved_range
    insert_reserved_from free_pieces
merged_all = (refl, refl, refl, refl)

-- Frame 2 is free; the owner of frame 3 wrote the tag of a head of order 0 into it, with links of its choice.
abbrev forged : Buddy
forged = build record {
  heads = λ z k. 0;
  counts = λ z k. 0;
  frame_count = 8;
  state = λ f. if f == 2 then free else allocated;
  node = λ f. record { magic = head_tag f; order = 0; prev = 7; next = 6 };
}

abbrev link_of_seven : Option (Bool × Buddy) → ℕ × Bool
link_of_seven none = (0, false)
link_of_seven (some (r, b)) = ((b.node 7).next, same_state (b.state 7) allocated)

-- Once frame 3 is released and merged, `isolate` follows those links and writes into frame 7, which is allocated.
forged_links : link_of_seven (isolate 3 (release 3 0 forged).1) ≡ (6, true)
unfolding isolate isolate_from carve split unlink unlink_node build build_from run_end insert_run
    block_order fit first_order trailing_zeros push push_node write write_at zone_of head_tag
    set_states release check_release range_is coalesce is_free_head
forged_links = refl
