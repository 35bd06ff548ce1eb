-- ===== src/Mm/Frame/Tests.antt =====
-- kernel/src/mm/frame.rs on a small bitmap: eight frames, the first two reserved.
use Prim.Native.Nat.{ℕ, ◌+◌, ◌*◌, ◌^◌, ◌≤◌}
use saeos.Prelude.{true, false, some, ◌≡◌, ◌⊎◌, inl, inr, refl, arith, ltb, if◌then◌else◌, [], ◌∷◌}
use saeos.Mm.Buddy.Lists.{head_tag, reserved, free, Buddy, write, set_states, range_is, dma32}
use saeos.Mm.Buddy.Build.{build}
use saeos.Mm.Buddy.Rebuild.{Rebuilt, build-Rebuilt}
use saeos.Mm.Frame.Allocator.{
  page_size, FrameError, Allocator, allocate_scan, release_frames, frame_index, reserve_frames,
  zones_for, candidates, steps, range_state, take_frames,
}
use saeos.Mm.Frame.Find.{Fitting, after_take, allocate_scan_cases}
use saeos.Mm.Frame.Reserve.{Whole, Reserves, reserve_frames-Reserves}

abbrev pool : Buddy
pool = record {
  heads = λ z k. 0;
  counts = λ z k. 0;
  frame_count = 8;
  state = λ f. if ltb f 2 then reserved else free;
  node = λ f. record { magic = head_tag f + 1; order = 0; prev = 0; next = 0 };
}

abbrev early : Allocator
early = record { lists = pool; scan_cursor = 3; buddy_active = false }

abbrev late : Allocator
late = record { lists = build pool; scan_cursor = 0; buddy_active = true }

-- From the cursor, to the next multiple of the block.
scans : allocate_scan 1 0 (8 * page_size) early ≡ some (inr 4, after_take early 1 4)
unfolding allocate_scan candidates steps range_state range_is take_frames set_states write
scans = refl

below_four_gib : zones_for 0 (2 ^ 32) ≡ dma32 ∷ []
unfolding zones_for
below_four_gib = refl

refused : (release_frames 4097 0 early).0 ≡ inl FrameError.unaligned
unfolding release_frames frame_index
refused = refl

allocate_scan_cases_example :
    ((f : ℕ) × (allocate_scan 1 0 (8 * page_size) early ≡ some (inr f, after_take early 1 f))
      × Fitting early 1 0 (8 * page_size) f)
    ⊎ ((allocate_scan 1 0 (8 * page_size) early ≡ some (inl FrameError.out_of_memory, early))
        × ((f : ℕ) → ¬ Fitting early 1 0 (8 * page_size) f))
allocate_scan_cases_example = allocate_scan_cases early 1 0 (8 * page_size) refl

abbrev right : Rebuilt pool (build pool)
right = build-Rebuilt pool (omega arith)

whole : Whole (build pool)
whole = record {
  blocks = right.blocks;
  valid = right.valid;
  tagged = λ f is_free tag. elim (right.tags f) [
    | inl same ↦ absurd (omega arith)
    | inr listed ↦ listed
  ];
  physical = omega (arith, right.frame_count);
}

room : 2 + 3 ≤ (build pool).frame_count
room = omega (arith, right.frame_count)

reserve_frames-Reserves_example :
    (b' : Buddy) × (reserve_frames 3 true 2 (build pool) ≡ some b') × Reserves (build pool) b' 2 5
reserve_frames-Reserves_example = reserve_frames-Reserves 3 2 (build pool) whole room
