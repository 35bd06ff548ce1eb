-- ===== src/Exec/Tests.antt =====
-- A small executable, and what the loader makes of it.
use Prim.Native.Nat.{ℕ, ◌+◌, ◌-◌}
use saeos.Prelude.{
  Bool, true, false, ◌&&◌, List, [], ◌∷◌, ◌≡◌, refl, arith, length, get_or, ltb, leb, if◌then◌else◌,
}
use saeos.Fs.Errno.{ok}
use saeos.Mm.Vma.Region.{MemoryMap}
use saeos.Exec.Elf.Plan.{
  Segment, LoadPlan, plan, read_file_header, load_headers, load_header, add_segment, finish_plan,
  read_program_header, segment_flags,
}
use saeos.Exec.Elf.Segments.{IsSegment, IsPlan, plan-IsPlan}
use saeos.Exec.Elf.Pages.{page_contents, page_contents_byte}
use saeos.Exec.Image.{user_stack_guard, memory_map}
use saeos.Exec.Loads.{Loads, accepted-Loads}

-- One segment, readable and executable, that loads the headers themselves at 4 MiB.
abbrev file : List ℕ
file =
    0x7f ∷ 69 ∷ 76 ∷ 70 ∷ 2 ∷ 1 ∷ 1 ∷ 0 ∷ 0 ∷ 0 ∷ 0 ∷ 0 ∷ 0 ∷ 0 ∷ 0 ∷ 0 ∷ 2 ∷ 0 ∷ 62 ∷ 0 ∷ 1 ∷ 0 ∷ 0
    ∷ 0 ∷ 16 ∷ 0 ∷ 64 ∷ 0 ∷ 0 ∷ 0 ∷ 0 ∷ 0 ∷ 64 ∷ 0 ∷ 0 ∷ 0 ∷ 0 ∷ 0 ∷ 0 ∷ 0 ∷ 0 ∷ 0 ∷ 0 ∷ 0 ∷ 0 ∷ 0
    ∷ 0 ∷ 0 ∷ 0 ∷ 0 ∷ 0 ∷ 0 ∷ 64 ∷ 0 ∷ 56 ∷ 0 ∷ 1 ∷ 0 ∷ 0 ∷ 0 ∷ 0 ∷ 0 ∷ 0 ∷ 0 ∷ 1 ∷ 0 ∷ 0 ∷ 0 ∷ 5
    ∷ 0 ∷ 0 ∷ 0 ∷ 0 ∷ 0 ∷ 0 ∷ 0 ∷ 0 ∷ 0 ∷ 0 ∷ 0 ∷ 0 ∷ 0 ∷ 64 ∷ 0 ∷ 0 ∷ 0 ∷ 0 ∷ 0 ∷ 0 ∷ 0 ∷ 64 ∷ 0
    ∷ 0 ∷ 0 ∷ 0 ∷ 0 ∷ 120 ∷ 0 ∷ 0 ∷ 0 ∷ 0 ∷ 0 ∷ 0 ∷ 0 ∷ 0 ∷ 16 ∷ 0 ∷ 0 ∷ 0 ∷ 0 ∷ 0 ∷ 0 ∷ 0 ∷ 16 ∷ 0
    ∷ 0 ∷ 0 ∷ 0 ∷ 0 ∷ 0 ∷ []

abbrev segment : Segment
segment = record {
  start = 0x40_0000;
  end = 0x40_1000;
  flags = record { read = true; write = false; execute = true };
  vaddr = 0x40_0000;
  file_offset = 0;
  file_size = 120;
  mem_size = 4096;
}

abbrev load_plan : LoadPlan
load_plan = record { entry = 0x40_0010; phdr_vaddr = 0x40_0040; phnum = 1; segments = segment ∷ [] }

file-plan : plan file user_stack_guard ≡ ok load_plan
unfolding plan read_file_header load_headers load_header add_segment finish_plan read_program_header
    segment_flags saeos.Prelude.Bytes.le_at
file-plan = refl

plan-IsPlan_example : IsPlan (length file) user_stack_guard load_plan
plan-IsPlan_example = plan-IsPlan file user_stack_guard load_plan file-plan

accepted-Loads_example :
    (m : MemoryMap) × (memory_map load_plan ≡ ok m) × Loads load_plan.segments m
accepted-Loads_example = accepted-Loads file load_plan file-plan

segment-IsSegment : IsSegment (length file) user_stack_guard segment
segment-IsSegment = (plan-IsPlan file user_stack_guard load_plan file-plan).good.0

page_contents_byte_example : get_or (page_contents segment file 0x40_0000) 18 0 ≡ (
    if leb 0x40_0000 (0x40_0000 + 18) && ltb (0x40_0000 + 18) (0x40_0000 + 120)
    then get_or file (0 + (0x40_0000 + 18 - 0x40_0000)) 0
    else 0)
page_contents_byte_example =
    page_contents_byte user_stack_guard 0x40_0000 18 segment file segment-IsSegment (omega arith)
