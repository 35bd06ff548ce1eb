-- ===== src/Exec/Elf/Plan.antt =====
-- kernel/src/exec/elf.rs: the validation of a file and the plan of its segments. A file is the list of
-- its bytes. Offsets that the code adds lie within the file.
use Prim.Native.Nat.{ℕ, zero, suc, ◌+◌, ◌-◌, ◌*◌, ◌%◌, bit_and}
use saeos.Prelude.{
  Bool, true, false, not, ◌&&◌, ◌||◌, Option, none, some, List, [], ◌∷◌, ◌++◌, ltb, leb, ◌==◌, any,
  find, length, get_or, if◌then◌else◌,
}
use saeos.Prelude.Words.{checked_add}
use saeos.Prelude.Bytes.{le_at}
use saeos.Fs.Errno.{enoexec, Result, ok, err}
use saeos.Fs.Results.{◌>>=◌, ◌>>◌, ok_or, fail_if, ret}
use saeos.Mm.Vma.Region.{page_up}

abbrev pub program_header_size : ℕ
program_header_size = 56

pub record SegmentFlags : Type 0 where
  pub read : Bool
  pub write : Bool
  pub execute : Bool

pub record Segment : Type 0 where
  pub start : ℕ
  pub end : ℕ
  pub flags : SegmentFlags
  pub vaddr : ℕ
  pub file_offset : ℕ
  pub file_size : ℕ
  pub mem_size : ℕ

pub record LoadPlan : Type 0 where
  pub entry : ℕ
  pub phdr_vaddr : ℕ
  pub phnum : ℕ
  pub segments : List Segment

-- `u16_at`, `u32_at` and `u64_at`, by the number of bytes.
abbrev pub number_at : ℕ → List ℕ → ℕ → Result ℕ
number_at count file offset = ok_or (le_at count file offset) enoexec

-- What the loop of `plan` reads of a program header.
pub record ProgramHeader : Type 0 where
  pub kind : ℕ
  pub flag_bits : ℕ
  pub offset : ℕ
  pub address : ℕ
  pub in_file : ℕ
  pub in_memory : ℕ

unfoldable pub read_program_header : List ℕ → ℕ → Result ProgramHeader
read_program_header file base = do
  kind ← number_at 4 file base
  flags ← number_at 4 file (base + 4)
  offset ← number_at 8 file (base + 8)
  vaddr ← number_at 8 file (base + 16)
  file_size ← number_at 8 file (base + 32)
  mem_size ← number_at 8 file (base + 40)
  ret (record {
    kind = kind;
    flag_bits = flags;
    offset = offset;
    address = vaddr;
    in_file = file_size;
    in_memory = mem_size;
  })

unfoldable pub segment_flags : ℕ → SegmentFlags
segment_flags flags = record {
  read = not (bit_and flags 4 == 0);
  write = not (bit_and flags 2 == 0);
  execute = not (bit_and flags 1 == 0);
}

abbrev pub overlap : ℕ → ℕ → Segment → Bool
overlap start end other = ltb start other.end && ltb other.start end

-- The checks of one `PT_LOAD` header, and the segment that it adds.
unfoldable pub add_segment : ℕ → ℕ → List Segment → ProgramHeader → Result (List Segment)
add_segment file_length user_top segments h = do
  let flags = segment_flags h.flag_bits
  file_end ← ok_or (checked_add h.offset h.in_file) enoexec
  mem_end ← ok_or (checked_add h.address h.in_memory) enoexec
  fail_if
      (ltb h.in_memory h.in_file
        || ltb file_length file_end
        || not (h.address % 4096 == h.offset % 4096)
        || flags.write && flags.execute
        || ltb h.address 4096)
      enoexec
  let start = h.address - h.address % 4096
  end ← ok_or (page_up mem_end) enoexec
  fail_if (ltb user_top end || any (overlap start end) segments) enoexec
  ret (
      segments
      ++ record {
        start = start;
        end = end;
        flags = flags;
        vaddr = h.address;
        file_offset = h.offset;
        file_size = h.in_file;
        mem_size = h.in_memory;
      }
        ∷ [])

-- What the loop of `plan` has found so far.
pub record Found : Type 0 where
  pub header_address : Option ℕ
  pub loaded : List Segment

-- One round of the loop of `plan`.
unfoldable pub load_header : ℕ → ℕ → ProgramHeader → Found → Result Found
load_header file_length user_top h found =
    if h.kind == 3 || h.kind == 2
    then err enoexec
    else (let seen : Found = record found {
      header_address = if h.kind == 6 then some h.address else found.header_address;
    } in
        if not (h.kind == 1) || h.in_memory == 0 then ok seen else (do
          segments ← add_segment file_length user_top seen.loaded h
          ret (record seen { loaded = segments })))

-- The loop of `plan` over the `count` headers that are left.
unfoldable pub load_headers : List ℕ → ℕ → ℕ → ℕ → Found → Result Found
load_headers file user_top zero base found = ok found
load_headers file user_top (suc count) base found = do
  h ← read_program_header file base
  next ← load_header (length file) user_top h found
  load_headers file user_top count (base + program_header_size) next

-- Whether the address lies in an executable segment.
abbrev pub runs_at : ℕ → Segment → Bool
runs_at address s = s.flags.execute && leb s.vaddr address && ltb address (s.vaddr + s.mem_size)

-- Where the program headers are in the image, when no header says so.
abbrev pub shows_headers : ℕ → ℕ → Segment → Bool
shows_headers phoff phnum s =
    leb s.file_offset phoff
    && leb (phoff + phnum * program_header_size) (s.file_offset + s.file_size)

abbrev pub headers_address : ℕ → ℕ → Found → ℕ
headers_address phoff phnum found = elim found.header_address [
  | some address ↦ address
  | none ↦ elim (find (shows_headers phoff phnum) found.loaded) [
    | none ↦ 0
    | some s ↦ s.vaddr + (phoff - s.file_offset)
  ]
]

abbrev pub is_empty : List Segment → Bool
is_empty [] = true
is_empty (s ∷ ss) = false

-- The checks of the file header: magic, 64 bits, little-endian, version 1.
abbrev pub is_elf64 : List ℕ → Bool
is_elf64 file =
    get_or file 0 0 == 0x7f
    && get_or file 1 0 == b'E'
    && get_or file 2 0 == b'L'
    && get_or file 3 0 == b'F'
    && get_or file 4 0 == 2
    && get_or file 5 0 == 1
    && get_or file 6 0 == 1

-- The end of `plan`, when all headers are read.
unfoldable pub finish_plan : ℕ → ℕ → ℕ → Found → Result LoadPlan
finish_plan entry phoff phnum found = do
  fail_if (is_empty found.loaded) enoexec
  fail_if (not (any (runs_at entry) found.loaded)) enoexec
  ret (record {
    entry = entry;
    phdr_vaddr = headers_address phoff phnum found;
    phnum = phnum;
    segments = found.loaded;
  })

-- What `plan` reads of the file header.
pub record FileHeader : Type 0 where
  pub entry_point : ℕ
  pub table_start : ℕ
  pub header_count : ℕ

-- The first part of `plan`: the file header and its checks.
unfoldable pub read_file_header : List ℕ → Result FileHeader
read_file_header file = do
  fail_if (ltb (length file) 64) enoexec
  fail_if (not (is_elf64 file)) enoexec
  kind ← number_at 2 file 16
  machine ← number_at 2 file 18
  version ← number_at 4 file 20
  fail_if (not (kind == 2) || not (machine == 62) || not (version == 1)) enoexec
  entry ← number_at 8 file 24
  phoff ← number_at 8 file 32
  phentsize ← number_at 2 file 54
  phnum ← number_at 2 file 56
  fail_if (not (phentsize == program_header_size) || phnum == 0 || ltb 64 phnum) enoexec
  table_end ← ok_or (checked_add phoff (phnum * program_header_size)) enoexec
  fail_if (ltb (length file) table_end) enoexec
  ret (record { entry_point = entry; table_start = phoff; header_count = phnum })

-- `plan`.
unfoldable pub plan : List ℕ → ℕ → Result LoadPlan
plan file user_top = do
  h ← read_file_header file
  found ←
      load_headers file user_top h.header_count h.table_start
        (record { header_address = none; loaded = [] })
  finish_plan h.entry_point h.table_start h.header_count found
