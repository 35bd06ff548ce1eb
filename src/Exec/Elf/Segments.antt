-- ===== src/Exec/Elf/Segments.antt =====
-- What `plan` accepts: segments in the file, below the top, apart, and never writable and executable.
use Prim.Native.Nat.{ℕ, zero, suc, ◌+◌, ◌-◌, ◌*◌, ◌/◌, ◌%◌, ◌≤◌, ◌<◌}
use saeos.Prelude.{
  true, false, not, ◌&&◌, ◌||◌, none, List, [], ◌∷◌, ◌++◌, ◌==◌, any, length, ◌≡◌, sym, subst, ◌⊎◌,
  inl, inr, ◌≢◌, arith, Bool-cases,
}
use saeos.Fs.Errno.{ok}
use saeos.Fs.Results.{Result-cases}
use saeos.Exec.Elf.Plan.{
  Segment, LoadPlan, read_file_header, ProgramHeader, Found, read_program_header, segment_flags,
  overlap, add_segment, load_header, load_headers, runs_at, is_empty, finish_plan, plan,
}

-- A segment that may be loaded from a file of the length below the top.
pub record IsSegment (file_length user_top : ℕ) (s : Segment) : Type 0 where
  pub covers_start : s.start ≤ s.vaddr
  pub covers_end : s.vaddr + s.mem_size ≤ s.end
  pub start_aligned : s.start % 4096 ≡ 0
  pub end_aligned : s.end % 4096 ≡ 0
  pub above : 4096 ≤ s.start
  pub below : s.end ≤ user_top
  pub some_bytes : 0 < s.mem_size
  pub in_file : s.file_offset + s.file_size ≤ file_length
  pub fits : s.file_size ≤ s.mem_size
  pub congruent : s.vaddr % 4096 ≡ s.file_offset % 4096
  pub guarded : (s.flags.write && s.flags.execute) ≡ false

-- The segment shares no page with the others.
abbrev pub Clear : Segment → List Segment → Type 0
Clear s [] = Unit {0}
Clear s (t ∷ ts) = ((s.end ≤ t.start) ⊎ (t.end ≤ s.start)) × Clear s ts

abbrev pub Segments : ℕ → ℕ → List Segment → Type 0
Segments file_length user_top [] = Unit {0}
Segments file_length user_top (s ∷ ss) =
    IsSegment file_length user_top s × Clear s ss × Segments file_length user_top ss

Clear-append :
    (s t : Segment) (ss : List Segment)
    → Clear s ss
    → overlap t.start t.end s ≡ false
    → Clear s (ss ++ t ∷ [])
Clear-append s t [] c apart = (ground arith, tt)
Clear-append s t (u ∷ us) c apart = (c.0, Clear-append s t us c.1 apart)

Segments-append :
    (file_length user_top : ℕ) (t : Segment) (ss : List Segment)
    → Segments file_length user_top ss
    → IsSegment file_length user_top t
    → any (overlap t.start t.end) ss ≡ false
    → Segments file_length user_top (ss ++ t ∷ [])
Segments-append file_length user_top t [] g is apart = (is, tt, tt)
Segments-append file_length user_top t (s ∷ ss) g is apart = (
  g.0,
  Clear-append s t ss g.1 (ground arith),
  Segments-append file_length user_top t ss g.2 is (ground arith),
)

-- The segment that a header describes.
abbrev segment_of : ProgramHeader → Segment
segment_of h = record {
  start = h.address - h.address % 4096;
  end = (h.address + h.in_memory + 4095) / 4096 * 4096;
  flags = segment_flags h.flag_bits;
  vaddr = h.address;
  file_offset = h.offset;
  file_size = h.in_file;
  mem_size = h.in_memory;
}

-- The checks that a header passed.
record Accepted (file_length user_top : ℕ) (segments : List Segment) (h : ProgramHeader)
    (out : List Segment) : Type 0 where
  added : out ≡ segments ++ segment_of h ∷ []
  file_sum : h.offset + h.in_file ≤ file_length
  smaller : h.in_file ≤ h.in_memory
  same_offset : h.address % 4096 ≡ h.offset % 4096
  guard : ((segment_flags h.flag_bits).write && (segment_flags h.flag_bits).execute) ≡ false
  low : 4096 ≤ h.address
  top : (h.address + h.in_memory + 4095) / 4096 * 4096 ≤ user_top
  free : any (overlap (segment_of h).start (segment_of h).end) segments ≡ false

add_segment-Accepted :
    (file_length user_top : ℕ) (segments out : List Segment) (h : ProgramHeader)
    → add_segment file_length user_top segments h ≡ ok out
    → Accepted file_length user_top segments h out
unfolding add_segment
add_segment-Accepted file_length user_top segments out h e = record {
  added = ground arith;
  file_sum = ground arith;
  smaller = ground arith;
  same_offset = ground arith;
  guard = ground arith;
  low = ground arith;
  top = ground arith;
  free = ground arith;
}

Accepted-IsSegment :
    {file_length user_top : ℕ} {segments out : List Segment} (h : ProgramHeader)
    → Accepted file_length user_top segments h out
    → h.in_memory ≢ 0
    → IsSegment file_length user_top (segment_of h)
Accepted-IsSegment h a some_memory = record {
  covers_start = omega arith;
  covers_end = omega arith;
  start_aligned = omega arith;
  end_aligned = omega arith;
  above = omega (arith, a.low);
  below = a.top;
  some_bytes = omega arith;
  in_file = a.file_sum;
  fits = a.smaller;
  congruent = a.same_offset;
  guarded = a.guard;
}

module _ (file_length user_top : ℕ) where
  add_segment-Segments :
      (segments out : List Segment) (h : ProgramHeader)
      → Segments file_length user_top segments
      → h.in_memory ≢ 0
      → add_segment file_length user_top segments h ≡ ok out
      → Segments file_length user_top out
  add_segment-Segments segments out h g some_memory e =
      let a = add_segment-Accepted file_length user_top segments out h e in
      subst (Segments file_length user_top) (sym a.added) (
        Segments-append file_length user_top (segment_of h) segments g
          (Accepted-IsSegment h a some_memory) a.free)

  load_header_cases :
      (h : ProgramHeader) (found next : Found)
      → load_header file_length user_top h found ≡ ok next
      → (next.loaded ≡ found.loaded)
        ⊎ ((h.in_memory ≢ 0) × (add_segment file_length user_top found.loaded h ≡ ok next.loaded))
  unfolding load_header
  load_header_cases h found next e = elim (Bool-cases (not (h.kind == 1) || h.in_memory == 0)) [
    | inl skipped ↦ inl (ground arith)
    | inr used ↦ elim (Result-cases (add_segment file_length user_top found.loaded h)) [
      | inl (x, failed) ↦ inl (ground arith)
      | inr (out, added) ↦ inr (ground arith, ground arith)
    ]
  ]

  load_header-Segments :
      (h : ProgramHeader) (found next : Found)
      → Segments file_length user_top found.loaded
      → load_header file_length user_top h found ≡ ok next
      → Segments file_length user_top next.loaded
  load_header-Segments h found next g e = elim (load_header_cases h found next e) [
    | inl kept ↦ subst (Segments file_length user_top) (sym kept) g
    | inr (some_memory, added) ↦ add_segment-Segments found.loaded next.loaded h g some_memory added
  ]

load_headers-Segments :
    (file : List ℕ) (user_top count base : ℕ) (found out : Found)
    → Segments (length file) user_top found.loaded
    → load_headers file user_top count base found ≡ ok out
    → Segments (length file) user_top out.loaded
unfolding load_headers
load_headers-Segments file user_top zero base found out g e =
    let equal : found ≡ out = ground arith in
    subst (λ (f : Found). Segments (length file) user_top f.loaded) equal g
load_headers-Segments file user_top (suc count) base found out g e =
    elim (Result-cases (read_program_header file base)) [
      | inl (x, failed) ↦ absurd (ground arith)
      | inr (h, read) ↦ elim (Result-cases (load_header (length file) user_top h found)) [
        | inl (x, failed) ↦ absurd (ground arith)
        | inr (next, loaded) ↦
            load_headers-Segments file user_top count (base + 56) next out
              (load_header-Segments (length file) user_top h found next g loaded) (ground arith)
      ]
    ]

-- A plan is safe: its segments are, they share no page, there is one, and the entry point lies in an
-- executable one.
pub record IsPlan (file_length user_top : ℕ) (p : LoadPlan) : Type 0 where
  pub good : Segments file_length user_top p.segments
  pub some_segment : is_empty p.segments ≡ false
  pub entry_runs : any (runs_at p.entry) p.segments ≡ true

finish_plan-IsPlan :
    (file_length user_top entry phoff phnum : ℕ) (found : Found) (p : LoadPlan)
    → Segments file_length user_top found.loaded
    → finish_plan entry phoff phnum found ≡ ok p
    → IsPlan file_length user_top p
unfolding finish_plan
finish_plan-IsPlan file_length user_top entry phoff phnum found p g e =
    let made : p.segments ≡ found.loaded = ground arith in
    let at : p.entry ≡ entry = ground arith in
    record {
      good = subst (Segments file_length user_top) (sym made) g;
      some_segment = ground arith;
      entry_runs = ground arith;
    }

-- Whatever the bytes of the file are: where `plan` accepts them, every segment lies page-aligned between
-- the first page and the top and around its memory, its bytes lie in the file and are at most its memory,
-- none is writable and executable, no two share a page, there is at least one, and the entry point lies
-- in an executable one.
pub plan-IsPlan :
    (file : List ℕ) (user_top : ℕ) (p : LoadPlan)
    → plan file user_top ≡ ok p
    → IsPlan (length file) user_top p
unfolding plan
plan-IsPlan file user_top p e = elim (Result-cases (read_file_header file)) [
  | inl (x, failed) ↦ absurd (ground arith)
  | inr (h, read) ↦
      let start : Found = record { header_address = none; loaded = [] } in
      elim (Result-cases (load_headers file user_top h.header_count h.table_start start)) [
        | inl (x, failed) ↦ absurd (ground arith)
        | inr (found, loaded) ↦
            finish_plan-IsPlan (length file) user_top h.entry_point h.table_start h.header_count
              found p
              (load_headers-Segments file user_top h.header_count h.table_start start found tt
                loaded)
              (ground arith)
      ]
]
