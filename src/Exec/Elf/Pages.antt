-- ===== src/Exec/Elf/Pages.antt =====
-- kernel/src/exec/elf.rs: the bytes of a page of a loaded segment.
use Prim.Native.Nat.{ℕ, ◌+◌, ◌-◌, ◌≤◌, ◌<◌, min, max}
use saeos.Prelude.{
  get_or-append_left, get_or-append_right, get_or-replicate, get_or-take, length-take, get_or-drop,
  length-drop, ◌&&◌, List, ◌++◌, ltb, leb, length, get_or, take, drop, replicate, if◌then◌else◌,
  ◌≡◌, arith, Bool-cases, inl, inr, ltb→lt, leb→le, length-replicate, ◌∙◌, ap,
}
use saeos.Exec.Elf.Plan.{Segment}
use saeos.Exec.Elf.Segments.{IsSegment}

abbrev pub zeroes : ℕ → List ℕ
zeroes n = replicate n 0

-- Bytes of the file between zeroes.
abbrev between : ℕ → ℕ → ℕ → ℕ → List ℕ → List ℕ
between a n b offset file = zeroes a ++ (take n (drop offset file) ++ zeroes b)

-- `LoadPlan::page_contents`: `out`, filled with zeroes and the file's bytes copied in.
unfoldable pub page_contents : Segment → List ℕ → ℕ → List ℕ
page_contents s file page =
    let from = max page s.vaddr in
    let to = min (page + 4096) (s.vaddr + s.file_size) in
    if ltb from to
    then between (from - page) (to - from) (page + 4096 - to) (s.file_offset + (from - s.vaddr))
        file
    else zeroes 4096

module _ (a n b offset : ℕ) (file : List ℕ) (h : offset + n ≤ length file) where
  length_before : length (zeroes a) ≡ a
  length_before = length-replicate {A = ℕ} a 0

  length_taken : length (take n (drop offset file)) ≡ n
  length_taken = omega (arith, length-take n (drop offset file), length-drop offset file)

  between_before : (i : ℕ) → i < a → get_or (between a n b offset file) i 0 ≡ 0
  between_before i lt =
      get_or-append_left (zeroes a) _ i 0 (omega (arith, length_before))
      ∙ get_or-replicate {A = ℕ} a i 0

  between_inside :
      (i j : ℕ)
      → i ≡ a + j
      → j < n
      → get_or (between a n b offset file) i 0 ≡ get_or file (offset + j) 0
  between_inside i j e lt =
      get_or-append_right (zeroes a) _ i j 0 (omega (arith, length_before))
      ∙ get_or-append_left (take n (drop offset file)) (zeroes b) j 0 (omega (arith, length_taken))
      ∙ get_or-take n j (drop offset file) 0 lt
      ∙ get_or-drop offset j file 0

  between_after : (i j : ℕ) → i ≡ a + (n + j) → get_or (between a n b offset file) i 0 ≡ 0
  between_after i j e =
      get_or-append_right (zeroes a) _ i (n + j) 0 (omega (arith, length_before))
      ∙ get_or-append_right (take n (drop offset file)) (zeroes b) (n + j) j 0
          (omega (arith, length_taken))
      ∙ get_or-replicate {A = ℕ} b j 0

page_contents_some :
    (page : ℕ) (s : Segment) (file : List ℕ)
    → max page s.vaddr < min (page + 4096) (s.vaddr + s.file_size)
    → page_contents s file page
      ≡ between
          (max page s.vaddr - page)
          (min (page + 4096) (s.vaddr + s.file_size) - max page s.vaddr)
          (page + 4096 - min (page + 4096) (s.vaddr + s.file_size))
          (s.file_offset + (max page s.vaddr - s.vaddr))
          file
unfolding page_contents
page_contents_some page s file h = ground arith

page_contents_none :
    (page : ℕ) (s : Segment) (file : List ℕ)
    → min (page + 4096) (s.vaddr + s.file_size) ≤ max page s.vaddr
    → page_contents s file page ≡ zeroes 4096
unfolding page_contents
page_contents_none page s file h = ground arith

module _ (user_top page i : ℕ) (s : Segment) (file : List ℕ)
    (v : IsSegment (length file) user_top s) (h : i < 4096) where
  -- The byte at an address that the segment's file bytes reach is the file's.
  page_contents-file :
      s.vaddr ≤ page + i
      → page + i < s.vaddr + s.file_size
      → get_or (page_contents s file page) i 0
        ≡ get_or file (s.file_offset + (page + i - s.vaddr)) 0
  page_contents-file low high =
      let from = max page s.vaddr in
      let n = min (page + 4096) (s.vaddr + s.file_size) - from in
      let offset = s.file_offset + (from - s.vaddr) in
      let j = page + i - from in
      let at : offset + j ≡ s.file_offset + (page + i - s.vaddr) = omega arith in
      ap (λ bytes. get_or bytes i 0) (page_contents_some page s file (omega arith))
      ∙ between_inside (from - page) n _ offset file (omega (arith, v.in_file)) i j (omega arith)
          (omega arith)
      ∙ ap (λ k. get_or file k 0) at

  -- Before and after them it is zero.
  page_contents_before : page + i < s.vaddr → get_or (page_contents s file page) i 0 ≡ 0
  page_contents_before low =
      let from = max page s.vaddr in
      let to = min (page + 4096) (s.vaddr + s.file_size) in
      elim (Bool-cases (ltb from to)) [
        | inr empty ↦
            ap (λ bytes. get_or bytes i 0) (page_contents_none page s file (ground arith))
            ∙ get_or-replicate {A = ℕ} 4096 i 0
        | inl part ↦
            let lt : from < to = ltb→lt from to part in
            ap (λ bytes. get_or bytes i 0) (page_contents_some page s file lt)
            ∙ between_before (from - page) (to - from) _ _ file (omega (arith, v.in_file)) i
                (omega arith)
      ]

  page_contents_after :
      s.vaddr + s.file_size ≤ page + i → get_or (page_contents s file page) i 0 ≡ 0
  page_contents_after high =
      let from = max page s.vaddr in
      let to = min (page + 4096) (s.vaddr + s.file_size) in
      elim (Bool-cases (ltb from to)) [
        | inr empty ↦
            ap (λ bytes. get_or bytes i 0) (page_contents_none page s file (ground arith))
            ∙ get_or-replicate {A = ℕ} 4096 i 0
        | inl part ↦
            let lt : from < to = ltb→lt from to part in
            ap (λ bytes. get_or bytes i 0) (page_contents_some page s file lt)
            ∙ between_after (from - page) (to - from) _ _ file (omega (arith, v.in_file)) i
                (page + i - to) (omega arith)
      ]

-- Every byte of a page of a segment that a plan accepted: the file's byte where the segment's file
-- bytes reach, and zero elsewhere.
pub page_contents_byte :
    (user_top page i : ℕ) (s : Segment) (file : List ℕ)
    → IsSegment (length file) user_top s
    → i < 4096
    → get_or (page_contents s file page) i 0 ≡ (
        if leb s.vaddr (page + i) && ltb (page + i) (s.vaddr + s.file_size)
        then get_or file (s.file_offset + (page + i - s.vaddr)) 0
        else 0)
page_contents_byte user_top page i s file v h = elim (Bool-cases (leb s.vaddr (page + i))) [
  | inr low ↦ simp low (page_contents_before user_top page i s file v h (ground arith))
  | inl low ↦ elim (Bool-cases (ltb (page + i) (s.vaddr + s.file_size))) [
    | inl high ↦ simp low (
        simp high
          (page_contents-file user_top page i s file v h (leb→le _ _ low) (ltb→lt _ _ high)))
    | inr high ↦
        simp low (simp high (page_contents_after user_top page i s file v h (ground arith)))
  ]
]
