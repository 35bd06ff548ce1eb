-- ===== src/Mm/Holds/History.antt =====
-- The hold table over the boot: holds are taken from free frames, reservations for good are punched out,
-- and holds are released, in any order (kernel/src/mm/frame.rs, `hold_range`, `reserve_range` and
-- `release_hold`).
use Prim.Native.Nat.{ℕ, ◌≤◌, ◌<◌}
use saeos.Prelude.{
  List, [], ◌∷◌, ◌==◌, leb, ltb, ◌&&◌, length, ◌≡◌, ◌⊎◌, refl, subst, ◌∙◌, arith, Bool-cases, inl,
  inr,
}
use saeos.Mm.Holds.Table.{HoldTable, max_hold_ranges, new, add, punch, release}
use saeos.Mm.Holds.Count.{times, times-add_range}
use saeos.Mm.Holds.Punch.{punch-Punches, length-add_range}
use saeos.Mm.Holds.Release.{times_in, release-Frees, length-release_loop}

abbrev pub Reserved : List (ℕ × ℕ) → ℕ → Type 0
Reserved [] frame = ⊥
Reserved ((first, last) ∷ rs) frame = ((first ≤ frame) × (frame < last)) ⊎ Reserved rs frame

-- The ranges that were reserved for good so far, beside the table. A hold takes frames that are free, hence
-- not reserved.
pub data Step : List (ℕ × ℕ) × HoldTable → List (ℕ × ℕ) × HoldTable → Type 0 where
  hold :
      {rs : List (ℕ × ℕ)} {t : HoldTable} (id first last : ℕ)
      → ((frame : ℕ) → first ≤ frame → frame < last → ¬ Reserved rs frame)
      → Step (rs, t) (rs, (add id first last t).1)
  reserve :
      {rs : List (ℕ × ℕ)} {t : HoldTable} (first last : ℕ)
      → first ≤ last
      → Step (rs, t) ((first, last) ∷ rs, (punch first last t).1)
  give_back : {rs : List (ℕ × ℕ)} {t : HoldTable} (id : ℕ) → Step (rs, t) (rs, (release id t).1)

pub data Reached : List (ℕ × ℕ) × HoldTable → Type 0 where
  start : Reached ([], new)
  next : {s u : List (ℕ × ℕ) × HoldTable} → Reached s → Step s u → Reached u

record IsApart (s : List (ℕ × ℕ) × HoldTable) : Type 0 where
  size : length s.1.ranges ≡ max_hold_ranges
  apart : (id frame : ℕ) → Reserved s.0 frame → times id frame s.1.ranges ≡ 0

add-IsApart :
    (id first last : ℕ) (rs : List (ℕ × ℕ)) (t : HoldTable)
    → ((frame : ℕ) → first ≤ frame → frame < last → ¬ Reserved rs frame)
    → IsApart (rs, t)
    → IsApart (rs, (add id first last t).1)
add-IsApart id first last rs t unreserved a = record {
  size = length-add_range id first last t.ranges ∙ a.size;
  apart = λ own frame r. elim (Bool-cases (leb first frame && ltb frame last)) [
    | inl here ↦ absurd (unreserved frame (ground arith) (ground arith) r)
    | inr elsewhere ↦
        ground (arith, times-add_range own frame id first last t.ranges, a.apart own frame r)
  ];
}

punch-IsApart :
    (first last : ℕ) (rs : List (ℕ × ℕ)) (t : HoldTable)
    → first ≤ last
    → IsApart (rs, t)
    → IsApart ((first, last) ∷ rs, (punch first last t).1)
punch-IsApart first last rs t h a =
    let p = punch-Punches first last t h a.size in
    record {
      size = p.0;
      apart = λ own frame r. elim (Bool-cases (leb first frame && ltb frame last)) [
        | inl here ↦ p.1 own frame (ground arith) (ground arith)
        | inr elsewhere ↦ elim r [
          | inl inside ↦ absurd (ground arith)
          | inr before ↦ omega (arith, p.2 own frame (ground arith), a.apart own frame before)
        ]
      ];
    }

release-IsApart :
    (id : ℕ) (rs : List (ℕ × ℕ)) (t : HoldTable) → IsApart (rs, t) → IsApart (rs, (release id t).1)
release-IsApart id rs t a =
    let f = release-Frees id t in
    record {
      size = length-release_loop id t.ranges ∙ a.size;
      apart = λ own frame r. elim (Bool-cases (own == id)) [
        | inl same ↦
            let eq : id ≡ own = ground arith in
            subst (λ k. times k frame (release id t).1.ranges ≡ 0) eq (f.1 frame)
        | inr other ↦ f.2 own frame (ground arith) ∙ a.apart own frame r
      ];
    }

Step-IsApart : {s u : List (ℕ × ℕ) × HoldTable} → Step s u → IsApart s → IsApart u
Step-IsApart (hold {rs} {t} id first last unreserved) a =
    add-IsApart id first last rs t unreserved a
Step-IsApart (reserve {rs} {t} first last h) a = punch-IsApart first last rs t h a
Step-IsApart (give_back {rs} {t} id) a = release-IsApart id rs t a

Reached-IsApart : {s : List (ℕ × ℕ) × HoldTable} → Reached s → IsApart s
Reached-IsApart start = record { size = refl; apart = λ id frame r. elim r [ ] }
Reached-IsApart (next r st) = Step-IsApart st (Reached-IsApart r)

-- However holds, reservations for good and releases followed one another, with each hold taken from frames
-- that were not reserved: releasing any hold hands over no frame that was reserved for good.
pub release_apart :
    (rs : List (ℕ × ℕ)) (t : HoldTable) (id frame : ℕ)
    → Reached (rs, t)
    → Reserved rs frame
    → times_in frame (release id t).0 ≡ 0
release_apart rs t id frame reached reserved =
    (release-Frees id t).0 frame ∙ (Reached-IsApart reached).apart id frame reserved
