-- ===== src/Mm/Holds/Tests.antt =====
-- A hold of two runs of frames, with a reservation in the middle of one of them.
use saeos.Prelude.{true, none, some, [], ◌∷◌, ◌≡◌, refl, arith, replicate, inl}
use saeos.Mm.Holds.Table.{
  HoldTable, add, add_range, punch, punch_loop, punch_range, release, release_loop, new,
}
use saeos.Mm.Holds.Punch.{Punches, punch-Punches}
use saeos.Mm.Holds.Release.{times_in}
use saeos.Mm.Holds.History.{start, next, hold, reserve, release_apart}

abbrev table : HoldTable
table = record {
  ranges =
      some (record { id = 1; first = 10; last = 20 })
      ∷ some (record { id = 1; first = 40; last = 42 })
      ∷ replicate 30 none;
  next_id = 1;
}

punched : (punch 14 16 table).0 ≡ true
unfolding punch_loop punch_range add_range
punched = refl

released : (release 1 (punch 14 16 table).1).0 ≡ (10, 14) ∷ (40, 42) ∷ (16, 20) ∷ []
unfolding punch_loop punch_range add_range release_loop
released = refl

punch-Punches_example : Punches 14 16 table (punch 14 16 table)
punch-Punches_example = punch-Punches 14 16 table (omega arith) refl

release_apart_example : times_in 15 (release 1 (punch 14 16 (add 1 10 20 new).1).1).0 ≡ 0
release_apart_example =
    release_apart ((14, 16) ∷ []) (punch 14 16 (add 1 10 20 new).1).1 1 15
      (next (next start (hold 1 10 20 (λ frame low high r. elim r [ ])))
        (reserve 14 16 (omega arith)))
      (inl (omega arith, omega arith))
