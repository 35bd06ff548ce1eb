-- ===== src/Sound/Ring/Tests.antt =====
-- Runs of the ring.
use Prim.Native.Nat.{◌+◌}
use saeos.Prelude.{true, false, some, ◌≡◌, refl, arith}
use saeos.Sound.Ring.Queue.{Ring, Status, Action, commit, space}
use saeos.Sound.Ring.Laws.{IsRing, taken, commit-Takes, Offers, space-Offers}

abbrev playing : Ring
playing = record {
  fill_period = 2;
  fill_bytes = 2000;
  first_queued = 29;
  queued = 5;
  running = true;
  played = 61;
}

playing-IsRing : IsRing playing
playing-IsRing = record {
  partial = omega arith;
  room = omega arith;
  first = omega arith;
  next = refl;
  idle = λ e. ground arith;
  busy = λ e. omega arith;
}

commit-Takes_example :
    (action : Action) × (n : Ring) × (commit 48 playing ≡ some (action, n))
    × IsRing n
    × (taken n ≡ taken playing + 48)
commit-Takes_example = commit-Takes 48 playing playing-IsRing (omega arith) (omega arith)

abbrev at_first : Status
at_first = record { current = 0; halted = false }

space-Offers_example : Offers (space playing) playing 4
space-Offers_example = space-Offers playing 4 playing-IsRing
