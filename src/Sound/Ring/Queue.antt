-- ===== src/Sound/Ring/Queue.antt =====
-- kernel/src/sound/ring.rs: the state and the operations. An assertion that fails is `none`; the debug
-- assertions are not made.
use Prim.Native.Nat.{ℕ, ◌+◌, ◌-◌, ◌*◌, ◌%◌, min}
use saeos.Prelude.{
  Bool, true, false, not, ◌&&◌, ◌||◌, Option, none, some, ltb, leb, ◌==◌, if◌then◌else◌,
}

abbrev pub periods : ℕ
periods = 32

abbrev pub period_bytes : ℕ
period_bytes = 2048

abbrev pub ring_bytes : ℕ
ring_bytes = periods * period_bytes

abbrev pub max_queued : ℕ
max_queued = 31

abbrev pub start_periods : ℕ
start_periods = 4

pub record Status : Type 0 where
  pub current : ℕ
  pub halted : Bool

pub data Action : Type 0 where
  no_action : Action
  start_at submit : ℕ → Action

pub record Update : Type 0 where
  pub halted : Bool
  pub finished : Option (ℕ × ℕ)

pub record Ring : Type 0 where
  pub fill_period : ℕ
  pub fill_bytes : ℕ
  pub first_queued : ℕ
  pub queued : ℕ
  pub running : Bool
  pub played : ℕ

abbrev pub new_ring : Ring
new_ring = record {
  fill_period = 0;
  fill_bytes = 0;
  first_queued = 0;
  queued = 0;
  running = false;
  played = 0;
}

-- `(test).then_some(...)` on a count of periods.
abbrev pub some_periods : ℕ → ℕ → Option (ℕ × ℕ)
some_periods first count = if ltb 0 count then some (first, count) else none

-- The periods that the card has finished, of those queued.
abbrev pub done_periods : Status → Ring → ℕ
done_periods status r = min ((status.current + periods - r.first_queued) % periods) (r.queued - 1)

-- `Ring::update`.
unfoldable pub update : Status → Ring → Update × Ring
update status r =
    if not r.running
    then (record { halted = false; finished = none }, r)
    else (if status.halted
        then (
          record { halted = true; finished = some_periods r.first_queued r.queued },
          record r {
            played = r.played + r.queued;
            queued = 0;
            running = false;
            first_queued = 0;
            fill_period = 0;
          },
        )
        else (
          record { halted = false; finished = some_periods r.first_queued (done_periods status r) },
          record r {
            played = r.played + done_periods status r;
            queued = r.queued - done_periods status r;
            first_queued = (r.first_queued + done_periods status r) % periods;
          },
        ))

-- `Ring::space`.
unfoldable pub space : Ring → Option (ℕ × ℕ)
space r =
    if ltb r.queued max_queued
    then some (r.fill_period * period_bytes + r.fill_bytes, period_bytes - r.fill_bytes)
    else none

-- `Ring::start`.
unfoldable pub start : Ring → Action × Ring
start r =
    if r.running || r.queued == 0
    then (Action.no_action, r)
    else (Action.start_at (r.queued - 1), record r { running = true })

-- The fill period is full and is queued.
unfoldable pub queue_period : Ring → Ring
queue_period r = record r {
  fill_period = (r.fill_period + 1) % periods;
  fill_bytes = 0;
  queued = r.queued + 1;
}

-- What the card is told about the queued period, if it runs and if not.
unfoldable pub announce : Bool → ℕ → Ring → Action × Ring
announce true period r = (Action.submit period, r)
announce false period r = if leb start_periods r.queued then start r else (Action.no_action, r)

-- The end of `Ring::commit`, for a full period.
unfoldable pub submit_period : Ring → Action × Ring
submit_period r = announce r.running r.fill_period (queue_period r)

-- `Ring::commit`.
unfoldable pub commit : ℕ → Ring → Option (Action × Ring)
commit count r =
    let filled : Ring = record r { fill_bytes = r.fill_bytes + count } in
    if ltb r.queued max_queued && leb (r.fill_bytes + count) period_bytes
    then some (
        if ltb filled.fill_bytes period_bytes
        then (Action.no_action, filled)
        else submit_period filled)
    else none

-- `Ring::padding`.
unfoldable pub padding : Ring → Option (ℕ × ℕ)
padding r = if ltb 0 r.fill_bytes then space r else none

-- `Ring::reset`.
unfoldable pub reset : Ring → Ring
reset r = record new_ring { played = r.played }
