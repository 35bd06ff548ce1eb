-- ===== src/Sound/Ring/Laws.antt =====
-- The ring's invariant, the count of its bytes, and the space that it offers.
use Prim.Native.Nat.{ℕ, ◌+◌, ◌-◌, ◌*◌, ◌%◌, ◌≤◌, ◌<◌}
use saeos.Prelude.{
  Bool, true, false, ◌||◌, Option, none, some, ltb, leb, ◌==◌, ◌≡◌, ◌≢◌, ◌⊎◌, inl, inr, refl, ◌∙◌,
  arith, Bool-cases,
}
use saeos.Sound.Ring.Queue.{
  Ring, Status, Action, new_ring, update, space, start, queue_period, announce, submit_period,
  commit,
}

-- The queued periods end where the fill period begins; an idle ring starts at period 0, and a card that
-- runs has something to play.
pub record IsRing (r : Ring) : Type 0 where
  pub partial : r.fill_bytes < 2048
  pub room : r.queued ≤ 31
  pub first : r.first_queued < 32
  pub next : r.fill_period ≡ (r.first_queued + r.queued) % 32
  pub idle : r.running ≡ false → r.first_queued ≡ 0
  pub busy : r.running ≡ true → 0 < r.queued

-- The bytes that the ring has taken since it was created.
abbrev pub taken : Ring → ℕ
taken r = (r.played + r.queued) * 2048 + r.fill_bytes

pub new_ring-IsRing : IsRing new_ring
new_ring-IsRing = record {
  partial = omega arith;
  room = omega arith;
  first = omega arith;
  next = refl;
  idle = λ e. refl;
  busy = λ e. ground arith;
}

start-IsRing : (r : Ring) → IsRing r → IsRing (start r).1 × (taken (start r).1 ≡ taken r)
unfolding start
start-IsRing r v = elim (Bool-cases (r.running || r.queued == 0)) [
  | inl e ↦ rw (e) (v, refl)
  | inr e ↦ rw (e) (
    record {
      partial = v.partial;
      room = v.room;
      first = v.first;
      next = v.next;
      idle = λ h. ground arith;
      busy = λ h. ground arith;
    },
    refl,
  )
]

announce-IsRing :
    (b : Bool) (period : ℕ) (r : Ring)
    → IsRing r
    → IsRing (announce b period r).1 × (taken (announce b period r).1 ≡ taken r)
unfolding announce
announce-IsRing true period r v = (v, refl)
announce-IsRing false period r v = elim (Bool-cases (leb 4 r.queued)) [
  | inl h ↦ simp h (start-IsRing r v)
  | inr h ↦ simp h (v, refl)
]

queue_period-IsRing :
    (fill : ℕ) (r : Ring)
    → IsRing r
    → r.queued < 31
    → let n = queue_period (record r { fill_bytes = fill }) in
      IsRing n × (taken n ≡ taken r + (2048 - r.fill_bytes))
unfolding queue_period
queue_period-IsRing fill r v free = (
  record {
    partial = omega arith;
    room = omega arith;
    first = v.first;
    next = omega (arith, v.next);
    idle = v.idle;
    busy = λ e. omega arith;
  },
  omega (arith, v.partial),
)

submit_period-IsRing :
    (fill : ℕ) (r : Ring)
    → IsRing r
    → r.queued < 31
    → let (action, n) = submit_period (record r { fill_bytes = fill }) in
      IsRing n × (taken n ≡ taken r + (2048 - r.fill_bytes))
unfolding submit_period
submit_period-IsRing fill r v free =
    let (ringed, counted) = queue_period-IsRing fill r v free in
    let (kept, same) = announce-IsRing r.running r.fill_period _ ringed in (kept, same ∙ counted)

-- In a ring in order with a period free, bytes that fit the rest of the fill period are taken: nothing
-- fails, the ring stays in order and has taken `count` bytes more.
pub commit-Takes :
    (count : ℕ) (r : Ring)
    → IsRing r
    → r.queued < 31
    → r.fill_bytes + count ≤ 2048
    → (action : Action) × (n : Ring) × (commit count r ≡ some (action, n))
      × IsRing n
      × (taken n ≡ taken r + count)
unfolding commit
commit-Takes count r v free fits =
    let filled : Ring = record r { fill_bytes = r.fill_bytes + count } in
    elim (Bool-cases (ltb (r.fill_bytes + count) 2048)) [
      | inl h ↦ (
        Action.no_action,
        filled,
        ground arith,
        record {
          partial = ground arith;
          room = v.room;
          first = v.first;
          next = v.next;
          idle = v.idle;
          busy = v.busy;
        },
        omega arith,
      )
      | inr h ↦
          let full : r.fill_bytes + count ≡ 2048 = ground arith in
          let (kept, counted) = submit_period-IsRing (r.fill_bytes + count) r v free in
          (
            (submit_period filled).0,
            (submit_period filled).1,
            ground arith,
            kept,
            omega (arith, counted, v.partial),
          )
    ]

-- What `space` answers: nothing where the queue is full. Else the space begins right behind the queued periods and
-- the bytes of the one that is filled, it is the rest of that one, lies in the buffer, and is apart from the `i`th queued
-- period, if there are so many.
abbrev pub Offers : Option (ℕ × ℕ) → Ring → ℕ → Type 0
Offers none r i = r.queued ≡ 31
Offers (some (offset, room)) r i =
    (r.queued < 31)
    × (offset ≡ (r.first_queued + r.queued) % 32 * 2048 + r.fill_bytes)
    × (0 < room)
    × (offset + room ≡ (r.first_queued + r.queued) % 32 * 2048 + 2048)
    × (offset + room ≤ 65536)
    × ((r.queued ≤ i)
        ⊎ ((r.first_queued + i) % 32 * 2048 + 2048 ≤ offset)
        ⊎ (offset + room ≤ (r.first_queued + i) % 32 * 2048))

-- A ring in order offers no space exactly when 31 periods are queued. Else, also when it is idle or none is queued,
-- its space is not empty, lies in the buffer, goes from right behind the bytes that it has to the end of their
-- period, and is apart from the bytes of every queued period.
pub space-Offers : (r : Ring) (i : ℕ) → IsRing r → Offers (space r) r i
unfolding space
space-Offers r i v = elim (Bool-cases (ltb r.queued 31)) [
  | inr full ↦ let room = v.room in simp full (ground arith)
  | inl free ↦
      let next = v.next in
      let partial = v.partial in
      let less : r.queued < 31 = ground arith in
      simp free (
        less,
        omega arith,
        omega arith,
        omega arith,
        omega arith,
        elim (Bool-cases (ltb i r.queued)) [
          | inr past ↦ inl (ground arith)
          | inl inside ↦
              let within : i < r.queued = ground arith in
              let apart : (r.first_queued + i) % 32 ≢ r.fill_period =
                λ h. omega (arith, v.next, v.room, v.first) in
              inr (omega (arith, apart))
        ],
      )
]

-- Catching up with the card keeps a ring in order so, and the bytes taken (played, queued and pending)
-- stay the same, whatever the card reports.
pub update-Plays :
    (status : Status) (r : Ring)
    → IsRing r
    → IsRing (update status r).1 × (taken (update status r).1 ≡ taken r)
unfolding update
update-Plays status r v = elim (Bool-cases r.running) [
  | inr idle ↦ simp idle (v, refl)
  | inl busy ↦ elim (Bool-cases status.halted) [
    | inl halted ↦ simp busy (
        simp halted (
          record {
            partial = v.partial;
            room = omega arith;
            first = omega arith;
            next = refl;
            idle = λ e. refl;
            busy = λ e. ground arith;
          },
          omega arith,
        ))
    | inr playing ↦ simp busy (
        simp playing (
          record {
            partial = v.partial;
            room = omega (arith, v.room);
            first = omega arith;
            next = omega (arith, v.next, v.room, v.busy busy);
            idle = λ e. ground arith;
            busy = λ e. omega (arith, v.busy busy);
          },
          omega (arith, v.busy busy),
        ))
  ]
]
