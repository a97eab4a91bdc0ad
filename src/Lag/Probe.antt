-- ===== src/Lag/Probe.antt =====
-- reactor_lag.h: `LagProbe`, the timer that measures a loop's lateness. Times are nanoseconds on the
-- steady clock. Each event names the clock readings that the code takes in it.
pub mod Slot
pub mod Counting
pub mod Busy
use reactor.Prelude.{
  ℕ, zero, suc, ◌+◌, ◌-◌, ◌*◌, ◌/◌, ◌^◌, List, [], ◌∷◌, Bool, true, false, if◌then◌else◌, ◌==◌, ltb,
  u64, not, ◌||◌, ◌&&◌, ◌++◌, leb,
}
use reactor.Lag.Snapshot.{Snapshot, empty, add_wake}

abbrev pub busy_interval : ℕ
busy_interval = 1000 * 1000

abbrev pub idle_interval : ℕ
idle_interval = 100000 * 1000

abbrev pub busy_window : ℕ
busy_window = 1000000000

-- The memory that Asio asks for to keep a wait on the timer (`n * sizeof(T)` and `alignof(T)`), and
-- the platform's `alignof(std::max_align_t)`.
pub record Operation : Type 0 where
  pub bytes : ℕ
  pub alignment : ℕ
  pub max_alignment : ℕ

-- `sizeof(state->slot)`
abbrev pub slot_size : ℕ
slot_size = 512

abbrev pub fits_slot : Operation → Bool
fits_slot o = leb o.bytes slot_size && leb o.alignment o.max_alignment

-- Where an operation lives: what its pointer points to.
pub data Place : Type 0 where
  in_slot on_heap : Place

-- `LagProbe::State`. `waits` has the pending waits on the timer, in order, and `heap` counts the
-- operations that `SlotAllocator` has taken from the heap. `operation` is that of the build.
pub record Probe : Type 0 where
  pub operation : Operation
  pub due : ℕ
  pub busy_until : ℕ
  pub last_activity : ℕ
  pub activity : ℕ
  pub started : Bool
  pub stopped : Bool
  pub counters : Snapshot
  pub waits : List Place
  pub slot_used : Bool
  pub heap : ℕ

abbrev pub fresh : Operation → Probe
fresh o = record {
  operation = o;
  due = 0;
  busy_until = 0;
  last_activity = 0;
  activity = 0;
  started = false;
  stopped = false;
  counters = empty;
  waits = [];
  slot_used = false;
  heap = 0;
}

-- `SlotAllocator::allocate`
pub allocate : Probe → Place × Probe
allocate p =
    if not p.slot_used && fits_slot p.operation
    then (in_slot, record p { slot_used = true })
    else (on_heap, record p { heap = p.heap + 1 })

-- `SlotAllocator::deallocate`
pub deallocate : Place → Probe → Probe
deallocate in_slot p = record p { slot_used = false }
deallocate on_heap p = record p { heap = p.heap - 1 }

-- `arm(interval)`, where the clock reads `now`
pub arm : ℕ → ℕ → Probe → Probe
unfolding allocate
arm now interval p =
    let (place, q) = allocate p in
    record q { due = now + interval; waits = q.waits ++ (place ∷ []) }

pub start : ℕ → Probe → Probe
unfolding arm
start now p = if p.started then p else arm now idle_interval (record p { started = true })

-- `stop` also posts a cancel of the timer, which lets a pending wait end with an error.
pub stop : Probe → Probe
stop p = if not p.started || p.stopped then p else record p { stopped = true }

pub note_activity : Probe → Probe
note_activity p = record p { activity = u64 (p.activity + 1) }

-- How late the wake is, in whole microseconds.
abbrev pub lateness : ℕ → Probe → ℕ
lateness now p = if ltb p.due now then (now - p.due) / 1000 else 0

-- The activity seen since the last wake keeps the loop busy for a second more.
pub see_activity : ℕ → Probe → Probe
see_activity now p =
    if p.activity == p.last_activity
    then p
    else record p { last_activity = p.activity; busy_until = now + busy_window }

-- `tick(error)`, where the clock reads `now` in `tick` and `again` in `arm`
pub tick : Bool → ℕ → ℕ → Probe → Probe
unfolding arm see_activity
tick error now again p =
    if error || p.stopped
    then p
    else (let q : Probe =
          see_activity now (record p { counters = add_wake p.counters (lateness now p) }) in
        arm again (if ltb now q.busy_until then busy_interval else idle_interval) q)

-- The loop completes the first of the pending waits: it frees the operation and runs the handler.
unfoldable pub complete : List Place → Bool → ℕ → ℕ → Probe → Probe
unfolding deallocate tick
complete [] error now again p = p
complete (place ∷ rest) error now again p =
    tick error now again (deallocate place (record p { waits = rest }))

unfoldable pub fire : Bool → ℕ → ℕ → Probe → Probe
unfolding complete
fire error now again p = complete p.waits error now again p

pub data Event : Type 0 where
  starts : (now : ℕ) → Event
  stops : Event
  notes : Event
  fires : (error : Bool) (now again : ℕ) → Event

pub step : Probe → Event → Probe
unfolding start stop note_activity fire
step p (starts now) = start now p
step p stops = stop p
step p notes = note_activity p
step p (fires error now again) = fire error now again p

unfoldable pub run : Probe → List Event → Probe
unfolding step
run p [] = p
run p (e ∷ es) = run (step p e) es
