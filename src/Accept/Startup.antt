-- ===== src/Accept/Startup.antt =====
-- reactor.h: how an accept loop opens its listener, and what `wait_listening` and `wait` see of it
-- (`AcceptControl::listening`, `finish`).
use reactor.Prelude.{
  ℕ, ◌≡◌, Bool, true, false, ◌||◌, Option, none, some, List, [], ◌∷◌, ◌++◌, arith, if◌then◌else◌,
}
use reactor.Accept.{ErrorCode}
use reactor.Accept.Loop.{Next, again, ends, throws}

-- `BindOptions`, with an address named by a number.
pub record BindOptions : Type 0 where
  pub address : Option ℕ
  pub reuse_port : Bool
  pub tcp_nodelay : Bool
  pub backlog : ℕ

-- The calls that set the listener up, each of which may throw.
pub data SetupCall : Type 0 where
  make_address : (address : ℕ) → SetupCall
  open_acceptor : SetupCall
  reuse_address : SetupCall
  reuse_port : SetupCall
  bind_to : (address : Option ℕ) (port : ℕ) → SetupCall
  listen : (backlog : ℕ) → SetupCall
  local_endpoint : SetupCall

abbrev pub resolve : BindOptions → List SetupCall
resolve o = elim o.address [ none ↦ [] | some a ↦ make_address a ∷ [] ]

abbrev pub optional : Bool → SetupCall → List SetupCall
optional b c = if b then c ∷ [] else []

-- The set-up of `accept_loop`.
abbrev pub own_setup : BindOptions → ℕ → List SetupCall
own_setup o port =
    resolve o
    ++ (open_acceptor ∷ reuse_address ∷ []
        ++ (optional o.reuse_port reuse_port
            ++ (bind_to o.address port ∷ listen o.backlog ∷ local_endpoint ∷ [])))

-- The set-up of `shared_accept_loop`, which has the port alone.
abbrev pub shared_setup : BindOptions → ℕ → List SetupCall
shared_setup o port =
    resolve o
    ++ (open_acceptor
        ∷ reuse_address
        ∷ bind_to o.address port
        ∷ listen o.backlog
        ∷ local_endpoint
        ∷ [])

-- The first call that fails throws; `outcome` says what the system answers.
pub first_error : (SetupCall → Option ErrorCode) → List SetupCall → Option ErrorCode
first_error outcome [] = none
first_error outcome (c ∷ cs) =
    let rest = first_error outcome cs in elim (outcome c) [ some e ↦ some e | none ↦ rest ]

-- What an accept task leaves for its waiters: an exception is `runtime_error` or a system error.
pub record Status : Type 0 where
  pub ready : Bool
  pub finished : Bool
  pub startup_error : Option ErrorCode
  pub acceptor : Bool
  pub reports : List ErrorCode  -- written to stderr and to `L_EXC`

abbrev pub launched : Status
launched = record {
  ready = false;
  finished = false;
  startup_error = none;
  acceptor = true;
  reports = [];
}

pub listening : Status → Status
listening s = record s { ready = true }

pub finish : Option ErrorCode → Status → Status
finish error s = record s {
  reports = elim error [ none ↦ s.reports | some e ↦ if s.ready then e ∷ s.reports else s.reports ];
  acceptor = false;
  startup_error = error;
  finished = true;
}

pub data Wait : Type 0 where
  blocked : Wait
  returned : Wait
  rethrown : ErrorCode → Wait
  stopped_during_startup : Wait

pub wait_listening : Status → Wait
wait_listening s =
    if s.ready || s.finished
    then (if s.ready
        then returned
        else elim s.startup_error [ some e ↦ rethrown e | none ↦ stopped_during_startup ])
    else blocked

pub wait : Status → Wait
wait s = if s.finished then returned else blocked

-- An accept task: its set-up, and where its loop stands.
pub accept_task :
    (stopping : Bool) (setup : List SetupCall) (outcome : SetupCall → Option ErrorCode)
    → Next
    → Status
unfolding first_error listening finish
accept_task stopping setup outcome loop =
    if stopping then finish none launched else elim (first_error outcome setup) [
      | some e ↦ finish (some e) launched
      | none ↦ elim loop [
        | again ↦ listening launched
        | ends ↦ finish none (listening launched)
        | throws e ↦ finish (some e) (listening launched)
      ]
    ]

-- `start` sees an accept task listening exactly when it was not stopped first and no call of its
-- set-up failed; otherwise it gets the error of the first call that failed. `wait` blocks exactly
-- while the loop goes on, and the acceptor is there as long. An error that ends the loop is written out.
accept_task_lem :
    (stopping : Bool) (setup : List SetupCall) (outcome : SetupCall → Option ErrorCode)
    (loop : Next)
    → let s = accept_task stopping setup outcome loop in
      let runs : Bool = if stopping then false else elim (first_error outcome setup) [
        | some e ↦ false
        | none ↦ elim loop [ again ↦ true | ends ↦ false | throws e ↦ false ]
      ] in
      (wait s ≡ (if runs then blocked else returned))
      × (s.acceptor ≡ runs)
      × (wait_listening s ≡ (
          if stopping
          then stopped_during_startup
          else elim (first_error outcome setup) [ some e ↦ rethrown e | none ↦ returned ]))
      × (s.reports ≡ (
          if stopping then [] else elim (first_error outcome setup) [
            | some e ↦ []
            | none ↦ elim loop [ again ↦ [] | ends ↦ [] | throws e ↦ e ∷ [] ]
          ]))
unfolding accept_task wait wait_listening
accept_task_lem stopping setup outcome loop = ground arith
