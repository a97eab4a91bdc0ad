-- ===== src/Udp/Phases/Shutdown.antt =====
-- What the phases of `UdpServer` do, in any order and number.
use reactor.Prelude.{
  ℕ, ◌≡◌, ◌⊎◌, refl, ◌∙◌, Bool, true, false, not, ◌&&◌, List, [], ◌∷◌, ◌++◌, arith, inl, inr,
  Option-cases,
}
use reactor.Udp.{UdpOptions, Call, setup}
use reactor.Udp.Phases.{
  Effect, abort_all, stop_io, join, close_scheduler, destroy_scheduler_roots, Server, launch, start,
  stop, close, destroy_roots, Phase, stops, closes, destroys, phase, phases, make,
}

-- Effects on the scheduler alone, where the roots are destroyed only right after a close.
abbrev pub IsTeardown : List Effect → Type 0
IsTeardown [] = Unit
IsTeardown (close_scheduler ∷ es) = IsTeardown es
IsTeardown (destroy_scheduler_roots ∷ close_scheduler ∷ es) = IsTeardown es
IsTeardown _ = ⊥

-- A thread that is joined has no claim, and the loop that it ran is stopped.
record IsSettled (s : Server) : Type 0 where
  joined : s.joinable ≡ false
  released : s.loops ≡ 0
  stopped : (s.receiving && not s.io_stopped) ≡ false

record IsLive (s : Server) : Type 0 where
  joinable : s.joinable ≡ true
  claimed : s.loops ≡ 1
  quiet : s.effects ≡ []

phase-IsSettled :
    (p : Phase) (s : Server) (es base : List Effect)
    → IsSettled s
    → IsTeardown es
    → s.effects ≡ es ++ base
    → (fs : List Effect) × ((phase p s).effects ≡ fs ++ base)
      × IsTeardown fs
      × IsSettled (phase p s)
unfolding phase stop close destroy_roots
phase-IsSettled stops s es base v t e = (es, ground arith, t, ground arith)
phase-IsSettled closes s es base v t e = (close_scheduler ∷ es, ground arith, t, ground arith)
phase-IsSettled destroys s es base v t e =
    (destroy_scheduler_roots ∷ close_scheduler ∷ es, ground arith, t, ground arith)

phases-IsSettled :
    (ps : List Phase) (s : Server) (es base : List Effect)
    → IsSettled s
    → IsTeardown es
    → s.effects ≡ es ++ base
    → (fs : List Effect) × ((phases ps s).effects ≡ fs ++ base)
      × IsTeardown fs
      × IsSettled (phases ps s)
unfolding phases
phases-IsSettled [] s es base v t e = (es, e, t, v)
phases-IsSettled (p ∷ ps) s es base v t e =
    let (fs, f, u, w) = phase-IsSettled p s es base v t e in
    phases-IsSettled ps (phase p s) fs base w u f

-- What `stop` does to a thread that runs, the last first.
abbrev pub shutdown : Bool → List Effect
shutdown true = join ∷ stop_io ∷ abort_all ∷ []
shutdown false = []

phase-live :
    (p : Phase) (s : Server)
    → IsLive s
    → (fs : List Effect) × ((phase p s).effects ≡ fs ++ shutdown true)
      × IsTeardown fs
      × IsSettled (phase p s)
unfolding phase stop close destroy_roots
phase-live stops s v = ([], ground arith, tt, ground arith)
phase-live closes s v = (close_scheduler ∷ [], ground arith, tt, ground arith)
phase-live destroys s v =
    (destroy_scheduler_roots ∷ close_scheduler ∷ [], ground arith, tt, ground arith)

launch-IsLive : (port : ℕ) (o : UdpOptions) → IsLive (launch true port (make o)).0
unfolding launch
launch-IsLive port o = ground arith

launch-IsSettled :
    (port : ℕ) (o : UdpOptions)
    → IsSettled (launch false port (make o)).0 × ((launch false port (make o)).0.effects ≡ [])
unfolding launch
launch-IsSettled port o = ground arith

-- A started server has a live thread, or has none and is settled.
start-cases :
    (accepts : Call → Bool) (makes_thread : Bool) (port : ℕ) (o : UdpOptions)
    → let s = (start accepts makes_thread port (make o)).0 in
      IsLive s ⊎ (IsSettled s × (s.effects ≡ []))
unfolding start
start-cases accepts true port o = elim (Option-cases (setup accepts o port).thrown) [
  | inr (c, e) ↦ rw (start, e) (inr (ground arith))
  | inl e ↦ rw (start, e) (inl (launch-IsLive port o))
]
start-cases accepts false port o = elim (Option-cases (setup accepts o port).thrown) [
  | inr (c, e) ↦ rw (start, e) (inr (ground arith))
  | inl e ↦ rw (start, e) (inr (launch-IsSettled port o))
]

-- What `phases-settle` says of a server before and after.
abbrev pub IsShut : (before after : Server) → Type 0
IsShut s t =
    (t.joinable ≡ false)
    × (t.loops ≡ 0)
    × ((t.receiving && not t.io_stopped) ≡ false)
    × (es : List Effect) × (t.effects ≡ es ++ shutdown s.joinable)
    × IsTeardown es

live-IsShut : (s : Server) (p : Phase) (ps : List Phase) → IsLive s → IsShut s (phases (p ∷ ps) s)
unfolding phases
live-IsShut s p ps live =
    let (fs, f, u, w) = phase-live p s live in
    let (es, e, t, v) = phases-IsSettled ps (phase p s) fs (shutdown true) w u f in
    (v.joined, v.released, v.stopped, es, e ∙ rw live.joinable refl, t)

settled-IsShut :
    (s : Server) (ps : List Phase) → IsSettled s → s.effects ≡ [] → IsShut s (phases ps s)
settled-IsShut s ps settled quiet =
    let (es, e, t, v) = phases-IsSettled ps s [] [] settled tt quiet in
    (v.joined, v.released, v.stopped, es, e ∙ rw settled.joined refl, t)

-- Whatever phases are run on a server, in any order and number, and however its `start` ended:
-- afterwards no thread is left to join, no claim on the loop is held, and a receive loop that was
-- spawned stands on a stopped loop; tracked work was aborted, the loop stopped and the thread
-- joined once, in this order and before all else, when a thread was made, and never otherwise; and
-- roots are destroyed only right after a close of the scheduler.
pub phases-settle :
    (accepts : Call → Bool) (makes_thread : Bool) (port : ℕ) (o : UdpOptions) (p : Phase)
    (ps : List Phase)
    → let s = (start accepts makes_thread port (make o)).0 in IsShut s (phases (p ∷ ps) s)
phases-settle accepts makes_thread port o p ps = elim (start-cases accepts makes_thread port o) [
  | inl live ↦ live-IsShut _ p ps live
  | inr (settled, quiet) ↦ settled-IsShut _ (p ∷ ps) settled quiet
]
