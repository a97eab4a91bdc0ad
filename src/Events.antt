-- ===== src/Events.antt =====
-- reactor_events.h: `Signal`, which any thread may send, and `PeriodicTimer`. The loop that runs the
-- posted handlers is one thread.
pub mod Signal
pub mod Timer
