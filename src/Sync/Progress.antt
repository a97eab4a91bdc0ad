-- ===== src/Sync/Progress.antt =====
-- A caller of `Reactor::on_loop_sync` that no thread of the loop serves helps itself.
use reactor.Prelude.{ℕ}
use reactor.Sync.{Pc, looping, handling, running, finishing}

-- A thread that is in the loop.
abbrev pub is_thread : Pc → ℕ
is_thread looping = 1
is_thread (handling id) = 1
is_thread (running id) = 1
is_thread (finishing id) = 1
is_thread _ = 0
