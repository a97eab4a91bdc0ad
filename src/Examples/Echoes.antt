-- ===== src/Examples/Echoes.antt =====
-- examples/echo_server.cc: an echo session that gets two reads, and fails in its second write.
use reactor.Prelude.{
  ℕ, zero, suc, ◌≡◌, refl, ap, true, false, List, [], ◌∷◌, arith, length, replicate,
}
use reactor.Echo.{
  Echo, begin, capacity, read, written, resume, resume_at, Resumes, here, later, reads, writes,
  write_fails,
}
use reactor.Echo.Prefix.{IsEcho, Resumes-IsEcho}

length-replicate : (n : ℕ) → length {A = ℕ} (replicate n 0) ≡ n
length-replicate zero = refl
length-replicate (suc n) = ap suc (length-replicate n)

abbrev zeros : List ℕ
zeros = replicate capacity 0

abbrev after_two : Echo
after_two =
    resume
      (resume (resume (resume (begin zeros) (read false (104 ∷ 105 ∷ []))) (written false 2))
        (read false (1 ∷ 2 ∷ 3 ∷ [])))
      (written true 1)

two_reads : Resumes (begin zeros) after_two
unfolding resume resume_at
two_reads =
    later
      (later (later (later here (reads {bytes = 104 ∷ 105 ∷ []} (omega arith))) writes)
        (reads {bytes = 1 ∷ 2 ∷ 3 ∷ []} (omega arith)))
      (write_fails {count = 1} (omega arith))

sends_two_and_one : after_two.sent ≡ 104 ∷ 105 ∷ 1 ∷ []
unfolding resume resume_at
sends_two_and_one = refl

Resumes-IsEcho_example : IsEcho after_two
Resumes-IsEcho_example = Resumes-IsEcho zeros after_two (length-replicate capacity) two_reads
