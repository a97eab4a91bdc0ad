-- ===== src/Echo/Prefix.antt =====
-- examples/echo_server.cc: what the session `echo` has sent, beside what it has received.
use mathlib.Core.List.{append_assoc}
use reactor.Prelude.{
  ℕ, zero, suc, ◌≤◌, ◌≡◌, refl, sym, ◌∙◌, ap, true, false, List, [], ◌∷◌, ◌++◌, arith, length, ◌==◌,
  ◌⊎◌, inl, inr,
}
use reactor.Echo.{
  Echo, Pc, reading, writing, ended, capacity, begin, Completion, take, fill, finish, resume,
  resume_at, Completes, reads, read_fails, writes, write_fails, Resumes, here, later,
}

length-fill : (bytes buf : List ℕ) → length (fill bytes buf) ≡ length buf
length-fill [] buf = refl
length-fill (b ∷ bytes) [] = refl
length-fill (b ∷ bytes) (x ∷ buf) = omega (arith, length-fill bytes buf)

take-fill :
    (bytes buf : List ℕ) → length bytes ≤ length buf → take (length bytes) (fill bytes buf) ≡ bytes
take-fill [] buf h = refl
take-fill (b ∷ bytes) [] h = absurd (omega arith)
take-fill (b ∷ bytes) (x ∷ buf) h = ap (λ t. b ∷ t) (take-fill bytes buf (omega arith))

take-take : (n : ℕ) (xs : List ℕ) → take n (take n xs) ≡ take n xs
take-take zero xs = refl
take-take (suc n) [] = refl
take-take (suc n) (x ∷ xs) = ap (λ t. x ∷ t) (take-take n xs)

abbrev drop : ℕ → List ℕ → List ℕ
drop zero xs = xs
drop (suc n) [] = []
drop (suc n) (x ∷ xs) = drop n xs

take-drop : (n : ℕ) (xs : List ℕ) → take n xs ++ drop n xs ≡ xs
take-drop zero xs = refl
take-drop (suc n) [] = refl
take-drop (suc n) (x ∷ xs) = ap (λ t. x ∷ t) (take-drop n xs)

length-take : (n : ℕ) (xs : List ℕ) → length (take n xs) ≤ n
length-take zero xs = omega arith
length-take (suc n) [] = omega arith
length-take (suc n) (x ∷ xs) = omega (arith, length-take n xs)

length-drop : (n : ℕ) (xs : List ℕ) → length (drop n xs) ≤ length xs
length-drop zero xs = omega arith
length-drop (suc n) [] = omega arith
length-drop (suc n) (x ∷ xs) = omega (arith, length-drop n xs)

-- What the session holds at each place: all that it received is sent, or in the buffer, or, after its
-- end, sent but for at most a buffer, whose write has failed.
abbrev pub Held : Pc → Echo → Type 0
Held reading s = (s.received ≡ s.sent) × (s.write_error ≡ false) × (s.shutdowns ≡ 0)
Held (writing n) s = (s.received ≡ s.sent ++ take n s.buf) × (n ≤ capacity) × (s.shutdowns ≡ 0)
Held ended s =
    ((rest : List ℕ) × (s.received ≡ s.sent ++ rest)
      × (length rest ≤ capacity)
      × ((s.write_error ≡ true) ⊎ (rest ≡ [])))
    × (s.shutdowns ≡ 1)

pub record IsEcho (s : Echo) : Type 0 where
  pub buf : length s.buf ≡ capacity
  pub held : Held s.pc s

-- At the end with nothing left to send.
held_all :
    (s : Echo) → Held reading s → Held ended (finish (record s { received = s.received ++ [] }))
held_all s h = (([], ap (λ r. r ++ []) h.0, omega arith, inr refl), omega (arith, h.2))

resume_at-IsEcho :
    (s : Echo) {p : Pc} {c : Completion}
    → length s.buf ≡ capacity
    → Held p s
    → Completes (length s.buf) p c
    → IsEcho (resume_at p c s)
unfolding resume_at
resume_at-IsEcho s b h (reads {bytes = []} le) = record { buf = b; held = held_all s h }
resume_at-IsEcho s b h (reads {bytes = x ∷ bytes} le) =
    let some_bytes : (suc (length bytes) == 0) ≡ false = ground arith in
    rw some_bytes (record {
      buf = length-fill (x ∷ bytes) s.buf ∙ b;
      held = (
        ap (λ r. r ++ (x ∷ bytes)) h.0
            ∙ ap (λ t. s.sent ++ t) (sym (take-fill (x ∷ bytes) s.buf le)),
        omega arith,
        h.2,
      );
    })
resume_at-IsEcho s b h read_fails = record { buf = b; held = held_all s h }
resume_at-IsEcho s b h (writes {n}) = record {
  buf = b;
  held = (h.0 ∙ ap (λ r. s.sent ++ r) (sym (take-take n s.buf)), refl, h.2);
}
resume_at-IsEcho s b h (write_fails {n} {count} le) =
    let given = take n s.buf in
    record {
      buf = b;
      held = (
        (
          drop count given,
          h.0
              ∙ (ap (λ t. s.sent ++ t) (sym (take-drop count given))
                  ∙ sym (append_assoc s.sent (take count given) (drop count given))),
          omega (arith, length-drop count given, length-take n s.buf, h.1),
          inl refl,
        ),
        omega (arith, h.2),
      );
    }

-- However the reads and writes of `echo` complete: its buffer keeps its size; at a read it has sent
-- exactly what it has received, in order; in a write, all but what the write was given, which is at
-- most a buffer; and at its end all of it, or, if its last write failed, a prefix of it that lacks at
-- most a buffer, after which the socket has been shut down once, and not before.
pub Resumes-IsEcho :
    (buf : List ℕ) (s : Echo) → length buf ≡ capacity → Resumes (begin buf) s → IsEcho s
unfolding resume
Resumes-IsEcho buf s b here = record { buf = b; held = (refl, refl, refl) }
Resumes-IsEcho buf s b (later {t} {c} r d) =
    let v = Resumes-IsEcho buf t b r in resume_at-IsEcho t v.buf v.held d
