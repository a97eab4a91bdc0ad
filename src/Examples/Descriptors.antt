-- ===== src/Examples/Descriptors.antt =====
-- reactor.h: two sessions that are forced, one of which has closed its socket and had its descriptor reused.
use reactor.Prelude.{
  ℕ, ◌+◌, ◌≡◌, refl, ap, ◌∙◌, Bool, true, false, Option, none, some, List, [], ◌∷◌, if◌then◌else◌,
  ◌==◌, arith, All, inl, inr, Bool-cases,
}
use reactor.AbortList.{AbortList, each}
use reactor.AbortList.Links.{has}
use reactor.SessionControl.{
  Sockets, View, Documented, Control, Hit, shuts, shutdown_connection, Forces, done, force,
}
use reactor.SessionControl.Reached.{IsOf, force_all-IsOver}
use reactor.Examples.Lists.{two, two-Holds}

record System : Type 0 where
  table : ℕ → Option ℕ
  over : ℕ → Bool

abbrev name_of : ℕ → Bool → Option (ℕ × ℕ)
name_of c true = none
name_of c false = some (16, 100 + c)

abbrev getpeername : System → Option ℕ → Option (ℕ × ℕ)
getpeername s none = none
getpeername s (some c) = name_of c (s.over c)

abbrev shutdown : System → Option ℕ → System
shutdown s none = s
shutdown s (some c) = record s { over = λ b. if b == c then true else s.over b }

abbrev sockets : Sockets System
sockets = record {
  capacity = 128;
  getpeername = λ s fd. getpeername s (s.table fd);
  shutdown = λ s fd. shutdown s (s.table fd);
}

abbrev view : View System
view = record { names = λ s fd. s.table fd; peer_of = λ c. 100 + c; is_over = λ s c. s.over c }

answers :
    (s : System) (o : Option ℕ) (size peer : ℕ)
    → getpeername s o ≡ some (size, peer)
    → (c : ℕ) × (o ≡ some c) × (100 + c ≡ peer)
answers s none size peer e = absurd (grind (arith, e))
answers s (some c) size peer e = elim (Bool-cases (s.over c)) [
  | inl over ↦ absurd (grind (arith, rw over at e))
  | inr up ↦ (c, refl, grind (arith, rw up at e))
]

keeps_table : (s : System) (o : Option ℕ) (b : ℕ) → (shutdown s o).table b ≡ s.table b
keeps_table s none b = refl
keeps_table s (some c) b = refl

stays : (s : System) (o : Option ℕ) (c : ℕ) → s.over c ≡ true → (shutdown s o).over c ≡ true
stays s none c h = h
stays s (some d) c h = ground (arith, h)

sockets-Documented : Documented sockets view
sockets-Documented = record {
  answers = λ s fd size peer e fits. answers s (s.table fd) size peer e;
  connected = λ s fd c named. elim (Bool-cases (s.over c)) [
    | inl over ↦ inl over
    | inr up ↦ inr (16, 100 + c, ap (getpeername s) named ∙ ap (name_of c) up, omega arith)
  ];
  keeps_table = λ s fd b. keeps_table s (s.table fd) b;
  ends = λ s fd c named. rw named (ground arith);
  stays = λ s fd c h. stays s (s.table fd) c h;
}

-- Descriptor 5 names connection 0, and 6 names connection 1.
abbrev before : System
before = record {
  table = λ fd. if fd == 5 then some 0 else if fd == 6 then some 1 else none;
  over = λ c. false;
}

-- The peer of node 3 was another one than that of connection 1.
abbrev control : ℕ → Control
control a =
    if a == 2 then record { descriptor = 5; peer = 100 } else record { descriptor = 6; peer = 107 }

-- Session 3 has closed its socket; between its check and its call the descriptor is reused once more.
abbrev middle : System
middle = record before { over = λ b. if b == 0 then true else false }

abbrev after : System
after = record middle { table = λ fd. if fd == 5 then some 0 else if fd == 6 then some 9 else none }

abbrev hits : List (Hit System)
hits = record { session = 2; checked = before; called = before } ∷ []

forced : Forces sockets view control (2 ∷ []) before (2 ∷ 3 ∷ []) hits after
unfolding shuts shutdown_connection
forced =
    force 2 (record { keeps = λ a h. refl; stays = λ c h. h })
      (force {os1 = after} 3 (record { keeps = reused; stays = λ c h. h }) done)
  where
    reused :
        (a : ℕ)
        → has a (2 ∷ []) ≡ true
        → after.table (control a).descriptor ≡ middle.table (control a).descriptor
    reused a h = let two : a ≡ 2 = ground (arith, h) in rw two refl

force_all-IsOver_example :
    ((l' : AbortList) × (each 3 (λ a. []) two ≡ some (2 ∷ 3 ∷ [], l')))
    × (after.over 0 ≡ true)
    × All (IsOf sockets view sockets-Documented control (2 ∷ []) (2 ∷ 3 ∷ [])) hits
force_all-IsOver_example =
    force_all-IsOver sockets view sockets-Documented control (2 ∷ []) two (2 ∷ 3 ∷ []) before after
      hits 2 0 two-Holds forced refl refl refl refl
