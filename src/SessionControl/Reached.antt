-- ===== src/SessionControl/Reached.antt =====
-- What `Reactor::force_all` does to the connections of the sessions that are tracked.
use reactor.Prelude.{
  ℕ, ◌≡◌, refl, sym, ap, subst, ◌∙◌, false≢true, true, false, some, List, [], ◌∷◌, if◌then◌else◌,
  ◌==◌, ==_iff, ltb, inl, inr, All, arith, Bool-cases, Option-cases, length, suc, ◌⊎◌,
}
use reactor.AbortList.{AbortList, each}
use reactor.AbortList.Links.{has, has_here, has_there}
use reactor.AbortList.Ops.{Holds}
use reactor.AbortList.Each.{untracked, visits, each-visits}
use reactor.SessionControl.{
  Sockets, View, Documented, Control, Hit, shuts, shutdown_connection, Forces, done, force, others,
}

module _ {Os : Type 0} (sys : Sockets Os) (view : View Os) (doc : Documented sys view) where
  -- A descriptor that is shut down names a connection of the peer.
  shuts-Named :
      (os : Os) (k : Control)
      → shuts sys os k ≡ true
      → (c : ℕ) × (view.names os k.descriptor ≡ some c) × (view.peer_of c ≡ k.peer)
  unfolding shuts
  shuts-Named os k h = elim (Option-cases (sys.getpeername os k.descriptor)) [
    | inl fails ↦ absurd (grind (arith, rw (shuts, fails) at h))
    | inr ((size, current), e) ↦
        let test : (if ltb sys.capacity size then false else current == k.peer) ≡ true =
          rw (shuts, e) at h in
        let (c, named, peer) = doc.answers os k.descriptor size current e (ground (arith, test)) in
        (c, named, peer ∙ ground (arith, test))
  ]

  over-shutdown :
      (os os1 : Os) (k : Control) (c : ℕ)
      → view.is_over os1 c ≡ true
      → view.is_over (shutdown_connection sys os os1 k) c ≡ true
  unfolding shutdown_connection
  over-shutdown os os1 k c h = elim (Bool-cases (shuts sys os k)) [
    | inl hit ↦ rw hit (doc.stays os1 k.descriptor c h)
    | inr spared ↦ rw spared h
  ]

  names-shutdown :
      (os os1 : Os) (k : Control) (b : ℕ)
      → view.names (shutdown_connection sys os os1 k) b ≡ view.names os1 b
  unfolding shutdown_connection
  names-shutdown os os1 k b = elim (Bool-cases (shuts sys os k)) [
    | inl hit ↦ rw hit (doc.keeps_table os1 k.descriptor b)
    | inr spared ↦ rw spared refl
  ]

  -- A session's own connection is over afterwards, if the descriptor names it at both calls.
  own-IsOver :
      (os os1 : Os) (k : Control) (c : ℕ)
      → view.names os k.descriptor ≡ some c
      → view.names os1 k.descriptor ≡ some c
      → (view.is_over os c ≡ true → view.is_over os1 c ≡ true)
      → view.peer_of c ≡ k.peer
      → view.is_over (shutdown_connection sys os os1 k) c ≡ true
  unfolding shutdown_connection shuts
  own-IsOver os os1 k c named later stays own = elim (doc.connected os k.descriptor c named) [
    | inl over ↦ over-shutdown os os1 k c (stays over)
    | inr (size, peer, e, fits) ↦
        let (c', named', peer') = doc.answers os k.descriptor size peer e fits in
        let same : c' ≡ c = grind (arith, sym named' ∙ named) in
        let mine : (peer == k.peer) ≡ true =
          (==_iff peer k.peer).1 (sym peer' ∙ (ap (λ a. view.peer_of a) same ∙ own)) in
        let whole : ltb sys.capacity size ≡ false = ground (arith, fits) in
        let hit : shuts sys os k ≡ true = rw (shuts, e, whole) mine in
        rw (shutdown_connection, hit) (doc.ends os1 k.descriptor c later)
  ]

  module _ (control : ℕ → Control) (open_ones : List ℕ) where
    over-Forces :
        {os os' : Os} {nodes : List ℕ} {hits : List (Hit Os)} (c : ℕ)
        → Forces sys view control open_ones os nodes hits os'
        → view.is_over os c ≡ true
        → view.is_over os' c ≡ true
    over-Forces c done h = h
    over-Forces {os} c (force {os1 = os1} a o later) h =
        over-Forces c later (over-shutdown os os1 (control a) c (o.stays c h))
    over-Forces c (others o later) h = over-Forces c later (o.stays c h)

    Forces-IsOver :
        {os os' : Os} {nodes : List ℕ} {hits : List (Hit Os)} (a c : ℕ)
        → Forces sys view control open_ones os nodes hits os'
        → has a open_ones ≡ true
        → has a nodes ≡ true
        → view.names os (control a).descriptor ≡ some c
        → view.peer_of c ≡ (control a).peer
        → view.is_over os' c ≡ true
    Forces-IsOver a c done t h named own = absurd (false≢true h)
    Forces-IsOver {os} a c (force {os1 = os1} b o later) t h named own =
        elim (Bool-cases (a == b)) [
          | inl here ↦
              let same : a ≡ b = (==_iff a b).0 here in
              over-Forces c later (
                subst (λ k. view.is_over (shutdown_connection sys os os1 (control k)) c ≡ true) same
                  (own-IsOver os os1 (control a) c named (o.keeps a t ∙ named) (o.stays c) own))
          | inr there ↦
              Forces-IsOver a c later t (ground (arith, h, there))
                (names-shutdown os os1 (control b) (control a).descriptor ∙ (o.keeps a t ∙ named))
                own
        ]
    Forces-IsOver a c (others o later) t h named own =
        Forces-IsOver a c later t h (o.keeps a t ∙ named) own

    -- The session is one of the nodes; at the check its descriptor named a connection of its peer, and, if
    -- it has not closed its socket, the same at the call.
    pub record IsOf (nodes : List ℕ) (hit : Hit Os) : Type 0 where
      pub named : ℕ
      pub listed : has hit.session nodes ≡ true
      pub at_check : view.names hit.checked (control hit.session).descriptor ≡ some named
      pub of_peer : view.peer_of named ≡ (control hit.session).peer
      pub at_call :
          (has hit.session open_ones ≡ false)
          ⊎ (view.names hit.called (control hit.session).descriptor ≡ some named)

    IsOf-cons :
        (b : ℕ) (nodes : List ℕ) (hits : List (Hit Os))
        → All (IsOf nodes) hits
        → All (IsOf (b ∷ nodes)) hits
    IsOf-cons b nodes [] h = tt
    IsOf-cons b nodes (x ∷ hits) (v, hs) = (
      record {
        named = v.named;
        listed = has_there x.session b nodes v.listed;
        at_check = v.at_check;
        of_peer = v.of_peer;
        at_call = v.at_call;
      },
      IsOf-cons b nodes hits hs,
    )

    Forces-IsOf :
        {os os' : Os} {nodes : List ℕ} {hits : List (Hit Os)}
        → Forces sys view control open_ones os nodes hits os'
        → All (IsOf nodes) hits
    Forces-IsOf done = tt
    Forces-IsOf {os} (force a {rest} {hits} o later) =
        elim (Bool-cases (shuts sys os (control a))) [
          | inl hit ↦
              let (c, named, peer) = shuts-Named os (control a) hit in
              rw hit (
                record {
                  named = c;
                  listed = has_here a a rest refl;
                  at_check = named;
                  of_peer = peer;
                  at_call = elim (Bool-cases (has a open_ones)) [
                    | inl on ↦ inr (o.keeps a on ∙ named)
                    | inr off ↦ inl off
                  ];
                },
                IsOf-cons a rest hits (Forces-IsOf later),
              )
          | inr spared ↦ rw spared (IsOf-cons a rest hits (Forces-IsOf later))
        ]
    Forces-IsOf (others o later) = Forces-IsOf later

  visits_idle : (xs : List ℕ) → visits (λ a. []) [] xs ≡ xs
  unfolding visits untracked
  visits_idle [] = refl
  visits_idle (x ∷ xs) = ap (λ ys. x ∷ ys) (visits_idle xs)

  -- The walk of `force_all` over sessions whose hooks leave the list alone ends, and meets each of the
  -- list once, in order. When the hooks of these sessions have been called in this order, with other
  -- threads between the system's calls, who leave alone the descriptors of the sessions that have not
  -- closed their sockets: the connection of every session `a` of the list that has not is shut down or
  -- lost, if its descriptor named it before and the peer of its control is the connection's; and every
  -- call of `shutdown` is that of a session of the list whose descriptor named, at the check before it,
  -- a connection of the session's peer, and still names it if the session has not closed its socket.
  pub force_all-IsOver :
      (control : ℕ → Control) (open_ones : List ℕ) (l : AbortList) (xs : List ℕ) (os os' : Os)
      (hits : List (Hit Os)) (a c : ℕ)
      → Holds l xs []
      → Forces sys view control open_ones os xs hits os'
      → has a open_ones ≡ true
      → has a xs ≡ true
      → view.names os (control a).descriptor ≡ some c
      → view.peer_of c ≡ (control a).peer
      → ((l' : AbortList) × (each (suc (length xs)) (λ a. []) l ≡ some (xs, l')))
        × (view.is_over os' c ≡ true)
        × All (IsOf control open_ones xs) hits
  force_all-IsOver control open_ones l xs os os' hits a c h run t m named own =
      let (l', ys, e, h2) = each-visits (λ a. []) xs l h in
      (
        (l', e ∙ ap (λ vs. some (vs, l')) (visits_idle xs)),
        Forces-IsOver control open_ones a c run t m named own,
        Forces-IsOf control open_ones run,
      )
