-- ===== src/Networking/TcpServer/Lifecycle/Quiet.antt =====
-- What `Stop` of src/Networking/TcpServer.cpp leaves behind.
use limit_order_book_v.Prelude.{
  ℕ, ◌≡◌, ◌≢◌, ◌⊎◌, refl, arith, inl, inr, Bool, true, false, Bool-cases, ◌==◌, write, write_lem,
}
use limit_order_book_v.Networking.TcpServer.Lifecycle.{
  Owner, idle, closing, joining_acceptor, waking, joining, Acceptor, gone, looping, accepted,
  Socket, closed, serving, Server, shut_socket, is_open, next_round, Step, start, stop,
  close_listener, join_acceptor, wake, join_all, read_running, accept, accept_fails, record_socket,
  hang_up, Reach, built, later,
}

-- What holds of the server while the owner stands somewhere.
abbrev Held : Server → Owner → Type 0
Held s idle = (s.running ≡ true) ⊎ ((s.acceptor ≡ gone) × ((fd : ℕ) → s.sockets fd ≡ closed))
Held s closing = Unit {0}
Held s joining_acceptor = Unit {0}
Held s waking = s.acceptor ≡ gone
Held s joining =
    (s.acceptor ≡ gone)
    × ((fd : ℕ) (shut : Bool) → s.sockets fd ≡ serving shut → (shut ≡ true) × (s.threads fd ≡ true))

record Inv (s : Server) : Type 0 where
  stopped : s.owner ≢ idle → s.running ≡ false
  held : Held s s.owner

-- A step of the thread that accepts, which has not ended.
acceptor-Held :
    (s : Server) (o : Owner) (a : Acceptor) (sockets : ℕ → Socket)
    → s.acceptor ≢ gone
    → Held s o
    → Held (record s { acceptor = a; sockets = sockets }) o
acceptor-Held s idle a sockets ne (inl runs) = inl runs
acceptor-Held s idle a sockets ne (inr (ended, all)) = absurd (ne ended)
acceptor-Held s closing a sockets ne h = tt
acceptor-Held s joining_acceptor a sockets ne h = tt
acceptor-Held s waking a sockets ne h = absurd (ne h)
acceptor-Held s joining a sockets ne (ended, all) = absurd (ne ended)

hang_up-Held :
    (s : Server) (o : Owner) (fd : ℕ) (was : Bool)
    → s.sockets fd ≡ serving was
    → Held s o
    → Held (record s { sockets = write s.sockets fd closed }) o
hang_up-Held s idle fd was e (inl runs) = inl runs
hang_up-Held s idle fd was e (inr (ended, all)) = absurd (cc (e, all fd))
hang_up-Held s closing fd was e h = tt
hang_up-Held s joining_acceptor fd was e h = tt
hang_up-Held s waking fd was e h = h
hang_up-Held s joining fd was e (ended, all) = (
  ended,
  λ k shut f. elim (Bool-cases (k == fd)) [
    | inl same ↦ absurd (ground (arith, write_lem s.sockets fd closed k, f, same))
    | inr other ↦ all k shut (ground (arith, write_lem s.sockets fd closed k, f, other))
  ],
)

woken :
    (x : Socket) (shut : Bool) → shut_socket x ≡ serving shut → (shut ≡ true) × (is_open x ≡ true)
woken closed shut e = cc
woken (serving was) shut e = (cc, refl)

threads_closed :
    (s : Server)
    → ((fd : ℕ) (shut : Bool) → s.sockets fd ≡ serving shut → (shut ≡ true) × (s.threads fd ≡ true))
    → ((fd : ℕ) → s.threads fd ≡ true → s.sockets fd ≡ closed)
    → (x : Socket) (fd : ℕ) → s.sockets fd ≡ x
    → s.sockets fd ≡ closed
threads_closed s open_ones joined closed fd e = e
threads_closed s open_ones joined (serving shut) fd e = joined fd (open_ones fd shut e).1

Step-Inv : {s t : Server} → Step s t → Inv s → Inv t
Step-Inv {s} (start at_idle off) inv = record {
  stopped = λ ne. absurd (ne at_idle);
  held = rw at_idle (inl refl);
}
Step-Inv {s} (stop at_idle on) inv = record { stopped = λ ne. refl; held = tt }
Step-Inv {s} (close_listener here) inv = record {
  stopped = λ ne. inv.stopped (λ e. cc (here, e));
  held = tt;
}
Step-Inv {s} (join_acceptor here ended) inv = record {
  stopped = λ ne. inv.stopped (λ e. cc (here, e));
  held = ended;
}
Step-Inv {s} (wake here) inv =
    let before = inv.held in
    let ended = rw here at before in
    record {
      stopped = λ ne. inv.stopped (λ e. cc (here, e));
      held = (ended, λ fd shut e. woken (s.sockets fd) shut e);
    }
Step-Inv {s} (join_all here joined) inv =
    let before = inv.held in
    let (ended, all) = rw here at before in
    record {
      stopped = λ ne. absurd (ne refl);
      held = inr (ended, λ fd. threads_closed s all joined (s.sockets fd) fd refl);
    }
Step-Inv {s} (read_running here) inv = record {
  stopped = inv.stopped;
  held = acceptor-Held s s.owner (next_round s.running) s.sockets (λ e. cc (here, e)) inv.held;
}
Step-Inv {s} (accept fd here open_still free) inv = record {
  stopped = inv.stopped;
  held = acceptor-Held s s.owner (accepted fd) s.sockets (λ e. cc (here, e)) inv.held;
}
Step-Inv {s} (accept_fails here) inv = record {
  stopped = inv.stopped;
  held = acceptor-Held s s.owner gone s.sockets (λ e. cc (here, e)) inv.held;
}
Step-Inv {s} (record_socket fd here) inv = record {
  stopped = inv.stopped;
  held =
      acceptor-Held s s.owner looping (write s.sockets fd (serving false)) (λ e. cc (here, e))
        inv.held;
}
Step-Inv {s} (hang_up fd was here) inv = record {
  stopped = inv.stopped;
  held = hang_up-Held s s.owner fd was here inv.held;
}

Reach-Inv : {s : Server} → Reach s → Inv s
Reach-Inv built = record { stopped = λ ne. absurd (ne refl); held = inr (refl, λ fd. refl) }
Reach-Inv (later reach step) = Step-Inv step (Reach-Inv reach)

-- However the threads interleave, whenever the owner is outside of `Start` and `Stop` and the server does
-- not run, so after `Stop` has returned in particular, the thread that accepts has ended, and every
-- connection's socket is closed and its thread at its end.
pub stopped_quiet :
    {s : Server}
    → Reach s
    → s.owner ≡ idle
    → s.running ≡ false
    → (s.acceptor ≡ gone) × ((fd : ℕ) → s.sockets fd ≡ closed)
stopped_quiet {s} reach here off =
    let inv = Reach-Inv reach in
    let before = inv.held in
    elim (rw here at before) [ inl on ↦ absurd (cc (on, off)) | inr quiet ↦ quiet ]

-- While `Stop` waits for the threads of the connections, every one that is still alive is among those that it waits
-- for, its socket has been shut down, so that `recv` returns, and no connection can be accepted.
pub joining_awake :
    {s : Server} (fd : ℕ) (shut : Bool)
    → Reach s
    → s.owner ≡ joining
    → s.sockets fd ≡ serving shut
    → (shut ≡ true) × (s.threads fd ≡ true) × (s.acceptor ≡ gone)
joining_awake {s} fd shut reach here alive =
    let inv = Reach-Inv reach in
    let before = inv.held in
    let (ended, all) = rw here at before in
    let (woke, waited) = all fd shut alive in (woke, waited, ended)
