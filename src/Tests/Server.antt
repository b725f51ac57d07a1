-- ===== src/Tests/Server.antt =====
-- Examples for the threads of src/Networking/TcpServer.cpp.
use limit_order_book_v.Prelude.{
  ℕ, ◌≡◌, refl, true, false, Bool-cases, inl, inr, ◌==◌, write, write_lem,
}
use limit_order_book_v.Networking.TcpServer.Lifecycle.{
  Server, Socket, closed, serving, idle, joining, gone, shut_socket, is_open, first_server, Reach,
  built, later, start, stop, close_listener, join_acceptor, wake, join_all, read_running, accept,
  record_socket, hang_up,
}
use limit_order_book_v.Networking.TcpServer.Lifecycle.Quiet.{stopped_quiet, joining_awake}

-- The sockets with one connection, on descriptor 5.
abbrev one_open : ℕ → Socket
one_open = write first_server.sockets 5 (serving false)

-- `Stop` waits for its thread.
abbrev waiting_server : Server
waiting_server = record {
  running = false;
  listening = false;
  owner = joining;
  acceptor = gone;
  sockets = λ fd. shut_socket (one_open fd);
  threads = λ fd. is_open (one_open fd);
}

waiting_server-Reach : Reach waiting_server
waiting_server-Reach =
    let serving_one =
      later
        (later (later (later built (start refl refl)) (read_running refl))
          (accept 5 refl refl refl))
        (record_socket 5 refl) in
    let stopping = later (later serving_one (stop refl refl)) (close_listener refl) in
    later (later (later stopping (read_running refl)) (join_acceptor refl refl)) (wake refl)

joining_awake_example :
    (true ≡ true) × (waiting_server.threads 5 ≡ true) × (waiting_server.acceptor ≡ gone)
unfolding write
joining_awake_example = joining_awake 5 true waiting_server-Reach refl refl

-- The thread ends, and `Stop` returns.
abbrev stopped_server : Server
stopped_server = record waiting_server {
  owner = idle;
  sockets = write waiting_server.sockets 5 closed;
}

all_closed : (fd : ℕ) → waiting_server.threads fd ≡ true → stopped_server.sockets fd ≡ closed
all_closed fd h = elim (Bool-cases (fd == 5)) [
  | inl e ↦ rw (write_lem waiting_server.sockets 5 closed fd, e) refl
  | inr f ↦
      let none_there = rw (write_lem first_server.sockets 5 (serving false) fd, f) at h in
      absurd (cc none_there)
]

stopped_server-Reach : Reach stopped_server
unfolding write
stopped_server-Reach =
    later (later waiting_server-Reach (hang_up 5 true refl)) (join_all refl all_closed)

stopped_quiet_example :
    (stopped_server.acceptor ≡ gone) × ((fd : ℕ) → stopped_server.sockets fd ≡ closed)
stopped_quiet_example = stopped_quiet stopped_server-Reach refl refl
