-- ===== src/Networking/TcpServer/Lifecycle.antt =====
-- `Start`, `Stop`, `AcceptLoop` and the threads of the connections (src/Networking/TcpServer.cpp) as
-- they interleave. One thread, the owner, calls `Start` and `Stop`. What happens under `connMutex_` is
-- one step. A call of `Start` that fails changes nothing, as does `Stop` when the server does not run.
pub mod Quiet
use limit_order_book_v.Prelude.{ℕ, ◌≡◌, Bool, true, false, write}

-- Where the owner stands.
pub data Owner : Type 0 where
  idle : Owner  -- outside of `Start` and `Stop`
  closing : Owner  -- `running_` is false, the listening socket still open
  joining_acceptor : Owner
  waking : Owner  -- before the block under the mutex
  joining : Owner  -- the threads of the connections

-- Where `acceptThread_` stands.
pub data Acceptor : Type 0 where
  gone : Acceptor  -- not started, or ended
  looping : Acceptor  -- before `running_` is read
  accepting : Acceptor
  accepted : ℕ → Acceptor  -- with a new socket that is not recorded

-- A descriptor, as `clientSockets_` has it: a connection's socket is open as long as its thread lives, and
-- `true` when `shutdown` was called on it.
pub data Socket : Type 0 where
  closed : Socket
  serving : Bool → Socket

-- `threads` are the sockets whose threads `Stop` has taken from `connThreads_`.
pub record Server : Type 0 where
  pub running : Bool
  pub listening : Bool
  pub owner : Owner
  pub acceptor : Acceptor
  pub sockets : ℕ → Socket
  pub threads : ℕ → Bool

abbrev pub shut_socket : Socket → Socket
shut_socket closed = closed
shut_socket (serving was) = serving true

abbrev pub is_open : Socket → Bool
is_open closed = false
is_open (serving was) = true

-- The thread goes on only while `running_` is true.
abbrev pub next_round : Bool → Acceptor
next_round true = accepting
next_round false = gone

pub data Step (s : Server) : Server → Type 0 where
  start :
      s.owner ≡ idle
      → s.running ≡ false
      → Step s (record s { running = true; listening = true; acceptor = looping })
  stop : s.owner ≡ idle → s.running ≡ true → Step s (record s { running = false; owner = closing })
  close_listener :
      s.owner ≡ closing → Step s (record s { listening = false; owner = joining_acceptor })
  join_acceptor :
      s.owner ≡ joining_acceptor → s.acceptor ≡ gone → Step s (record s { owner = waking })
  wake :
      s.owner ≡ waking
      → Step s (record s {
        owner = joining;
        sockets = λ fd. shut_socket (s.sockets fd);
        threads = λ fd. is_open (s.sockets fd);
      })
  join_all :
      s.owner ≡ joining
      → ((fd : ℕ) → s.threads fd ≡ true → s.sockets fd ≡ closed)
      → Step s (record s { owner = idle })
  read_running : s.acceptor ≡ looping → Step s (record s { acceptor = next_round s.running })
  accept :
      (fd : ℕ)
      → s.acceptor ≡ accepting
      → s.listening ≡ true
      → s.sockets fd ≡ closed
      → Step s (record s { acceptor = accepted fd })
  accept_fails : s.acceptor ≡ accepting → Step s (record s { acceptor = gone })
  record_socket :
      (fd : ℕ)
      → s.acceptor ≡ accepted fd
      → Step s (record s { acceptor = looping; sockets = write s.sockets fd (serving false) })
  hang_up :
      (fd : ℕ) (was : Bool)
      → s.sockets fd ≡ serving was
      → Step s (record s { sockets = write s.sockets fd closed })

abbrev pub first_server : Server
first_server = record {
  running = false;
  listening = false;
  owner = idle;
  acceptor = gone;
  sockets = λ fd. closed;
  threads = λ fd. false;
}

pub data Reach : Server → Type 0 where
  built : Reach first_server
  later : {s t : Server} → Reach s → Step s t → Reach t
