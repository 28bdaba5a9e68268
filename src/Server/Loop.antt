-- ===== src/Server/Loop.antt =====
-- src/server/Server.cpp: the descriptors that the server watches, and one turn of the loop in start,
-- behind select: a client that connects, the clients that are read, and the driver's update. What
-- accept answers and what the sockets have to come are given by the environment.
use print3d.Prelude.{
  ℕ, zero, suc, Bool, true, false, Option, none, some, List, [], ◌∷◌, ◌++◌, map, ltb, ◌==◌,
  if◌then◌else◌, length, take, drop,
}
use print3d.Prelude.Int.{ℤ, is_nonneg}
use print3d.Prelude.Text.{Bytes}
use print3d.Driver.State.{Driver}
use print3d.Driver.Port.{PortEvent, Outcome, value, minus_two, minus_one}
use print3d.Driver.Reading.{read_available}
use print3d.Driver.Connection.{Marlin, Ran, ran, crashed, exited}
use print3d.Driver.Update.{Readings, update}
use print3d.Server.Client.{Client, Scene, cancel}
use print3d.Server.Handlers.{bind}
use print3d.Server.Dispatch.{run_commands}

-- A client with its descriptor and what its socket has to come.
pub record Connection : Type 0 where
  pub fd : ℕ
  pub client : Client
  pub socket : List PortEvent

abbrev pub new_client : Client
new_client = record {
  buffer = [];
  transaction = record { buffer = []; active = false; cancelled = false };
  replies = [];
}

-- `watched` is `masterFds` without the listening socket, `timeout` how long select may wait: `none` is
-- without an end.
pub record Server : Type 0 where
  pub watched : List ℕ
  pub connections : List Connection
  pub driver : Option Marlin
  pub timeout : Option ℤ

-- `registeredFds_`: a set, as a list without repetitions.
unfoldable pub is_registered : ℕ → List ℕ → Bool
is_registered fd [] = false
is_registered fd (x ∷ xs) = if x == fd then true else is_registered fd xs

unfoldable pub remove : ℕ → List ℕ → List ℕ
remove fd [] = []
remove fd (x ∷ xs) = let rest = remove fd xs in if x == fd then rest else x ∷ rest

unfoldable pub register_file_descriptor : List ℕ → ℕ → List ℕ × Bool
unfolding is_registered
register_file_descriptor fds fd = if is_registered fd fds then (fds, false) else (fd ∷ fds, true)

unfoldable pub unregister_file_descriptor : List ℕ → ℕ → List ℕ × Bool
unfolding is_registered remove
unregister_file_descriptor fds fd = (remove fd fds, is_registered fd fds)

-- `cancelAllTransactions(exclude)`, which leaves out the client with the descriptor.
unfoldable pub cancel_connections : Option ℕ → List Connection → List Connection
cancel_connections exclude [] = []
cancel_connections none (k ∷ ks) =
    record k { client = cancel k.client } ∷ cancel_connections none ks
cancel_connections (some fd) (k ∷ ks) =
    (if k.fd == fd then k else record k { client = cancel k.client })
    ∷ cancel_connections (some fd) ks

-- A client that connects goes to the end of the list. `accept` is taken to succeed.
unfoldable pub accept_client : Server → Option (ℕ × List PortEvent) → Server
accept_client s none = s
accept_client s (some (fd, socket)) = record s {
  watched = s.watched ++ (fd ∷ []);
  connections = s.connections ++ (record { fd = fd; client = new_client; socket = socket } ∷ []);
}

-- The loop over the clients: those it has passed, those it still comes to, and what they share.
pub record Round : Type 0 where
  pub passed : List Connection
  pub coming : List Connection
  pub watched : List ℕ
  pub driver : Option Driver

-- The connections with the clients that a command left.
abbrev pub with_clients : List Connection → List Client → List Connection
with_clients [] cs = []
with_clients (k ∷ ks) [] = k ∷ ks
with_clients (k ∷ ks) (c ∷ cs) = record k { client = c } ∷ with_clients ks cs

abbrev pub client_of : Connection → Client
client_of k = k.client

-- What a client's commands see, and what becomes of the others by them.
abbrev pub scene : Round → Connection → Scene
scene r k = record {
  client = k.client;
  others = map client_of (r.passed ++ r.coming);
  driver = r.driver;
}

abbrev pub put_back : Round → Scene → Round
put_back r s = record r {
  passed = with_clients r.passed (take (length r.passed) s.others);
  coming = with_clients r.coming (drop (length r.passed) s.others);
  driver = s.driver;
}

-- `rv == -2`: the other end has closed.
abbrev pub is_closed : Outcome → Bool
is_closed (value n) = false
is_closed minus_two = true
is_closed (minus_one e) = false

-- `rv >= 0 || (rv == -2 && client->getBufferSize() > 0)`
abbrev pub may_run : Outcome → Bytes → Bool
may_run (value n) buf = true
may_run minus_two buf = ltb 0 (length buf)
may_run (minus_one e) buf = false

-- A client that has closed is forgotten, any other is passed.
unfoldable pub leave : Outcome → Round × Connection → Round
unfolding remove
leave o (r, k) =
    if is_closed o
    then record r { watched = remove k.fd r.watched }
    else record r { passed = r.passed ++ (k ∷ []) }

module _ (run : Scene → Bytes → Option Scene) where
  -- Client::runCommands
  unfoldable pub run_client : Round → Connection → Option (Round × Connection)
  unfolding run_commands
  run_client r k =
      bind (run_commands run (length k.client.buffer) (scene r k) k.client.buffer)
        (λ p. some (put_back r p.0, record k { client = record p.0.client { buffer = p.1 } }))

  unfoldable pub serve_connection : Round → Connection → Option Round
  unfolding read_available run_client leave
  serve_connection r k =
      let read = read_available true 0 k.socket k.client.buffer 0 in
      let k' : Connection = record k {
        client = record k.client { buffer = read.0.1 };
        socket = read.1;
      } in
      bind (if may_run read.0.0 read.0.1 then run_client r k' else some (r, k'))
        (λ p. some (leave read.0.0 p))

  -- One round for each client.
  unfoldable pub serve_clients : ℕ → Round → Option Round
  unfolding serve_connection
  serve_clients zero r = some r
  serve_clients (suc n) r = elim r.coming [
    | [] ↦ some r
    | k ∷ ks ↦ bind (serve_connection (record r { coming = ks }) k) (serve_clients n)
  ]

-- The driver of the server with what its commands made of it.
abbrev pub with_base : Option Marlin → Option Driver → Option Marlin
with_base none d = none
with_base (some m) none = some m
with_base (some m) (some d) = some (record m { base = d })

abbrev pub base_of : Option Marlin → Option Driver
base_of none = none
base_of (some m) = some m.base

-- A negative answer of update, and no driver, is no timeout.
abbrev pub timeout_of : ℤ → Option ℤ
timeout_of t = if is_nonneg t then some t else none

abbrev pub updated : Server → Ran (ℤ × Marlin) → Ran Server
updated s (ran (t, m)) = ran (record s { driver = some m; timeout = timeout_of t })
updated s crashed = crashed
updated s (exited m) = exited m

abbrev pub after_clients : Server → Option Round → Option Server
after_clients s none = none
after_clients s (some r) = some (record s {
  watched = r.watched;
  connections = r.passed ++ r.coming;
  driver = with_base s.driver r.driver;
})

abbrev pub start_round : Server → Round
start_round s = record {
  passed = [];
  coming = s.connections;
  watched = s.watched;
  driver = base_of s.driver;
}

-- One round of the loop over all clients.
unfoldable pub serve_all : (Scene → Bytes → Option Scene) → Server → Option Server
unfolding serve_clients
serve_all run s = after_clients s (serve_clients run (length s.connections) (start_round s))

module _ (number : Bytes → ℤ) (run : Scene → Bytes → Option Scene) where
  unfoldable pub update_driver : Server → Readings → ℤ → Ran Server
  unfolding update
  update_driver s t closed = elim s.driver [
    | none ↦ ran (record s { timeout = none })
    | some m ↦ updated s (update number m t closed)
  ]

  abbrev pub then_update : Option Server → Readings → ℤ → Ran Server
  then_update none t closed = crashed
  then_update (some s) t closed = update_driver s t closed

  -- One turn: `accepted` is the client that connects, if one does.
  unfoldable pub loop_turn : Server → Option (ℕ × List PortEvent) → Readings → ℤ → Ran Server
  unfolding accept_client serve_all update_driver
  loop_turn s accepted t closed = then_update (serve_all run (accept_client s accepted)) t closed
