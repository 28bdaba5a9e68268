-- ===== src/Server/Remaining.antt =====
-- The loop over the clients of Server::start as a whole: every client is served, and the descriptors
-- that are watched are those of the clients that remain.
use print3d.Prelude.{
  ℕ, zero, suc, ◌≤◌, ◌≡◌, refl, sym, ◌∙◌, subst, Option, none, some, List, [], ◌∷◌, ◌++◌, map,
  arith, length, append_assoc, append-nil, length-map, inl, inr, Bool-cases,
}
use mathlib.Core.List.{map-append}
use print3d.Prelude.Text.{Bytes}
use print3d.Driver.Port.{PortEvent}
use print3d.Server.Client.{Scene}
use print3d.Prelude.Int.{ℤ}
use print3d.Driver.Connection.{Marlin, Ran, ran, crashed, exited}
use print3d.Driver.Update.{Readings, update}
use print3d.Server.Loop.{
  update_driver, updated, then_update, loop_turn, with_base, timeout_of, Connection, Server, Round,
  accept_client, serve_connection, serve_clients, serve_all, after_clients, start_round,
}
use print3d.Server.Watched.{
  ends, line_of, fd_of, descriptor, staying, Distinct, fds, bind-some, remove-middle, Served,
  serve_connection-Served,
}

-- What is left to do behind a client, in the terms of what was to do before it.
record Ahead (ps : List ℕ) (k : Connection) (ks : List Connection) (r : Round) : Type 0 where
  watching : r.watched ≡ map fd_of r.passed ++ map descriptor (map line_of r.coming)
  distinct : Distinct (map fd_of r.passed ++ map descriptor (map line_of r.coming))
  remaining :
      map fd_of r.passed ++ staying (map line_of r.coming)
      ≡ ps ++ staying (line_of k ∷ map line_of ks)

Served-Ahead :
    (r : Round) (k : Connection) (r' : Round)
    → Served r k r'
    → r.watched ≡ map fd_of r.passed ++ (k.fd ∷ map descriptor (map line_of r.coming))
    → Distinct (map fd_of r.passed ++ (k.fd ∷ map descriptor (map line_of r.coming)))
    → Ahead (map fd_of r.passed) k r.coming r'
Served-Ahead r k r' s w d = elim (Bool-cases (ends k.socket)) [
  | inl t ↦
      let passed : map fd_of r'.passed ≡ map fd_of r.passed =
        s.passed ∙ rw t (append-nil (map fd_of r.passed)) in
      let (e, d') =
        remove-middle k.fd (map fd_of r.passed) (map descriptor (map line_of r.coming)) d in
      record {
        watching = s.watching ∙ rw (t, w, e, passed, s.coming) refl;
        distinct = rw (passed, s.coming) d';
        remaining = rw (passed, s.coming, t) refl;
      }
  | inr f ↦
      let passed : map fd_of r'.passed ≡ map fd_of r.passed ++ (k.fd ∷ []) = s.passed ∙ rw f refl in
      let next : (xs : List ℕ) → map fd_of r'.passed ++ xs ≡ map fd_of r.passed ++ (k.fd ∷ xs) =
        λ xs. rw passed (append_assoc (map fd_of r.passed) (k.fd ∷ []) xs) in
      record {
        watching = s.watching ∙ rw (f, w, s.coming) (sym (next _));
        distinct = rw s.coming (subst Distinct (sym (next _)) d);
        remaining = rw (s.coming, f) (next _);
      }
]

-- Nobody is left to come to, and the descriptors `all` are those that remain, and are watched.
record Left (all : List ℕ) (r : Round) : Type 0 where
  coming : r.coming ≡ []
  passed : map fd_of r.passed ≡ all
  watching : r.watched ≡ all
  distinct : Distinct all

Left-done :
    (r r' : Round)
    → r.watched ≡ map fd_of r.passed ++ []
    → Distinct (map fd_of r.passed ++ [])
    → record r { coming = [] } ≡ r'
    → Left (map fd_of r.passed ++ []) r'
Left-done r r' w d e =
    subst (λ x. Left (map fd_of r.passed ++ []) x) e
      (record { coming = refl; passed = sym (append-nil _); watching = w; distinct = d })

module _ (run : Scene → Bytes → Option Scene) where
  serve_clients-Left :
      (n : ℕ) (cs : List Connection) (r r' : Round)
      → length (map line_of cs) ≤ n
      → r.watched ≡ map fd_of r.passed ++ map descriptor (map line_of cs)
      → Distinct (map fd_of r.passed ++ map descriptor (map line_of cs))
      → serve_clients run n (record r { coming = cs }) ≡ some r'
      → Left (map fd_of r.passed ++ staying (map line_of cs)) r'
  unfolding serve_clients
  serve_clients-Left zero [] r r' n w d h = Left-done r r' w d cc
  serve_clients-Left zero (k ∷ ks) r r' n w d h = grind arith
  serve_clients-Left (suc n) [] r r' le w d h = Left-done r r' w d cc
  serve_clients-Left (suc n) (k ∷ ks) r r' le w d h =
      let (r1, e, rest) =
        bind-some (serve_connection run (record r { coming = ks }) k) (serve_clients run n) r' h in
      let s = serve_connection-Served run (record r { coming = ks }) k r1 e in
      let a = Served-Ahead (record r { coming = ks }) k r1 s w d in
      subst (λ t. Left t r') a.remaining
        (serve_clients-Left n r1.coming r1 r' (rw s.coming (omega arith)) a.watching a.distinct
          rest)

-- The clients of a server, and what it watches.
pub record Tidy (s : Server) (all : List ℕ) : Type 0 where
  pub connected : map fd_of s.connections ≡ all
  pub watching : s.watched ≡ all
  pub distinct : Distinct all

after_clients-Tidy :
    (s s' : Server) (o : Option Round) (all : List ℕ)
    → ((r : Round) → o ≡ some r → Left all r)
    → after_clients s o ≡ some s'
    → Tidy s' all
after_clients-Tidy s s' none all left h = cc
after_clients-Tidy s s' (some r) all left h =
    let l = left r refl in
    let e : record s {
      watched = r.watched;
      connections = r.passed ++ r.coming;
      driver = with_base s.driver r.driver;
    }
        ≡ s' =
      cc in
    subst (λ x. Tidy x all) e
      (record {
        connected = rw (l.coming, append-nil r.passed) l.passed;
        watching = l.watching;
        distinct = l.distinct;
      })

serve_all-Tidy :
    (run : Scene → Bytes → Option Scene) (s s' : Server)
    → s.watched ≡ map fd_of s.connections
    → Distinct (map fd_of s.connections)
    → serve_all run s ≡ some s'
    → Tidy s' (staying (map line_of s.connections))
unfolding serve_all
serve_all-Tidy run s s' w d h =
    after_clients-Tidy s s' (serve_clients run (length s.connections) (start_round s)) _
      (λ r e.
        serve_clients-Left run (length s.connections) s.connections (start_round s) r
          (rw (length-map s.connections line_of) omega arith) (w ∙ fds s.connections)
          (subst Distinct (fds s.connections) d) e)
      h

accept_client-watched :
    (s : Server) (accepted : Option (ℕ × List PortEvent))
    → s.watched ≡ map fd_of s.connections
    → (accept_client s accepted).watched ≡ map fd_of (accept_client s accepted).connections
unfolding accept_client
accept_client-watched s none w = w
accept_client-watched s (some (fd, socket)) w = rw w (sym (map-append fd_of s.connections _))

updated-Tidy :
    (s s' : Server) (o : Ran (ℤ × Marlin)) (all : List ℕ)
    → Tidy s all
    → updated s o ≡ ran s'
    → Tidy s' all
updated-Tidy s s' (ran (t, m)) all tidy h =
    let e : record s { driver = some m; timeout = timeout_of t } ≡ s' = cc in
    subst (λ x. Tidy x all) e
      (record { connected = tidy.connected; watching = tidy.watching; distinct = tidy.distinct })
updated-Tidy s s' crashed all tidy h = cc
updated-Tidy s s' (exited m) all tidy h = cc

by_driver-Tidy :
    (number : Bytes → ℤ) (s s' : Server) (d : Option Marlin) (t : Readings) (closed : ℤ)
    (all : List ℕ)
    → Tidy s all
    → elim d [
      | none ↦ ran (record s { timeout = none })
      | some m ↦ updated s (update number m t closed)
    ]
      ≡ ran s'
    → Tidy s' all
by_driver-Tidy number s s' none t closed all tidy h =
    let e : record s { timeout = none } ≡ s' = cc in
    subst (λ x. Tidy x all) e
      (record { connected = tidy.connected; watching = tidy.watching; distinct = tidy.distinct })
by_driver-Tidy number s s' (some m) t closed all tidy h =
    updated-Tidy s s' (update number m t closed) all tidy h

-- The driver's update touches no client.
update_driver-Tidy :
    (number : Bytes → ℤ) (run : Scene → Bytes → Option Scene) (s s' : Server) (t : Readings)
    (closed : ℤ) (all : List ℕ)
    → Tidy s all
    → update_driver number run s t closed ≡ ran s'
    → Tidy s' all
unfolding update_driver
update_driver-Tidy number run s s' t closed all tidy h =
    by_driver-Tidy number s s' s.driver t closed all tidy h

then_update-Tidy :
    (number : Bytes → ℤ) (run : Scene → Bytes → Option Scene) (o : Option Server) (s' : Server)
    (t : Readings) (closed : ℤ) (all : List ℕ)
    → ((s : Server) → o ≡ some s → Tidy s all)
    → then_update number run o t closed ≡ ran s'
    → Tidy s' all
then_update-Tidy number run none s' t closed all tidy h = cc
then_update-Tidy number run (some s) s' t closed all tidy h =
    update_driver-Tidy number run s s' t closed all (tidy s refl) h

-- After a turn of the loop, every client that had not closed its connection is still connected, a new
-- one included, in their order, all others are gone, and exactly the descriptors of the connected
-- clients are watched, each once. Before the turn the descriptors of the clients were watched, the one
-- of the new client is not among them, and the turn is run to its end: no command and no line of the
-- printer crashes it.
pub loop_turn-Tidy :
    (number : Bytes → ℤ) (run : Scene → Bytes → Option Scene) (s s' : Server)
    (accepted : Option (ℕ × List PortEvent)) (t : Readings) (closed : ℤ)
    → s.watched ≡ map fd_of s.connections
    → Distinct (map fd_of (accept_client s accepted).connections)
    → loop_turn number run s accepted t closed ≡ ran s'
    → Tidy s' (staying (map line_of (accept_client s accepted).connections))
unfolding loop_turn
loop_turn-Tidy number run s s' accepted t closed w d h =
    then_update-Tidy number run (serve_all run (accept_client s accepted)) s' t closed _
      (λ s1 e.
        serve_all-Tidy run (accept_client s accepted) s1 (accept_client-watched s accepted w) d e)
      h
