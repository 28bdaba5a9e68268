-- ===== src/Server/Watched.antt =====
-- Which clients are still connected after a turn of the server's loop, and which descriptors are
-- watched.
use print3d.Prelude.{
  ℕ, ◌≡◌, refl, ap, sym, ◌∙◌, subst, Bool, true, false, Option, none, some, List, [], ◌∷◌, ◌++◌,
  map, arith, ◌==◌, if◌then◌else◌, length, take, drop, append-nil, inl, inr, Bool-cases,
}
use mathlib.Core.Path.{ap₂}
use mathlib.Core.List.{map-append}
use print3d.Prelude.Text.{Bytes}
use print3d.Driver.Port.{PortEvent, received, blocked, interrupted, failed, Outcome}
use print3d.Driver.Reading.{read_available}
use print3d.Server.Client.{Client, Scene}
use print3d.Server.Handlers.{bind}
use print3d.Server.Dispatch.{run_commands}
use print3d.Server.Loop.{
  Connection, Round, remove, with_clients, scene, put_back, is_closed, may_run, leave, run_client,
  serve_connection,
}

-- A socket whose other end has closed, and that has nothing more to read.
abbrev pub ends : List PortEvent → Bool
ends [] = false
ends (received [] ∷ es) = true
ends (received (b ∷ bs) ∷ es) = false
ends (blocked ready ∷ es) = false
ends (interrupted ∷ es) = ends es
ends (failed e ∷ es) = false

abbrev pub line_of : Connection → ℕ × List PortEvent
line_of k = (k.fd, k.socket)

abbrev pub fd_of : Connection → ℕ
fd_of k = k.fd

abbrev pub descriptor : ℕ × List PortEvent → ℕ
descriptor l = l.0

-- The descriptors of the clients that have not closed, in their order.
abbrev pub staying : List (ℕ × List PortEvent) → List ℕ
staying [] = []
staying (l ∷ ls) = if ends l.1 then staying ls else l.0 ∷ staying ls

abbrev pub NotIn : ℕ → List ℕ → Type 0
NotIn x [] = Unit
NotIn x (y ∷ ys) = ((x == y) ≡ false) × ((y == x) ≡ false) × NotIn x ys

abbrev pub Distinct : List ℕ → Type 0
Distinct [] = Unit
Distinct (x ∷ xs) = NotIn x xs × Distinct xs

is_closed-ends :
    (es : List PortEvent) (buf : Bytes) (total : ℕ)
    → is_closed (read_available true 0 es buf total).0.0 ≡ ends es
unfolding read_available
is_closed-ends [] buf total = refl
is_closed-ends (received [] ∷ es) buf total = refl
is_closed-ends (received (b ∷ bs) ∷ es) buf total = refl
is_closed-ends (blocked ready ∷ es) buf total = refl
is_closed-ends (interrupted ∷ es) buf total = is_closed-ends es buf total
is_closed-ends (failed e ∷ es) buf total = refl

with_clients-lines :
    (ks : List Connection) (cs : List Client) → map line_of (with_clients ks cs) ≡ map line_of ks
with_clients-lines [] cs = refl
with_clients-lines (k ∷ ks) [] = refl
with_clients-lines (k ∷ ks) (c ∷ cs) = ap (λ t. line_of k ∷ t) (with_clients-lines ks cs)

pub fds : (ks : List Connection) → map fd_of ks ≡ map descriptor (map line_of ks)
fds [] = refl
fds (k ∷ ks) = ap (λ t. k.fd ∷ t) (fds ks)

with_clients-fds :
    (ks : List Connection) (cs : List Client) → map fd_of (with_clients ks cs) ≡ map fd_of ks
with_clients-fds ks cs =
    fds (with_clients ks cs) ∙ ap (map descriptor) (with_clients-lines ks cs) ∙ sym (fds ks)

pub bind-some {ℓ κ} :
    {A : Type ℓ} {B : Type κ} (o : Option A) (f : A → Option B) (b : B)
    → bind o f ≡ some b
    → (a : A) × (o ≡ some a) × (f a ≡ some b)
bind-some none f b h = cc
bind-some (some a) f b h = (a, refl, h)

-- Running commands moves no client and watches nothing else.
record Same (r : Round) (fd : ℕ) (p : Round × Connection) : Type 0 where
  coming : map line_of p.0.coming ≡ map line_of r.coming
  passed : map fd_of p.0.passed ≡ map fd_of r.passed
  watching : p.0.watched ≡ r.watched
  descriptor : p.1.fd ≡ fd

module _ (run : Scene → Bytes → Option Scene) where
  run_client-Same :
      (r : Round) (k : Connection) (p : Round × Connection)
      → run_client run r k ≡ some p
      → Same r k.fd p
  unfolding run_client
  run_client-Same r k p h =
      let (q, e, same) =
        bind-some (run_commands run (length k.client.buffer) (scene r k) k.client.buffer) _ p h in
      let made = put_back r q.0 in
      let back : (made, record k { client = record q.0.client { buffer = q.1 } }) ≡ p = cc in
      subst (λ x. Same r k.fd x) back
        (record {
          coming = with_clients-lines r.coming (drop (length r.passed) q.0.others);
          passed = with_clients-fds r.passed (take (length r.passed) q.0.others);
          watching = refl;
          descriptor = refl;
        })

remove-NotIn : (x : ℕ) (ys : List ℕ) → NotIn x ys → remove x ys ≡ ys
unfolding remove
remove-NotIn x [] n = refl
remove-NotIn x (y ∷ ys) (n, m, ns) = rw (m, remove-NotIn x ys ns) refl

NotIn-middle :
    (z x : ℕ) (ps cs : List ℕ)
    → NotIn z (ps ++ (x ∷ cs))
    → ((z == x) ≡ false) × ((x == z) ≡ false) × NotIn z (ps ++ cs)
NotIn-middle z x [] cs n = n
NotIn-middle z x (p ∷ ps) cs (n, m, ns) =
    let (a, b, c) = NotIn-middle z x ps cs ns in (a, b, (n, m, c))

==-refl : (x : ℕ) → (x == x) ≡ true
==-refl x = grind arith

-- Removing the one that stands there.
pub remove-middle :
    (x : ℕ) (ps cs : List ℕ)
    → Distinct (ps ++ (x ∷ cs))
    → (remove x (ps ++ (x ∷ cs)) ≡ ps ++ cs) × Distinct (ps ++ cs)
unfolding remove
remove-middle x [] cs (n, d) = (rw (==-refl x, remove-NotIn x cs n) refl, d)
remove-middle x (p ∷ ps) cs (n, d) =
    let (a, b, c) = NotIn-middle p x ps cs n in
    let (e, d') = remove-middle x ps cs d in (rw (a, e) refl, (c, d'))

-- A client that has closed is forgotten, and its descriptor is no longer watched.
pub record Served (r : Round) (k : Connection) (r' : Round) : Type 0 where
  pub coming : map line_of r'.coming ≡ map line_of r.coming
  pub passed : map fd_of r'.passed ≡ map fd_of r.passed ++ (if ends k.socket then [] else k.fd ∷ [])
  pub watching : r'.watched ≡ (if ends k.socket then remove k.fd r.watched else r.watched)

leave-Served :
    (o : Outcome) (r : Round) (k : Connection) (p : Round × Connection)
    → is_closed o ≡ ends k.socket
    → Same r k.fd p
    → Served r k (leave o p)
unfolding leave
leave-Served o r k (q, k') c same = elim (Bool-cases (ends k.socket)) [
  | inl t ↦
      let e = c ∙ t in
      record {
        coming = rw e same.coming;
        passed = rw (e, t) (same.passed ∙ sym (append-nil _));
        watching = rw (e, t) (ap₂ remove same.descriptor same.watching);
      }
  | inr f ↦
      let e = c ∙ f in
      record {
        coming = rw e same.coming;
        passed =
            rw (e, f)
              (map-append fd_of q.passed _
                ∙ ap₂ (λ a b. a ++ (b ∷ [])) same.passed same.descriptor);
        watching = rw (e, f) same.watching;
      }
]

module _ (run : Scene → Bytes → Option Scene) where
  pub serve_connection-Served :
      (r : Round) (k : Connection) (r' : Round) → serve_connection run r k ≡ some r' → Served r k r'
  unfolding serve_connection
  serve_connection-Served r k r' h =
      let read = read_available true 0 k.socket k.client.buffer 0 in
      let k' : Connection = record k {
        client = record k.client { buffer = read.0.1 };
        socket = read.1;
      } in
      let (p, e, left) =
        bind-some (if may_run read.0.0 read.0.1 then run_client run r k' else some (r, k')) _ r'
          h in
      let c = is_closed-ends k.socket k.client.buffer 0 in
      let back : leave read.0.0 p ≡ r' = cc in
      let same : Same r k.fd p = elim (Bool-cases (may_run read.0.0 read.0.1)) [
        | inl t ↦ run_client-Same run r k' p (rw (sym e, t) refl)
        | inr f ↦
            let e' : (r, k') ≡ p = cc in
            subst (λ x. Same r k.fd x) e'
              (record { coming = refl; passed = refl; watching = refl; descriptor = refl })
      ] in
      subst (λ x. Served r k x) back (leave-Served read.0.0 r k p c same)
