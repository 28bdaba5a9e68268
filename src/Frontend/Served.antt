-- ===== src/Frontend/Served.antt =====
-- The frontend and the server together: what a function comm_* gets from the handler of its command.
use print3d.Prelude.{
  Bool, ℕ, zero, suc, ◌+◌, ◌^◌, ◌<◌, ◌≡◌, refl, ap, sym, ◌∙◌, subst, Option, none, some, List, [],
  ◌∷◌, ◌++◌, map, arith, length, get_elem?, true, append-nil,
}
use print3d.Prelude.Int.{ℤ, pos, eq_ℤ}
use print3d.Prelude.Text.{Bytes}
use print3d.Ipc.Codes.{invalid, reply_ok, get_progress, find_command_description}
use print3d.Ipc.Wire.{read_ns, read_ns-store_ns, IsInt32}
use print3d.Ipc.Layout.{encode, encode_args, encode_arg, AllFit}
use print3d.Ipc.Command.{
  found, Arg, long, arg_bytes, cmd_get, cmd_num_args, cmd_get_long_arg, construct_cmd,
}
use print3d.Ipc.RoundTrip.{encode-append, cmd_num_args-encode}
use print3d.Ipc.Build.{construct_cmd-encode, construct_cmd-ReadsBack}
use print3d.GcodeBuffer.State.{get_total_lines, max_buffer_size}
use print3d.Driver.State.{Driver}
use print3d.Server.Client.{Scene, send_data}
use print3d.Server.Handlers.{hnd_get_progress}
use print3d.Server.Dispatch.{run_command}
use print3d.Frontend.Replies.{Handled, handled, has_args, handle_basic_response}
use print3d.Frontend.Requests.{ask}
use print3d.Frontend.Results.{read_longs, then_read, with_state, comm_get_progress}

-- The reply to a command is the first that it adds.
abbrev pub reply_of : Scene → Option Scene → Scene × Option Bytes
reply_of s none = (s, none)
reply_of s (some s') = (s', get_elem? s'.client.replies (length s.client.replies))

-- The server as the other end of the socket, at the log level `bulk` or one below.
pub serve :
    (Bytes → ℤ)
    → (Bytes → Option Bytes)
    → (Bytes → Bytes)
    → Bool
    → Scene
    → Option Bytes
    → Scene × Option Bytes
serve number read_file file_error bulk s none = (s, none)
serve number read_file file_error bulk s (some cmd) =
    reply_of s (run_command number read_file file_error bulk s cmd)

-- What getProgress is to report.
abbrev pub progress : Driver → List ℤ
progress d =
    d.gcode_buffer.current_line
    ∷ d.gcode_buffer.buffered_lines
    ∷ get_total_lines d.gcode_buffer
    ∷ d.gcode_buffer.buffer_size
    ∷ pos max_buffer_size
    ∷ d.gcode_buffer.md.seq_number
    ∷ d.gcode_buffer.md.seq_total
    ∷ []

abbrev pub AllInt32 : List ℤ → Type 0
AllInt32 [] = Unit
AllInt32 (v ∷ vs) = IsInt32 v × AllInt32 vs

abbrev pub ok_reply : List ℤ → Bytes
ok_reply vs = encode reply_ok (map arg_bytes (map long vs))

cmd_get-encode : (args : List Bytes) (r : Bytes) → cmd_get (encode reply_ok args ++ r) ≡ reply_ok
unfolding cmd_get
cmd_get-encode args r =
    ap (λ (o : Option ℕ). elim o [ none ↦ invalid | some code ↦ code ])
      (ap read_ns (encode-append reply_ok args r) ∙ read_ns-store_ns reply_ok _ (omega arith))

longs-AllFit : (vs : List ℤ) → AllFit (map arg_bytes (map long vs))
unfolding arg_bytes
longs-AllFit [] = tt
longs-AllFit (v ∷ vs) = (omega arith, longs-AllFit vs)

read_longs-found :
    (vs : List ℤ) (i : ℕ) (rcmd : Bytes)
    → ((j : ℕ) (v : ℤ) → get_elem? vs j ≡ some v → cmd_get_long_arg rcmd (i + j) ≡ found v)
    → read_longs (length vs) i rcmd ≡ some (pos 0, vs)
unfolding read_longs
read_longs-found [] i rcmd h = refl
read_longs-found (v ∷ vs) i rcmd h =
    let zeroth : i + 0 ≡ i = omega arith in
    let first = ap (cmd_get_long_arg rcmd) (sym zeroth) ∙ h 0 v refl in
    let rest = read_longs-found vs (i + 1) rcmd (λ j w e.
      let next : i + 1 + j ≡ i + suc j = omega arith in
      ap (cmd_get_long_arg rcmd) next ∙ h (suc j) w e) in
    rw (first, read_longs) (rw (rest, read_longs) refl)

run_command-progress :
    (number : Bytes → ℤ) (read_file : Bytes → Option Bytes) (file_error : Bytes → Bytes)
    (bulk : Bool) (s : Scene)
    → run_command number read_file file_error bulk s (0 ∷ 0x18 ∷ 0 ∷ 0 ∷ []) ≡ hnd_get_progress s
unfolding run_command
run_command-progress number read_file file_error bulk s = refl

hnd_get_progress-sends :
    (s : Scene) (d : Driver)
    → s.driver ≡ some d
    → hnd_get_progress s ≡ some (send_data s (ok_reply (progress d)))
unfolding hnd_get_progress
hnd_get_progress-sends s d h =
    rw h (unfold encode encode_args encode_arg construct_cmd send_data in refl)

longs-get_elem? :
    (vs : List ℤ) (j : ℕ) (v : ℤ)
    → get_elem? vs j ≡ some v
    → get_elem? (map long vs) j ≡ some (long v)
longs-get_elem? [] j v e = cc
longs-get_elem? (w ∷ vs) zero v e = ground arith
longs-get_elem? (w ∷ vs) (suc j) v e = longs-get_elem? vs j v e

longs-IsInt32 : (vs : List ℤ) (j : ℕ) (v : ℤ) → AllInt32 vs → get_elem? vs j ≡ some v → IsInt32 v
longs-IsInt32 [] j v h e = cc
longs-IsInt32 (w ∷ vs) zero v h e =
    let same : w ≡ v = ground arith in subst (λ x. IsInt32 x) same h.0
longs-IsInt32 (w ∷ vs) (suc j) v h e = longs-IsInt32 vs j v h.1 e

module _ (vs : List ℤ) (count : length (map long vs) < 2 ^ 16) (fits : AllInt32 vs) where
  built : construct_cmd reply_ok (map long vs) ≡ some (ok_reply vs)
  unfolding find_command_description
  built = construct_cmd-encode reply_ok (map long vs) _ refl count (longs-AllFit vs)

  long_of_reply :
      (j : ℕ) (v : ℤ)
      → get_elem? vs j ≡ some v
      → cmd_get_long_arg (ok_reply vs ++ []) (0 + j) ≡ found v
  unfolding find_command_description
  long_of_reply j v e =
      let at : 0 + j ≡ j = omega arith in
      ap (cmd_get_long_arg (ok_reply vs ++ [])) at
      ∙ construct_cmd-ReadsBack reply_ok (map long vs) _ (ok_reply vs) [] j (long v) refl count
          (longs-AllFit vs) built (longs-get_elem? vs j v e) (longs-IsInt32 vs j v fits e)

  -- The values of an ok reply are read as they were sent.
  read_longs-reply : read_longs (length vs) 0 (ok_reply vs) ≡ some (pos 0, vs)
  read_longs-reply =
      ap (read_longs (length vs) 0) (sym (append-nil (ok_reply vs)))
      ∙ read_longs-found vs 0 (ok_reply vs ++ []) long_of_reply

eq_ℤ-self : (n : ℕ) → eq_ℤ (pos n) (pos n) ≡ true
eq_ℤ-self n = ground arith

has_args-counted :
    (b : Bytes) (n : ℕ) → cmd_num_args b ≡ some n → has_args b (pos n) ≡ handled (pos 0) none
unfolding has_args
has_args-counted b n e = rw (e, has_args) (rw (eq_ℤ-self n) refl)

reply_handled :
    (b : Bytes) (expected : ℤ)
    → cmd_get b ≡ reply_ok
    → handle_basic_response (some b) expected ≡ some (has_args b expected)
unfolding handle_basic_response
reply_handled b expected e = rw (e, handle_basic_response) refl

get_elem?-last {ℓ} :
    {A : Type ℓ} (xs : List A) (x : A) → get_elem? (xs ++ (x ∷ [])) (length xs) ≡ some x
get_elem?-last [] x = refl
get_elem?-last (y ∷ xs) x = get_elem?-last xs x

ok_reply-handled :
    (vs : List ℤ)
    → length (map arg_bytes (map long vs)) < 2 ^ 16
    → handle_basic_response (some (ok_reply vs)) (pos (length (map arg_bytes (map long vs))))
      ≡ some (handled (pos 0) none)
ok_reply-handled vs count =
    let args = map arg_bytes (map long vs) in
    let ended = append-nil (ok_reply vs) in
    reply_handled (ok_reply vs) (pos (length args))
      (ap cmd_get (sym ended) ∙ cmd_get-encode args [])
    ∙ ap some (
        has_args-counted (ok_reply vs) (length args)
          (ap cmd_num_args (sym ended) ∙ cmd_num_args-encode reply_ok args [] count))

ask-answered :
    {S : Type 0} (exchange : S → Option Bytes → S × Option Bytes) (s s' : S) (code : ℕ)
    (args : List Arg) (expected : ℤ) (reply : Bytes) (h : Handled)
    → exchange s (construct_cmd code args) ≡ (s', some reply)
    → handle_basic_response (some reply) expected ≡ some h
    → ask exchange s code args expected ≡ some (s', some reply, h)
unfolding ask
ask-answered {S} exchange s s' code args expected reply h e k =
    ap
      (λ (a : S × Option Bytes).
        let o : Option (S × Option Bytes × Handled) = elim (handle_basic_response a.1 expected) [
          | none ↦ none
          | some x ↦ some (a.0, a.1, x)
        ] in
        o)
      e
    ∙ ap
        (λ z.
          let o : Option (S × Option Bytes × Handled) = elim z [
            | none ↦ none
            | some x ↦ some (s', some reply, x)
          ] in
          o)
        k

module _ (number : Bytes → ℤ) (read_file : Bytes → Option Bytes) (file_error : Bytes → Bytes)
    (bulk : Bool) where
  serve-progress :
      (s : Scene) (d : Driver)
      → s.driver ≡ some d
      → serve number read_file file_error bulk s (construct_cmd get_progress [])
        ≡ (send_data s (ok_reply (progress d)), some (ok_reply (progress d)))
  unfolding serve send_data construct_cmd
  serve-progress s d h =
      ap (reply_of s)
        (run_command-progress number read_file file_error bulk s ∙ hnd_get_progress-sends s d h)
      ∙ ap (λ o. (send_data s (ok_reply (progress d)), o))
          (get_elem?-last s.client.replies (ok_reply (progress d)))

  -- getProgress of the frontend, asked of the server, succeeds and stores what the driver has: the
  -- current line, the lines in the buffer and in total, the size and the maximal size of the
  -- buffer, and the sequence number and total. The server has a driver, and the numbers fit their
  -- fields.
  pub comm_get_progress-serve :
      (s : Scene) (d : Driver)
      → s.driver ≡ some d
      → AllInt32 (progress d)
      → comm_get_progress (serve number read_file file_error bulk) s
        ≡ some (send_data s (ok_reply (progress d)), pos 0, progress d)
  unfolding comm_get_progress
  comm_get_progress-serve s d h fits =
      let reply = ok_reply (progress d) in
      ap (then_read (read_longs 7 0)) (
        ask-answered (serve number read_file file_error bulk) s (send_data s reply) get_progress []
          (pos 7) reply (handled (pos 0) none) (serve-progress s d h)
          (ok_reply-handled (progress d) (omega arith)))
      ∙ ap (with_state (send_data s reply)) (read_longs-reply (progress d) (omega arith) fits)
