-- ===== src/Server/Streams.antt =====
-- A buffer that holds several commands: which of them are run, in which order, and what is left.
use print3d.Prelude.{
  ℕ, zero, suc, ◌^◌, ◌≤◌, ◌<◌, ◌≡◌, ◌≢◌, refl, ap, sym, ◌∙◌, Bool, true, false, Option, none, some,
  List, [], ◌∷◌, ◌++◌, arith, ltb, ltb→lt, ◌==◌, length, drop, length-drop, inl, inr, Bool-cases,
  Option-cases,
}
use print3d.Prelude.Text.{Bytes}
use print3d.Ipc.Layout.{encode, AllFit}
use print3d.Ipc.Command.{cmd_is_complete, cmd_remove}
use print3d.Ipc.RoundTrip.{cmd_is_complete-encode, cmd_remove-encode, length-encode}
use print3d.Server.Client.{Scene}
use print3d.Server.Handlers.{bind}
use print3d.Server.Dispatch.{run_commands}

pub record Command : Type 0 where
  pub code : ℕ
  pub args : List Bytes

abbrev pub Sendable : Command → Type 0
Sendable c = (length c.args < 2 ^ 16) × AllFit c.args

abbrev pub AllSendable : List Command → Type 0
AllSendable [] = Unit
AllSendable (c ∷ cs) = Sendable c × AllSendable cs

-- The commands in their layout, one behind the other, and what follows them.
abbrev pub stream : List Command → Bytes → Bytes
stream [] r = r
stream (c ∷ cs) r = encode c.code c.args ++ stream cs r

-- Each command run in turn, on the buffer that begins with it.
abbrev pub run_each :
    (Scene → Bytes → Option Scene) → List Command → Bytes → Scene → Option (Scene × Bytes)
run_each run [] r s = some (s, r)
run_each run (c ∷ cs) r s = bind (run s (stream (c ∷ cs) r)) (λ s'. run_each run cs r s')

complete-short : (buf : Bytes) → length buf < 4 → cmd_is_complete buf ≡ 0
unfolding cmd_is_complete
complete-short buf h =
    let e : ltb (length buf) 4 ≡ true = ground arith in rw (e, cmd_is_complete) refl

cmd_remove-drop :
    (buf : Bytes)
    → (cmd_is_complete buf == 0) ≡ false
    → (cmd_remove buf).0 ≡ drop (cmd_is_complete buf) buf
unfolding cmd_remove
cmd_remove-drop buf h = rw (h, cmd_remove) refl

cmd_remove-shorter :
    (buf : Bytes) → (cmd_is_complete buf == 0) ≡ false → length (cmd_remove buf).0 < length buf
cmd_remove-shorter buf h =
    let size = ap length (cmd_remove-drop buf h) ∙ length-drop (cmd_is_complete buf) buf in
    elim (Bool-cases (ltb (length buf) 4)) [
      | inl e ↦ let z = complete-short buf (ltb→lt (length buf) 4 e) in absurd (ground arith)
      | inr e ↦
          let l : 4 ≤ length buf = ground arith in
          let z : cmd_is_complete buf ≢ 0 = ground arith in omega arith
    ]

abbrev left_over : Bytes → Option (Scene × Bytes) → Bytes
left_over default none = default
left_over default (some p) = p.1

abbrev bind_rest : (Scene → Option (Scene × Bytes)) → Option Scene → Option (Scene × Bytes)
bind_rest f o = bind o f

none_some : (s : Scene) (r : Bytes) → ◌≢◌ {A = Option (Scene × Bytes)} none (some (s, r))
none_some s r e = cc

module _ (run : Scene → Bytes → Option Scene) where
  run_commands-zero : (s : Scene) (buf : Bytes) → run_commands run zero s buf ≡ some (s, buf)
  unfolding run_commands
  run_commands-zero s buf = refl

  run_commands-stop :
      (fuel : ℕ) (s : Scene) (buf : Bytes)
      → cmd_is_complete buf ≡ 0
      → run_commands run fuel s buf ≡ some (s, buf)
  unfolding run_commands
  run_commands-stop zero s buf h = refl
  run_commands-stop (suc fuel) s buf h = rw (h, run_commands) refl

  run_commands-next :
      (fuel : ℕ) (s : Scene) (buf : Bytes)
      → (cmd_is_complete buf == 0) ≡ false
      → run_commands run (suc fuel) s buf
        ≡ bind (run s buf) (λ s'. run_commands run fuel s' (cmd_remove buf).0)
  unfolding run_commands
  run_commands-next fuel s buf h = rw (h, run_commands) refl

  bind-run :
      (o : Option Scene) (f g : Scene → Option (Scene × Bytes))
      → ((s : Scene) → f s ≡ g s)
      → bind o f ≡ bind o g
  bind-run none f g h = refl
  bind-run (some s) f g h = h s

  -- Exactly the commands that stand in the buffer are run, in their order, and what follows the
  -- last complete one is kept.
  pub run_commands-stream :
      (cs : List Command) (fuel : ℕ) (s : Scene) (r : Bytes)
      → AllSendable cs
      → cmd_is_complete r ≡ 0
      → length cs ≤ fuel
      → run_commands run fuel s (stream cs r) ≡ run_each run cs r s
  run_commands-stream [] fuel s r h e l = run_commands-stop fuel s r e
  run_commands-stream (c ∷ cs) zero s r h e l = absurd (omega arith)
  run_commands-stream (c ∷ cs) (suc fuel) s r h e l =
      let size = cmd_is_complete-encode c.code c.args (stream cs r) h.0.0 h.0.1 in
      let header = length-encode c.code c.args (stream cs r) in
      let more : (cmd_is_complete (stream (c ∷ cs) r) == 0) ≡ false = ground arith in
      let rest = cmd_remove-encode c.code c.args (stream cs r) h.0.0 h.0.1 in
      run_commands-next fuel s (stream (c ∷ cs) r) more
      ∙ bind-run (run s (stream (c ∷ cs) r)) _ _ (λ s'.
        ap (λ (p : Bytes × Bool). run_commands run fuel s' p.0) rest
        ∙ run_commands-stream cs fuel s' r h.1 e (omega arith))

  -- With as many rounds as the buffer has bytes the loop ends by itself: no complete command is left.
  pub run_commands-ended :
      (fuel : ℕ) (s : Scene) (buf : Bytes) (s' : Scene) (r : Bytes)
      → length buf ≤ fuel
      → run_commands run fuel s buf ≡ some (s', r)
      → cmd_is_complete r ≡ 0
  run_commands-ended zero s buf s' r l h =
      let e : buf ≡ r = ap (left_over buf) (sym (run_commands-zero s buf) ∙ h) in
      ap cmd_is_complete (sym e) ∙ complete-short buf (omega arith)
  run_commands-ended (suc fuel) s buf s' r l h = elim (Bool-cases (cmd_is_complete buf == 0)) [
    | inl e ↦
        let z : cmd_is_complete buf ≡ 0 = ground arith in
        ap cmd_is_complete (ap (left_over buf) (sym h ∙ run_commands-stop (suc fuel) s buf z)) ∙ z
    | inr e ↦
        let next = sym (run_commands-next fuel s buf e) ∙ h in
        elim (Option-cases (run s buf)) [
          | inl n ↦ absurd (
              none_some s' r
                (sym (ap (bind_rest (λ s1. run_commands run fuel s1 (cmd_remove buf).0)) n) ∙ next))
          | inr (s1, k) ↦
              run_commands-ended fuel s1 (cmd_remove buf).0 s' r
                (let m = cmd_remove-shorter buf e in omega arith)
                (sym (ap (bind_rest (λ s1. run_commands run fuel s1 (cmd_remove buf).0)) k) ∙ next)
        ]
  ]
