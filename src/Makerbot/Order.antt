-- ===== src/Makerbot/Order.antt =====
-- The queue is sent in order, and within the space of the printer's buffer.
use print3d.Prelude.{
  ℕ, ◌+◌, ◌-◌, ◌^◌, ◌≤◌, ◌<◌, ◌≡◌, ◌≢◌, refl, ap, sym, ◌∙◌, inl, inr, Bool, true, false, Option,
  none, some, List, [], ◌∷◌, ◌++◌, append_assoc, append-nil, arith, ltb, if◌then◌else◌, length,
  get_or, replicate, Bool-cases,
}
use print3d.Prelude.Int.{ℤ, pos, ltb_ℤ}
use print3d.Prelude.Text.{Bytes}
use print3d.Driver.State.{idle, set_state}
use print3d.Ipc.Wire.{to_int32}
use print3d.Makerbot.State.{Makerbot, Machine, printer_buffer_size, sub_uint32}
use print3d.Makerbot.Packets.{packet_of, send_packet}
use print3d.Makerbot.Queue.{set_base, space_of, request_buffer_space, send_queue, process_queue}
use print3d.Makerbot.Copies.{Copies, CopiesAll, spaced, send_packet-CopiesAll}

-- The packets of some commands, in their order, each written between one and five times.
pub data Sends : List Bytes → List Bytes → Type 0 where
  nothing : Sends [] []
  command :
      (c : Bytes) (cs : List Bytes) (copies : ℕ) (written : List Bytes)
      → 1 ≤ copies
      → copies ≤ 5
      → Sends cs written
      → Sends (c ∷ cs) (replicate copies (packet_of c) ++ written)

-- A first part of the commands has been sent, and the rest is the queue.
pub record SentPrefix (commands : List Bytes) (d e : Makerbot) : Type 0 where
  pub done : List Bytes
  pub written : List Bytes
  pub splits : commands ≡ done ++ e.queue
  pub wrote : e.base.sent ≡ d.base.sent ++ written
  pub sends : Sends done written

abbrev total : List Bytes → ℕ
total [] = 0
total (c ∷ cs) = length c + total cs

-- The same for the space in the printer's buffer, of which five bytes always stay free.
pub record FitsSpace (commands : List Bytes) (d e : Makerbot) : Type 0 where
  pub done : List Bytes
  pub splits : commands ≡ done ++ e.queue
  pub takes : total done + e.buffer_space ≡ d.buffer_space
  pub leaves : 5 ≤ e.buffer_space

none_sent :
    (commands : List Bytes) (d : Makerbot) → SentPrefix commands d (record d { queue = commands })
none_sent commands d = record {
  done = [];
  written = [];
  splits = refl;
  wrote = sym (append-nil d.base.sent);
  sends = nothing;
}

abbrev pub Ends : (Makerbot → Type 0) → Option Makerbot → Type 0
Ends P none = Unit
Ends P (some e) = P e

Ends-map :
    (P Q : Makerbot → Type 0) (o : Option Makerbot)
    → ((e : Makerbot) → Q e → P e)
    → Ends Q o
    → Ends P o
Ends-map P Q none f h = tt
Ends-map P Q (some e) f h = f e h

if_Ends :
    (P : Makerbot → Type 0) (b : Bool) (o p : Option Makerbot)
    → Ends P o
    → Ends P p
    → Ends P (if b then o else p)
if_Ends P true o p h k = h
if_Ends P false o p h k = k

-- No command of the queue asks for the space, which only the driver itself does.
abbrev pub AllBuffered : List Bytes → Type 0
AllBuffered [] = Unit
AllBuffered (c ∷ cs) = (get_or c 0 0 ≢ 2) × AllBuffered cs

sub_uint32-exact : (a b : ℕ) → a < 2 ^ 32 → b ≤ a → sub_uint32 a b ≡ a - b
sub_uint32-exact a b h k = omega arith

module _ (m : Machine) where
  one_sent :
      (c : Bytes) (cs : List Bytes) (d f e : Makerbot)
      → Copies (packet_of c) (get_or c 0 0) 1 5 (spaced (record d { queue = cs }) c true) f
      → SentPrefix cs f e
      → SentPrefix (c ∷ cs) d e
  one_sent c cs d f e k s = record {
    done = c ∷ s.done;
    written = replicate k.copies (packet_of c) ++ s.written;
    splits = ap (◌∷◌ c) s.splits;
    wrote =
        s.wrote
        ∙ ap (λ t. t ++ s.written) k.wrote
        ∙ append_assoc d.base.sent (replicate k.copies (packet_of c)) s.written;
    sends = command c s.done k.copies s.written k.at_least k.at_most s.sends;
  }

  -- What holds of the rest of the loop holds of the loop, if one command does not spoil it.
  send_rest :
      (c : Bytes) (cs : List Bytes) (d : Makerbot) (P Q : Makerbot → Makerbot → Type 0)
      (o : Option (Bool × Makerbot))
      → CopiesAll (packet_of c) (get_or c 0 0) 1 5 (spaced (record d { queue = cs }) c true) o
      → ((f : Makerbot)
          → Copies (packet_of c) (get_or c 0 0) 1 5 (spaced (record d { queue = cs }) c true) f
          → Ends (Q f) (send_queue m cs f))
      → ((f e : Makerbot)
          → Copies (packet_of c) (get_or c 0 0) 1 5 (spaced (record d { queue = cs }) c true) f
          → Q f e
          → P d e)
      → Ends (P d) (elim o [ none ↦ none | some (sent, f) ↦ send_queue m cs f ])
  send_rest c cs d P Q none k rest step = tt
  send_rest c cs d P Q (some (sent, f)) k rest step =
      Ends-map (P d) (Q f) (send_queue m cs f) (λ e. step f e k) (rest f k)

  -- Whatever the port answers, the loop over the queue sends a first part of the queue in its order,
  -- every command one to five times, and leaves the rest, unless the server exits. The port is open.
  pub send_queue-SentPrefix :
      (commands : List Bytes) (d : Makerbot)
      → d.base.is_open ≡ true
      → Ends (SentPrefix commands d) (send_queue m commands d)
  unfolding send_queue
  send_queue-SentPrefix [] d h = none_sent [] d
  send_queue-SentPrefix (c ∷ cs) d h =
      elim (Bool-cases (ltb (sub_uint32 d.buffer_space 5) (length c))) [
        | inl e ↦ rw (send_queue, e) (none_sent (c ∷ cs) d)
        | inr e ↦
            rw (send_queue, e)
              (send_rest c cs d (SentPrefix (c ∷ cs)) (SentPrefix cs)
                (send_packet m (record d { queue = cs }) c true)
                (send_packet-CopiesAll m c true (record d { queue = cs }) h)
                (λ f k. send_queue-SentPrefix cs f k.still_open) (one_sent c cs d))
      ]

  one_fits :
      (c : Bytes) (cs : List Bytes) (d f e : Makerbot)
      → length c ≤ d.buffer_space
      → f.buffer_space ≡ d.buffer_space - length c
      → FitsSpace cs f e
      → FitsSpace (c ∷ cs) d e
  one_fits c cs d f e l k s = record {
    done = c ∷ s.done;
    splits = ap (◌∷◌ c) s.splits;
    takes = omega (arith, s.takes);
    leaves = s.leaves;
  }

  -- The commands that the loop over the queue sends take their sizes from the space in the printer's
  -- buffer, and five bytes of it stay free, so that the subtraction does not wrap. There are five
  -- bytes free before, the space is a 32-bit number, the port is open, and no command of the queue
  -- asks for the space.
  pub send_queue-FitsSpace :
      (commands : List Bytes) (d : Makerbot)
      → d.base.is_open ≡ true
      → AllBuffered commands
      → 5 ≤ d.buffer_space
      → d.buffer_space < 2 ^ 32
      → Ends (FitsSpace commands d) (send_queue m commands d)
  unfolding send_queue
  send_queue-FitsSpace [] d h hs l b = record {
    done = [];
    splits = refl;
    takes = omega arith;
    leaves = l;
  }
  send_queue-FitsSpace (c ∷ cs) d h (ne, hs) l b =
      elim (Bool-cases (ltb (sub_uint32 d.buffer_space 5) (length c))) [
        | inl e ↦
            rw (send_queue, e)
              (record { done = []; splits = refl; takes = omega arith; leaves = l })
        | inr e ↦
            let fits : length c ≤ d.buffer_space - 5 =
              ground (arith, sub_uint32-exact d.buffer_space 5 b l) in
            let exact = sub_uint32-exact d.buffer_space (length c) b (omega arith) in
            rw (send_queue, e)
              (send_rest c cs d (FitsSpace (c ∷ cs)) (FitsSpace cs)
                (send_packet m (record d { queue = cs }) c true)
                (send_packet-CopiesAll m c true (record d { queue = cs }) h)
                (λ f k.
                  let left : f.buffer_space ≡ d.buffer_space - length c = k.same_space ne ∙ exact in
                  send_queue-FitsSpace cs f k.still_open hs (omega arith) (omega arith))
                (λ f e k. one_fits c cs d f e (omega arith) (k.same_space ne ∙ exact)))
      ]

-- The space is asked for, and then a first part of the queue has been sent.
pub record Processed (d e : Makerbot) : Type 0 where
  pub asked : ℕ
  pub at_least : 1 ≤ asked
  pub at_most : asked ≤ 5
  pub done : List Bytes
  pub written : List Bytes
  pub splits : d.queue ≡ done ++ e.queue
  pub wrote : e.base.sent ≡ d.base.sent ++ (replicate asked (packet_of (2 ∷ [])) ++ written)
  pub sends : Sends done written

asked_only :
    (d f e : Makerbot)
    → Copies (packet_of (2 ∷ [])) 2 1 5 (spaced d (2 ∷ []) true) f
    → SentPrefix f.queue f e
    → Processed d e
asked_only d f e k s = record {
  asked = k.copies;
  at_least = k.at_least;
  at_most = k.at_most;
  done = s.done;
  written = s.written;
  splits = sym k.same_queue ∙ s.splits;
  wrote =
      s.wrote
      ∙ ap (λ t. t ++ s.written) k.wrote
      ∙ append_assoc d.base.sent (replicate k.copies (packet_of (2 ∷ []))) s.written;
  sends = s.sends;
}

module _ (m : Machine) where
  with_space : (queue : List Bytes) (space : ℤ) (e : Makerbot) → Option Makerbot
  with_space queue space e = elim queue [
    | [] ↦
        if ltb_ℤ space (pos printer_buffer_size)
        then some e
        else some (set_base e (set_state e.base idle))
    | _ ∷ _ ↦ if ltb_ℤ (pos 480) space then send_queue m e.queue e else some e
  ]

  with_space-Processed :
      (d e : Makerbot) (queue : List Bytes) (space : ℤ)
      → Copies (packet_of (2 ∷ [])) 2 1 5 (spaced d (2 ∷ []) true) e
      → Ends (Processed d) (with_space queue space e)
  unfolding with_space
  with_space-Processed d e [] space k =
      if_Ends (Processed d) (ltb_ℤ space (pos printer_buffer_size)) (some e)
        (some (set_base e (set_state e.base idle))) (asked_only d e e k (none_sent e.queue e))
        (asked_only d e (set_base e (set_state e.base idle)) k (idle_sent (none_sent e.queue e)))
    where
      idle_sent : SentPrefix e.queue e e → SentPrefix e.queue e (set_base e (set_state e.base idle))
      idle_sent s = record {
        done = s.done;
        written = s.written;
        splits = s.splits;
        wrote = s.wrote;
        sends = s.sends;
      }
  with_space-Processed d e (c ∷ cs) space k =
      if_Ends (Processed d) (ltb_ℤ (pos 480) space) (send_queue m e.queue e) (some e)
        (Ends-map (Processed d) (SentPrefix e.queue e) (send_queue m e.queue e)
          (λ f. asked_only d e f k) (send_queue-SentPrefix m e.queue e k.still_open))
        (asked_only d e e k (none_sent e.queue e))

  asked-Processed :
      (d : Makerbot) (o : Option (Bool × Makerbot))
      → CopiesAll (packet_of (2 ∷ [])) 2 1 5 (spaced d (2 ∷ []) true) o
      → Ends
          (Processed d)
          (elim (space_of o) [ none ↦ none | some (space, e) ↦ with_space d.queue space e ])
  asked-Processed d none k = tt
  asked-Processed d (some (sent, e)) k =
      with_space-Processed d e d.queue (to_int32 e.buffer_space) k

  -- Whatever the port answers, processQueue asks for the space in the printer's buffer, and then
  -- sends a first part of the queue in its order, every command one to five times, and leaves the
  -- rest, unless the server exits. The port is open.
  pub process_queue-Processed :
      (d : Makerbot) → d.base.is_open ≡ true → Ends (Processed d) (process_queue m d)
  unfolding process_queue request_buffer_space with_space
  process_queue-Processed d h =
      asked-Processed d (send_packet m d (2 ∷ []) true) (send_packet-CopiesAll m (2 ∷ []) true d h)
