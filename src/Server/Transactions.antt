-- ===== src/Server/Transactions.antt =====
-- A transaction of several chunks: what reaches the driver is the text of all of them, at once.
use print3d.Prelude.{
  ℕ, ◌≡◌, refl, ap, sym, ◌∙◌, true, Option, none, some, List, [], ◌∷◌, ◌++◌, append_assoc,
  append-nil,
}
use print3d.Prelude.Int.{ℤ}
use print3d.Prelude.Text.{Bytes}
use print3d.Ipc.Codes.{reply_ok, gcode_add_failed}
use print3d.GcodeBuffer.State.{MetaData, GcodeSetResult, gsr_name, ok}
use print3d.Driver.State.{Driver}
use print3d.Driver.Print.{append_gcode}
use print3d.Server.Client.{
  Transaction, Scene, set_transaction, set_driver, send_data, send_built, send_reply, send_ok,
}
use print3d.Server.Handlers.{bind, take_chunk, finish_chunk, answer_append, append_chunk_text}

-- A chunk as it comes to the handler: its flags are 1 for the first, 0 in between, 2 for the last.
pub record Part : Type 0 where
  pub total_lines : ℤ
  pub metadata : MetaData
  pub text : Bytes

abbrev pub texts : List Part → Bytes
texts [] = []
texts (p ∷ ps) = p.text ++ texts ps

-- Sending a reply changes neither the transaction nor the driver.
pub record Quiet (s s' : Scene) : Type 0 where
  pub same_transaction : s'.client.transaction ≡ s.client.transaction
  pub same_driver : s'.driver ≡ s.driver
  pub same_others : s'.others ≡ s.others

send_built-Quiet : (s : Scene) (o : Option Bytes) → Quiet s (send_built s o)
unfolding send_built send_data
send_built-Quiet s none = record { same_transaction = refl; same_driver = refl; same_others = refl }
send_built-Quiet s (some c) = record {
  same_transaction = refl;
  same_driver = refl;
  same_others = refl;
}

pub send_reply-Quiet : (s : Scene) (code : ℕ) (m : Option Bytes) → Quiet s (send_reply s code m)
unfolding send_reply
send_reply-Quiet s code m = send_built-Quiet s _

pub send_ok-Quiet : (s : Scene) → Quiet s (send_ok s)
unfolding send_ok
send_ok-Quiet s = send_reply-Quiet s reply_ok none

module _ (number : Bytes → ℤ) where
  answer_append-Quiet : (s : Scene) (gsr : GcodeSetResult) → Quiet s (answer_append number s gsr)
  unfolding answer_append
  answer_append-Quiet s ok = send_ok-Quiet s
  answer_append-Quiet s gsr = send_reply-Quiet s gcode_add_failed (some (gsr_name gsr))

  abbrev pub feed : Scene → ℕ → Part → Option Scene
  feed s flags p = append_chunk_text number s flags p.total_lines p.metadata p.text

  -- the chunks between the first and the last
  abbrev pub feed_all : Scene → List Part → Option Scene
  feed_all s [] = some s
  feed_all s (p ∷ ps) = bind (feed s 0 p) (λ s'. feed_all s' ps)

  -- a whole transaction
  abbrev pub run_transaction : Scene → Part → List Part → Part → Option Scene
  run_transaction s first parts last =
      bind (feed s 1 first) (λ s1. bind (feed_all s1 parts) (λ s2. feed s2 2 last))

  -- `x` more text in the transaction, and nothing else that the driver or the other clients see.
  pub record Grown (s s' : Scene) (x : Bytes) : Type 0 where
    pub grows : s'.client.transaction.buffer ≡ s.client.transaction.buffer ++ x
    pub driver_kept : s'.driver ≡ s.driver
    pub others_kept : s'.others ≡ s.others
    pub cancelled_kept : s'.client.transaction.cancelled ≡ s.client.transaction.cancelled

  pub feed_middle :
      (s : Scene) (p : Part) → (s' : Scene) × (feed s 0 p ≡ some s') × Grown s s' p.text
  unfolding append_chunk_text take_chunk
  feed_middle s p =
      let t = s.client.transaction in
      let kept = set_transaction s (record t { buffer = t.buffer ++ p.text }) in
      let q = send_ok-Quiet kept in
      (
        send_ok kept,
        refl,
        record {
          grows = ap (λ (t : Transaction). t.buffer) q.same_transaction;
          driver_kept = q.same_driver;
          others_kept = q.same_others;
          cancelled_kept = ap (λ (t : Transaction). t.cancelled) q.same_transaction;
        },
      )

  -- The first chunk drops what the transaction held before.
  pub feed_first :
      (s : Scene) (p : Part)
      → (s' : Scene) × (feed s 1 p ≡ some s')
        × (s'.client.transaction.buffer ≡ p.text)
        × (s'.driver ≡ s.driver)
        × (s'.client.transaction.cancelled ≡ s.client.transaction.cancelled)
  unfolding append_chunk_text take_chunk
  feed_first s p =
      let kept =
        set_transaction s (record s.client.transaction { buffer = p.text; active = true }) in
      let q = send_ok-Quiet kept in
      (
        send_ok kept,
        refl,
        ap (λ (t : Transaction). t.buffer) q.same_transaction,
        q.same_driver,
        ap (λ (t : Transaction). t.cancelled) q.same_transaction,
      )

  pub feed_all-Grown :
      (ps : List Part) (s : Scene)
      → (s' : Scene) × (feed_all s ps ≡ some s') × Grown s s' (texts ps)
  feed_all-Grown [] s = (
    s,
    refl,
    record {
      grows = sym (append-nil s.client.transaction.buffer);
      driver_kept = refl;
      others_kept = refl;
      cancelled_kept = refl;
    },
  )
  feed_all-Grown (p ∷ ps) s =
      let (s1, e, g) = feed_middle s p in
      let (s2, f, h) = feed_all-Grown ps s1 in
      (
        s2,
        ap (λ o. bind o (λ s'. feed_all s' ps)) e ∙ f,
        record {
          grows =
              h.grows
              ∙ ap (λ t. t ++ texts ps) g.grows
              ∙ append_assoc s.client.transaction.buffer p.text (texts ps);
          driver_kept = h.driver_kept ∙ g.driver_kept;
          others_kept = h.others_kept ∙ g.others_kept;
          cancelled_kept = h.cancelled_kept ∙ g.cancelled_kept;
        },
      )

  abbrev pub driver_after : Option Scene → Option (Option Driver)
  driver_after none = none
  driver_after (some s) = some s.driver

  -- The driver that an append leaves, whatever it answers.
  abbrev pub appended : Option (Driver × GcodeSetResult) → Option (Option Driver)
  appended none = none
  appended (some r) = some (some r.0)

  appended-answer :
      (s : Scene) (t : Transaction) (o : Option (Driver × GcodeSetResult))
      → driver_after
          (bind o (λ r. some (answer_append number (set_driver (set_transaction s t) r.0) r.1)))
        ≡ appended o
  appended-answer s t none = refl
  appended-answer s t (some r) =
      ap some (answer_append-Quiet (set_driver (set_transaction s t) r.0) r.1).same_driver

  feed_last :
      (s : Scene) (d : Driver) (p : Part)
      → s.driver ≡ some d
      → driver_after (feed s 2 p)
        ≡ appended (
            append_gcode number d
              (s.client.transaction.buffer ++ p.text)
              p.total_lines
              (some p.metadata))
  unfolding append_chunk_text take_chunk
  feed_last s d p e =
      let t = s.client.transaction in
      let t' = record t { buffer = t.buffer ++ p.text } in
      ap
        (λ o. driver_after (
          bind o (λ d'.
            bind (append_gcode number d' t'.buffer p.total_lines (some p.metadata)) (λ r.
              some (
                answer_append number (set_driver (set_transaction s (finish_chunk t')) r.0) r.1)))))
        e
      ∙ appended-answer s (finish_chunk t')
          (append_gcode number d t'.buffer p.total_lines (some p.metadata))

  -- Over a whole transaction the driver sees one append: of the first chunk, those in between and
  -- the last, joined, with the line total and the metadata of the last.
  pub run_transaction-append :
      (s : Scene) (d : Driver) (first : Part) (parts : List Part) (last : Part)
      → s.driver ≡ some d
      → driver_after (run_transaction s first parts last)
        ≡ appended (
            append_gcode number d
              (first.text ++ texts parts ++ last.text)
              last.total_lines
              (some last.metadata))
  run_transaction-append s d first parts last e =
      let (s1, f1, b1, d1, c1) = feed_first s first in
      let (s2, f2, g) = feed_all-Grown parts s1 in
      let whole : s2.client.transaction.buffer ≡ first.text ++ texts parts =
        g.grows ∙ ap (λ t. t ++ texts parts) b1 in
      ap (λ o. driver_after (bind o (λ s1. bind (feed_all s1 parts) (λ s2. feed s2 2 last)))) f1
      ∙ ap (λ o. driver_after (bind o (λ s2. feed s2 2 last))) f2
      ∙ feed_last s2 d last (g.driver_kept ∙ d1 ∙ e)
      ∙ ap
          (λ t.
            appended (append_gcode number d (t ++ last.text) last.total_lines (some last.metadata)))
          whole
