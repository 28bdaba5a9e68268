-- ===== src/Server/Uploads.antt =====
-- A whole transaction as a frontend sends it: the commands of its chunks, each handled by
-- hnd_gcodeAppend.
use print3d.Prelude.{
  ◌<◌, ◌^◌, ◌≡◌, arith, refl, ap, sym, ◌∙◌, false, Option, some, List, [], ◌∷◌, ◌++◌, map,
  append-nil, length, bind,
}
use print3d.Prelude.Int.{ℤ, pos}
use print3d.Prelude.Text.{Bytes, count}
use print3d.Ipc.Wire.{to_uint16, IsInt16, IsInt32}
use print3d.Ipc.Codes.{gcode_append}
use print3d.Ipc.Layout.{encode}
use print3d.Ipc.Command.{construct_cmd, arg_bytes}
use print3d.GcodeBuffer.State.{MetaData}
use print3d.Driver.State.{Driver}
use print3d.Driver.Print.{append_gcode}
use print3d.Server.Client.{Scene}
use print3d.Server.Handlers.{hnd_gcode_append}
use print3d.Server.Carried.{six_args, six_args-encode}
use print3d.Server.Requests.{told, hnd_gcode_append-construct}
use print3d.Server.Transactions.{
  Part, texts, feed, feed_all, run_transaction, driver_after, appended, feed_first, feed_middle,
  feed_all-Grown, run_transaction-append,
}

-- What a frontend puts into the command of a chunk, apart from the flags.
pub record Upload : Type 0 where
  pub text : Bytes
  pub total_lines : ℤ
  pub seq_number : ℤ
  pub seq_total : ℤ
  pub source : Bytes

abbrev pub metadata_of : Upload → MetaData
metadata_of u = record {
  seq_number = u.seq_number;
  seq_total = u.seq_total;
  source = some u.source;
}

abbrev part_of : Upload → Part
part_of u = record { total_lines = u.total_lines; metadata = metadata_of u; text = u.text }

abbrev pub joined_texts : List Upload → Bytes
joined_texts [] = []
joined_texts (u ∷ us) = u.text ++ joined_texts us

-- The lengths fit their fields, the numbers are in range, and no text has a zero byte.
pub record Sendable (u : Upload) : Type 0 where
  pub text_fits : length u.text < 2 ^ 32
  pub source_fits : length u.source < 2 ^ 32
  pub text_whole : count 0 u.text ≡ 0
  pub source_whole : count 0 u.source ≡ 0
  pub total_fits : IsInt32 u.total_lines
  pub number_fits : IsInt32 u.seq_number
  pub seq_total_fits : IsInt32 u.seq_total

abbrev pub AllSendable : List Upload → Type 0
AllSendable [] = Unit
AllSendable (u ∷ us) = Sendable u × AllSendable us

module _ (number : Bytes → ℤ) where
  -- The command of a chunk is built, and handled.
  abbrev pub handle_upload : Scene → ℤ → Upload → Option Scene
  handle_upload s flags u =
      bind
        (construct_cmd gcode_append
          (six_args u.text flags u.total_lines u.seq_number u.seq_total u.source))
        (hnd_gcode_append number s)

  abbrev pub handle_all : Scene → List Upload → Option Scene
  handle_all s [] = some s
  handle_all s (u ∷ us) = bind (handle_upload s (pos 0) u) (λ s'. handle_all s' us)

  -- The first chunk has the first bit, the last one the second.
  abbrev pub handle_transaction : Scene → Upload → List Upload → Upload → Option Scene
  handle_transaction s first us last =
      bind (handle_upload s (pos 1) first)
        (λ s1. bind (handle_all s1 us) (λ s2. handle_upload s2 (pos 2) last))

  told-same : (s : Scene) → s.client.transaction.cancelled ≡ false → told s ≡ s
  told-same s h = rw h refl

  handle_upload-feed :
      (s : Scene) (flags : ℤ) (u : Upload)
      → IsInt16 flags
      → Sendable u
      → s.client.transaction.cancelled ≡ false
      → handle_upload s flags u ≡ feed number s (to_uint16 flags) (part_of u)
  handle_upload-feed s flags u f ok h =
      let args = six_args u.text flags u.total_lines u.seq_number u.seq_total u.source in
      let b = encode gcode_append (map arg_bytes args) in
      let (fit, made) =
        six_args-encode u.text flags u.total_lines u.seq_number u.seq_total u.source ok.text_fits
          ok.source_fits in
      ap (λ o. bind o (hnd_gcode_append number s)) made
      ∙ ap (hnd_gcode_append number s) (sym (append-nil b))
      ∙ hnd_gcode_append-construct number s b [] u.text flags u.total_lines u.seq_number u.seq_total
          u.source made ok.text_fits ok.source_fits ok.text_whole ok.source_whole f ok.total_fits
          ok.number_fits ok.seq_total_fits
      ∙ ap (λ x. feed number x (to_uint16 flags) (part_of u)) (told-same s h)

  zero-IsInt16 : IsInt16 (pos 0)
  unfolding IsInt16
  zero-IsInt16 = omega arith

  one-IsInt16 : IsInt16 (pos 1)
  unfolding IsInt16
  one-IsInt16 = omega arith

  two-IsInt16 : IsInt16 (pos 2)
  unfolding IsInt16
  two-IsInt16 = omega arith

  texts-joined : (us : List Upload) → texts (map part_of us) ≡ joined_texts us
  texts-joined [] = refl
  texts-joined (u ∷ us) = ap (λ t. u.text ++ t) (texts-joined us)

  handle_all-feed_all :
      (us : List Upload) (s : Scene)
      → s.client.transaction.cancelled ≡ false
      → AllSendable us
      → handle_all s us ≡ feed_all number s (map part_of us)
  unfolding to_uint16
  handle_all-feed_all [] s h oks = refl
  handle_all-feed_all (u ∷ us) s h (ok, oks) =
      let (s1, e, g) = feed_middle number s (part_of u) in
      let handled = handle_upload-feed s (pos 0) u zero-IsInt16 ok h ∙ e in
      ap (λ o. bind o (λ s'. handle_all s' us)) handled
      ∙ handle_all-feed_all us s1 (g.cancelled_kept ∙ h) oks
      ∙ sym (ap (λ o. bind o (λ s'. feed_all number s' (map part_of us))) e)

  handle_transaction-run :
      (s : Scene) (first : Upload) (us : List Upload) (last : Upload)
      → s.client.transaction.cancelled ≡ false
      → Sendable first
      → AllSendable us
      → Sendable last
      → handle_transaction s first us last
        ≡ run_transaction number s (part_of first) (map part_of us) (part_of last)
  unfolding to_uint16
  handle_transaction-run s first us last h ok oks ok' =
      let ps = map part_of us in
      let (s1, e, b, d, c) = feed_first number s (part_of first) in
      let (s2, f, g) = feed_all-Grown number ps s1 in
      let handled : handle_upload s (pos 1) first ≡ some s1 =
        handle_upload-feed s (pos 1) first one-IsInt16 ok h ∙ e in
      let all_handled = handle_all-feed_all us s1 (c ∙ h) oks ∙ f in
      ap (λ o. bind o (λ x. bind (handle_all x us) (λ y. handle_upload y (pos 2) last))) handled
      ∙ ap (λ o. bind o (λ y. handle_upload y (pos 2) last)) all_handled
      ∙ handle_upload-feed s2 (pos 2) last two-IsInt16 ok' (g.cancelled_kept ∙ c ∙ h)
      ∙ sym (
          ap (λ o. bind o (λ x. bind (feed_all number x ps) (λ y. feed number y 2 (part_of last))))
            e
          ∙ ap (λ o. bind o (λ y. feed number y 2 (part_of last))) f)

  -- Over a whole transaction, the commands of a first chunk, of any chunks in between and of a last
  -- one, each built by construct_cmd and handled by hnd_gcodeAppend, the driver sees exactly one
  -- append: the texts joined, with the line total and the metadata of the last chunk. The server has
  -- a driver, the client's transaction is not cancelled, the lengths and the numbers fit their fields,
  -- and no text or source has a zero byte.
  pub handle_transaction-append :
      (s : Scene) (d : Driver) (first : Upload) (us : List Upload) (last : Upload)
      → s.driver ≡ some d
      → s.client.transaction.cancelled ≡ false
      → Sendable first
      → AllSendable us
      → Sendable last
      → driver_after number (handle_transaction s first us last)
        ≡ appended number (
            append_gcode number d
              (first.text ++ joined_texts us ++ last.text)
              last.total_lines
              (some (metadata_of last)))
  handle_transaction-append s d first us last e h ok oks ok' =
      ap (driver_after number) (handle_transaction-run s first us last h ok oks ok')
      ∙ run_transaction-append number s d (part_of first) (map part_of us) (part_of last) e
      ∙ ap
          (λ t. appended number (
            append_gcode number d (first.text ++ t ++ last.text) last.total_lines
              (some (metadata_of last))))
          (texts-joined us)
