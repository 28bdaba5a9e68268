-- ===== src/Server/Handlers.antt =====
-- src/server/CommandHandler.cpp: the handlers. `none` is a crash: a null or unset pointer that is
-- read, a read past the end of the command, or an exception of the driver.
use print3d.Prelude.{
  ℕ, ◌/◌, ◌%◌, Bool, true, false, ◌&&◌, Option, none, some, [], ◌∷◌, ◌++◌, leb, ◌==◌, if◌then◌else◌,
}
pub use print3d.Prelude.{bind}
use print3d.Prelude.Int.{ℤ, pos, negsuc, ltb_ℤ, eq_ℤ}
use print3d.Prelude.Text.{Bytes, codes}
use print3d.Ipc.Codes.{reply_ok, gcode_add_failed, retry_later, trx_cancelled}
use print3d.Ipc.Wire.{to_uint16}
use print3d.Ipc.Command.{
  Access, found, no_arg, past_end, cmd_num_args, cmd_get_string_arg, cmd_get_short_arg,
  cmd_get_long_arg, c_text, short, long, blob, construct_cmd,
}
use print3d.GcodeBuffer.State.{MetaData, GcodeSetResult, gsr_name, max_buffer_size, get_total_lines}
use print3d.GcodeBuffer.Append.{is_ok}
use print3d.Driver.State.{printing, Driver, state_name}
use print3d.Driver.Print.{append_gcode, clear_gcode, start_print, stop_print, heatup}
use print3d.Server.Client.{
  Transaction, Scene, set_transaction, set_driver, send_built, send_reply, send_ok, send_error,
  cancel_all_transactions,
}

-- the `int` that the number of arguments is, -2 for a command that is too short
unfoldable pub num_args : Bytes → ℤ
unfolding cmd_num_args
num_args buf = elim (cmd_num_args buf) [ none ↦ negsuc 1 | some n ↦ pos n ]

abbrev pub value {ℓ} : {A : Type 0} {B : Type ℓ} → Access A → (A → Option B) → Option B
value (found a) f = f a
value no_arg f = none
value past_end f = none

unfoldable pub text_arg {ℓ} : {B : Type ℓ} → Bytes → ℕ → (Bytes → Option B) → Option B
unfolding cmd_get_string_arg c_text
text_arg buf i f = value (cmd_get_string_arg buf i) (λ s. f (c_text s))

-- An argument that is read only if the command has it.
unfoldable pub optional_long {ℓ} : {B : Type ℓ} → Bytes → ℕ → ℤ → (ℤ → Option B) → Option B
unfolding num_args cmd_get_long_arg
optional_long buf i default f =
    if ltb_ℤ (pos i) (num_args buf) then value (cmd_get_long_arg buf i) f else f default

unfoldable pub optional_text {ℓ} : {B : Type ℓ} → Bytes → ℕ → (Option Bytes → Option B) → Option B
unfolding num_args text_arg
optional_text buf i f =
    if ltb_ℤ (pos i) (num_args buf) then text_arg buf i (λ s. f (some s)) else f none

-- TRX_FIRST_CHUNK_BIT | TRX_LAST_CHUNK_BIT unless the command says otherwise
unfoldable pub transaction_flags {ℓ} : {B : Type ℓ} → Bytes → (ℕ → Option B) → Option B
unfolding num_args cmd_get_short_arg to_uint16
transaction_flags buf f =
    if ltb_ℤ (pos 1) (num_args buf)
    then value (cmd_get_short_arg buf 1) (λ v. f (to_uint16 v))
    else f 3

abbrev pub is_first_chunk : ℕ → Bool
is_first_chunk flags = flags % 2 == 1

abbrev pub is_last_chunk : ℕ → Bool
is_last_chunk flags = flags / 2 % 2 == 1

unfoldable pub hnd_test : Scene → Bytes → Option Scene
unfolding num_args text_arg send_built construct_cmd
hnd_test s buf =
    let answer : Bytes → Option Scene =
      λ t. some (send_built s (construct_cmd reply_ok (blob t ∷ []))) in
    if ltb_ℤ (pos 0) (num_args buf)
    then text_arg buf 0
        (λ arg. answer (codes "printserver test answer to the question: '" ++ (arg ++ codes "'")))
    else answer (codes "printserver test answer without question")

unfoldable pub is_known_temperature : ℤ → Bool
is_known_temperature (negsuc _) = false
is_known_temperature (pos n) = leb 1 n && leb n 5

-- The value that a known parameter of getTemperature selects.
unfoldable pub temperature_of : Driver → ℤ → ℕ
temperature_of d which =
    if eq_ℤ which (pos 1)
    then d.temperature
    else if eq_ℤ which (pos 2)
    then d.target_temperature
    else if eq_ℤ which (pos 3)
    then d.bed_temperature
    else if eq_ℤ which (pos 4)
    then d.target_bed_temperature
    else if d.heating
    then 1
    else 0

unfoldable pub answer_temperature : Scene → ℤ → Option Scene
unfolding send_built construct_cmd send_error is_known_temperature temperature_of
answer_temperature s which =
    if is_known_temperature which
    then bind s.driver (λ d.
      some (send_built s (construct_cmd reply_ok (short (pos (temperature_of d which)) ∷ []))))
    else some (send_error s (codes "unknown temperature parameter value"))

unfoldable pub hnd_get_temperature : Scene → Bytes → Option Scene
unfolding num_args cmd_get_short_arg answer_temperature send_error
hnd_get_temperature s buf =
    if ltb_ℤ (pos 0) (num_args buf)
    then value (cmd_get_short_arg buf 0) (λ which. answer_temperature s which)
    else some (send_error s (codes "missing argument"))

unfoldable pub hnd_gcode_clear : Scene → Option Scene
unfolding cancel_all_transactions clear_gcode send_ok
hnd_gcode_clear s =
    bind s.driver (λ d. some (send_ok (set_driver (cancel_all_transactions s) (clear_gcode d))))

unfoldable pub hnd_get_progress : Scene → Option Scene
unfolding send_built construct_cmd get_total_lines
hnd_get_progress s = bind s.driver (λ d.
    let b = d.gcode_buffer in
    some (
      send_built s (
        construct_cmd reply_ok (
          long b.current_line
          ∷ long b.buffered_lines
          ∷ long (get_total_lines b)
          ∷ long b.buffer_size
          ∷ long (pos max_buffer_size)
          ∷ long b.md.seq_number
          ∷ long b.md.seq_total
          ∷ []))))

unfoldable pub hnd_get_state : Scene → Option Scene
unfolding send_built construct_cmd state_name
hnd_get_state s =
    bind s.driver
      (λ d. some (send_built s (construct_cmd reply_ok (blob (state_name d.state) ∷ []))))

-- The transaction once a chunk has come in: cleared by the first, and one text longer.
unfoldable pub take_chunk : Transaction → ℕ → Bytes → Transaction
take_chunk t flags chunk =
    if is_first_chunk flags
    then record t { buffer = chunk; active = true }
    else record t { buffer = t.buffer ++ chunk }

abbrev pub finish_chunk : Transaction → Transaction
finish_chunk t = record t { buffer = []; active = false }

module _ (number : Bytes → ℤ) where
  unfoldable pub answer_append : Scene → GcodeSetResult → Scene
  unfolding send_ok send_reply gsr_name
  answer_append s gsr =
      if is_ok gsr then send_ok s else send_reply s gcode_add_failed (some (gsr_name gsr))

  -- What follows the arguments: the text goes to the transaction, and with its last chunk the
  -- whole transaction goes to the driver.
  unfoldable pub append_chunk_text : Scene → ℕ → ℤ → MetaData → Bytes → Option Scene
  unfolding take_chunk append_gcode answer_append send_ok
  append_chunk_text s flags total_lines m chunk =
      let t = take_chunk s.client.transaction flags chunk in
      if is_last_chunk flags
      then bind s.driver (λ d.
        bind (append_gcode number d t.buffer total_lines (some m))
          (λ r. some (answer_append (set_driver (set_transaction s (finish_chunk t)) r.0) r.1)))
      else some (send_ok (set_transaction s t))

  -- A cancelled transaction is answered as such, and goes on.
  unfoldable pub answer_cancelled : Scene → Scene
  unfolding send_reply
  answer_cancelled s =
      if s.client.transaction.cancelled
      then send_reply s trx_cancelled (some (codes "transaction cancelled"))
      else s

  -- The arguments behind the text, each read only if the command has it, and then the text.
  unfoldable pub append_args : Scene → Bytes → Option Scene
  unfolding append_chunk_text transaction_flags optional_long optional_text text_arg
  append_args s buf = transaction_flags buf (λ flags. optional_long buf 2 (negsuc 0) (λ total_lines.
      optional_long buf 3 (negsuc 0) (λ seq_number. optional_long buf 4 (negsuc 0) (λ seq_total.
        optional_text buf 5 (λ source. text_arg buf 0 (λ chunk.
          append_chunk_text s flags total_lines
            (record { seq_number = seq_number; seq_total = seq_total; source = source }) chunk))))))

  unfoldable pub hnd_gcode_append : Scene → Bytes → Option Scene
  unfolding num_args send_error answer_cancelled append_args
  hnd_gcode_append s buf =
      if eq_ℤ (num_args buf) (pos 0)
      then some (send_error s (codes "missing argument"))
      else append_args (answer_cancelled s) buf

  unfoldable pub hnd_gcode_start_print : Scene → Option Scene
  unfolding start_print send_ok
  hnd_gcode_start_print s =
      bind s.driver
        (λ d. bind (start_print number d printing) (λ r. some (send_ok (set_driver s r.0))))

  unfoldable pub hnd_gcode_stop_print : Scene → Bytes → Option Scene
  unfolding num_args text_arg cancel_all_transactions stop_print send_ok
  hnd_gcode_stop_print s buf = bind s.driver (λ d.
      let stop : Bytes → Option Scene = λ endcode.
        bind (stop_print number d endcode)
          (λ r. some (send_ok (set_driver (cancel_all_transactions s) r.0))) in
      if ltb_ℤ (pos 0) (num_args buf) then text_arg buf 0 stop else stop [])

  unfoldable pub hnd_heatup : Scene → Bytes → Option Scene
  unfolding num_args cmd_get_short_arg heatup send_ok send_error
  hnd_heatup s buf =
      if ltb_ℤ (pos 0) (num_args buf)
      then value (cmd_get_short_arg buf 0) (λ temperature.
        bind s.driver
          (λ d. bind (heatup number d temperature) (λ e. some (send_ok (set_driver s e)))))
      else some (send_error s (codes "missing argument"))

  -- `read_file` is what readFileContents gives for a path, `file_error` the message for a path that
  -- could not be read.
  module _ (read_file : Bytes → Option Bytes) (file_error : Bytes → Bytes) where
    -- What the driver answers to the text of a file is not looked at.
    unfoldable pub append_file : Scene → Bytes → Option Scene
    unfolding append_gcode c_text send_ok send_error
    append_file s filename = elim (read_file filename) [
      | none ↦ some (send_error s (file_error filename))
      | some contents ↦ bind s.driver (λ d.
          bind (append_gcode number d (c_text contents) (negsuc 0) none)
            (λ r. some (send_ok (set_driver s r.0))))
    ]

    -- A missing argument is answered, and the handler goes on.
    unfoldable pub hnd_gcode_append_file : Scene → Bytes → Option Scene
    unfolding num_args send_error send_reply text_arg append_file
    hnd_gcode_append_file s buf =
        let s' =
          if eq_ℤ (num_args buf) (pos 0) then send_error s (codes "missing argument") else s in
        if s'.client.transaction.active
        then some (send_reply s' retry_later (some (codes "transaction in progress")))
        else text_arg buf 0 (λ filename. append_file s' filename)
