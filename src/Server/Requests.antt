-- ===== src/Server/Requests.antt =====
-- From the wire to the handler: a gcodeAppend command as a frontend builds it.
use print3d.Prelude.{
  ℕ, ◌+◌, ◌^◌, ◌<◌, ◌≡◌, refl, ap, ◌∙◌, false, some, [], ◌∷◌, ◌++◌, if◌then◌else◌, arith, length,
}
use mathlib.Core.Path.{ap₂}
use print3d.Prelude.Int.{ℤ, pos, eq_ℤ}
use print3d.Prelude.Text.{Bytes, codes, count}
use print3d.Ipc.Wire.{to_uint16, IsInt16, IsInt32}
use print3d.Ipc.Codes.{gcode_append, trx_cancelled}
use print3d.Ipc.Command.{construct_cmd, c_text}
use print3d.Server.Client.{Scene, send_reply}
use print3d.Server.Handlers.{
  num_args, answer_cancelled, append_chunk_text, append_args, hnd_gcode_append,
}
use print3d.Server.Carried.{six_args, six_args-Carries, append_args-Carries}

hnd_gcode_append-args :
    (number : Bytes → ℤ) (s : Scene) (buf : Bytes) (n : ℕ)
    → num_args buf ≡ pos (1 + n)
    → hnd_gcode_append number s buf ≡ append_args number (answer_cancelled number s) buf
unfolding hnd_gcode_append
hnd_gcode_append-args number s buf n e =
    let z : eq_ℤ (pos (1 + n)) (pos 0) ≡ false = ground arith in rw (e, z, hnd_gcode_append) refl

-- The arguments as the handler reads them.
hnd_gcode_append-built :
    (number : Bytes → ℤ) (s : Scene) (b r chunk : Bytes)
    (flags total_lines seq_number seq_total : ℤ) (source : Bytes)
    → construct_cmd gcode_append (six_args chunk flags total_lines seq_number seq_total source)
      ≡ some b
    → length chunk < 2 ^ 32
    → length source < 2 ^ 32
    → IsInt16 flags
    → IsInt32 total_lines
    → IsInt32 seq_number
    → IsInt32 seq_total
    → hnd_gcode_append number s (b ++ r)
      ≡ append_chunk_text number
          (answer_cancelled number s)
          (to_uint16 flags)
          total_lines
          (record { seq_number = seq_number; seq_total = seq_total; source = some (c_text source) })
          (c_text chunk)
hnd_gcode_append-built number s b r chunk flags total_lines seq_number seq_total source built l l' f
      t n m =
    let c =
      six_args-Carries b r chunk flags total_lines seq_number seq_total source built l l' f t n m in
    hnd_gcode_append-args number s (b ++ r) 5 c.count
    ∙ append_args-Carries number (answer_cancelled number s) (b ++ r) chunk flags total_lines
        seq_number seq_total source c

c_text-whole : (s : Bytes) → count 0 s ≡ 0 → c_text s ≡ s
unfolding c_text
c_text-whole [] h = refl
c_text-whole (c ∷ s) h = ground (arith, c_text-whole s)

-- What is done for a client whose transaction is cancelled: it is told so, and its chunk goes on.
abbrev pub told : Scene → Scene
told s =
    if s.client.transaction.cancelled
    then send_reply s trx_cancelled (some (codes "transaction cancelled"))
    else s

answer_cancelled-told : (number : Bytes → ℤ) (s : Scene) → answer_cancelled number s ≡ told s
unfolding answer_cancelled
answer_cancelled-told number s = refl

-- A gcodeAppend command that construct_cmd built with all six arguments does what they say: the
-- handler reads back the text, the flags, the line total and the metadata that were put in, whatever
-- follows the command. A client whose transaction is cancelled is not blocked: it gets the reply
-- trx_cancelled, and its command is carried out all the same. The lengths fit their fields, the
-- numbers are in range, and the text and the source have no zero byte.
pub hnd_gcode_append-construct :
    (number : Bytes → ℤ) (s : Scene) (b r chunk : Bytes)
    (flags total_lines seq_number seq_total : ℤ) (source : Bytes)
    → construct_cmd gcode_append (six_args chunk flags total_lines seq_number seq_total source)
      ≡ some b
    → length chunk < 2 ^ 32
    → length source < 2 ^ 32
    → count 0 chunk ≡ 0
    → count 0 source ≡ 0
    → IsInt16 flags
    → IsInt32 total_lines
    → IsInt32 seq_number
    → IsInt32 seq_total
    → hnd_gcode_append number s (b ++ r)
      ≡ append_chunk_text number
          (told s)
          (to_uint16 flags)
          total_lines
          (record { seq_number = seq_number; seq_total = seq_total; source = some source })
          chunk
hnd_gcode_append-construct number s b r chunk flags total_lines seq_number seq_total source built l
      l' z z' f t n m =
    hnd_gcode_append-built number s b r chunk flags total_lines seq_number seq_total source built l
      l' f t n m
    ∙ ap₂
        (λ x y.
          append_chunk_text number (answer_cancelled number s) (to_uint16 flags) total_lines
            (record { seq_number = seq_number; seq_total = seq_total; source = some y }) x)
        (c_text-whole chunk z) (c_text-whole source z')
    ∙ ap
        (λ x.
          append_chunk_text number x (to_uint16 flags) total_lines
            (record { seq_number = seq_number; seq_total = seq_total; source = some source }) chunk)
        (answer_cancelled-told number s)
