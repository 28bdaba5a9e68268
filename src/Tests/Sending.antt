-- ===== src/Tests/Sending.antt =====
-- src/frontends/communicator.c at concrete inputs.
use print3d.Prelude.{◌≡◌, ◌≢◌, ◌+◌, refl, ℕ, Option, none, some, [], ◌∷◌, ◌++◌, replicate, ◌∙◌, sym}
use print3d.Prelude.Int.{pos, negsuc}
use print3d.Prelude.Text.{Bytes, codes, lf}
use print3d.Frontend.Replies.{handled, handle_basic_response}
use print3d.Frontend.Packets.{packet_length, send_gcode_data, IsPacket, packet_length-IsPacket}

-- two lines that do not fit one packet
abbrev long_gcode : Bytes
long_gcode = replicate 600 b'G' ++ (lf ∷ replicate 600 b'M')

long_run : packet_length long_gcode ≡ 601
unfolding packet_length
long_run = refl

packet_found : packet_length long_gcode ≢ 0
packet_found e = absurd (six_hundred (sym long_run ∙ e))
  where
    six_hundred : ◌≢◌ {A = ℕ} 601 0
    six_hundred e = cc

packet_length-IsPacket_example : IsPacket long_gcode (packet_length long_gcode)
packet_length-IsPacket_example = packet_length-IsPacket long_gcode packet_found

abbrev retry : Bytes
retry = 0 ∷ 0xE4 ∷ 0 ∷ 0 ∷ []

reply_run :
    handle_basic_response (some retry) (pos 0)
    ≡ some (handled (negsuc 3) (some (codes "retry_later")))
unfolding handle_basic_response
reply_run = refl

-- A server that counts what it is sent, and answers ok.
abbrev counting : ℕ → Option Bytes → ℕ × Option Bytes
counting n cmd = (n + 1, some (0 ∷ 0xE0 ∷ 0 ∷ 0 ∷ []))

send_run : send_gcode_data counting 0 (codes "G1\nG2\n") (pos 2) none ≡ some (1, pos 0)
unfolding send_gcode_data
send_run = refl
