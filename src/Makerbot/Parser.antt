-- ===== src/Makerbot/Parser.antt =====
-- src/drivers/S3GParser.h: cutting the bytes that gpx makes of gcode into commands for the printer.
-- `none` is a read behind the end of the buffer.
pub mod Plain
pub mod Ends
pub mod Messages
use print3d.Prelude.{
  ℕ, zero, suc, ◌+◌, ◌-◌, Bool, true, false, Option, none, some, List, [], ◌∷◌, ◌++◌, ltb, ◌==◌,
  if◌then◌else◌, length, take, drop, get_or,
}
use print3d.Prelude.Text.{Bytes, codes, index_of}

-- What a command byte is followed by. A byte without an entry has the empty format.
abbrev pub command_table : List (ℕ × Bytes)
command_table =
    (129, codes "<iiiI")
    ∷ (130, codes "<iii")
    ∷ (131, codes "<BIH")
    ∷ (132, codes "<BIH")
    ∷ (133, codes "<I")
    ∷ (134, codes "<B")
    ∷ (135, codes "<BHH")
    ∷ (136, codes "")
    ∷ (137, codes "<B")
    ∷ (138, codes "<H")
    ∷ (139, codes "<iiiiiI")
    ∷ (140, codes "<iiiii")
    ∷ (141, codes "<BHH")
    ∷ (142, codes "<iiiiiIB")
    ∷ (143, codes "<b")
    ∷ (144, codes "<b")
    ∷ (145, codes "<BB")
    ∷ (146, codes "<BBBBB")
    ∷ (147, codes "<HHB")
    ∷ (148, codes "<BHB")
    ∷ (149, codes "")
    ∷ (150, codes "<BB")
    ∷ (151, codes "<B")
    ∷ (152, codes "<B")
    ∷ (153, codes "")
    ∷ (154, codes "<B")
    ∷ (155, codes "<iiiiiIBfh")
    ∷ (156, codes "<B")
    ∷ (157, codes "<BBBIHHIIB")
    ∷ (158, codes "<f")
    ∷ []

unfoldable pub format_in : List (ℕ × Bytes) → ℕ → Bytes
format_in [] command = []
format_in (e ∷ es) command = if e.0 == command then e.1 else format_in es command

-- `commandTable[command].format`
unfoldable pub format_of : ℕ → Bytes
unfolding format_in
format_of command = format_in command_table command

-- The size of one letter of a format. The loop also compares with the zero byte that ends the
-- letters, which no format has.
unfoldable pub letter_size : ℕ → ℕ
unfolding index_of
letter_size c = elim (index_of c (codes "@=<>!cbB?hHiIlLqQfdspP")) [
  | none ↦ 0
  | some i ↦ get_or (codes "0000011112244448848005") i b'0' - b'0'
]

abbrev pub calcsize : Bytes → ℕ
calcsize [] = 0
calcsize (c ∷ format) = letter_size c + calcsize format

-- `unread` stands for the buffer from bufferPos on, up to bufferSize.
pub record Parser : Type 0 where
  pub unread : Bytes
  pub line_number : ℕ
  pub commands : List Bytes

abbrev pub set_buffer : Parser → Bytes → Parser
set_buffer p buf = record p { unread = buf; line_number = 0 }

-- The next `n` bytes, and what stands behind them.
unfoldable pub cut : ℕ → Bytes → Option (Bytes × Bytes)
cut n s = if ltb (length s) n then none else some (take n s, drop n s)

-- The bytes before the next zero byte, and the rest, which begins with that byte.
unfoldable pub cut_text : Bytes → Option (Bytes × Bytes)
cut_text [] = none
cut_text (c ∷ s) =
    let rest = cut_text s in
    if c == 0
    then some ([], c ∷ s)
    else elim rest [ none ↦ none | some (text, r) ↦ some (c ∷ text, r) ]

abbrev pub behind_head : Bytes → Option (Bytes × Bytes) → Option (Bytes × Bytes)
behind_head head none = none
behind_head head (some (payload, r)) = some (head ++ payload, r)

unfoldable pub parse_tool_action : Bytes → Option (Bytes × Bytes)
unfolding cut
parse_tool_action s = elim (cut 3 s) [
  | none ↦ none
  | some (head, r) ↦ behind_head (136 ∷ head) (cut (get_or head 2 0) r)
]

-- parseDisplayMessageAction and parseBuildStartNotificationAction
unfoldable pub parse_text_action : ℕ → Bytes → Option (Bytes × Bytes)
unfolding cut cut_text
parse_text_action command s = elim (cut 4 s) [
  | none ↦ none
  | some (head, r) ↦ behind_head (command ∷ []) (cut_text r)
]

unfoldable pub parse_command : ℕ → Bytes → Option (Bytes × Bytes)
unfolding parse_tool_action parse_text_action format_of letter_size cut
parse_command command s =
    if command == 136
    then parse_tool_action s
    else if command == 149
    then parse_text_action 149 s
    else if command == 153
    then parse_text_action 153 s
    else behind_head (command ∷ []) (cut (calcsize (format_of command)) s)

abbrev pub parsed : Parser → Option (Bytes × Bytes) → Option (Bool × Parser)
parsed p none = none
parsed p (some (command, r)) = some (
  true,
  record { unread = r; line_number = p.line_number + 1; commands = p.commands ++ (command ∷ []) },
)

abbrev pub next_of : Parser → Bytes → Option (Bool × Parser)
next_of p [] = some (false, p)
next_of p (command ∷ s) = parsed p (parse_command command s)

unfoldable pub parse_next_command : Parser → Option (Bool × Parser)
unfolding parse_command
parse_next_command p = next_of p p.unread

-- `while (parser_.parseNextCommand());`, with a turn for every byte.
abbrev pub parse_all : ℕ → Parser → Option Parser
parse_all zero p = some p
parse_all (suc fuel) p = elim (parse_next_command p) [
  | none ↦ none
  | some (false, q) ↦ some q
  | some (true, q) ↦ parse_all fuel q
]
