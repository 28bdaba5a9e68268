-- ===== src/Makerbot/Parser/Plain.antt =====
-- Commands that the parser hands on as they stand in the buffer, and the two that carry a text.
use print3d.Prelude.{
  ℕ, zero, suc, ◌+◌, ◌≤◌, ◌≡◌, ◌≢◌, refl, ap, sym, ◌∙◌, false, true, some, List, [], ◌∷◌, ◌++◌,
  append-nil, append_assoc, arith, ltb, ◌==◌, length, length-append,
}
use print3d.Prelude.Text.{Bytes, take-append, drop-append}
use print3d.Makerbot.Parser.{
  calcsize, format_of, Parser, cut, behind_head, parse_tool_action, parse_command, parsed, next_of,
  parse_next_command, parse_all,
}

-- A command whose size follows from its format, or a tool action with its own size.
pub data PlainCommand : Bytes → Type 0 where
  fixed :
      (c : ℕ) (args : Bytes)
      → c ≢ 136
      → c ≢ 149
      → c ≢ 153
      → length args ≡ calcsize (format_of c)
      → PlainCommand (c ∷ args)
  tool_action :
      (index tool_command : ℕ) (payload : Bytes)
      → PlainCommand (136 ∷ index ∷ tool_command ∷ length payload ∷ payload)

abbrev pub AllPlain : List Bytes → Type 0
AllPlain [] = Unit
AllPlain (c ∷ cs) = PlainCommand c × AllPlain cs

-- The commands one behind the other.
abbrev pub wire : List Bytes → Bytes
wire [] = []
wire (c ∷ cs) = c ++ wire cs

pub cut-append : (s r : Bytes) → cut (length s) (s ++ r) ≡ some (s, r)
unfolding cut
cut-append s r =
    let e : ltb (length (s ++ r)) (length s) ≡ false = ground (arith, length-append s r) in
    rw (e, take-append s r, drop-append s r) refl

parse_command-fixed :
    (c : ℕ) (args r : Bytes)
    → c ≢ 136
    → c ≢ 149
    → c ≢ 153
    → length args ≡ calcsize (format_of c)
    → parse_command c (args ++ r) ≡ some (c ∷ args, r)
unfolding parse_command
parse_command-fixed c args r h k l e =
    let a : (c == 136) ≡ false = ground arith in
    let b : (c == 149) ≡ false = ground arith in
    let d : (c == 153) ≡ false = ground arith in rw (a, b, d, sym e, cut-append args r) refl

parse_tool_action-append :
    (i t : ℕ) (payload r : Bytes)
    → parse_tool_action (i ∷ t ∷ length payload ∷ payload ++ r)
      ≡ some (136 ∷ i ∷ t ∷ length payload ∷ payload, r)
unfolding parse_tool_action
parse_tool_action-append i t payload r =
    rw (parse_tool_action, cut-append (i ∷ t ∷ length payload ∷ []) (payload ++ r))
      (ap (behind_head (136 ∷ i ∷ t ∷ length payload ∷ [])) (cut-append payload r))

parse_command-tool_action :
    (i t : ℕ) (payload r : Bytes)
    → parse_command 136 (i ∷ t ∷ length payload ∷ payload ++ r)
      ≡ some (136 ∷ i ∷ t ∷ length payload ∷ payload, r)
unfolding parse_command
parse_command-tool_action i t payload r = parse_tool_action-append i t payload r

pub parse_next_command-cons :
    (p : Parser) (c : ℕ) (s : Bytes)
    → p.unread ≡ c ∷ s
    → parse_next_command p ≡ parsed p (parse_command c s)
unfolding parse_next_command
parse_next_command-cons p c s e = ap (next_of p) e

-- The parser behind one command.
abbrev pub behind_command : Parser → Bytes → Bytes → Parser
behind_command p c r = record {
  unread = r;
  line_number = p.line_number + 1;
  commands = p.commands ++ (c ∷ []);
}

next_of-plain :
    (p : Parser) (c r : Bytes)
    → PlainCommand c
    → next_of p (c ++ r) ≡ some (true, behind_command p c r)
unfolding parse_command
next_of-plain p c r (fixed b args h k l e) = ap (parsed p) (parse_command-fixed b args r h k l e)
next_of-plain p c r (tool_action i t payload) =
    ap (parsed p) (parse_command-tool_action i t payload r)

-- The parser behind some commands.
abbrev pub behind_commands : Parser → List Bytes → Parser
behind_commands p cs = record {
  unread = [];
  line_number = p.line_number + length cs;
  commands = p.commands ++ cs;
}

behind_none : (p : Parser) → p.unread ≡ [] → p ≡ behind_commands p []
behind_none p e =
    let k : p.line_number + 0 ≡ p.line_number = omega arith in
    rw (k, append-nil p.commands)
      (ap (λ u. record { unread = u; line_number = p.line_number; commands = p.commands }) e)

behind_commands-cons :
    (p : Parser) (c : Bytes) (cs : List Bytes)
    → behind_commands (behind_command p c (wire cs)) cs ≡ behind_commands p (c ∷ cs)
behind_commands-cons p c cs =
    let k : p.line_number + 1 + length cs ≡ p.line_number + length (c ∷ cs) = omega arith in
    rw (k, append_assoc p.commands (c ∷ []) cs) refl

PlainCommand-size : (c : Bytes) → PlainCommand c → length c ≢ 0
PlainCommand-size c (fixed b args h k l e) z = omega arith
PlainCommand-size c (tool_action i t payload) z = omega arith

pub parse_all-end : (n : ℕ) (p : Parser) → p.unread ≡ [] → parse_all n p ≡ some p
unfolding parse_next_command
parse_all-end zero p e = refl
parse_all-end (suc n) p e = end_of n p (ap (next_of p) e)
  where
    end_of :
        (n : ℕ) (p : Parser) → parse_next_command p ≡ some (false, p) → parse_all (suc n) p ≡ some p
    end_of n p e = rw (parse_all, e) refl

pub parse_all-next :
    (n : ℕ) (p q : Parser)
    → parse_next_command p ≡ some (true, q)
    → parse_all (suc n) p ≡ parse_all n q
parse_all-next n p q e = rw (parse_all, e) refl

-- Commands whose size follows from their format, and tool actions, one behind the other, are handed
-- on as they stand and in their order, behind the commands that the parser has, and the whole buffer
-- is read, when the loop may turn once for every byte.
pub parse_all-wire :
    (n : ℕ) (p : Parser) (cs : List Bytes)
    → AllPlain cs
    → length (wire cs) ≤ n
    → p.unread ≡ wire cs
    → parse_all n p ≡ some (behind_commands p cs)
unfolding parse_next_command
parse_all-wire n p [] h l e = parse_all-end n p e ∙ ap some (behind_none p e)
parse_all-wire zero p (c ∷ cs) (h, hs) l e =
    absurd (PlainCommand-size c h (omega (arith, length-append c (wire cs))))
parse_all-wire (suc n) p (c ∷ cs) (h, hs) l e =
    let q = behind_command p c (wire cs) in
    parse_all-next n p q (ap (next_of p) e ∙ next_of-plain p c (wire cs) h)
    ∙ parse_all-wire n q cs hs (omega (arith, length-append c (wire cs), PlainCommand-size c h))
        refl
    ∙ ap some (behind_commands-cons p c cs)
