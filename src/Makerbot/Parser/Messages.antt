-- ===== src/Makerbot/Parser/Messages.antt =====
-- The two commands that carry a text, a display message and the start of a build.
use print3d.Prelude.{ℕ, suc, ◌≡◌, ◌⊎◌, inl, inr, refl, ap, ◌∙◌, some, [], ◌∷◌, ◌++◌, arith}
use print3d.Prelude.Text.{Bytes, count}
use print3d.Makerbot.Parser.{
  Parser, cut_text, behind_head, parse_text_action, parse_command, parsed, parse_next_command,
  parse_all,
}
use print3d.Makerbot.Parser.Plain.{
  cut-append, behind_command, parse_next_command-cons, parse_all-next,
}

cut_text-zero :
    (text rest : Bytes) → count 0 text ≡ 0 → cut_text (text ++ (0 ∷ rest)) ≡ some (text, 0 ∷ rest)
unfolding cut_text
cut_text-zero [] rest h = refl
cut_text-zero (c ∷ text) rest h = ground (arith, cut_text-zero text rest)

parse_text_action-zero :
    (command a b c d : ℕ) (text rest : Bytes)
    → count 0 text ≡ 0
    → parse_text_action command (a ∷ b ∷ c ∷ d ∷ text ++ (0 ∷ rest))
      ≡ some (command ∷ text, 0 ∷ rest)
unfolding parse_text_action
parse_text_action-zero command a b c d text rest h =
    rw (parse_text_action, cut-append (a ∷ b ∷ c ∷ d ∷ []) (text ++ (0 ∷ rest)))
      (ap (behind_head (command ∷ [])) (cut_text-zero text rest h))

parse_command-text :
    (command : ℕ) (s : Bytes)
    → (command ≡ 149) ⊎ (command ≡ 153)
    → parse_command command s ≡ parse_text_action command s
unfolding parse_command
parse_command-text command s (inl e) = rw e refl
parse_command-text command s (inr e) = rw e refl

parse_command-zero : (s : Bytes) → parse_command 0 s ≡ some (0 ∷ [], s)
unfolding parse_command
parse_command-zero s = ap (behind_head (0 ∷ [])) (cut-append [] s)

-- Of a message with four bytes of options the queue gets the command byte and the text alone: the
-- options are dropped, and the zero byte that ends the text becomes a command of its own.
pub parse_all-message :
    (n : ℕ) (p : Parser) (command a b c d : ℕ) (text rest : Bytes)
    → (command ≡ 149) ⊎ (command ≡ 153)
    → count 0 text ≡ 0
    → p.unread ≡ command ∷ a ∷ b ∷ c ∷ d ∷ text ++ (0 ∷ rest)
    → parse_all (suc (suc n)) p
      ≡ parse_all n (behind_command (behind_command p (command ∷ text) (0 ∷ rest)) (0 ∷ []) rest)
unfolding parse_next_command
parse_all-message n p command a b c d text rest k h e =
    let q = behind_command p (command ∷ text) (0 ∷ rest) in
    parse_all-next (suc n) p q (
      parse_next_command-cons p command (a ∷ b ∷ c ∷ d ∷ text ++ (0 ∷ rest)) e
      ∙ ap (parsed p) (
          parse_command-text command (a ∷ b ∷ c ∷ d ∷ text ++ (0 ∷ rest)) k
          ∙ parse_text_action-zero command a b c d text rest h))
    ∙ parse_all-next n q (behind_command q (0 ∷ []) rest) (ap (parsed q) (parse_command-zero rest))
