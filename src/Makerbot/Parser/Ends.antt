-- ===== src/Makerbot/Parser/Ends.antt =====
-- The loop over the commands comes to the end of the buffer.
use print3d.Prelude.{
  ℕ, zero, suc, ◌+◌, ◌≤◌, ◌≡◌, refl, ap, sym, subst, inl, inr, Bool, true, false, Option, none,
  some, [], ◌∷◌, ◌++◌, arith, ltb, ◌==◌, if◌then◌else◌, length, length-drop, get_or, Bool-cases,
}
use print3d.Prelude.Text.{Bytes}
use print3d.Makerbot.Parser.Plain.{parse_all-end, parse_next_command-cons}
use print3d.Makerbot.Parser.{
  calcsize, format_of, Parser, cut, cut_text, behind_head, parse_tool_action, parse_text_action,
  parse_command, parsed, parse_next_command, parse_all,
}

-- What is left behind a piece is no longer than what the piece was taken from.
abbrev Shrinks : Bytes → Option (Bytes × Bytes) → Type 0
Shrinks s none = Unit
Shrinks s (some (piece, r)) = length r ≤ length s

cut-Shrinks : (n : ℕ) (s : Bytes) → Shrinks s (cut n s)
unfolding cut
cut-Shrinks n s = elim (Bool-cases (ltb (length s) n)) [
  | inl e ↦ rw e tt
  | inr e ↦ rw e (omega (arith, length-drop n s))
]

text_Shrinks :
    (c : ℕ) (s : Bytes) (ended : Bool) (o : Option (Bytes × Bytes))
    → Shrinks s o
    → Shrinks (c ∷ s) (
        if ended
        then some ([], c ∷ s)
        else elim o [ none ↦ none | some (text, r) ↦ some (c ∷ text, r) ])
text_Shrinks c s true o h = omega arith
text_Shrinks c s false none h = tt
text_Shrinks c s false (some (text, r)) h = omega arith

cut_text-Shrinks : (s : Bytes) → Shrinks s (cut_text s)
unfolding cut_text
cut_text-Shrinks [] = tt
cut_text-Shrinks (c ∷ s) = text_Shrinks c s (c == 0) (cut_text s) (cut_text-Shrinks s)

behind_head-Shrinks :
    (head s : Bytes) (o : Option (Bytes × Bytes)) → Shrinks s o → Shrinks s (behind_head head o)
behind_head-Shrinks head s none h = tt
behind_head-Shrinks head s (some (payload, r)) h = h

Shrinks-trans :
    (s t : Bytes) (o : Option (Bytes × Bytes)) → length t ≤ length s → Shrinks t o → Shrinks s o
Shrinks-trans s t none h k = tt
Shrinks-trans s t (some (piece, r)) h k = omega arith

then_Shrinks :
    (s : Bytes) (o : Option (Bytes × Bytes)) (f : Bytes → Bytes → Option (Bytes × Bytes))
    → Shrinks s o
    → ((piece r : Bytes) → Shrinks r (f piece r))
    → Shrinks s (elim o [ none ↦ none | some (piece, r) ↦ f piece r ])
then_Shrinks s none f h k = tt
then_Shrinks s (some (piece, r)) f h k = Shrinks-trans s r (f piece r) h (k piece r)

parse_tool_action-Shrinks : (s : Bytes) → Shrinks s (parse_tool_action s)
unfolding parse_tool_action
parse_tool_action-Shrinks s =
    then_Shrinks s (cut 3 s) (λ head r. behind_head (136 ∷ head) (cut (get_or head 2 0) r))
      (cut-Shrinks 3 s)
      (λ head r.
        behind_head-Shrinks (136 ∷ head) r (cut (get_or head 2 0) r)
          (cut-Shrinks (get_or head 2 0) r))

parse_text_action-Shrinks : (command : ℕ) (s : Bytes) → Shrinks s (parse_text_action command s)
unfolding parse_text_action
parse_text_action-Shrinks command s =
    then_Shrinks s (cut 4 s) (λ head r. behind_head (command ∷ []) (cut_text r)) (cut-Shrinks 4 s)
      (λ head r. behind_head-Shrinks (command ∷ []) r (cut_text r) (cut_text-Shrinks r))

parse_command-Shrinks : (c : ℕ) (s : Bytes) → Shrinks s (parse_command c s)
unfolding parse_command
parse_command-Shrinks c s =
    if_Shrinks s (c == 136) (parse_tool_action s) _ (parse_tool_action-Shrinks s) (
      if_Shrinks s (c == 149) (parse_text_action 149 s) _ (parse_text_action-Shrinks 149 s) (
        if_Shrinks s (c == 153) (parse_text_action 153 s) _ (parse_text_action-Shrinks 153 s) (
          behind_head-Shrinks (c ∷ []) s (cut (calcsize (format_of c)) s)
            (cut-Shrinks (calcsize (format_of c)) s))))
  where
    if_Shrinks :
        (s : Bytes) (b : Bool) (o p : Option (Bytes × Bytes))
        → Shrinks s o
        → Shrinks s p
        → Shrinks s (if b then o else p)
    if_Shrinks s true o p h k = h
    if_Shrinks s false o p h k = k

-- Either a command reads behind the end of the buffer, or the whole buffer is read.
abbrev pub ReadsWhole : Option Parser → Type 0
ReadsWhole none = Unit
ReadsWhole (some q) = q.unread ≡ []

parse_all-turn :
    (n : ℕ) (p : Parser) (c : ℕ) (s : Bytes) (o : Option (Bytes × Bytes))
    → parse_next_command p ≡ parsed p o
    → Shrinks s o
    → length s ≤ n
    → ((q : Parser) → length q.unread ≤ n → ReadsWhole (parse_all n q))
    → ReadsWhole (parse_all (suc n) p)
parse_all-turn n p c s none e h l k = rw (parse_all, e) tt
parse_all-turn n p c s (some (command, r)) e h l k =
    rw (parse_all, e)
      (k
        (record {
          unread = r;
          line_number = p.line_number + 1;
          commands = p.commands ++ (command ∷ []);
        })
        (omega arith))

nil_of_length : (s : Bytes) → length s ≤ 0 → s ≡ []
nil_of_length [] h = refl
nil_of_length (c ∷ s) h = absurd (omega arith)

-- With a turn for every byte the loop ends because the whole buffer is read, unless a command reads
-- behind the end of the buffer.
pub parse_all-ReadsWhole : (n : ℕ) (p : Parser) → length p.unread ≤ n → ReadsWhole (parse_all n p)
parse_all-ReadsWhole zero p h = nil_of_length p.unread h
parse_all-ReadsWhole (suc n) p h = split (parse_all-ReadsWhole n) p.unread refl
  where
    split :
        ((q : Parser) → length q.unread ≤ n → ReadsWhole (parse_all n q))
        → (s : Bytes) → p.unread ≡ s
        → ReadsWhole (parse_all (suc n) p)
    split k [] e = subst ReadsWhole (sym (parse_all-end (suc n) p e)) e
    split k (c ∷ s) e =
        let l : length p.unread ≡ suc (length s) = ap length e in
        parse_all-turn n p c s (parse_command c s) (parse_next_command-cons p c s e)
          (parse_command-Shrinks c s) (omega arith) k
