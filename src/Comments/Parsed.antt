-- ===== src/Comments/Parsed.antt =====
-- The commands that a comment is understood as.
use eka_ci.Prelude.{
  ℕ, ◌==◌, ◌≡◌, refl, sym, ap, ◌∙◌, is_empty, Bool, true, false, not, ◌&&◌, none, some, List, [],
  ◌∷◌, ◌++◌, all, all-append, All, arith, eq_list,
}
use mathlib.Core.List.{append_assoc, append-nil}
use eka_ci.Prelude.Text.{Text, text, Text_eq, to_ascii_lowercase}
use eka_ci.Comments.{
  merge, squash, rebase, CommentCommand, merge_with, merge_cancel, as_str, is_whitespace, tokens,
  split_whitespace, without_return, lines_from, lines, parse_argument, parse_tokens, parse_line,
  first_command, parse_comment_command,
}

abbrev pub print_command : CommentCommand → Text
print_command (merge_with none) = text "@eka-ci merge"
print_command (merge_with (some method)) = text "@eka-ci merge " ++ as_str method
print_command merge_cancel = text "@eka-ci merge cancel"

-- Not the end of a line.
abbrev pub is_inner : ℕ → Bool
is_inner c = not (c == 10)

-- Neither the end of a line nor a return.
abbrev pub is_plain : ℕ → Bool
is_plain c = is_inner c && not (c == 13)

abbrev pub is_blank : ℕ → Bool
is_blank c = is_whitespace c && is_plain c

-- Lines, each with its end, before a rest.
unfoldable pub with_lines : List Text → Text → Text
with_lines [] rest = rest
with_lines (line ∷ more) rest = line ++ (10 ∷ with_lines more rest)

blank-plain : (indent : Text) → all is_blank indent ≡ true → all is_plain indent ≡ true
unfolding all
blank-plain [] h = refl
blank-plain (c ∷ s) h = ground (arith, h, blank-plain s)

plain-without_return : (line : Text) → all is_plain line ≡ true → without_return line ≡ line
unfolding all without_return
plain-without_return [] h = refl
plain-without_return (c ∷ []) h = ground (arith, h)
plain-without_return (c ∷ d ∷ s) h =
    ap (λ l. c ∷ l) (plain-without_return (d ∷ s) (ground (arith, h)))

lines_from-line :
    (read line rest : Text)
    → all is_inner line ≡ true
    → lines_from read (line ++ (10 ∷ rest)) ≡ without_return (read ++ line) ∷ lines_from [] rest
unfolding all lines_from
lines_from-line read [] rest h = rw (append-nil read) refl
lines_from-line read (c ∷ line) rest h =
    let inside : (c == 10) ≡ false = ground (arith, h) in
    let others : all is_inner line ≡ true = ground (arith, h) in
    rw inside (
      lines_from-line (read ++ c ∷ []) line rest others
      ∙ ap (λ l. without_return l ∷ lines_from [] rest) (append_assoc read (c ∷ []) line))

tokens-indent :
    (indent s : Text) → all is_blank indent ≡ true → tokens [] (indent ++ s) ≡ tokens [] s
unfolding all tokens
tokens-indent [] s h = refl
tokens-indent (c ∷ indent) s h =
    let space : is_whitespace c ≡ true = ground (arith, h) in
    rw space (tokens-indent indent s (ground (arith, h)))

parse_line-print :
    (command : CommentCommand) → parse_tokens (tokens [] (print_command command)) ≡ some command
unfolding parse_tokens tokens is_whitespace parse_argument to_ascii_lowercase eq_list
parse_line-print (merge_with none) = refl
parse_line-print (merge_with (some merge)) = refl
parse_line-print (merge_with (some squash)) = refl
parse_line-print (merge_with (some rebase)) = refl
parse_line-print merge_cancel = refl

print-plain : (command : CommentCommand) → all is_plain (print_command command) ≡ true
unfolding all
print-plain (merge_with none) = refl
print-plain (merge_with (some merge)) = refl
print-plain (merge_with (some squash)) = refl
print-plain (merge_with (some rebase)) = refl
print-plain merge_cancel = refl

parse_line-indented :
    (indent : Text) (command : CommentCommand)
    → all is_blank indent ≡ true
    → parse_line (indent ++ print_command command) ≡ some command
unfolding parse_line split_whitespace
parse_line-indented indent command blank =
    ap parse_tokens (tokens-indent indent (print_command command) blank) ∙ parse_line-print command

-- The end of a line: the end of the comment, or a line break with or without a return before it.
pub data LineEnd : Type 0 where
  last : LineEnd
  newline return_newline : (rest : Text) → LineEnd

abbrev pub print_end : LineEnd → Text
print_end last = []
print_end (newline rest) = 10 ∷ rest
print_end (return_newline rest) = 13 ∷ 10 ∷ rest

plain-inner : (line : Text) → all is_plain line ≡ true → all is_inner line ≡ true
unfolding all
plain-inner [] h = refl
plain-inner (c ∷ s) h = ground (arith, h, plain-inner s)

without_return-return :
    (line : Text) → all is_plain line ≡ true → without_return (line ++ 13 ∷ []) ≡ line
unfolding all without_return
without_return-return [] h = refl
without_return-return (c ∷ []) h = refl
without_return-return (c ∷ d ∷ s) h =
    ap (λ l. c ∷ l) (without_return-return (d ∷ s) (ground (arith, h)))

lines-line :
    (line rest : Text)
    → all is_inner line ≡ true
    → lines (line ++ (10 ∷ rest)) ≡ without_return line ∷ lines rest
unfolding lines
lines-line = lines_from-line []

-- A line that no end follows is read whole.
lines_from-last :
    (read line : Text)
    → all is_inner line ≡ true
    → is_empty (read ++ line) ≡ false
    → lines_from read line ≡ (read ++ line) ∷ []
unfolding all lines_from
lines_from-last read [] h full =
    let whole = rw (append-nil read) at full in rw (append-nil read, whole) refl
lines_from-last read (c ∷ line) h full =
    let inside : (c == 10) ≡ false = ground (arith, h) in
    let others : all is_inner line ≡ true = ground (arith, h) in
    rw inside (
      lines_from-last (read ++ c ∷ []) line others
        (ap is_empty (append_assoc read (c ∷ []) line) ∙ full)
      ∙ ap (λ l. l ∷ []) (append_assoc read (c ∷ []) line))

-- A plain line that is not empty comes first, whatever its end.
first_command-line :
    (line : Text) (end : LineEnd) (command : CommentCommand)
    → all is_plain line ≡ true
    → is_empty line ≡ false
    → parse_line line ≡ some command
    → first_command (lines (line ++ print_end end)) ≡ some command
unfolding first_command lines all
first_command-line line last command plain full parsed =
    rw (append-nil line, lines_from-last [] line (plain-inner line plain) full, parsed) refl
first_command-line line (newline rest) command plain full parsed =
    rw
      (
        lines_from-line [] line rest (plain-inner line plain),
        plain-without_return line plain,
        parsed,
      )
      refl
first_command-line line (return_newline rest) command plain full parsed =
    let returns : all is_inner (line ++ 13 ∷ []) ≡ true =
      all-append is_inner line (13 ∷ []) (plain-inner line plain) refl in
    ap (λ t. first_command (lines t)) (sym (append_assoc line (13 ∷ []) (10 ∷ rest)))
    ∙ rw
        (
          lines_from-line [] (line ++ 13 ∷ []) rest returns,
          without_return-return line plain,
          parsed,
        )
        refl

-- Lines that are no command, without their line breaks: `without_return` takes a return off the end.
abbrev pub IsProse : Text → Type 0
IsProse line = (all is_inner line ≡ true) × (parse_line (without_return line) ≡ none)

indented-full :
    (indent : Text) (command : CommentCommand) → is_empty (indent ++ print_command command) ≡ false
indented-full (c ∷ indent) command = refl
indented-full [] (merge_with none) = refl
indented-full [] (merge_with (some method)) = refl
indented-full [] merge_cancel = refl

-- A command that is printed on a line of its own, behind any blanks, is the one that a comment is
-- understood as, whatever lines that are no command stand before it. Its line may be the last one without
-- an end, or end in a line break, with or without a return, and then anything may stand behind it.
pub parse_comment_command-print_command :
    (prose : List Text) (indent : Text) (command : CommentCommand) (end : LineEnd)
    → All IsProse prose
    → all is_blank indent ≡ true
    → parse_comment_command (with_lines prose ((indent ++ print_command command) ++ print_end end))
      ≡ some command
unfolding parse_comment_command first_command with_lines
parse_comment_command-print_command [] indent command end no_command blank =
    first_command-line (indent ++ print_command command) end command
      (all-append is_plain indent (print_command command) (blank-plain indent blank)
        (print-plain command))
      (indented-full indent command) (parse_line-indented indent command blank)
parse_comment_command-print_command (line ∷ prose) indent command end no_command blank =
    let others = with_lines prose ((indent ++ print_command command) ++ print_end end) in
    rw (lines-line line others no_command.0.0, no_command.0.1)
      (parse_comment_command-print_command prose indent command end no_command.1 blank)
