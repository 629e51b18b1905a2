-- ===== src/Comments/Tests.antt =====
-- Comments of a pull request.
use eka_ci.Prelude.{◌≡◌, refl, false, some, List, [], ◌∷◌, ◌++◌, all, get, eq_list, arith}
use eka_ci.Prelude.Text.{Text, text, to_ascii_lowercase}
use eka_ci.Comments.{
  merge_with, squash, without_return, tokens, split_whitespace, is_whitespace, parse_tokens,
  parse_line, parse_comment_command, RateLimitKey, run_checks, check_and_record_rate_limit,
  check_and_record_rate_limit_inner,
}
use eka_ci.Comments.Parsed.{
  last, print_end, print_command, with_lines, parse_comment_command-print_command,
}
use eka_ci.Comments.Limited.{check_and_record_rate_limit-rejects}

abbrev prose : List Text
prose = text "looks good, @eka-ci merge it" ∷ text "" ∷ []

parse_comment_command-print_command_example :
    parse_comment_command
      (with_lines prose ((text "  " ++ print_command (merge_with (some squash))) ++ print_end last))
    ≡ some (merge_with (some squash))
unfolding all without_return is_whitespace parse_line split_whitespace parse_tokens tokens eq_list
    to_ascii_lowercase
parse_comment_command-print_command_example =
    parse_comment_command-print_command prose (text "  ") (merge_with (some squash)) last
      ((refl, refl), ((refl, refl), tt)) refl

abbrev alice : RateLimitKey
alice = (1, text "eka", text "pkgs")

abbrev bob : RateLimitKey
bob = (2, text "eka", text "pkgs")

check_and_record_rate_limit-rejects_example :
    let limits =
      run_checks ((bob, 11) ∷ (alice, 12) ∷ []) (check_and_record_rate_limit 10 alice []).0 in
    check_and_record_rate_limit 13 alice limits ≡ (limits, false)
unfolding get check_and_record_rate_limit check_and_record_rate_limit_inner
check_and_record_rate_limit-rejects_example =
    check_and_record_rate_limit-rejects 10 13 alice ((bob, 11) ∷ (alice, 12) ∷ []) [] refl
      (omega arith) (omega arith) (omega arith)
