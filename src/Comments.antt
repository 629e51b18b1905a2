-- ===== src/Comments.antt =====
-- backend/server/src/github/webhook/comment_command.rs: the commands in the comments of a pull request, and
-- the limit on how often they come.
pub mod Parsed
pub mod Limited
mod Tests
use eka_ci.Prelude.{
  ℕ, ◌+◌, ◌-◌, ◌*◌, ◌==◌, Bool, true, false, ◌&&◌, ◌||◌, Option, none, some, List, [], ◌∷◌, ◌++◌,
  if◌then◌else◌, leb, ltb, is_empty, HashMap, get, insert, retain, length, Eq, ap, ◌≡◌, ◌↔◌, arith,
}
use eka_ci.Prelude.Text.{Text, Text_eq, text, to_ascii_lowercase}

pub data MergeMethod : Type 0 where
  merge squash rebase : MergeMethod

pub data CommentCommand : Type 0 where
  merge_with : (method : Option MergeMethod) → CommentCommand
  merge_cancel : CommentCommand

abbrev pub as_str : MergeMethod → Text
as_str merge = text "merge"
as_str squash = text "squash"
as_str rebase = text "rebase"

abbrev pub bot_mention : Text
bot_mention = text "@eka-ci"

-- `char::is_whitespace`.
unfoldable pub is_whitespace : ℕ → Bool
is_whitespace c =
    (leb 9 c && leb c 13)
    || (c == 32)
    || (c == 0x85)
    || (c == 0xA0)
    || (c == 0x1680)
    || (leb 0x2000 c && leb c 0x200A)
    || (c == 0x2028)
    || (c == 0x2029)
    || (c == 0x202F)
    || (c == 0x205F)
    || (c == 0x3000)

-- `str::split_whitespace`, after the part of a token that was read.
abbrev pub ended : Text → List Text → List Text
ended token rest = if is_empty token then rest else token ∷ rest

unfoldable pub tokens : Text → Text → List Text
tokens token [] = ended token []
tokens token (c ∷ s) =
    let rest = tokens (if is_whitespace c then [] else token ++ c ∷ []) s in
    if is_whitespace c then ended token rest else rest

unfoldable pub split_whitespace : Text → List Text
split_whitespace = tokens []

-- `str::lines`, after the part of a line that was read. The last line counts if it is not empty.
unfoldable pub without_return : Text → Text
without_return [] = []
without_return (c ∷ []) = if c == 13 then [] else c ∷ []
without_return (c ∷ d ∷ s) = c ∷ without_return (d ∷ s)

unfoldable pub lines_from : Text → Text → List Text
lines_from line [] = if is_empty line then [] else line ∷ []
lines_from line (c ∷ s) =
    let rest = lines_from (if c == 10 then [] else line ++ c ∷ []) s in
    if c == 10 then without_return line ∷ rest else rest

unfoldable pub lines : Text → List Text
lines = lines_from []

abbrev pub eq_ignore_ascii_case : Text → Text → Bool
eq_ignore_ascii_case s t = Text_eq.eq (to_ascii_lowercase s) (to_ascii_lowercase t)

unfoldable pub parse_argument : Text → CommentCommand
parse_argument arg =
    let is = Text_eq.eq (to_ascii_lowercase arg) in
    if is (text "cancel")
    then merge_cancel
    else if is (text "merge")
    then merge_with (some merge)
    else if is (text "squash")
    then merge_with (some squash)
    else if is (text "rebase")
    then merge_with (some rebase)
    else merge_with none

abbrev pub parse_third : List Text → CommentCommand
parse_third [] = merge_with none
parse_third (arg ∷ _) = parse_argument arg

unfoldable pub parse_tokens : List Text → Option CommentCommand
parse_tokens [] = none
parse_tokens (mention ∷ []) = none
parse_tokens (mention ∷ verb ∷ args) =
    if eq_ignore_ascii_case mention bot_mention
      && Text_eq.eq (to_ascii_lowercase verb) (text "merge")
    then some (parse_third args)
    else none

-- `trim_start` takes off what `split_whitespace` passes over.
unfoldable pub parse_line : Text → Option CommentCommand
parse_line line = parse_tokens (split_whitespace line)

abbrev pub or_else : Option CommentCommand → Option CommentCommand → Option CommentCommand
or_else none other = other
or_else (some command) other = some command

unfoldable pub first_command : List Text → Option CommentCommand
first_command [] = none
first_command (line ∷ rest) = or_else (parse_line line) (first_command rest)

unfoldable pub parse_comment_command : Text → Option CommentCommand
parse_comment_command body = first_command (lines body)

-- The user, the owner and the repository. Times are nanoseconds.
abbrev pub RateLimitKey : Type 0
RateLimitKey = ℕ × Text × Text

unfoldable pub eq_key : RateLimitKey → RateLimitKey → Bool
eq_key (user, owner, repo) (user', owner', repo') =
    (user == user') && (Text_eq.eq owner owner' && Text_eq.eq repo repo')

abbrev pub command_min_interval : ℕ
command_min_interval = 5 * 1_000_000_000

abbrev pub rate_limit_map_max_entries : ℕ
rate_limit_map_max_entries = 10_000

pub eq_key_iff : (k j : RateLimitKey) → (eq_key k j ≡ true) ↔ (k ≡ j)
unfolding eq_key
eq_key_iff (user, owner, repo) (user', owner', repo') =
    ground (arith, Text_eq.eq_iff owner owner', Text_eq.eq_iff repo repo')

instance abbrev pub RateLimitKey_eq : Eq RateLimitKey
RateLimitKey_eq = record { eq = eq_key; eq_iff = eq_key_iff }

abbrev pub RateLimits : Type 0
RateLimits = HashMap RateLimitKey ℕ

abbrev pub is_later : ℕ → RateLimitKey × ℕ → Bool
is_later cutoff entry = ltb cutoff entry.1

-- `checked_sub` fails if the clock has not run for so long.
unfoldable pub prune : ℕ → ℕ → RateLimits → RateLimits
prune min_interval now limits =
    if ltb rate_limit_map_max_entries (length limits)
    then (if leb (min_interval * 2) now
        then retain (is_later (now - min_interval * 2)) limits
        else limits)
    else limits

-- Whether the time of the last command is too near.
abbrev pub is_recent : ℕ → ℕ → Option ℕ → Bool
is_recent min_interval now none = false
is_recent min_interval now (some last) = ltb (now - last) min_interval

-- A poisoned lock, which lets every command pass, is left out.
unfoldable pub check_and_record_rate_limit_inner :
    ℕ → ℕ → RateLimitKey → RateLimits → RateLimits × Bool
check_and_record_rate_limit_inner min_interval now key limits =
    if is_recent min_interval now (get key limits)
    then (limits, false)
    else (prune min_interval now (insert key now limits), true)

unfoldable pub check_and_record_rate_limit : ℕ → RateLimitKey → RateLimits → RateLimits × Bool
check_and_record_rate_limit = check_and_record_rate_limit_inner command_min_interval

-- The commands of a while, each with its time.
unfoldable pub run_checks : List (RateLimitKey × ℕ) → RateLimits → RateLimits
run_checks [] limits = limits
run_checks ((key, now) ∷ calls) limits =
    run_checks calls (check_and_record_rate_limit now key limits).0
