-- ===== src/Channels/Tests.antt =====
-- Pushes that arrive while a commit is evaluated.
use eka_ci.Prelude.{Bool, false, some, List, [], ◌∷◌}
use eka_ci.Prelude.Text.{Text, Text_eq, text}
use eka_ci.Channels.{Channel}

abbrev evaluating : Channel
evaluating = record {
  in_flight = some (text "a");
  pending = some (text "b");
  skipped = [];
  started = text "a" ∷ [];
}

abbrev nothing_decided : Text → Bool
nothing_decided sha = false

abbrev pushes : List Text
pushes = text "c" ∷ text "d" ∷ text "d" ∷ []
