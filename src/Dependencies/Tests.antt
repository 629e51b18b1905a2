-- ===== src/Dependencies/Tests.antt =====
-- Inputs for the theorems about runtime dependencies, and a run that misses a change.
use eka_ci.Prelude.{◌≡◌, refl, none, [], ◌∷◌}
use eka_ci.Prelude.Text.{Text, Text_eq, text}
use eka_ci.Dependencies.{compare_output}
use eka_ci.Dependencies.Filtered.{IsReport, compare_output-IsReport}

abbrev flask : Text
flask = text "/nix/store/dddddddddddddddddddddddddddddddd-flask-2.3.0"

abbrev glibc_old : Text
glibc_old = text "/nix/store/aaaaaaaaaaaaaaaaaaaaaaaaaaaaaaaa-glibc-2.38"

abbrev glibc : Text
glibc = text "/nix/store/bbbbbbbbbbbbbbbbbbbbbbbbbbbbbbbb-glibc-2.39"

abbrev requests : Text
requests = text "/nix/store/cccccccccccccccccccccccccccccccc-requests-2.31"

compare_output-IsReport_example :
    IsReport
      (glibc_old ∷ [])
      (glibc ∷ requests ∷ [])
      (compare_output (text "hello") (text "out") (glibc_old ∷ []) (glibc ∷ requests ∷ []))
compare_output-IsReport_example =
    compare_output-IsReport (text "hello") (text "out") (glibc_old ∷ []) (glibc ∷ requests ∷ [])

-- One dependency takes the place of another, and nothing is reported.
swapped : compare_output (text "hello") (text "out") (flask ∷ []) (requests ∷ []) ≡ none
unfolding compare_output
swapped = refl
