-- ===== src/ClickHouse/Tests.antt =====
-- learnclickhouse/src/main.cpp: three senders in two blocks, and a recipient that is one of them.
use learn_framework.Common.{
  ℕ, zero, ◌≡◌, refl, true, Option, none, List, [], ◌∷◌, length, get_elem?,
}
use learn_framework.ClickHouse.{Text, Client, from_size, total_size, address_line, standard_test}
use learn_framework.ClickHouse.Rows.{column, columns, report, standard_test-report}

-- A block of one column of strings.
abbrev cell : List Text → ℕ → ℕ → Option Text
cell rows zero row = get_elem? rows row
cell rows _ row = none

abbrev client : Client
client = record { Block = List Text; row_count = length; string_at = cell }

abbrev senders : List (List Text)
senders = ((1 ∷ []) ∷ (2 ∷ []) ∷ []) ∷ [] ∷ ((3 ∷ []) ∷ []) ∷ []

abbrev recipients : List (List Text)
recipients = ((2 ∷ []) ∷ []) ∷ []

standard_test-report_example :
    standard_test client senders recipients
    ≡ report client (columns client senders) (columns client recipients)
standard_test-report_example = standard_test-report client senders recipients

twice_printed : report client (columns client senders) (columns client recipients) ≡ record {
  lines =
      from_size 3
      ∷ total_size 4
      ∷ address_line (1 ∷ [])
      ∷ address_line (2 ∷ [])
      ∷ address_line (3 ∷ [])
      ∷ address_line (2 ∷ [])
      ∷ [];
  ended = true;
}
unfolding columns column report
twice_printed = refl
