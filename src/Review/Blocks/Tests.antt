-- ===== src/Review/Blocks/Tests.antt =====
-- internal/hosted/review/blocks.go: three files of which two share words, and a chain of four.
use px.Prelude.{
  ℕ, ◌≡◌, ◌↔◌, refl, String, Bool, true, List, [], ◌∷◌, arith, ◌==◌, ◌&&◌, ◌||◌, keep_if,
}
use px.Prelude.Sort.{sort_by}
use px.Prelude.Maps.{contains}
use px.Prelude.Text.{show_ℕ, has_prefix}
use px.Review.Blocks.{
  Block, find, link, join_row, join_rows, push_group, collect_groups, find_fuel, related_groups,
  group_blocks, all_words,
}
use px.Review.Words.{DiffLine, File, file_signals, shares}
use px.Review.Blocks.Joined.{Connected}
use px.Review.Blocks.Related.{in_one_group, related_groups-Connected_iff}

abbrev added : String → List (List DiffLine)
added text = (record { kind = "add"; text = text } ∷ []) ∷ []

abbrev files : List File
files =
    record { path = "src/ledger.go"; hunks = added "balance(x)" }
    ∷ record { path = "README.md"; hunks = added "hello" }
    ∷ record { path = "src/ledger_store.go"; hunks = added "_Ledger, balance" }
    ∷ record { path = "b/ledger.ts"; hunks = [] }
    ∷ []

abbrev ledger_block : Block
ledger_block = record {
  id = "change-00";
  title = "Ledger changes";
  summary = "2 related files share the \"ledger\" change signal.";
  paths = "b/ledger.ts" ∷ "src/ledger.go" ∷ [];
}

blocks-ledger : group_blocks "|" (λ s. "00") files ≡ ledger_block ∷ []
unfolding group_blocks file_signals shares find link join_row join_rows push_group collect_groups
    find_fuel keep_if related_groups sort_by contains show_ℕ has_prefix all_words
blocks-ledger = refl

-- 1 and 2 are linked, 0 and 2, and 3 and 1, of five.
abbrev pairs_shared : ℕ → ℕ → Bool
pairs_shared i j = (i == 1 && j == 2) || (i == 0 && j == 2) || (i == 1 && j == 3)

groups-chain : related_groups pairs_shared 5 ≡ (0 ∷ 1 ∷ 2 ∷ 3 ∷ []) ∷ []
unfolding related_groups find link join_row join_rows push_group collect_groups find_fuel keep_if
groups-chain = refl

related_groups-Connected_iff_example :
    (in_one_group (related_groups pairs_shared 5) 0 3 ≡ true) ↔ Connected pairs_shared 5 0 3
related_groups-Connected_iff_example =
    related_groups-Connected_iff pairs_shared 5 0 3 (omega arith) (omega arith) (omega arith)
