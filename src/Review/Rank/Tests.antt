-- ===== src/Review/Rank/Tests.antt =====
-- The ranking of three findings, two of which describe one place.
use px.Prelude.{◌≤◌, ◌≡◌, refl, Bool, true, [], ◌∷◌, length, All, any_of}
use px.Prelude.Int.{pos}
use px.Prelude.Paths.{clean}
use px.Prelude.Sort.{Sorted, sort_by}
use px.Prelude.Maps.{contains, add_key}
use px.Prelude.Text.{map_chars, fields_func, ascii_lower}
use px.Review.Finding.{Finding}
use px.Review.Rank.{
  stronger, severity_rank, similar_titles, same_finding, keep_loop, cap_of, rank_and_cap,
}
use px.Review.Rank.Keep.{Apart, Answered}
use px.Review.Rank.Delivery.{rank_and_cap_delivers, rank_and_cap-Answered}
use px.Review.Samples.{ascii, nil_check, leak, three_findings}

-- The repetition is dropped, and the P0 finding comes first.
rank_three : rank_and_cap ascii three_findings (pos 0) ≡ leak ∷ nil_check ∷ []
unfolding rank_and_cap keep_loop stronger severity_rank same_finding similar_titles any_of sort_by
    clean contains add_key map_chars fields_func ascii_lower
rank_three = refl

-- With a cap of one only the strongest finding is left.
rank_one : rank_and_cap ascii three_findings (pos 1) ≡ leak ∷ []
unfolding rank_and_cap keep_loop stronger severity_rank same_finding similar_titles any_of sort_by
    clean contains add_key map_chars fields_func ascii_lower
rank_one = refl

rank_and_cap_delivers_example :
    (length (rank_and_cap ascii three_findings (pos 2)) ≤ cap_of (pos 2))
    × Apart ascii (rank_and_cap ascii three_findings (pos 2))
    × Sorted stronger (rank_and_cap ascii three_findings (pos 2))
    × ((P : Finding → Bool)
        → All (λ f. P f ≡ true) three_findings
        → All (λ f. P f ≡ true) (rank_and_cap ascii three_findings (pos 2)))
rank_and_cap_delivers_example = rank_and_cap_delivers ascii three_findings (pos 2)

rank_and_cap-Answered_example :
    All (Answered ascii (cap_of (pos 2)) (rank_and_cap ascii three_findings (pos 2))) three_findings
rank_and_cap-Answered_example = rank_and_cap-Answered ascii three_findings (pos 2)
