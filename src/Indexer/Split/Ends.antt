-- ===== src/Indexer/Split/Ends.antt =====
-- internal/hosted/indexer/chunk.go: where boundedEnd can end a piece.
use px.Prelude.{
  ℕ, zero, suc, ◌+◌, ◌-◌, ◌/◌, ◌≤◌, ◌<◌, ◌≡◌, some, arith, length, Option-cases, inl, inr,
}
use px.Indexer.Bytes.{Bytes, slice, last_newline}
use px.Indexer.Bytes.Slices.{length-slice, rune_size_bounds, last_newline-lt}
use px.Indexer.Split.{
  TokenCounter, back_up, go_forward, settle, Search, middle_of, step, bisect, choose_end,
  bounded_end,
}

back_up_bounds :
    (content : Bytes) (start limit m : ℕ)
    → start ≤ m
    → (start ≤ back_up content start limit m) × (back_up content start limit m ≤ m)
unfolding back_up
back_up_bounds content start limit zero h = omega arith
back_up_bounds content start limit (suc m) h = ground (arith, back_up_bounds content start limit m)

go_forward_bounds :
    (fuel : ℕ) (content : Bytes) (limit m : ℕ)
    → m ≤ limit
    → (m ≤ go_forward fuel content limit m) × (go_forward fuel content limit m ≤ limit)
unfolding go_forward
go_forward_bounds zero content limit m h = omega arith
go_forward_bounds (suc fuel) content limit m h =
    ground (arith, go_forward_bounds fuel content limit (m + 1))

settle_bounds :
    (content : Bytes) (start limit m : ℕ)
    → start < m
    → m ≤ limit
    → (start < settle content start limit m) × (settle content start limit m ≤ limit)
unfolding settle
settle_bounds content start limit m h k = ground (
  arith,
  back_up_bounds content start limit m,
  go_forward_bounds (limit - (start + 1)) content limit (start + 1),
)

module _ (count : TokenCounter) (content : Bytes) (start limit maximum : ℕ) where
  -- What the loop keeps: its bounds within the unit, and the best end so far.
  pub record IsSearch (s : Search) : Type 0 where
    pub low_after : start < s.low
    pub high_within : s.high ≤ limit
    pub best_after : start ≤ s.best
    pub best_within : s.best ≤ limit

  pub middle_bounds :
      (s : Search)
      → IsSearch s
      → s.low ≤ s.high
      → (start < middle_of count content start limit maximum s)
        × (middle_of count content start limit maximum s ≤ limit)
  middle_bounds s w h =
      settle_bounds content start limit (s.low + (s.high - s.low) / 2) (omega arith) (omega arith)

  pub step-IsSearch :
      (s : Search)
      → IsSearch s
      → s.low ≤ s.high
      → IsSearch (step count content start limit maximum s)
  unfolding step
  step-IsSearch s w h = ground (arith, middle_bounds s w h)

  pub bisect_bounds :
      (fuel : ℕ) (s : Search) (best : ℕ)
      → IsSearch s
      → bisect count content start limit maximum fuel s ≡ some best
      → (start ≤ best) × (best ≤ limit)
  unfolding bisect
  bisect_bounds zero s best w h = cc
  bisect_bounds (suc fuel) s best w h =
      ground (
        arith,
        step-IsSearch s w,
        bisect_bounds fuel (step count content start limit maximum s) best,
      )

  choose_end_bounds :
      (best : ℕ)
      → start < limit
      → limit ≤ length content
      → best ≤ limit
      → (start < choose_end count content start limit maximum best)
        × (choose_end count content start limit maximum best ≤ limit)
  unfolding choose_end
  choose_end_bounds best h k b =
      let whole : length (slice content start limit) ≡ limit - start =
        length-slice content start limit (omega arith) k in
      elim (Option-cases (last_newline (slice content start best))) [
        | inl e ↦ ground (arith, e, whole, rune_size_bounds (slice content start limit))
        | inr (i, e) ↦ ground (
          arith,
          e,
          whole,
          rune_size_bounds (slice content start limit),
          last_newline-lt (slice content start best) i e,
          length-slice content start best,
        )
      ]

  -- The end of a piece lies after its start and within its unit.
  pub bounded_end_bounds :
      (fuel end : ℕ)
      → start < limit
      → limit ≤ length content
      → bounded_end count content start limit maximum fuel ≡ some end
      → (start < end) × (end ≤ limit)
  unfolding bounded_end
  bounded_end_bounds fuel end h k e =
      elim (Option-cases (
        bisect count content start limit maximum fuel
          (record { low = start + 1; high = limit; best = start }))) [
            | inl n ↦ ground (arith, n)
            | inr (best, f) ↦
                let (after, within) =
                  bisect_bounds fuel (record { low = start + 1; high = limit; best = start }) best
                    (ground arith) f in
                ground (arith, f, choose_end_bounds best h k within)
          ]
