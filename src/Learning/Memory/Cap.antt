-- ===== src/Learning/Memory/Cap.antt =====
-- internal/hosted/learning/memory.go: the limit of a query and the memories up to it.
use px.Prelude.{
  ℕ, zero, suc, ◌≤◌, ◌≡◌, refl, ap, sym, ◌∙◌, ◌⊎◌, if◌then◌else◌, true, false, some, List, [], ◌∷◌,
  arith, ok, err, Bool-cases, any_of, length, take, inl, inr,
}
use px.Prelude.Int.{ℤ, pos, ltb_ℤ, ◌≤ℤ◌, ◌<ℤ◌}
use px.Prelude.Paths.{clean}
use px.Learning.Memory.{
  Memory, MemoryQuery, MemoryStore, invalid_query, query_limit, bounded, invalid_memory,
  cap_memories, retrieve_memories,
}

length-take : {A : Type 0} (n : ℕ) (xs : List A) → length (take n xs) ≤ n
length-take zero xs = omega arith
length-take (suc n) [] = omega arith
length-take (suc n) (x ∷ xs) = ground (arith, length-take n xs)

take-whole : {A : Type 0} (n : ℕ) (xs : List A) → length xs ≤ n → take n xs ≡ xs
take-whole zero [] h = refl
take-whole zero (x ∷ xs) h = absurd (ground arith)
take-whole (suc n) [] h = refl
take-whole (suc n) (x ∷ xs) h = ap (λ zs. x ∷ zs) (take-whole n xs (omega arith))

-- The limit that a query gets: its own from 1 to 20, and 20 for any other.
abbrev pub IsLimit : ℤ → ℕ → Type 0
IsLimit asked n =
    ((pos 1 ≤ℤ asked) × (asked ≤ℤ pos 20) × (pos n ≡ asked))
    ⊎ (((asked ≤ℤ pos 0) ⊎ (pos 20 <ℤ asked)) × (n ≡ 20))

-- The query as the store gets it.
abbrev pub asked_query : MemoryQuery → ℕ → MemoryQuery
asked_query query n = record query { path = clean query.path; limit = pos n }

-- What is retrieved for a query within the limit `n`.
pub record IsRetrieved (n : ℕ) (found memories : List Memory) : Type 0 where
  pub capped : (length memories ≤ 20) × (length memories ≤ n)
  pub valid : any_of invalid_memory memories ≡ false
  pub whole : memories ≡ take n found

query_limit-IsLimit :
    (query : MemoryQuery) (n : ℕ) → IsLimit query.limit n → query_limit query ≡ pos n
query_limit-IsLimit query n (inl (low, high, e)) = ground (arith, low, high, e)
query_limit-IsLimit query n (inr (other, e)) = ground (arith, other, e)

bounded_lem :
    (query : MemoryQuery) (n : ℕ) → IsLimit query.limit n → bounded query ≡ asked_query query n
bounded_lem query n i =
    ap (λ l. record query { path = clean query.path; limit = l }) (query_limit-IsLimit query n i)

cap_memories_lem :
    (n : ℕ) (memories : List Memory) → cap_memories (pos n) memories ≡ take n memories
cap_memories_lem n memories = elim (Bool-cases (ltb_ℤ (pos n) (pos (length memories)))) [
  | inl e ↦ rw e refl
  | inr e ↦ rw e (sym (take-whole n memories (ground (arith, e))))
]

IsLimit-small : (asked : ℤ) (n : ℕ) → IsLimit asked n → n ≤ 20
IsLimit-small asked n (inl (low, high, e)) = ground (arith, high, e)
IsLimit-small asked n (inr (other, e)) = omega arith

capped_lem :
    (query : MemoryQuery) (n : ℕ) (found : List Memory)
    → IsLimit query.limit n
    → cap_memories (query_limit query) found ≡ take n found
capped_lem query n found i =
    ap (λ l. cap_memories l found) (query_limit-IsLimit query n i) ∙ cap_memories_lem n found

retrieve_memories_lem :
    (store : MemoryStore) (query : MemoryQuery) (n : ℕ) (found : List Memory)
    → invalid_query query ≡ false
    → IsLimit query.limit n
    → store (asked_query query n) ≡ ok found
    → retrieve_memories (some store) query ≡ (
        if any_of invalid_memory (take n found)
        then err "memory store returned invalid memory"
        else ok (take n found))
unfolding retrieve_memories
retrieve_memories_lem store query n found valid i h =
    let found_by : store (bounded query) ≡ ok found = ap store (bounded_lem query n i) ∙ h in
    ground (arith, valid, found_by, capped_lem query n found i)

-- For a valid query over a store that answers, with the limit of the query from 1 to 20 and 20 for
-- any other, RetrieveMemories asks the store with the cleaned path and that limit; it refuses the
-- answer where a memory among the first up to the limit is invalid, and else gives exactly the
-- first memories of the answer up to the limit, which are valid and at most twenty.
pub retrieve_memories-IsRetrieved :
    (store : MemoryStore) (query : MemoryQuery) (n : ℕ) (found : List Memory)
    → invalid_query query ≡ false
    → IsLimit query.limit n
    → store (asked_query query n) ≡ ok found
    → ((any_of invalid_memory (take n found) ≡ true)
        × (retrieve_memories (some store) query ≡ err "memory store returned invalid memory"))
      ⊎ ((memories : List Memory) × (retrieve_memories (some store) query ≡ ok memories)
          × IsRetrieved n found memories)
retrieve_memories-IsRetrieved store query n found valid i h =
    let run = retrieve_memories_lem store query n found valid i h in
    let short = length-take n found in
    let small = IsLimit-small query.limit n i in
    elim (Bool-cases (any_of invalid_memory (take n found))) [
      | inl bad ↦ inl (bad, ground (arith, run, bad))
      | inr good ↦ inr (
        take n found,
        ground (arith, run, good),
        record { capped = (omega arith, short); valid = good; whole = refl },
      )
    ]
