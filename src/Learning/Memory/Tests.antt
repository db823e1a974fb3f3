-- ===== src/Learning/Memory/Tests.antt =====
-- A store of thirty memories.
use px.Prelude.{
  ℕ, zero, suc, ◌≡◌, refl, ◌⊎◌, true, false, some, List, [], ◌∷◌, ok, err, any_of, take, arith, inr,
}
use px.Prelude.Int.{pos}
use px.Prelude.Float.{half_f}
use px.Prelude.Paths.{clean}
use px.Learning.Memory.{
  Memory, MemoryQuery, MemoryStore, invalid_query, invalid_memory, retrieve_memories,
}
use px.Learning.Memory.Cap.{IsRetrieved, retrieve_memories-IsRetrieved}

abbrev memory : Memory
memory = record {
  id = "m";
  scope = "repo";
  kind = "preference";
  text = "prefer tables";
  path_glob = "";
  language = "go";
  weight = half_f;
  evidence_links = [];
  last_confirmed_at = pos 0;
}

abbrev copies : ℕ → List Memory
copies zero = []
copies (suc n) = memory ∷ copies n

abbrev thirty : MemoryStore
thirty query = ok (copies 30)

abbrev query : MemoryQuery
query = record {
  installation_id = pos 1;
  repository_id = pos 2;
  path = "a.go";
  language = "go";
  embedding = pos 1 ∷ [];
  limit = pos 25;
}

query_valid : invalid_query query ≡ false
unfolding invalid_query clean
query_valid = refl

retrieve_memories-IsRetrieved_example :
    ((any_of invalid_memory (take 20 (copies 30)) ≡ true)
      × (retrieve_memories (some thirty) query ≡ err "memory store returned invalid memory"))
    ⊎ ((memories : List Memory) × (retrieve_memories (some thirty) query ≡ ok memories)
        × IsRetrieved 20 (copies 30) memories)
retrieve_memories-IsRetrieved_example =
    retrieve_memories-IsRetrieved thirty query 20 (copies 30) query_valid
      (inr (inr (omega arith), refl)) refl
