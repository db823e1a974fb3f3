-- ===== src/Learning/Memory.antt =====
-- internal/hosted/learning/memory.go: the memories that a review prompt may hold.
pub mod Cap
mod Tests
use px.Prelude.{
  ℕ, ◌+◌, String, Bool, true, false, not, ◌&&◌, ◌||◌, Option, none, some, List, [], ◌∷◌, str_eq,
  ltb, if◌then◌else◌, Result, ok, err, ◌>>=◌, ◌>>◌, refuse_if, any_of, length, take, ◌==◌,
}
use px.Prelude.Int.{ℤ, pos, ltb_ℤ, leb_ℤ, pos_part}
use px.Prelude.Float.{Float, zero_f, one_f, ltb_f}
use px.Prelude.Text.{is_blank}
use px.Prelude.Paths.{clean, is_abs, escapes}

abbrev pub max_prompt_memories : ℤ
max_prompt_memories = pos 20

pub record Memory : Type 0 where
  pub id : String
  pub scope : String
  pub kind : String
  pub text : String
  pub path_glob : String
  pub language : String
  pub weight : Float
  pub evidence_links : List String
  pub last_confirmed_at : ℤ

pub record MemoryQuery : Type 0 where
  pub installation_id : ℤ
  pub repository_id : ℤ
  pub path : String
  pub language : String
  pub embedding : List Float
  pub limit : ℤ

-- `SearchMemories`
abbrev pub MemoryStore : Type 0
MemoryStore = MemoryQuery → Result (List Memory)

unfoldable pub invalid_query : MemoryQuery → Bool
invalid_query query =
    leb_ℤ query.installation_id (pos 0)
    || leb_ℤ query.repository_id (pos 0)
    || str_eq query.path ""
    || is_abs query.path
    || escapes (clean query.path)
    || str_eq query.language ""
    || length query.embedding == 0

-- The limit of a query, within the cap on prompts.
abbrev pub query_limit : MemoryQuery → ℤ
query_limit query =
    if leb_ℤ query.limit (pos 0) || ltb_ℤ max_prompt_memories query.limit
    then max_prompt_memories
    else query.limit

abbrev pub bounded : MemoryQuery → MemoryQuery
bounded query = record query { path = clean query.path; limit = query_limit query }

unfoldable pub invalid_memory : Memory → Bool
invalid_memory memory =
    str_eq memory.id ""
    || is_blank memory.text
    || ltb_f memory.weight zero_f
    || ltb_f one_f memory.weight

-- The memories up to the limit, which is positive.
abbrev pub cap_memories : ℤ → List Memory → List Memory
cap_memories limit memories =
    if ltb_ℤ limit (pos (length memories)) then take (pos_part limit) memories else memories

-- `RetrieveMemories`
unfoldable pub retrieve_memories : Option MemoryStore → MemoryQuery → Result (List Memory)
retrieve_memories none query =
    err "memory retrieval requires store, tenant, path, language, and embedding"
retrieve_memories (some store) query =
    refuse_if (invalid_query query)
      "memory retrieval requires store, tenant, path, language, and embedding"
    >> (store (bounded query) >>= λ memories.
        refuse_if (any_of invalid_memory (cap_memories (query_limit query) memories))
          "memory store returned invalid memory"
        >> ok (cap_memories (query_limit query) memories))
