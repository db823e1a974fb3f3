-- ===== src/Llm/MemoryCache.antt =====
-- internal/hosted/llm/gateway.go: MemoryCache, the prompt cache that a process keeps.
pub mod Expiry
mod Tests
use px.Prelude.{String, Bool, true, false, Option, none, some, List, if◌then◌else◌}
use px.Prelude.Int.{ℤ, ltb_ℤ, ◌+ℤ◌}
use px.Prelude.Maps.{lookup, insert, remove, string_eq}
use px.Llm.Request.{Response}

-- Instants and durations are nanoseconds.
pub record MemoryEntry : Type 0 where
  pub response : Response
  pub expires_at : ℤ

-- The map `set` of a MemoryCache.
abbrev pub Entries : Type 0
Entries = List (String × MemoryEntry)

-- What `Get` does with the entry it finds: one that has expired is deleted.
unfoldable pub get_entry : ℤ → String → Entries → Option MemoryEntry → Entries × Option Response
get_entry now key set none = (remove key set, none)
get_entry now key set (some entry) =
    if ltb_ℤ now entry.expires_at then (set, some entry.response) else (remove key set, none)

unfoldable pub get : ℤ → String → Entries → Entries × Option Response
get now key set = get_entry now key set (lookup key set)

unfoldable pub put : ℤ → String → Response → ℤ → Entries → Entries
put now key response ttl set =
    insert key (record { response = record response { cached = false }; expires_at = now +ℤ ttl })
      set
