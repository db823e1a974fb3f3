-- ===== src/Llm/MemoryCache/Expiry.antt =====
-- internal/hosted/llm/gateway.go: Get and Put of MemoryCache over time.
use px.Prelude.{
  ◌≡◌, String, false, Option, none, some, arith, str_eq, eq_iff, Option-cases, Bool-cases, ◌⊎◌,
  if◌then◌else◌, inl, inr,
}
use px.Prelude.Int.{ℤ, ltb_ℤ, ◌+ℤ◌}
use px.Prelude.Maps.{lookup, lookup-insert, lookup-remove, string_eq}
use px.Llm.Request.{Response}
use px.Llm.MemoryCache.{Entries, get_entry, get, put}

-- What `Get` would answer at a time.
abbrev pub found : ℤ → String → Entries → Option Response
found now key set = (get now key set).1

found_lem :
    (now : ℤ) (key : String) (set : Entries)
    → found now key set ≡ elim (lookup key set) [
      | none ↦ none
      | some entry ↦ if ltb_ℤ now entry.expires_at then some entry.response else none
    ]
unfolding get get_entry
found_lem now key set = elim (Option-cases (lookup key set)) [
  | inl e ↦ ground (arith, e)
  | inr (entry, e) ↦ ground (arith, e)
]

-- A response that Put stores under a key is what Get answers on the key, marked as not cached, as long
-- as the time since is less than the TTL, and nothing from then on; on every other key Get answers as
-- before.
pub get-put :
    (now later ttl : ℤ) (key other : String) (response : Response) (set : Entries)
    → found later other (put now key response ttl set) ≡ (
        if str_eq other key
        then (if ltb_ℤ later (now +ℤ ttl) then some (record response { cached = false }) else none)
        else found later other set)
unfolding put
get-put now later ttl key other response set = ground (
  arith,
  found_lem later other (put now key response ttl set),
  found_lem later other set,
  lookup-insert key other
      (record { response = record response { cached = false }; expires_at = now +ℤ ttl }) set,
)

kept_lem :
    (now : ℤ) (key other : String) (set : Entries)
    → (lookup other (get now key set).0 ≡ lookup other set)
      ⊎ ((lookup other (get now key set).0 ≡ none) × (found now other set ≡ none))
unfolding get get_entry
kept_lem now key other set = elim (Option-cases (lookup key set)) [
  | inl e ↦ ground (arith, e, lookup-remove key other set, eq_iff other key)
  | inr (entry, e) ↦ elim (Bool-cases (ltb_ℤ now entry.expires_at)) [
    | inl t ↦ ground (arith, e)
    | inr t ↦ elim (Bool-cases (str_eq other key)) [
      | inl k ↦ inr (
        ground (arith, e, lookup-remove key other set),
        ground (arith, e, found_lem now other set, eq_iff other key),
      )
      | inr k ↦ inl (ground (arith, e, lookup-remove key other set))
    ]
  ]
]

expired_lem :
    (now later : ℤ) (key : String) (set : Entries)
    → ltb_ℤ later now ≡ false
    → found now key set ≡ none
    → found later key set ≡ none
expired_lem now later key set h e = elim (Option-cases (lookup key set)) [
  | inl l ↦ ground (arith, l, found_lem later key set)
  | inr (entry, l) ↦ ground (arith, l, found_lem later key set, found_lem now key set)
]

-- Get answers the same on every key after any Get at the same or an earlier time: what it deletes has
-- expired.
pub get-get :
    (now later : ℤ) (key other : String) (set : Entries)
    → ltb_ℤ later now ≡ false
    → found later other (get now key set).0 ≡ found later other set
get-get now later key other set h = elim (kept_lem now key other set) [
  | inl e ↦ ground (arith, e, found_lem later other (get now key set).0, found_lem later other set)
  | inr (e, gone) ↦
      ground (arith, e, found_lem later other (get now key set).0, expired_lem now later other set)
]
