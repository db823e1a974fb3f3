-- ===== src/Llm/MemoryCache/Tests.antt =====
-- One response, at three times.
use px.Prelude.{◌≡◌, refl, true, false, none, some, [], str_eq, if◌then◌else◌}
use px.Prelude.Int.{pos, ltb_ℤ, ◌+ℤ◌}
use px.Prelude.Maps.{lookup, insert, remove, string_eq}
use px.Llm.Request.{Response, no_usage}
use px.Llm.MemoryCache.{Entries, get_entry, get, put}
use px.Llm.MemoryCache.Expiry.{found, get-put, get-get}

abbrev answer : Response
answer = record { text = "a"; usage = no_usage; request_id = "1"; cached = true }

abbrev warm : Entries
warm = put (pos 10) "k" answer (pos 5) []

warm-found : found (pos 14) "k" warm ≡ some (record answer { cached = false })
unfolding put get get_entry lookup insert ◌+ℤ◌
warm-found = refl

warm-get : get (pos 15) "k" warm ≡ ([], none)
unfolding put get get_entry lookup insert remove ◌+ℤ◌
warm-get = refl

get-put_example : found (pos 14) "k" (put (pos 10) "k" answer (pos 5) []) ≡ (
    if str_eq "k" "k"
    then (if ltb_ℤ (pos 14) (pos 10 +ℤ pos 5)
        then some (record answer { cached = false })
        else none)
    else found (pos 14) "k" [])
get-put_example = get-put (pos 10) (pos 14) (pos 5) "k" "k" answer []

get-get_example : found (pos 15) "k" (get (pos 15) "j" warm).0 ≡ found (pos 15) "k" warm
get-get_example = get-get (pos 15) (pos 15) "j" "k" warm refl
