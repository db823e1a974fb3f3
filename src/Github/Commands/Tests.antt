-- ===== src/Github/Commands/Tests.antt =====
-- internal/hosted/githubapp/commands.go: comments with commands, and one of a reader.
use px.Prelude.{◌≡◌, refl, String, none, some, ok, err}
use px.Prelude.Int.{pos}
use px.Prelude.Text.{map_chars, ascii_lower, all_chars, trim_right}
use px.Github.Commands.{
  Command, bare, valid_command_path, valid_memory_id, parse_command, Forge, authorize_command,
}
use px.Github.Commands.Authorized.{IsAuthorized, authorize_command-IsAuthorized}

abbrev lower_case : String → String
lower_case s = map_chars ascii_lower s

-- The body of the answer is the permission.
abbrev answering : String → Forge
answering permission = record {
  send = λ i r. ok (record { status = pos 200; body = permission });
  path_escape = λ s. s;
  decode_permission = λ s. ok s;
}

abbrev explain_command : Command
explain_command = record (bare "explain") { path = "src/b.go" }

parsed-comments :
    (parse_command lower_case "\n  @PX1 Explain src/a/../b.go \nmore" ≡ some explain_command)
    × (parse_command lower_case "@px1 explain ../b.go" ≡ none)
    × (parse_command lower_case "@px1 review now" ≡ none)
    × (parse_command lower_case "@px1 forget 01234567-89ab-cdef-0123-456789ABCDEF"
        ≡ some (record (bare "forget") { memory_id = "01234567-89ab-cdef-0123-456789abcdef" }))
    × (parse_command lower_case "@px1 remember keep  it"
        ≡ some (record (bare "remember") { text = "keep it" }))
unfolding parse_command valid_command_path valid_memory_id map_chars ascii_lower
parsed-comments = (refl, refl, refl, refl, refl)

authorize-writer :
    authorize_command lower_case (some (answering "write")) "" (pos 7) "me" "px1" "you" "@px1 why"
    ≡ ok (bare "why")
unfolding authorize_command parse_command all_chars trim_right
authorize-writer = refl

authorize-reader :
    authorize_command lower_case (some (answering "read")) "" (pos 7) "me" "px1" "you" "@px1 why"
    ≡ err "commenter does not have repository write access"
unfolding authorize_command parse_command all_chars trim_right
authorize-reader = refl

authorize_command-IsAuthorized_example :
    IsAuthorized lower_case
      (some (answering "write"))
      ""
      (pos 7)
      "me"
      "px1"
      "you"
      "@px1 why"
      (bare "why")
authorize_command-IsAuthorized_example =
    authorize_command-IsAuthorized lower_case (some (answering "write")) "" (pos 7) "me" "px1" "you"
      "@px1 why" (bare "why") authorize-writer
