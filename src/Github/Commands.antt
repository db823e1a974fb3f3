-- ===== src/Github/Commands.antt =====
-- internal/hosted/githubapp/commands.go: the command of a comment, and who may give it.
pub mod Authorized
mod Tests
use px.Prelude.{
  ℕ, zero, suc, ◌+◌, String, len, Bool, true, false, not, ◌&&◌, ◌||◌, Option, none, some, List, [],
  ◌∷◌, Result, ok, err, ◌>>=◌, ◌>>◌, refuse_if, wrap_error, ltb, leb, ◌==◌, if◌then◌else◌, str_eq,
}
use px.Prelude.Int.{ℤ, pos, leb_ℤ, eqb_ℤ}
use px.Prelude.Text.{
  trim_space, is_space, is_blank, split_on, fields_func, join, map_chars, ascii_lower, has_prefix,
  trim_right, show_ℤ,
}
use px.Prelude.Paths.{clean, is_abs, escapes}
use px.Report.Access.{HttpRequest, HttpResponse, is_slug}
use Prim.Native.Char.{code}
use Prim.Native.String.{◌++◌ as concat}

pub record Command : Type 0 where
  pub name : String
  pub path : String
  pub text : String
  pub memory_id : String

-- A command with nothing but its name.
abbrev pub bare : String → Command
bare name = record { name = name; path = ""; text = ""; memory_id = "" }

unfoldable pub valid_command_path : String → Bool
unfolding clean
valid_command_path value =
    not (str_eq value "")
    && not (is_abs value)
    && not (str_eq (clean value) ".")
    && not (escapes (clean value))

abbrev pub is_hex : ℕ → Bool
is_hex n = (leb b'0' n && leb n b'9') || (leb b'a' n && leb n b'f') || (leb b'A' n && leb n b'F')

-- The characters from position `i` on: dashes at 8, 13, 18 and 23, else hexadecimal digits.
unfoldable pub valid_id_from : ℕ → String → Bool
valid_id_from i String.[] = true
valid_id_from i (String.◌∷◌ c s) =
    (if i == 8 || i == 13 || i == 18 || i == 23 then code c == b'-' else is_hex (code c))
    && valid_id_from (i + 1) s

unfoldable pub valid_memory_id : String → Bool
unfolding valid_id_from
valid_memory_id value = len value == 36 && valid_id_from 0 value

-- The first line that is not blank, trimmed.
unfoldable pub first_line : List String → String
first_line [] = ""
first_line (l ∷ ls) = let rest = first_line ls in if is_blank l then rest else trim_space l

-- `strings.Fields`
abbrev pub fields : String → List String
fields = fields_func (λ c. is_space (code c))

-- `lower` is `strings.ToLower`.
module _ (lower : String → String) where
  unfoldable pub remember : List String → Option Command
  remember [] = none
  remember (w ∷ ws) =
      let text = trim_space (join " " (w ∷ ws)) in
      if str_eq text "" || ltb 2000 (len text)
      then none
      else some (record (bare "remember") { text = text })

  unfoldable pub explain : List String → Option Command
  explain (p ∷ []) =
      if valid_command_path p then some (record (bare "explain") { path = clean p }) else none
  explain other = none

  unfoldable pub forget : List String → Option Command
  forget (id ∷ []) =
      if valid_memory_id id then some (record (bare "forget") { memory_id = lower id }) else none
  forget other = none

  abbrev pub alone : String → List String → Option Command
  alone name [] = some (bare name)
  alone name (w ∷ ws) = none

  -- The `switch` over the second field, with the fields after it.
  unfoldable pub command_of : String → List String → Option Command
  unfolding remember explain forget
  command_of name args =
      if str_eq name "review" || str_eq name "ignore" || str_eq name "why"
      then alone name args
      else if str_eq name "explain"
      then explain args
      else if str_eq name "remember"
      then remember args
      else if str_eq name "forget"
      then forget args
      else none

  -- `strings.EqualFold(fields[0], "@px1")` and what follows.
  unfoldable pub command_in : List String → Option Command
  unfolding command_of map_chars ascii_lower
  command_in (mention ∷ name ∷ args) =
      if str_eq (map_chars ascii_lower mention) "@px1" then command_of (lower name) args else none
  command_in other = none

  unfoldable pub parse_command : String → Option Command
  unfolding command_in first_line split_on fields_func trim_space is_space
  parse_command body = command_in (fields (first_line (split_on 10 body)))

-- The client of the forge, `url.PathEscape`, and the decoding of the permission.
pub record Forge : Type 0 where
  pub send : ℤ → HttpRequest → Result HttpResponse
  pub path_escape : String → String
  pub decode_permission : String → Result String

abbrev pub may_write : String → Bool
may_write p = str_eq p "write" || str_eq p "maintain" || str_eq p "admin"

abbrev pub permission_request : Forge → String → String → String → String → HttpRequest
permission_request forge base_url owner repo actor =
    let trimmed = trim_right (λ n. n == b'/') base_url in
    record {
      method = "GET";
      url = concat (if str_eq trimmed "" then "https://api.github.com" else trimmed) (
          concat "/repos/" (
            concat (forge.path_escape owner) (
              concat "/" (
                concat (forge.path_escape repo)
                  (concat "/collaborators/" (concat (forge.path_escape actor) "/permission"))))));
      headers = [];
      body = "";
    }

-- What the forge's answer allows.
unfoldable pub allow : Forge → Command → HttpResponse → Result Command
allow forge command response = do
  refuse_if (not (eqb_ℤ response.status (pos 200)))
      (concat "check command permission: status " (show_ℤ response.status))
  permission ← wrap_error "decode command permission: " (forge.decode_permission response.body)
  refuse_if (not (may_write permission)) "commenter does not have repository write access"
  ok command

-- `CommandAuthorizer.Authorize`. `validSlug` is the test of report/access.go.
unfoldable pub authorize_command :
    (String → String)
    → Option Forge
    → String
    → ℤ
    → String
    → String
    → String
    → String
    → Result Command
unfolding allow is_slug
authorize_command lower client base_url installation owner repo actor body =
    elim (parse_command lower body) [
      | none ↦ err "comment does not contain a supported px1 command"
      | some command ↦
          let missing : Result Command =
            err "GitHub client and valid command identity are required" in
          elim client [
            | none ↦ missing
            | some forge ↦
                let answer : Result Command =
                  wrap_error "check command permission: "
                    (forge.send installation (permission_request forge base_url owner repo actor))
                  >>= λ response. allow forge command response in
                if leb_ℤ installation (pos 0)
                  || not (is_slug owner)
                  || not (is_slug repo)
                  || not (is_slug actor)
                then missing
                else answer
          ]
    ]
