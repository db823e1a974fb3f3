-- ===== src/Learning/Links.antt =====
-- internal/hosted/learning/proposal_queue.go: the GitHub links of a rule proposal.
mod Tests
use px.Prelude.{
  ℕ, ◌+◌, ◌*◌, ◌-◌, ◌^◌, ◌≡◌, String, Bool, true, false, not, ◌&&◌, ◌||◌, Option, none, some, List,
  [], ◌∷◌, str_eq, ltb, leb, ◌==◌, if◌then◌else◌,
}
use Prim.Native.Char.{Char, code}
use px.Prelude.Int.{ℤ, pos, ltb_ℤ}
use px.Prelude.Numbers.{parse_int}
use px.Prelude.Text.{trim_left, trim_right, split_on, map_chars, ascii_lower}

-- What the program reads of a parsed URL.
pub record Url : Type 0 where
  pub scheme : String
  pub host : String
  pub path : String

-- `url.Parse`, none for an error.
abbrev pub ParseUrl : Type 0
ParseUrl = String → Option Url

-- `strings.Trim(path, "/")`
abbrev pub trim_slashes : String → String
trim_slashes path = trim_right (λ c. c == 47) (trim_left (λ c. c == 47) path)

-- `strings.EqualFold(host, "github.com")`: no letter of the name has a fold outside ASCII.
abbrev on_github : Url → Bool
on_github url = str_eq url.scheme "https" && str_eq (map_chars ascii_lower url.host) "github.com"

unfoldable pub github_evidence_url : ParseUrl → String → Bool
github_evidence_url parse raw = elim (parse raw) [
  | none ↦ false
  | some url ↦ on_github url && not (str_eq (trim_slashes url.path) "")
]

abbrev is_positive : Option ℤ → Bool
is_positive none = false
is_positive (some n) = ltb_ℤ (pos 0) n

-- The path of a pull request: owner, repository, `pull` and a positive number.
unfoldable pub pull_request_path : List String → Bool
pull_request_path (owner ∷ repository ∷ kind ∷ number ∷ []) =
    str_eq kind "pull" && is_positive (parse_int number)
pull_request_path parts = false

unfoldable pub github_pull_request_url : ParseUrl → String → Bool
github_pull_request_url parse raw = elim (parse raw) [
  | none ↦ false
  | some url ↦ on_github url && pull_request_path (split_on 47 (trim_slashes url.path))
]
