-- ===== src/Config/Decode.antt =====
-- config_cascade.go: the input of one config file, and its checks.
use px.Prelude.{
  ℕ, ◌*◌, ◌^◌, String, len, Bool, false, not, ◌&&◌, ◌||◌, Option, none, some, List, [], ◌∷◌, str_eq,
  ltb, leb, ◌==◌, Result, ok, ◌>>=◌, ◌>>◌, refuse_if, length,
}
use px.Prelude.Int.{ℤ, pos, ltb_ℤ, eqb_ℤ}
use px.Prelude.Text.{is_blank, split_on, all_chars, map_chars, ascii_lower}
use px.Prelude.Maps.{contains, string_eq}

abbrev pub config_file_limit : ℕ
config_file_limit = 64 * 2 ^ 10

-- A pointer is an option, and so is a list that may be nil; `context` is the list of its repositories.
pub record ConfigInput : Type 0 where
  pub version : ℤ
  pub strictness : Option ℤ
  pub comment_types : Option (List String)
  pub disabled_rules : List String
  pub max_inline_comments : Option ℤ
  pub fail_on_p0 : Option Bool
  pub context : Option (List String)

-- The value is there and lies outside the bounds.
abbrev pub outside : ℤ → ℤ → Option ℤ → Bool
outside low high none = false
outside low high (some n) = ltb_ℤ n low || ltb_ℤ high n

abbrev slug_char : ℕ → Bool
slug_char c =
    (leb 97 c && leb c 122)
    || (leb 65 c && leb c 90)
    || (leb 48 c && leb c 57)
    || c == 45
    || c == 95
    || c == 46

unfoldable pub config_slug : String → Bool
config_slug value =
    not (str_eq value "" || str_eq value "." || str_eq value "..") && all_chars slug_char value

abbrev allowed_type : String → Bool
allowed_type kind =
    str_eq kind "logic" || str_eq kind "syntax" || str_eq kind "style" || str_eq kind "security"

-- The loop over the comment types, given those seen.
unfoldable pub check_types : List String → List String → Result (Unit {0})
check_types seen [] = ok tt
check_types seen (kind ∷ kinds) =
    refuse_if (not (allowed_type kind) || contains kind seen)
      "commentTypes contains an invalid or duplicate value"
    >> check_types (kind ∷ seen) kinds

unfoldable pub check_rules : List String → List String → Result (Unit {0})
check_rules seen [] = ok tt
check_rules seen (id ∷ ids) =
    refuse_if (is_blank id || ltb 80 (len id)) "disabledRules contains an invalid id"
    >> refuse_if (contains id seen) "disabledRules contains a duplicate id"
    >> check_rules (id ∷ seen) ids

-- `owner/repository`, in two slugs.
unfoldable pub is_repository : List String → Bool
is_repository (owner ∷ repository ∷ []) = config_slug owner && config_slug repository
is_repository parts = false

-- `strings.ToLower` on the key, which is ASCII where the slugs are.
abbrev pub repository_key : String → String
repository_key repository = map_chars ascii_lower repository

unfoldable pub check_repositories : List String → List String → Result (Unit {0})
check_repositories seen [] = ok tt
check_repositories seen (repository ∷ repositories) =
    refuse_if
      (not (is_repository (split_on 47 repository)) || contains (repository_key repository) seen)
      "context.repos contains an invalid or duplicate owner/repository"
    >> check_repositories (repository_key repository ∷ seen) repositories

abbrev check_context : Option (List String) → Result (Unit {0})
check_context none = ok tt
check_context (some repositories) =
    refuse_if (ltb 10 (length repositories)) "context.repos cannot exceed 10 repositories"
    >> check_repositories [] repositories

-- The list, nil read as empty.
abbrev or_empty : Option (List String) → List String
or_empty none = []
or_empty (some xs) = xs

-- The checks after the file was decoded.
unfoldable pub check_config : ConfigInput → Result ConfigInput
check_config input =
    refuse_if (not (eqb_ℤ input.version (pos 1))) "version must be 1"
    >> refuse_if (outside (pos 1) (pos 3) input.strictness) "strictness must be between 1 and 3"
    >> refuse_if (outside (pos 1) (pos 50) input.max_inline_comments)
        "maxInlineComments must be between 1 and 50"
    >> check_types [] (or_empty input.comment_types)
    >> check_rules [] input.disabled_rules
    >> check_context input.context
    >> ok input

-- The JSON decoder of Go's library: a config that fills the text with known fields only, whether data
-- trails it, or why there is none.
abbrev pub DecodeJson : Type 0
DecodeJson = String → Result (ConfigInput × Bool)

-- `decodeConfig`
unfoldable pub decode_config : DecodeJson → String → Result ConfigInput
decode_config decode body =
    refuse_if (len body == 0 || ltb config_file_limit (len body))
      "config must be non-empty and at most 64 KiB"
    >> (decode body >>= λ out.
        refuse_if out.1 "config contains trailing data" >> check_config out.0)
