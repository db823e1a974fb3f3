-- ===== src/Learning/Links/Tests.antt =====
-- A link to a pull request, and links that are none.
use px.Prelude.{◌≡◌, refl, String, true, false, some}
use px.Prelude.Text.{trim_left, trim_right, split_on, map_chars, ascii_lower}
use px.Prelude.Numbers.{parse_int, digits_value}
use px.Learning.Links.{ParseUrl, github_evidence_url, pull_request_path, github_pull_request_url}

abbrev on : String → ParseUrl
on path raw = some (record { scheme = "https"; host = "GitHub.com"; path = path })

pull_request_link : github_pull_request_url (on "/a/b/pull/12") "u" ≡ true
unfolding github_pull_request_url pull_request_path split_on map_chars ascii_lower trim_left
    trim_right parse_int digits_value
pull_request_link = refl

issue_link : github_pull_request_url (on "/a/b/issues/12") "u" ≡ false
unfolding github_pull_request_url pull_request_path split_on map_chars ascii_lower trim_left
    trim_right parse_int digits_value
issue_link = refl

zero_link : github_pull_request_url (on "/a/b/pull/+0") "u" ≡ false
unfolding github_pull_request_url pull_request_path split_on map_chars ascii_lower trim_left
    trim_right parse_int digits_value
zero_link = refl

bare_link : github_evidence_url (on "/") "u" ≡ false
unfolding github_evidence_url map_chars ascii_lower trim_left trim_right
bare_link = refl
