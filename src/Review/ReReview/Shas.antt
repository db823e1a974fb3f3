-- ===== src/Review/ReReview/Shas.antt =====
-- internal/hosted/review/rereview.go: the SHAs and proposals that PlanReReview accepts.
use Prim.Native.Char.{Char, code}
use Prim.Native.String.{char_at}
use px.Prelude.{
  ℕ, zero, suc, ◌+◌, ◌-◌, ◌<◌, ◌≡◌, refl, ◌⊎◌, ◌↔◌, inl, inr, String, len, Bool, true, false, ◌&&◌,
  ◌||◌, List, leb, ◌==◌, arith, str_eq, eq_iff, Bool-cases, ok, err, any_of,
}
use px.Prelude.Text.{ascii_lower, map_chars, all_chars}
use px.Review.LineMap.{DiffRange}
use px.Review.ReReview.{
  PriorFinding, FingerprintedFinding, ReReviewPlan, is_hex, full_sha, plan_rereview,
}
use px.Review.ReReview.Plan.{IsPlan, are_shas, plan_rereview-IsPlan, plan_rereview-err}

-- `0` to `9`, `A` to `F` or `a` to `f`.
abbrev pub is_hex_digit : ℕ → Bool
is_hex_digit n = (leb 48 n && leb n 57) || (leb 65 n && leb n 70) || (leb 97 n && leb n 102)

below : (ℕ → Bool) → ℕ → Bool
below p zero = true
below p (suc n) = p n && below p n

below_lem : (p : ℕ → Bool) (n k : ℕ) → below p n ≡ true → k < n → p k ≡ true
unfolding below
below_lem p zero k h l = absurd (omega arith)
below_lem p (suc n) k h l = elim (Bool-cases (k == n)) [
  | inl e ↦ let same : k ≡ n = ground (arith, e) in rw same (ground (arith, h))
  | inr e ↦ below_lem p n k (ground (arith, h)) (ground (arith, e, l))
]

abbrev lower_letters : String
lower_letters = "abcdefghijklmnopqrstuvwxyz"

lower_letters_lem : (k : ℕ) → k < 26 → code (char_at lower_letters k) ≡ 97 + k
unfolding below
lower_letters_lem k l =
    let h = below_lem (λ n. code (char_at lower_letters n) == 97 + n) 26 k refl l in
    ground (arith, h)

is_hex-ascii_lower : (c : Char) → is_hex (code (ascii_lower c)) ≡ is_hex_digit (code c)
unfolding ascii_lower
is_hex-ascii_lower c = elim (Bool-cases (leb 65 (code c) && leb (code c) 90)) [
  | inl upper ↦ rw upper (ground (arith, upper, lower_letters_lem (code c - 65)))
  | inr other ↦ rw other (ground (arith, other))
]

all_chars-is_hex :
    (s : String) → all_chars is_hex (map_chars ascii_lower s) ≡ all_chars is_hex_digit s
unfolding all_chars map_chars
all_chars-is_hex String.[] = refl
all_chars-is_hex (String.◌∷◌ c s) = rw (is_hex-ascii_lower c, all_chars-is_hex s) refl

-- Forty hexadecimal digits.
abbrev pub IsSha : String → Type 0
IsSha s = (len s ≡ 40) × (all_chars is_hex_digit s ≡ true)

-- Two different SHAs.
abbrev pub AreShas : String → String → Type 0
AreShas base head = IsSha base × IsSha head × ¬ (base ≡ head)

full_sha_iff : (s : String) → (full_sha s ≡ true) ↔ IsSha s
unfolding full_sha
full_sha_iff s = ground (arith, all_chars-is_hex s)

are_shas_iff : (base head : String) → (are_shas base head ≡ true) ↔ AreShas base head
are_shas_iff base head = ground (arith, full_sha_iff base, full_sha_iff head, eq_iff base head)

-- A proposal has no fingerprint.
abbrev pub lacks_fingerprint : List FingerprintedFinding → Bool
lacks_fingerprint proposed = any_of (λ c. str_eq c.fingerprint "") proposed

-- PlanReReview gives a plan exactly where the base and the head are two different texts of forty
-- hexadecimal digits and every proposal has a fingerprint; without two such SHAs it is the error
-- about them, and else, for a proposal without a fingerprint, the error about that. The plan keeps
-- the proposals that were not dismissed, resolves the threads of open findings that do not recur
-- and whose range changed, and lists the dismissed fingerprints.
pub plan_rereview-AreShas :
    (base head : String) (changed : List DiffRange) (prior : List PriorFinding)
    → (proposed : List FingerprintedFinding)
    → (let out = plan_rereview base head changed prior proposed in
        ((¬ AreShas base head) × (out ≡ err "distinct full review SHAs are required"))
        ⊎ (AreShas base head
            × (((lacks_fingerprint proposed ≡ true)
                  × (out ≡ err "proposed finding fingerprint is required"))
                ⊎ ((lacks_fingerprint proposed ≡ false)
                    × ((plan : ReReviewPlan) × (out ≡ ok plan)
                        × IsPlan base head changed prior proposed plan)))))
plan_rereview-AreShas base head changed prior proposed = elim (Bool-cases (are_shas base head)) [
  | inr other ↦ inl (
    λ shas. (let same = (are_shas_iff base head).1 shas in ground (arith, same, other)),
    rw other at (plan_rereview-err base head changed prior proposed (rw other refl)),
  )
  | inl shas ↦ inr (
    (are_shas_iff base head).0 shas,
    elim (Bool-cases (lacks_fingerprint proposed)) [
      | inl lacks ↦ inl (
        lacks,
        rw shas at (plan_rereview-err base head changed prior proposed (rw (shas, lacks) refl)),
      )
      | inr named ↦ inr (named, plan_rereview-IsPlan base head changed prior proposed shas named)
    ],
  )
]
