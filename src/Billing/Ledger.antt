-- ===== src/Billing/Ledger.antt =====
-- internal/hosted/billing/ledger.go: grants, reservations, settlements and refunds of credits.
pub mod Balance
mod Tests
use px.Prelude.{
  String, Bool, true, false, not, ◌||◌, Option, none, some, str_eq, if◌then◌else◌, Result, ok, err,
}
use px.Prelude.Int.{ℤ, pos, neg, ltb_ℤ, leb_ℤ, wrap64, sub64}

abbrev pub credit_grant : String
credit_grant = "grant"

abbrev pub credit_reserve : String
credit_reserve = "reserve"

abbrev pub credit_settle : String
credit_settle = "settle"

abbrev pub credit_refund : String
credit_refund = "refund"

-- `credits` is the signed change to the available balance. Times are nanoseconds.
pub record Transaction : Type 0 where
  pub id : String
  pub installation_id : ℤ
  pub review_id : String
  pub idempotency_key : String
  pub kind : String
  pub credits : ℤ
  pub created_at : ℤ

-- What an appending operation answers: the transaction, and whether it is new.
abbrev pub Appended {ℓ} : Type ℓ → Type ℓ
Appended S = S × Result (Transaction × Bool)

-- The interface of the store, over its states.
pub record LedgerStore {ℓ} (S : Type ℓ) : Type ℓ where
  pub append : Transaction → S → Appended S
  pub reserve : Transaction → ℤ → S → Appended S
  pub balance : ℤ → S → Result ℤ

abbrev new_transaction : ℤ → String → String → String → ℤ → Transaction
new_transaction installation_id review_id key kind credits = record {
  id = "";
  installation_id = installation_id;
  review_id = review_id;
  idempotency_key = key;
  kind = kind;
  credits = credits;
  created_at = pos 0;
}

unfoldable pub valid_reservation : Transaction → Bool
valid_reservation entry = not (
    leb_ℤ entry.installation_id (pos 0)
    || str_eq entry.review_id ""
    || not (str_eq entry.kind credit_reserve)
    || leb_ℤ (pos 0) entry.credits)

-- The entry that each operation writes.
abbrev pub grant_entry : ℤ → ℤ → String → Transaction
grant_entry installation_id credits key =
    new_transaction installation_id "" key credit_grant credits

abbrev pub reserve_entry : ℤ → String → ℤ → String → Transaction
reserve_entry installation_id review_id credits key =
    new_transaction installation_id review_id key credit_reserve (wrap64 (neg credits))

abbrev pub settle_entry : Transaction → ℤ → String → Transaction
settle_entry reservation actual key =
    new_transaction reservation.installation_id reservation.review_id key credit_settle
      (sub64 (wrap64 (neg reservation.credits)) actual)

abbrev pub refund_entry : Transaction → String → Transaction
refund_entry reservation key =
    new_transaction reservation.installation_id reservation.review_id key credit_refund
      (wrap64 (neg reservation.credits))

unfoldable pub grant {ℓ} : {S : Type ℓ} → Option (LedgerStore S) → ℤ → ℤ → String → S → Appended S
grant none installation_id credits key s =
    (s, err "ledger store, tenant, positive credits, and idempotency key are required")
grant (some store) installation_id credits key s =
    if leb_ℤ installation_id (pos 0) || leb_ℤ credits (pos 0) || str_eq key ""
    then (s, err "ledger store, tenant, positive credits, and idempotency key are required")
    else store.append (grant_entry installation_id credits key) s

unfoldable pub reserve {ℓ} :
    {S : Type ℓ} → Option (LedgerStore S) → ℤ → String → ℤ → String → S → Appended S
reserve none installation_id review_id credits key s =
    (s, err "ledger store, tenant, review, positive credits, and idempotency key are required")
reserve (some store) installation_id review_id credits key s =
    if leb_ℤ installation_id (pos 0)
      || str_eq review_id ""
      || leb_ℤ credits (pos 0)
      || str_eq key ""
    then (s, err "ledger store, tenant, review, positive credits, and idempotency key are required")
    else store.reserve (reserve_entry installation_id review_id credits key) credits s

unfoldable pub settle {ℓ} :
    {S : Type ℓ} → Option (LedgerStore S) → Transaction → ℤ → String → S → Appended S
settle none reservation actual key s = (s, err "ledger store is required")
settle (some store) reservation actual key s =
    if not (valid_reservation reservation) || ltb_ℤ actual (pos 0) || str_eq key ""
    then (s, err "valid reservation, non-negative actual credits, and idempotency key are required")
    else store.append (settle_entry reservation actual key) s

unfoldable pub refund {ℓ} :
    {S : Type ℓ} → Option (LedgerStore S) → Transaction → String → S → Appended S
refund none reservation key s = (s, err "ledger store is required")
refund (some store) reservation key s =
    if not (valid_reservation reservation) || str_eq key ""
    then (s, err "valid reservation and idempotency key are required")
    else store.append (refund_entry reservation key) s
