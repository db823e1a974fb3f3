-- ===== src/Billing/Ledger/Tests.antt =====
-- A store that is the list of its entries, newest first, and never holds a key twice.
use px.Prelude.{
  ◌≡◌, refl, String, Bool, true, false, ◌&&◌, List, [], ◌∷◌, none, some, ok, err, arith, str_eq,
  Option, Option-cases, inl, inr, if◌then◌else◌,
}
use px.Prelude.Int.{ℤ, pos, negsuc, ◌+ℤ◌, ◌-ℤ◌, ◌≤ℤ◌, leb_ℤ, eqb_ℤ, eqb_ℤ-iff, wrap64}
use px.Billing.Ledger.{
  Transaction, Appended, LedgerStore, credit_reserve, credit_grant, credit_settle, credit_refund,
  valid_reservation, reserve, settle, refund,
}
use px.Billing.Ledger.Balance.{IsLedgerStore, settle-reserve, refund-reserve}

abbrev LedgerEntries : Type 0
LedgerEntries = List Transaction

unfoldable sum_of : LedgerEntries → ℤ → ℤ
sum_of [] tenant = pos 0
sum_of (t ∷ ts) tenant =
    if eqb_ℤ t.installation_id tenant then sum_of ts tenant +ℤ t.credits else sum_of ts tenant

abbrev same_key : Transaction → Transaction → Bool
same_key t old =
    eqb_ℤ old.installation_id t.installation_id && str_eq old.idempotency_key t.idempotency_key

-- The entry of the same tenant and key.
unfoldable known : Transaction → LedgerEntries → Option Transaction
known t [] = none
known t (old ∷ ts) = let rest = known t ts in if same_key t old then some old else rest

unfoldable append : Transaction → LedgerEntries → Appended LedgerEntries
append t ts = elim (known t ts) [ none ↦ (t ∷ ts, ok (t, true)) | some old ↦ (ts, ok (old, false)) ]

unfoldable reserve_in : Transaction → ℤ → LedgerEntries → Appended LedgerEntries
reserve_in t required ts = elim (known t ts) [
  | some old ↦ (ts, ok (old, false))
  | none ↦
      if leb_ℤ required (sum_of ts t.installation_id)
      then (t ∷ ts, ok (t, true))
      else (ts, err "insufficient credits")
]

abbrev entries_store : LedgerStore LedgerEntries
entries_store = record {
  append = append;
  reserve = reserve_in;
  balance = λ tenant ts. ok (sum_of ts tenant);
}

entries_store-IsLedgerStore : IsLedgerStore entries_store sum_of
unfolding append reserve_in sum_of
entries_store-IsLedgerStore = record {
  append_adds = λ t stored s after h. elim (Option-cases (known t s)) [
    | inl e ↦ ground (arith, h, e, eqb_ℤ-iff t.installation_id t.installation_id)
    | inr (old, e) ↦ ground (arith, h, e)
  ];
  reserve_adds = λ t stored required s after h. elim (Option-cases (known t s)) [
    | inl e ↦ ground (arith, h, e, eqb_ℤ-iff t.installation_id t.installation_id)
    | inr (old, e) ↦ ground (arith, h, e)
  ];
  reserve_keeps = λ t stored required s after h. elim (Option-cases (known t s)) [
    | inl e ↦ ground (arith, h, e)
    | inr (old, e) ↦ ground (arith, h, e)
  ];
}

abbrev entry : ℤ → String → String → String → ℤ → Transaction
entry tenant review key kind credits = record {
  id = "";
  installation_id = tenant;
  review_id = review;
  idempotency_key = key;
  kind = kind;
  credits = credits;
  created_at = pos 0;
}

abbrev start : LedgerEntries
start = entry (pos 1) "" "g" credit_grant (pos 10) ∷ []

abbrev reservation : Transaction
reservation = entry (pos 1) "r" "a" credit_reserve (negsuc 6)

reserve_seven :
    reserve (some entries_store) (pos 1) "r" (pos 7) "a" start
    ≡ (reservation ∷ start, ok (reservation, true))
unfolding reserve reserve_in known sum_of wrap64 ◌+ℤ◌
reserve_seven = refl

-- A reservation under a key that was used answers the old entry and changes nothing.
reserve_again :
    reserve (some entries_store) (pos 1) "r" (pos 2) "a" (reservation ∷ start)
    ≡ (reservation ∷ start, ok (reservation, false))
unfolding reserve reserve_in known sum_of wrap64
reserve_again = refl

abbrev settled : Transaction
settled = entry (pos 1) "r" "b" credit_settle (pos 4)

settle_three :
    settle (some entries_store) reservation (pos 3) "b" (reservation ∷ start)
    ≡ (settled ∷ reservation ∷ start, ok (settled, true))
unfolding settle valid_reservation append known wrap64 ◌-ℤ◌
settle_three = refl

abbrev refunded : Transaction
refunded = entry (pos 1) "r" "b" credit_refund (pos 7)

refund_seven :
    refund (some entries_store) reservation "b" (reservation ∷ start)
    ≡ (refunded ∷ reservation ∷ start, ok (refunded, true))
unfolding refund valid_reservation append known wrap64
refund_seven = refl

settle-reserve_example :
    (pos 7 ≤ℤ sum_of start (pos 1))
    × (sum_of (settled ∷ reservation ∷ start) (pos 1) ≡ sum_of start (pos 1) -ℤ pos 3)
settle-reserve_example =
    settle-reserve entries_store sum_of entries_store-IsLedgerStore (pos 1) "r" (pos 7) (pos 3) "a"
      "b" start (reservation ∷ start) (settled ∷ reservation ∷ start) reservation settled
      (omega arith, omega arith) (omega arith, omega arith) reserve_seven settle_three

refund-reserve_example : sum_of (refunded ∷ reservation ∷ start) (pos 1) ≡ sum_of start (pos 1)
refund-reserve_example =
    refund-reserve entries_store sum_of entries_store-IsLedgerStore (pos 1) "r" (pos 7) "a" "b"
      start (reservation ∷ start) (refunded ∷ reservation ∷ start) reservation refunded
      (omega arith, omega arith) reserve_seven refund_seven
