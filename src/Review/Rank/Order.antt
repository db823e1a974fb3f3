-- ===== src/Review/Rank/Order.antt =====
-- internal/hosted/review/rank.go: the order of stronger, for the sort.
use px.Prelude.{◌≡◌, Bool, true, false, arith, ltb}
use px.Prelude.Int.{ltb_ℤ, eqb_ℤ-iff}
use px.Prelude.Text.{str_lt}
use px.Prelude.TextOrder.{str_lt-IsOrder, str_lt_antisym}
use px.Prelude.Paths.{clean}
use px.Prelude.Sort.{IsOrder}
use px.Prelude.Maps.{Key, nat_eq, int_eq, string_eq}
use px.Review.Rank.{order_by, more_f, by_title, stronger, severity_rank}

-- A strict total order on keys.
record IsTotal {ℓ} {K : Type ℓ} (lt : K → K → Bool) : Type ℓ where
  order : IsOrder lt
  antisym : (a b : K) → lt a b ≡ false → lt b a ≡ false → a ≡ b

IsTotal-ltb : IsTotal ltb
IsTotal-ltb = record {
  order = record { asym = λ a b h. ground arith; step = λ a b c h k. ground arith };
  antisym = λ a b h k. ground arith;
}

IsTotal-ltb_ℤ : IsTotal ltb_ℤ
IsTotal-ltb_ℤ = record {
  order = record { asym = λ a b h. ground arith; step = λ a b c h k. ground arith };
  antisym = λ a b h k. ground (arith, eqb_ℤ-iff a b);
}

IsTotal-more_f : IsTotal more_f
IsTotal-more_f = record {
  order = record { asym = λ a b h. ground arith; step = λ a b c h k. ground arith };
  antisym = λ a b h k. ground (arith, eqb_ℤ-iff a b);
}

IsTotal-str_lt : IsTotal str_lt
IsTotal-str_lt = record { order = str_lt-IsOrder; antisym = str_lt_antisym }

module _ {ℓ κ} {A : Type ℓ} {K : Type κ} ⦃e : Key K⦄ (lt : K → K → Bool) (total : IsTotal lt)
    (key : A → K) (next : A → A → Bool) (o : IsOrder next) where
  order_by-asym : (a b : A) → order_by lt key next a b ≡ true → order_by lt key next b a ≡ false
  order_by-asym a b h = ground (
    arith,
    e.agrees_iff (key a) (key b),
    e.agrees_iff (key b) (key a),
    total.order.asym (key a) (key b),
    o.asym a b,
  )

  order_by-step :
      (a b c : A)
      → order_by lt key next b a ≡ false
      → order_by lt key next c b ≡ false
      → order_by lt key next c a ≡ false
  order_by-step a b c h k = ground (
    arith,
    e.agrees_iff (key b) (key a),
    e.agrees_iff (key c) (key b),
    e.agrees_iff (key c) (key a),
    total.order.step (key a) (key b) (key c),
    total.antisym (key a) (key b),
    total.order.asym (key b) (key a),
    total.order.asym (key c) (key b),
    o.step a b c,
  )

  order_by-IsOrder : IsOrder (order_by lt key next)
  order_by-IsOrder = record { asym = order_by-asym; step = order_by-step }

by_title-IsOrder : IsOrder by_title
by_title-IsOrder = record {
  asym = λ a b h. str_lt-IsOrder.asym a.title b.title h;
  step = λ a b c h k. str_lt-IsOrder.step a.title b.title c.title h k;
}

pub stronger-IsOrder : IsOrder stronger
unfolding stronger
stronger-IsOrder =
    order_by-IsOrder ltb IsTotal-ltb (λ f. severity_rank f.severity) _
      (order_by-IsOrder more_f IsTotal-more_f (λ f. f.confidence) _
        (order_by-IsOrder str_lt IsTotal-str_lt (λ f. clean f.path) _
          (order_by-IsOrder ltb_ℤ IsTotal-ltb_ℤ (λ f. f.start_line) _
            (order_by-IsOrder ltb_ℤ IsTotal-ltb_ℤ (λ f. f.end_line) by_title by_title-IsOrder))))
