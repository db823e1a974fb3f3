-- ===== src/Billing/Stripe/Parts.antt =====
-- internal/hosted/billing/stripe.go: the loop of parseStripeSignature against the texts of the parts.
use px.Prelude.{
  ◌≡◌, refl, sym, ◌∙◌, ◌⊎◌, ◌↔◌, inl, inr, String, Bool, true, none, some, List, [], ◌∷◌, ◌++◌,
  arith, str_eq, eq_iff, ok, err, Option-cases, Bool-cases, any_of, any_of-append, subst,
}
use px.Prelude.Int.{ℤ}
use px.Prelude.Text.{trim_space}
use px.Prelude.Numbers.{parse_int}
use px.Billing.Stripe.{cut_at_equals, read_parts}
use px.Billing.Stripe.Header.{
  IsStamp, IsCode, NoStamp, AllNumbers, LastStamp, HasCode, cut_at_equals-concat, keyed_text,
  coded_text, cut-stamp, cut-code,
}

stamp_unique : (p v w : String) → IsStamp p v → IsStamp p w → v ≡ w
stamp_unique p v w h k =
    let a = cut-stamp (trim_space p) v h in
    let b = cut-stamp (trim_space p) w k in ground (arith, a, b)

code_unique : (p v w : String) → IsCode p v → IsCode p w → v ≡ w
code_unique p v w h k =
    let a = cut-code (trim_space p) v h in
    let b = cut-code (trim_space p) w k in ground (arith, a, b)

stamp_excludes : (p v w : String) → IsStamp p v → ¬ IsCode p w
stamp_excludes p v w h k =
    let a = cut-stamp (trim_space p) v h in
    let b = cut-code (trim_space p) w k in ground (arith, a, b, eq_iff "t" "v1")

-- A part with another key, or none.
abbrev IsOther : String → Type 0
IsOther p = ((v : String) → ¬ IsStamp p v) × ((v : String) → ¬ IsCode p v)

-- What the loop does with a part.
abbrev Skips : String → Type 0
Skips p =
    (t : ℤ) (signatures parts : List String)
    → read_parts t signatures (p ∷ parts) ≡ read_parts t signatures parts

IsOther-cut_at_equals :
    (p : String)
    → ((v : String) → ¬ (cut_at_equals (trim_space p) ≡ some ("t", v)))
    → ((v : String) → ¬ (cut_at_equals (trim_space p) ≡ some ("v1", v)))
    → IsOther p
IsOther-cut_at_equals p t c =
    (λ v h. t v (cut-stamp (trim_space p) v h), λ v h. c v (cut-code (trim_space p) v h))

part_cases :
    (p : String)
    → ((v : String) × IsStamp p v) ⊎ (((v : String) × IsCode p v) ⊎ (IsOther p × Skips p))
unfolding read_parts
part_cases p = elim (Option-cases (cut_at_equals (trim_space p))) [
  | inl e ↦ inr (
      inr (
        IsOther-cut_at_equals p (λ v h. ground (arith, e, h)) (λ v h. ground (arith, e, h)),
        λ t signatures parts. rw (read_parts, e) refl,
      ))
  | inr ((key, value), e) ↦
      let whole = cut_at_equals-concat (trim_space p) key value e in
      elim (Bool-cases (str_eq key "t")) [
        | inl stamp ↦ inl (value, whole ∙ keyed_text key value ((eq_iff key "t").0 stamp))
        | inr no_stamp ↦ elim (Bool-cases (str_eq key "v1")) [
          | inl coded ↦ inr (inl (value, whole ∙ coded_text key value ((eq_iff key "v1").0 coded)))
          | inr no_code ↦ inr (
              inr (
                IsOther-cut_at_equals p (λ v h. ground (arith, e, h, no_stamp, eq_iff key "t"))
                    (λ v h. ground (arith, e, h, no_code, eq_iff key "v1")),
                λ t signatures parts. rw (read_parts, e, no_stamp, no_code) refl,
              ))
        ]
      ]
]

read_stamp :
    (p v : String) (t : ℤ) (signatures parts : List String)
    → IsStamp p v
    → read_parts t signatures (p ∷ parts) ≡ elim (parse_int v) [
      | none ↦ err "invalid Stripe signature timestamp"
      | some n ↦ read_parts n signatures parts
    ]
unfolding read_parts
read_stamp p v t signatures parts h = rw (read_parts, cut-stamp (trim_space p) v h) refl

read_code :
    (p v : String) (t : ℤ) (signatures parts : List String)
    → IsCode p v
    → read_parts t signatures (p ∷ parts) ≡ read_parts t (signatures ++ v ∷ []) parts
unfolding read_parts
read_code p v t signatures parts h = rw (read_parts, cut-code (trim_space p) v h) refl

-- What the loop found in the parts.
pub record IsRead (t : ℤ) (signatures parts : List String) (out : ℤ × List String) : Type 0 where
  pub numbers : AllNumbers parts
  pub last : LastStamp out.0 parts ⊎ (NoStamp parts × (out.0 ≡ t))
  pub codes :
      (passes : String → Bool)
      → (any_of passes out.1 ≡ true) ↔ ((any_of passes signatures ≡ true) ⊎ HasCode passes parts)

stamp-IsRead :
    (p v : String) (n t : ℤ) (signatures parts : List String) (out : ℤ × List String)
    → IsStamp p v
    → parse_int v ≡ some n
    → IsRead n signatures parts out
    → IsRead t signatures (p ∷ parts) out
unfolding LastStamp
stamp-IsRead p v n t signatures parts out h e i = record {
  numbers = (λ w k. (n, rw⁻¹ (stamp_unique p v w h k) e), i.numbers);
  last = elim i.last [
    | inl later ↦ inl (inl later)
    | inr (none_left, same) ↦ inl (inr (none_left, (v, h, rw same e)))
  ];
  codes = λ passes. (
    λ c. elim ((i.codes passes).0 c) [ inl a ↦ inl a | inr b ↦ inr (inr b) ],
    λ c. elim c [
      | inl a ↦ (i.codes passes).1 (inl a)
      | inr (inl (w, k, q)) ↦ absurd (stamp_excludes p v w h k)
      | inr (inr b) ↦ (i.codes passes).1 (inr b)
    ],
  );
}

code-IsRead :
    (p v : String) (t : ℤ) (signatures parts : List String) (out : ℤ × List String)
    → IsCode p v
    → IsRead t (signatures ++ v ∷ []) parts out
    → IsRead t signatures (p ∷ parts) out
unfolding LastStamp any_of
code-IsRead p v t signatures parts out h i = record {
  numbers = (λ w k. absurd (stamp_excludes p w v k h), i.numbers);
  last = elim i.last [
    | inl later ↦ inl (inl later)
    | inr (none_left, same) ↦ inr ((λ w k. stamp_excludes p w v k h, none_left), same)
  ];
  codes = λ passes. (
    λ c. elim ((i.codes passes).0 c) [
      | inl a ↦ elim (Bool-cases (any_of passes signatures)) [
        | inl before ↦ inl before
        | inr other ↦
            inr (inl (v, h, ground (arith, a, other, any_of-append passes signatures (v ∷ []))))
      ]
      | inr b ↦ inr (inr b)
    ],
    λ c. elim c [
      | inl a ↦
          (i.codes passes).1 (inl (ground (arith, a, any_of-append passes signatures (v ∷ []))))
      | inr (inl (w, k, q)) ↦
          let same = code_unique p v w h k in
          (i.codes passes).1
            (inl (ground (arith, q, same, any_of-append passes signatures (v ∷ []))))
      | inr (inr b) ↦ (i.codes passes).1 (inr b)
    ],
  );
}

other-IsRead :
    (p : String) (t : ℤ) (signatures parts : List String) (out : ℤ × List String)
    → IsOther p
    → IsRead t signatures parts out
    → IsRead t signatures (p ∷ parts) out
unfolding LastStamp
other-IsRead p t signatures parts out (no_stamp, no_code) i = record {
  numbers = (λ w k. absurd (no_stamp w k), i.numbers);
  last = elim i.last [
    | inl later ↦ inl (inl later)
    | inr (none_left, same) ↦ inr ((no_stamp, none_left), same)
  ];
  codes = λ passes. (
    λ c. elim ((i.codes passes).0 c) [ inl a ↦ inl a | inr b ↦ inr (inr b) ],
    λ c. elim c [
      | inl a ↦ (i.codes passes).1 (inl a)
      | inr (inl (w, k, q)) ↦ absurd (no_code w k)
      | inr (inr b) ↦ (i.codes passes).1 (inr b)
    ],
  );
}

nil-IsRead :
    (t : ℤ) (signatures : List String) (out : ℤ × List String)
    → read_parts t signatures [] ≡ ok out
    → IsRead t signatures [] out
unfolding read_parts
nil-IsRead t signatures out h =
    let same : (t, signatures) ≡ out = ground (arith, h) in
    subst (IsRead t signatures []) same (record {
      numbers = tt;
      last = inr (tt, refl);
      codes = λ passes. (λ c. inl c, λ c. elim c [ inl a ↦ a | inr b ↦ absurd b ]);
    })

pub read_parts-IsRead :
    (t : ℤ) (signatures parts : List String) (out : ℤ × List String)
    → read_parts t signatures parts ≡ ok out
    → IsRead t signatures parts out
read_parts-IsRead t signatures [] out h = nil-IsRead t signatures out h
read_parts-IsRead t signatures (p ∷ ps) out h = elim (part_cases p) [
  | inl (v, k) ↦
      let step = read_stamp p v t signatures ps k in
      elim (Option-cases (parse_int v)) [
        | inl e ↦ absurd (ground (arith, h, step, e))
        | inr (n, e) ↦
            stamp-IsRead p v n t signatures ps out k e
              (read_parts-IsRead n signatures ps out (ground (arith, h, step, e)))
      ]
  | inr (inl (v, k)) ↦ code-IsRead p v t signatures ps out k (
      read_parts-IsRead t (signatures ++ v ∷ []) ps out (sym (read_code p v t signatures ps k) ∙ h))
  | inr (inr (other, skips)) ↦
      other-IsRead p t signatures ps out other
        (read_parts-IsRead t signatures ps out (sym (skips t signatures ps) ∙ h))
]

pub read_parts-ok :
    (t : ℤ) (signatures parts : List String)
    → AllNumbers parts
    → (out : ℤ × List String) × (read_parts t signatures parts ≡ ok out)
unfolding read_parts
read_parts-ok t signatures [] all = ((t, signatures), refl)
read_parts-ok t signatures (p ∷ ps) all = elim (part_cases p) [
  | inl (v, k) ↦
      let (n, e) = all.0 v k in
      let (out, done) = read_parts-ok n signatures ps all.1 in
      (out, rw (read_stamp p v t signatures ps k) (rw e done))
  | inr (inl (v, k)) ↦
      let (out, done) = read_parts-ok t (signatures ++ v ∷ []) ps all.1 in
      (out, read_code p v t signatures ps k ∙ done)
  | inr (inr (other, skips)) ↦
      let (out, done) = read_parts-ok t signatures ps all.1 in (out, skips t signatures ps ∙ done)
]

pub LastStamp-NoStamp : (n : ℤ) (parts : List String) → LastStamp n parts → ¬ NoStamp parts
unfolding LastStamp
LastStamp-NoStamp n [] h k = h
LastStamp-NoStamp n (p ∷ ps) (inl later) k = LastStamp-NoStamp n ps later k.1
LastStamp-NoStamp n (p ∷ ps) (inr (none_left, (v, h, e))) k = k.0 v h

pub LastStamp-unique :
    (n m : ℤ) (parts : List String) → LastStamp n parts → LastStamp m parts → n ≡ m
unfolding LastStamp
LastStamp-unique n m [] h k = absurd h
LastStamp-unique n m (p ∷ ps) (inl h) (inl k) = LastStamp-unique n m ps h k
LastStamp-unique n m (p ∷ ps) (inl h) (inr k) = absurd (LastStamp-NoStamp n ps h k.0)
LastStamp-unique n m (p ∷ ps) (inr h) (inl k) = absurd (LastStamp-NoStamp m ps k h.0)
LastStamp-unique n m (p ∷ ps) (inr (a, (v, h, e))) (inr (b, (w, k, f))) =
    let same = stamp_unique p v w h k in ground (arith, e, f, same)
