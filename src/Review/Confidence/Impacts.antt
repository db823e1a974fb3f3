-- ===== src/Review/Confidence/Impacts.antt =====
-- internal/hosted/review/confidence.go: the impacts of unresolved findings and their bounds.
use px.Prelude.{ℕ, min, ◌*◌, ◌^◌, ◌≤◌, ◌<◌, ◌≡◌, true, arith}
use px.Prelude.Int.{ℤ, pos, negsuc, ◌*ℤ◌, ◌≤ℤ◌, ◌<ℤ◌, ltb_ℤ, neg, mul64, wrap64-eq_of_InRange64}
use px.Review.Confidence.{min_ℤ, p0_impact, p1_impact}

times_two : (n : ℕ) → pos n *ℤ pos 2 ≡ pos (2 * n)
unfolding ◌*ℤ◌
times_two n = ground arith

double : (n : ℕ) → n < 2 ^ 62 → mul64 (pos n) (pos 2) ≡ pos (2 * n)
double n h = rw times_two (wrap64-eq_of_InRange64 (pos (2 * n)) (omega arith, omega arith))

-- Two a finding, four at most.
p0_impact_lem : (n : ℕ) → n < 2 ^ 62 → p0_impact (pos n) ≡ neg (pos (min 4 (2 * n)))
unfolding p0_impact
p0_impact_lem n h =
    rw (double n h) (ground (arith, wrap64-eq_of_InRange64 (neg (min_ℤ (pos 4) (pos (2 * n))))))

p1_impact_lem : (n : ℕ) → p1_impact (pos n) ≡ neg (pos (min 3 n))
unfolding p1_impact
p1_impact_lem n = ground (arith, wrap64-eq_of_InRange64 (neg (min_ℤ (pos 3) (pos n))))

neg_min :
    (k n : ℕ)
    → 0 < k
    → k ≤ 4
    → 0 < n
    → (negsuc 3 ≤ℤ neg (pos (min k n))) × (neg (pos (min k n)) ≤ℤ negsuc 0)
neg_min k n hk h4 hn = ground arith

-- An impact, whatever its name and detail.
abbrev pub Takes : ℤ → Type 0
Takes impact = (negsuc 3 ≤ℤ impact) × (impact ≤ℤ negsuc 0)

pub p0_Takes : (z : ℤ) → z <ℤ pos (2 ^ 62) → ltb_ℤ (pos 0) z ≡ true → Takes (p0_impact z)
p0_Takes (pos n) small h =
    rw (p0_impact_lem n (omega arith))
      (neg_min 4 (2 * n) (omega arith) (omega arith) (ground arith))
p0_Takes (negsuc n) small h = absurd (ground arith)

pub p1_Takes : (z : ℤ) → ltb_ℤ (pos 0) z ≡ true → Takes (p1_impact z)
p1_Takes (pos n) h = rw (p1_impact_lem n) (neg_min 3 n (omega arith) (omega arith) (ground arith))
p1_Takes (negsuc n) h = absurd (ground arith)

pub one_Takes : Takes (negsuc 0)
one_Takes = omega arith
