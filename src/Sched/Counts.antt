-- ===== src/Sched/Counts.antt =====
-- The number of the indices below a bound that have a property, as a sum of zeros and ones.
use sky_os.Base.{
  ℕ, zero, suc, ◌+◌, ◌≤◌, ◌<◌, ◌≡◌, ◌≢◌, refl, ap, inl, inr, arith, ◌==◌, Bool-cases, ==_iff,
}

unfoldable pub count : (n : ℕ) → (ℕ → ℕ) → ℕ
count zero f = 0
count (suc i) f = f i + count i f

pub count_le : (n : ℕ) (f : ℕ → ℕ) → ((i : ℕ) → f i ≤ 1) → count n f ≤ n
unfolding count
count_le zero f low = omega arith
count_le (suc n) f low = omega (arith, low n, count_le n f low)

pub count_member : (n : ℕ) (f : ℕ → ℕ) (i : ℕ) → i < n → f i ≡ 1 → 1 ≤ count n f
unfolding count
count_member zero f i lt one = absurd (omega arith)
count_member (suc n) f i lt one = elim (Bool-cases (i == n)) [
  | inl e ↦ omega (arith, one, ap f ((==_iff i n).0 e))
  | inr ne ↦ omega (arith, count_member n f i (ground arith) one)
]

count_same : (n : ℕ) (f g : ℕ → ℕ) → ((i : ℕ) → i < n → f i ≡ g i) → count n f ≡ count n g
unfolding count
count_same zero f g same = refl
count_same (suc n) f g same =
    omega (arith, same n (omega arith), count_same n f g (λ i lt. same i (omega arith)))

-- One member less.
pub count_less :
    (n : ℕ) (f g : ℕ → ℕ) (c : ℕ)
    → c < n
    → f c ≡ 1
    → g c ≡ 0
    → ((i : ℕ) → i ≢ c → f i ≡ g i)
    → count n f ≡ suc (count n g)
unfolding count
count_less zero f g c lt one none same = absurd (omega arith)
count_less (suc n) f g c lt one none same = elim (Bool-cases (c == n)) [
  | inl e ↦
      let at = (==_iff c n).0 e in
      omega (
        arith,
        one,
        none,
        ap f at,
        ap g at,
        count_same n f g (λ i l. same i (λ x. omega (arith, x, at))),
      )
  | inr ne ↦
      omega
        (arith, count_less n f g c (ground arith) one none same, same n (λ x. ground (arith, x)))
]
