-- ===== src/Trend/Summary.antt =====
-- `getDataSummary` of web/src/lib/hooks/use-metrics-trend.ts, over natural numbers. The average is
-- the sum, to be divided by the count.
use Prim.Native.Nat.{min, max}
use nowhere_dash.Base.{ℕ, ◌+◌, ◌*◌, ◌≤◌, List, [], ◌∷◌, arith, length, All}

pub record Summary : Type 0 where
  pub min_value : ℕ
  pub max_value : ℕ
  pub total : ℕ
  pub count : ℕ

-- `Math.min(...)` and `Math.max(...)` over `n` and the rest.
unfoldable pub min_from : ℕ → List ℕ → ℕ
min_from n [] = n
min_from n (m ∷ ms) = min_from (min n m) ms

unfoldable pub max_from : ℕ → List ℕ → ℕ
max_from n [] = n
max_from n (m ∷ ms) = max_from (max n m) ms

-- `data.reduce((sum, val) => sum + val, 0)`.
unfoldable pub sum_from : ℕ → List ℕ → ℕ
sum_from acc [] = acc
sum_from acc (m ∷ ms) = sum_from (acc + m) ms

unfoldable pub data_summary : List ℕ → Summary
unfolding min_from max_from sum_from
data_summary [] = record { min_value = 0; max_value = 0; total = 0; count = 0 }
data_summary (n ∷ ns) = record {
  min_value = min_from n ns;
  max_value = max_from n ns;
  total = sum_from 0 (n ∷ ns);
  count = length (n ∷ ns);
}

min_from-le : (ns : List ℕ) (n : ℕ) → (min_from n ns ≤ n) × All (λ m. min_from n ns ≤ m) ns
unfolding min_from
min_from-le [] n = (omega arith, tt)
min_from-le (m ∷ ms) n =
    let h = min_from-le ms (min n m) in (omega (arith, h.0), (omega (arith, h.0), h.1))

max_from-ge : (ns : List ℕ) (n : ℕ) → (n ≤ max_from n ns) × All (λ m. m ≤ max_from n ns) ns
unfolding max_from
max_from-ge [] n = (omega arith, tt)
max_from-ge (m ∷ ms) n =
    let h = max_from-ge ms (max n m) in (omega (arith, h.0), (omega (arith, h.0), h.1))

sum_from-bounds :
    (ns : List ℕ) (acc lo hi : ℕ)
    → All (λ m. lo ≤ m) ns
    → All (λ m. m ≤ hi) ns
    → (acc + lo * length ns ≤ sum_from acc ns) × (sum_from acc ns ≤ acc + hi * length ns)
unfolding sum_from
sum_from-bounds [] acc lo hi _ _ = omega arith
sum_from-bounds (m ∷ ms) acc lo hi (a, as') (b, bs) =
    let h = sum_from-bounds ms (acc + m) lo hi as' bs in omega (arith, h.0, h.1)

both : (P Q : ℕ → Type 0) (xs : List ℕ) → All P xs → All Q xs → All (λ x. P x × Q x) xs
both P Q [] _ _ = tt
both P Q (x ∷ xs) (p, ps) (q, qs) = ((p, q), both P Q xs ps qs)

-- The minimum and the maximum bound every value, and the average lies between them: the count
-- times the minimum is at most the sum, which is at most the count times the maximum.
pub data_summary_bounds :
    (ns : List ℕ)
    → All (λ m. ((data_summary ns).min_value ≤ m) × (m ≤ (data_summary ns).max_value)) ns
      × ((data_summary ns).min_value * (data_summary ns).count ≤ (data_summary ns).total)
      × ((data_summary ns).total ≤ (data_summary ns).max_value * (data_summary ns).count)
unfolding data_summary
data_summary_bounds [] = ground arith
data_summary_bounds (n ∷ ns) =
    let lo = min_from-le ns n in
    let hi = max_from-ge ns n in
    let h = sum_from-bounds ns (0 + n) (min_from n ns) (max_from n ns) lo.1 hi.1 in
    (
      both (λ m. min_from n ns ≤ m) (λ m. m ≤ max_from n ns) (n ∷ ns) lo hi,
      omega (arith, h.0, lo.0),
      omega (arith, h.1, hi.0),
    )
