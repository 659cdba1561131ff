-- ===== src/Rdwr/Sums.antt =====
-- Sums over the first threads, and what a change at one thread does to them.
use linux_kernel_programming.Base.{
  ℕ, zero, suc, ◌+◌, ◌*◌, ◌≤◌, ◌<◌, ◌≡◌, ◌≢◌, refl, ap, ℕ_discrete, arith,
}

unfoldable pub total : ℕ → (ℕ → ℕ) → ℕ
total zero f = 0
total (suc n) f = total n f + f n

module _ (f g : ℕ → ℕ) (i : ℕ) (same : (j : ℕ) → j ≢ i → g j ≡ f j) where
  total_other : (n : ℕ) → n ≤ i → total n g ≡ total n f
  unfolding total
  total_other zero out = refl
  total_other (suc n) out =
      let before = total_other n (omega arith) in
      let here = same n (λ e. omega (arith, e)) in omega arith

  pub total_change : (n : ℕ) → i < n → total n g + f i ≡ total n f + g i
  unfolding total
  total_change zero inside = absurd (omega arith)
  total_change (suc n) inside = elim (ℕ_discrete n i) [
    | yes e ↦
        let before = total_other n (omega (arith, e)) in
        let g_same : g n ≡ g i = ap g e in let f_same : f n ≡ f i = ap f e in omega arith
    | no ne ↦ let before = total_change n (omega (arith, ne)) in let here = same n ne in omega arith
  ]

pub total-le : (bound : ℕ) (f : ℕ → ℕ) → ((j : ℕ) → f j ≤ bound) → (n : ℕ) → total n f ≤ n * bound
unfolding total
total-le bound f small zero = omega arith
total-le bound f small (suc n) =
    let before = total-le bound f small n in let here = small n in omega arith
