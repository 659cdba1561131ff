-- ===== src/Primegen/Primes.antt =====
-- Which numbers the program prints.
use linux_kernel_programming.Base.{
  ℕ, zero, suc, ◌+◌, ◌-◌, ◌*◌, ◌/◌, ◌%◌, ◌≤◌, ◌<◌, ◌≡◌, ◌≢◌, ◌↔◌, ◌⊎◌, inl, inr, refl, sym, ap, ◌∙◌,
  true, false, not, arith, dec_lt, ℕ_discrete,
}
use linux_kernel_programming.Primegen.Defs.{
  finds_divisor, isprime, generate, simple_primegen, prints, rises,
}
use mathlib.Core.Path.{ap₂}
use native.Mathlib.Nat.{mod-add-div, mod-eq_of_lt}

abbrev pub IsPrime : ℕ → Type 0
IsPrime i = (2 ≤ i) × ((d : ℕ) → 2 ≤ d → d < i → i % d ≢ 0)

-- What the inner loop decides, over the range of `j` that it runs through.
no_divisor :
    (rounds i j : ℕ)
    → finds_divisor rounds i j ≡ false
    → (d : ℕ) → j ≤ d
    → d < j + rounds
    → i ≢ d
    → i % d ≢ 0
unfolding finds_divisor
no_divisor zero i j h d lo hi ne = absurd (omega arith)
no_divisor (suc rounds) i j h d lo hi ne = elim (ℕ_discrete j d) [
  | yes e ↦ ground arith
  | no other ↦ no_divisor rounds i (j + 1) (ground arith) d (omega arith) (omega arith) ne
]

found_none :
    (rounds i j : ℕ)
    → ((d : ℕ) → j ≤ d → d < j + rounds → i ≢ d → i % d ≢ 0)
    → finds_divisor rounds i j ≡ false
unfolding finds_divisor
found_none zero i j h = refl
found_none (suc rounds) i j h = ground (
  arith,
  h j (omega arith) (omega arith),
  found_none rounds i (j + 1) (λ d lo hi. h d (omega arith) (omega arith)),
)

-- A divisor from half the limit on has the cofactor 2, so the number is even.
even_of_large :
    (limit i d : ℕ) → 6 ≤ limit → i ≤ limit → limit / 2 ≤ d → d < i → i % d ≡ 0 → i % 2 ≡ 0
even_of_large limit i d l6 il big lt e =
    cofactor (i / d) (sym (mod-add-div i d) ∙ rw e (omega arith))
  where
    cofactor : (q : ℕ) → i ≡ d * q → i % 2 ≡ 0
    cofactor zero h = absurd (omega arith)
    cofactor (suc zero) h = absurd (omega arith)
    cofactor (suc (suc zero)) h = omega arith
    cofactor (suc (suc (suc q))) h = absurd (omega arith)

-- The test is right for the numbers from 4 to the limit, once the limit is 6.
isprime-IsPrime : (limit i : ℕ) → 6 ≤ limit → 4 ≤ i → i ≤ limit → isprime limit i ≡ true → IsPrime i
isprime-IsPrime limit i l6 i4 il h = (omega arith, none_divides)
  where
    none_found : finds_divisor (limit / 2 - 2) i 2 ≡ false
    none_found = ground arith

    none_divides : (d : ℕ) → 2 ≤ d → d < i → i % d ≢ 0
    none_divides d lo hi e = elim (dec_lt d (limit / 2)) [
      | yes small ↦
          no_divisor (limit / 2 - 2) i 2 none_found d lo (omega arith) (λ same. omega arith) e
      | no big ↦
          no_divisor (limit / 2 - 2) i 2 none_found 2 (omega arith) (omega arith)
            (λ same. omega arith) (even_of_large limit i d l6 il (omega arith) hi e)
    ]

IsPrime-isprime : (limit i : ℕ) → IsPrime i → isprime limit i ≡ true
IsPrime-isprime limit i p = ap not (found_none (limit / 2 - 2) i 2 undivided)
  where
    undivided : (d : ℕ) → 2 ≤ d → d < 2 + (limit / 2 - 2) → i ≢ d → i % d ≢ 0
    undivided d lo hi ne e = elim (dec_lt d i) [
      | yes lt ↦ p.1 d lo lt e
      | no ge ↦ let small : i < d = omega arith in absurd (omega (arith, mod-eq_of_lt small, p.0))
    ]

prints_sound :
    (limit rounds i k n : ℕ)
    → prints n (generate limit rounds i k) ≡ true
    → (i ≤ n) × (n < i + rounds) × (isprime limit n ≡ true)
unfolding prints generate
prints_sound limit zero i k n h = cc
prints_sound limit (suc rounds) i k n h =
    ground
      (arith, prints_sound limit rounds (i + 1) k n, prints_sound limit rounds (i + 1) (k + 1) n)

prints_complete :
    (limit rounds i k n : ℕ)
    → i ≤ n
    → n < i + rounds
    → isprime limit n ≡ true
    → prints n (generate limit rounds i k) ≡ true
unfolding prints generate
prints_complete limit zero i k n lo hi p = absurd (omega arith)
prints_complete limit (suc rounds) i k n lo hi p = ground (
  arith,
  prints_complete limit rounds (i + 1) k n,
  prints_complete limit rounds (i + 1) (k + 1) n,
)

rises-generate : (limit rounds i k n : ℕ) → n < i → rises n (generate limit rounds i k) ≡ true
unfolding rises generate
rises-generate limit zero i k n h = refl
rises-generate limit (suc rounds) i k n h =
    ground (
      arith,
      rises-generate limit rounds (i + 1) k n,
      rises-generate limit rounds (i + 1) (k + 1) i,
    )

small-IsPrime : (n : ℕ) → (n ≡ 2) ⊎ (n ≡ 3) → IsPrime n
small-IsPrime n (inl two) = (omega arith, λ d lo hi e. omega arith)
small-IsPrime n (inr three) = (omega arith, λ d lo hi e. odd d (omega arith) e)
  where
    odd : (d : ℕ) → d ≡ 2 → n % d ≢ 0
    odd d two e = omega (arith, ap₂ ◌%◌ three two)

-- For a limit of 6 or more the program prints exactly the prime numbers up to the limit, in rising
-- order, so each of them once.
pub simple_primegen-IsPrime :
    (limit n : ℕ)
    → 6 ≤ limit
    → ((prints n (simple_primegen limit) ≡ true) ↔ (IsPrime n × (n ≤ limit)))
      × (rises 0 (simple_primegen limit) ≡ true)
unfolding simple_primegen prints rises
simple_primegen-IsPrime limit n l6 =
    ((printed, prime), rises-generate limit (limit + 1 - 4) 4 2 3 (omega arith))
  where
    printed : prints n (simple_primegen limit) ≡ true → IsPrime n × (n ≤ limit)
    printed h = elim (dec_lt n 4) [
      | yes small ↦
          (small-IsPrime n (ground (arith, prints_sound limit (limit + 1 - 4) 4 2 n)), omega arith)
      | no big ↦
          let (lo, hi, p) = prints_sound limit (limit + 1 - 4) 4 2 n (ground arith) in
          (isprime-IsPrime limit n l6 lo (omega arith) p, omega arith)
    ]

    prime : IsPrime n × (n ≤ limit) → prints n (simple_primegen limit) ≡ true
    prime (p, le) = elim (dec_lt n 4) [
      | yes small ↦ ground arith
      | no big ↦ ground (
        arith,
        prints_complete limit (limit + 1 - 4) 4 2 n (omega arith) (omega arith)
            (IsPrime-isprime limit n p),
      )
    ]

-- For the limits 4 and 5 the inner loop has no round, and 4 is printed as a prime number.
pub simple_primegen-prints_four :
    (limit : ℕ) → 4 ≤ limit → limit < 6 → prints 4 (simple_primegen limit) ≡ true
unfolding simple_primegen prints finds_divisor
simple_primegen-prints_four limit lo hi =
    prints_complete limit (limit + 1 - 4) 4 2 4 (omega arith) (omega arith) passes
  where
    no_rounds : limit / 2 - 2 ≡ 0
    no_rounds = omega arith

    passes : isprime limit 4 ≡ true
    passes = rw no_rounds
