-- ===== src/Primegen/Defs.antt =====
-- `simple_primegen` as the list of what it prints. No number here exceeds `MAX`, so no `int` wraps.
use linux_kernel_programming.Base.{
  ℕ, zero, suc, ◌+◌, ◌-◌, ◌/◌, ◌%◌, Bool, true, false, ◌&&◌, ◌||◌, not, List, [], ◌∷◌, ltb, ◌==◌,
  if◌then◌else◌,
}
use linux_kernel_programming.Base.Words.{ℤ, pos, negsuc}

pub data Out : Type 0 where
  num : ℕ → Out
  newline : Out

-- The inner loop from `j` on, with `rounds` rounds to go: does it clear `isprime`?
unfoldable pub finds_divisor : ℕ → ℕ → ℕ → Bool
finds_divisor zero i j = false
finds_divisor (suc rounds) i j =
    let rest = finds_divisor rounds i (j + 1) in if not (i == j) && i % j == 0 then true else rest

-- `for (j = 2; j < limit / 2; j++)`
abbrev pub isprime : ℕ → ℕ → Bool
isprime limit i = not (finds_divisor (limit / 2 - 2) i 2)

-- The outer loop from `i` on, with `rounds` rounds to go.
unfoldable pub generate : ℕ → ℕ → ℕ → ℕ → List Out
generate limit zero i n = newline ∷ []
generate limit (suc rounds) i n =
    let more = generate limit rounds (i + 1) (n + 1) in
    let same = generate limit rounds (i + 1) n in
    if isprime limit i
    then (if (n + 1) % 16 == 0 then num i ∷ newline ∷ more else num i ∷ more)
    else same

-- `for (i = 4; i <= limit; i++)`, after "2,  3, "
unfoldable pub simple_primegen : ℕ → List Out
unfolding finds_divisor generate
simple_primegen limit = num 2 ∷ num 3 ∷ generate limit (limit + 1 - 4) 4 2

-- Is `n` among the numbers printed?
unfoldable pub prints : ℕ → List Out → Bool
prints n [] = false
prints n (num m ∷ out) = n == m || prints n out
prints n (newline ∷ out) = prints n out

-- Do the numbers printed rise, from above `n` on?
unfoldable pub rises : ℕ → List Out → Bool
rises n [] = true
rises n (num m ∷ out) = ltb n m && rises m out
rises n (newline ∷ out) = rises n out

-- MAX and MAX_TIME
abbrev max : ℕ
max = 10000000

abbrev max_time : ℕ
max_time = 60

abbrev between : ℕ → ℕ → ℤ → Bool
between lo hi (pos n) = not (ltb n lo) && not (ltb hi n)
between lo hi (negsuc n) = false

-- The exit status and the output, as long as the alarm does not come first: `limit` and
-- `time_allowed` are what `atoi` makes of the arguments, `signal_fails` is the test of `signal`.
unfoldable pub main : (argc : ℕ) (limit time_allowed : ℤ) (signal_fails : Bool) → ℕ × List Out
unfolding simple_primegen
main argc (negsuc n) time_allowed signal_fails = (1, [])
main argc (pos limit) time_allowed signal_fails =
    if ltb argc 3
      || (not (between 4 max (pos limit))
          || (not (between 1 max_time time_allowed) || signal_fails))
    then (1, [])
    else (0, simple_primegen limit)
