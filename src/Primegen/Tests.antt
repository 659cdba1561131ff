-- ===== src/Primegen/Tests.antt =====
-- A run of the generator, and its theorems at concrete limits.
use linux_kernel_programming.Base.{◌≤◌, ◌≡◌, ◌↔◌, refl, true, false, [], ◌∷◌, arith}
use linux_kernel_programming.Base.Words.{pos}
use linux_kernel_programming.Primegen.Defs.{main, num, newline, simple_primegen, prints, rises}
use linux_kernel_programming.Primegen.Primes.{IsPrime, simple_primegen-IsPrime}

primes_to_ten : simple_primegen 10 ≡ num 2 ∷ num 3 ∷ num 5 ∷ num 7 ∷ newline ∷ []
unfolding simple_primegen
primes_to_ten = refl

simple_primegen-IsPrime_example :
    ((prints 7 (simple_primegen 10) ≡ true) ↔ (IsPrime 7 × (7 ≤ 10)))
    × (rises 0 (simple_primegen 10) ≡ true)
simple_primegen-IsPrime_example = simple_primegen-IsPrime 10 7 (omega arith)

main_runs : main 3 (pos 6) (pos 5) false ≡ (0, num 2 ∷ num 3 ∷ num 5 ∷ newline ∷ [])
unfolding main simple_primegen
main_runs = refl

main_refuses : main 3 (pos 10) (pos 61) false ≡ (1, [])
unfolding main
main_refuses = refl
