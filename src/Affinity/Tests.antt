-- ===== src/Affinity/Tests.antt =====
-- A system of four cores that lets every mask be set.
use linux_kernel_programming.Base.{
  ℕ, ◌%◌, ◌^◌, ◌≡◌, ◌==◌, refl, List, [], ◌∷◌, true, some, arith, length, ltb, ◌&&◌,
}
use linux_kernel_programming.Base.Words.{pos}
use linux_kernel_programming.Affinity.Tool.{
  System, setting, heading, usage, numbers, mask, print_ruler_line, ruler_from, cores_down,
  set_of_mask, set_cpu_affinity, bit_at, affinity_main, starts_with,
}
use linux_kernel_programming.Affinity.Bits.{value, set_cpu_affinity_shows}

abbrev four_cores : System
four_cores = record {
  getpid = pos 7;
  get_nprocs = 4;
  atoi = λ s. pos 1;
  strtoul = λ s. 21;
  sched_getaffinity = λ p. some (λ i. true);
  sched_setaffinity = λ p s. true;
}

set_cpu_affinity_shows_example :
    ((j : ℕ) → set_of_mask 21 j ≡ (ltb j 64 && (bit_at 21 j == 1)))
    × (row : List ℕ) × (set_cpu_affinity four_cores (pos 1) 21
        ≡ setting
          ∷ heading (pos 1)
          ∷ print_ruler_line 4
          ∷ numbers (cores_down 4)
          ∷ print_ruler_line 4
          ∷ mask row
          ∷ print_ruler_line 4
          ∷ [])
    × (length row ≡ 4)
    × (value row ≡ 21 % 2 ^ 4)
set_cpu_affinity_shows_example = set_cpu_affinity_shows four_cores (pos 1) 21 (omega arith) refl

ruler_of_two : ruler_from 8 1 ≡ b'-' ∷ b'-' ∷ b'-' ∷ b'+' ∷ b'-' ∷ b'-' ∷ b'-' ∷ b'+' ∷ []
unfolding ruler_from
ruler_of_two = refl

help : affinity_main four_cores ([] ∷ (b'-' ∷ b'h' ∷ []) ∷ []) ≡ usage ∷ []
unfolding affinity_main starts_with
help = refl
