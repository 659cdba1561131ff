-- ===== src/Affinity/Tool.antt =====
-- The tool's functions, with what they print as lines.
use linux_kernel_programming.Base.{
  ℕ, zero, suc, ◌+◌, ◌*◌, ◌/◌, ◌%◌, ◌^◌, List, [], ◌∷◌, ◌++◌, Option, none, some, Bool, true, false,
  ◌&&◌, ◌||◌, ◌==◌, ltb, if◌then◌else◌, length,
}
use linux_kernel_programming.Base.Words.{ℤ}
use linux_kernel_programming.Rdwr.{set}
use linux_kernel_programming.Client.{argument}

-- `cpu_set_t`: is the CPU in the set?
abbrev pub CpuSet : Type 0
CpuSet = ℕ → Bool

abbrev pub cpu_zero : CpuSet
cpu_zero i = false

abbrev pub cpu_set : ℕ → CpuSet → CpuSet
cpu_set i s = set s i true

pub data Line : Type 0 where
  usage failed setting : Line
  detected : (cores : ℕ) → Line
  heading : (pid : ℤ) → Line
  ruler : List ℕ → Line
  numbers : List ℕ → Line
  mask : List ℕ → Line

-- The characters of a ruler from the `i`-th on.
unfoldable pub ruler_from : (rounds i : ℕ) → List ℕ
ruler_from zero i = []
ruler_from (suc r) i = let rest = ruler_from r (i + 1) in (if i % 4 == 0 then b'+' else b'-') ∷ rest

abbrev pub print_ruler_line : ℕ → Line
print_ruler_line len = ruler (ruler_from (len * 4) 1)

-- The loops from `ncores - 1` down to 0
unfoldable pub cores_down : ℕ → List ℕ
cores_down zero = []
cores_down (suc n) = n ∷ cores_down n

unfoldable pub bits_down : ℕ → CpuSet → List ℕ
bits_down zero s = []
bits_down (suc n) s = (if s n then 1 else 0) ∷ bits_down n s

abbrev pub disp_cpumask : ℤ → CpuSet → ℕ → List Line
disp_cpumask pid cpumask ncores =
    heading pid
    ∷ print_ruler_line ncores
    ∷ numbers (cores_down ncores)
    ∷ print_ruler_line ncores
    ∷ mask (bits_down ncores cpumask)
    ∷ print_ruler_line ncores
    ∷ []

-- `(bitmask >> i) & 1`
abbrev pub bit_at : ℕ → ℕ → ℕ
bit_at bitmask i = bitmask / 2 ^ i % 2

-- The loop over the bits, from `i` on.
unfoldable pub set_bits : (rounds i bitmask : ℕ) → CpuSet → CpuSet
set_bits zero i bitmask s = s
set_bits (suc r) i bitmask s =
    set_bits r (i + 1) bitmask (if bit_at bitmask i == 1 then cpu_set i s else s)

-- The set for `sched_setaffinity`: an `unsigned long` has 64 bits.
abbrev pub set_of_mask : ℕ → CpuSet
set_of_mask bitmask = set_bits 64 0 bitmask cpu_zero

-- What the C library and the kernel answer: `sched_getaffinity` a set or a failure,
-- `sched_setaffinity` whether it succeeds.
pub record System : Type 0 where
  pub getpid : ℤ
  pub get_nprocs : ℕ
  pub atoi : List ℕ → ℤ
  pub strtoul : List ℕ → ℕ
  pub sched_getaffinity : ℤ → Option CpuSet
  pub sched_setaffinity : ℤ → CpuSet → Bool

abbrev pub query_cpu_affinity : System → ℤ → List Line
query_cpu_affinity sys pid = elim (sys.sched_getaffinity pid) [
  | none ↦ failed ∷ []
  | some cpumask ↦ disp_cpumask pid cpumask sys.get_nprocs
]

abbrev pub set_cpu_affinity : System → (pid : ℤ) (bitmask : ℕ) → List Line
set_cpu_affinity sys pid bitmask =
    let cpumask = set_of_mask bitmask in
    setting
    ∷ (if sys.sched_setaffinity pid cpumask
        then disp_cpumask pid cpumask sys.get_nprocs
        else failed ∷ [])

-- `!strncmp(s, prefix, n)`, for a prefix of n bytes
unfoldable pub starts_with : (prefix s : List ℕ) → Bool
starts_with [] s = true
starts_with (c ∷ cs) [] = false
starts_with (c ∷ cs) (x ∷ xs) = let rest = starts_with cs xs in (c == x) && rest

abbrev pub asks_help : List ℕ → Bool
asks_help arg =
    starts_with (b'-' ∷ b'-' ∷ b'h' ∷ b'e' ∷ b'l' ∷ b'p' ∷ []) arg
    || starts_with (b'-' ∷ b'h' ∷ []) arg

-- `main`, which always exits with success
unfoldable pub affinity_main : System → List (List ℕ) → List Line
affinity_main sys argv =
    let argc = length argv in
    let pid = if ltb argc 2 then sys.getpid else sys.atoi (argument 1 argv) in
    if ltb 1 argc && asks_help (argument 1 argv)
    then usage ∷ []
    else detected sys.get_nprocs ∷ query_cpu_affinity sys pid
      ++ (if argc == 3 then set_cpu_affinity sys pid (sys.strtoul (argument 2 argv)) else [])
