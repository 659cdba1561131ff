-- ===== src/Affinity/Bits.antt =====
-- The mask that is shown after it was set, read as a binary number.
use linux_kernel_programming.Base.{
  ℕ, zero, suc, ℕ_discrete, ◌+◌, ◌*◌, ◌/◌, ◌%◌, ◌^◌, ◌≤◌, ◌<◌, ◌≡◌, ◌≢◌, refl, sym, ap, ◌∙◌, List,
  [], ◌∷◌, Bool, true, false, ◌==◌, if◌then◌else◌, length, arith, ltb, lt→ltb, ◌&&◌, dec_lt,
}
use mathlib.Core.Path.{subst}
use native.Mathlib.Nat.{
  mod-add-div, mod-eq_of_lt, add-mul-mod_self_left, mod-lt, mul-add, mul_assoc, mul_comm,
  mul-le-mul_right, pow-succ',
}
use linux_kernel_programming.Base.Words.{ℤ}
use linux_kernel_programming.Rdwr.Threads.{set_same, set_other}
use linux_kernel_programming.Affinity.Tool.{
  System, failed, setting, heading, numbers, mask, print_ruler_line, cores_down, disp_cpumask,
  set_cpu_affinity, CpuSet, cpu_zero, cpu_set, bits_down, bit_at, set_bits, set_of_mask,
}

-- Reading digits, the most significant first.
unfoldable pub value : List ℕ → ℕ
value [] = 0
value (b ∷ bs) = let rest = value bs in b * 2 ^ length bs + rest

length-bits_down : (n : ℕ) (s : CpuSet) → length (bits_down n s) ≡ n
unfolding bits_down
length-bits_down zero s = refl
length-bits_down (suc n) s = omega (arith, length-bits_down n s)

-- One round of the loop leaves the other CPUs alone.
round_other : (b : Bool) (i j : ℕ) (s : CpuSet) → j ≢ i → (if b then cpu_set i s else s) j ≡ s j
round_other true i j s ne = set_other s i true j ne
round_other false i j s ne = refl

round_same : (b : Bool) (i : ℕ) (s : CpuSet) → s i ≡ false → (if b then cpu_set i s else s) i ≡ b
round_same true i s clear = set_same s i true
round_same false i s clear = clear

set_bits_low : (r i m : ℕ) (s : CpuSet) (j : ℕ) → j < i → set_bits r i m s j ≡ s j
unfolding set_bits
set_bits_low zero i m s j lt = refl
set_bits_low (suc r) i m s j lt =
    set_bits_low r (i + 1) m (if bit_at m i == 1 then cpu_set i s else s) j (omega arith)
    ∙ round_other (bit_at m i == 1) i j s (λ e. absurd (omega (arith, e)))

set_bits_lem :
    (r i m : ℕ) (s : CpuSet) (j : ℕ)
    → i ≤ j
    → j < i + r
    → s j ≡ false
    → set_bits r i m s j ≡ (bit_at m j == 1)
unfolding set_bits
set_bits_lem zero i m s j le lt clear = absurd (omega arith)
set_bits_lem (suc r) i m s j le lt clear = elim (ℕ_discrete i j) [
  | yes e ↦
      set_bits_low r (i + 1) m (if bit_at m i == 1 then cpu_set i s else s) j (omega (arith, e))
      ∙ subst (λ k. (if bit_at m i == 1 then cpu_set i s else s) k ≡ (bit_at m k == 1)) e
          (round_same (bit_at m i == 1) i s (ap s e ∙ clear))
  | no ne ↦
      set_bits_lem r (i + 1) m (if bit_at m i == 1 then cpu_set i s else s) j (omega (arith, ne))
        (omega arith) (round_other (bit_at m i == 1) i j s (λ e. ne (sym e)) ∙ clear)
]

set_bits_high : (r i m : ℕ) (s : CpuSet) (j : ℕ) → i + r ≤ j → set_bits r i m s j ≡ s j
unfolding set_bits
set_bits_high zero i m s j le = refl
set_bits_high (suc r) i m s j le =
    set_bits_high r (i + 1) m (if bit_at m i == 1 then cpu_set i s else s) j (omega arith)
    ∙ round_other (bit_at m i == 1) i j s (λ e. absurd (omega (arith, e)))

set_of_mask_lem : (m j : ℕ) → j < 64 → set_of_mask m j ≡ (bit_at m j == 1)
set_of_mask_lem m j lt = set_bits_lem 64 0 m cpu_zero j (omega arith) (omega arith) refl

-- The CPUs of the mask's bits, and no CPU from 64 on.
pub set_of_mask-bits : (m j : ℕ) → set_of_mask m j ≡ (ltb j 64 && (bit_at m j == 1))
set_of_mask-bits m j = elim (dec_lt j 64) [
  | yes lt ↦ set_of_mask_lem m j lt ∙ rw (lt→ltb j 64 lt) refl
  | no ge ↦
      let above : ltb j 64 ≡ false = ground arith in
      set_bits_high 64 0 m cpu_zero j (omega (arith, ge)) ∙ rw above refl
]

bit_lem : (x : ℕ) → (if x % 2 == 1 then 1 else 0) ≡ x % 2
bit_lem x = ground arith

split : (m p : ℕ) → m ≡ m / p % 2 * p + m % p + p * 2 * (m / p / 2)
split m p = omega (
  arith,
  mod-add-div m p,
  ap (λ t. p * t) (mod-add-div (m / p) 2),
  mul-add p (m / p % 2) (2 * (m / p / 2)),
  mul_assoc p 2 (m / p / 2),
  mul_comm p (m / p % 2),
)

-- The lowest n + 1 bits are bit n and the lowest n.
mod_step : (m p : ℕ) → 0 < p → m / p % 2 * p + m % p ≡ m % (p * 2)
mod_step m p lt = sym (
    ap (λ t. t % (p * 2)) (split m p)
    ∙ add-mul-mod_self_left (m / p % 2 * p + m % p) (p * 2) (m / p / 2)
    ∙ mod-eq_of_lt small)
  where
    small : m / p % 2 * p + m % p < p * 2
    small = omega (arith, mul-le-mul_right {m = m / p % 2} {n = 1} p (omega arith), mod-lt m lt)

value-bits_down : (n m : ℕ) → n ≤ 64 → value (bits_down n (set_of_mask m)) ≡ m % 2 ^ n
unfolding value bits_down
value-bits_down zero m le = omega arith
value-bits_down (suc n) m le =
    ap (λ l. (if set_of_mask m n then 1 else 0) * 2 ^ l + value (bits_down n (set_of_mask m)))
      (length-bits_down n (set_of_mask m))
    ∙ ap (λ t. (if set_of_mask m n then 1 else 0) * 2 ^ n + t) (value-bits_down n m (omega arith))
    ∙ ap (λ b. (if b then 1 else 0) * 2 ^ n + m % 2 ^ n) (set_of_mask_lem m n (omega arith))
    ∙ ap (λ b. b * 2 ^ n + m % 2 ^ n) (bit_lem (m / 2 ^ n))
    ∙ mod_step m (2 ^ n) (pow_pos n)
    ∙ ap (λ t. m % t) (mul_comm (2 ^ n) 2 ∙ sym (pow-succ' 2 n))
  where
    pow_pos : (n : ℕ) → 0 < 2 ^ n
    pow_pos zero = omega arith
    pow_pos (suc n) = omega (arith, pow-succ' 2 n, pow_pos n)

-- On at most 64 cores, and when `sched_setaffinity` succeeds with the set it is given: that set has
-- the CPUs below 64 whose bit in the mask is set, and no others, and the row that is then shown has
-- one digit for each core and is, read as a binary number, the mask modulo 2 to the number of cores.
pub set_cpu_affinity_shows :
    (sys : System) (pid : ℤ) (bitmask : ℕ)
    → sys.get_nprocs ≤ 64
    → sys.sched_setaffinity pid (set_of_mask bitmask) ≡ true
    → ((j : ℕ) → set_of_mask bitmask j ≡ (ltb j 64 && (bit_at bitmask j == 1)))
      × (row : List ℕ) × (set_cpu_affinity sys pid bitmask
          ≡ setting
            ∷ heading pid
            ∷ print_ruler_line sys.get_nprocs
            ∷ numbers (cores_down sys.get_nprocs)
            ∷ print_ruler_line sys.get_nprocs
            ∷ mask row
            ∷ print_ruler_line sys.get_nprocs
            ∷ [])
      × (length row ≡ sys.get_nprocs)
      × (value row ≡ bitmask % 2 ^ sys.get_nprocs)
set_cpu_affinity_shows sys pid bitmask few ok = (
  set_of_mask-bits bitmask,
  bits_down sys.get_nprocs (set_of_mask bitmask),
  ap
      (λ b.
        setting
        ∷ (if b then disp_cpumask pid (set_of_mask bitmask) sys.get_nprocs else failed ∷ []))
      ok,
  length-bits_down sys.get_nprocs (set_of_mask bitmask),
  value-bits_down sys.get_nprocs bitmask few,
)
