-- ===== src/Klib/Powerof.antt =====
-- klib.c, `powerof`.
use linux_kernel_programming.Base.{
  ℕ, zero, suc, ◌-◌, ◌*◌, ◌+◌, ◌/◌, ◌%◌, ◌^◌, ◌<◌, ◌≡◌, sym, ap, ◌∙◌, arith,
}
use mathlib.Core.Path.{◌≡⟨◌⟩◌, ◌∎}
use native.Mathlib.Nat.{
  pow-succ', pow-zero, mod-add-div, mul_assoc, mod-eq_of_lt, add-mul-mod_self_left,
}
use linux_kernel_programming.Base.Words.{ℤ, pos, negsuc, u64_mod}

-- `while (exponent--) res *= base;`
mul_loop : ℕ → ℕ → ℕ → ℕ
mul_loop base zero res = res
mul_loop base (suc exponent) res = mul_loop base exponent (res * base % u64_mod)

-- `-1UL` is 2^64 - 1 where a `long` has 64 bits.
unfoldable pub powerof : ℤ → ℤ → ℕ
unfolding mul_loop
powerof (pos zero) exponent = 0
powerof (negsuc b) exponent = u64_mod - 1
powerof (pos (suc b)) (negsuc e) = u64_mod - 1
powerof (pos (suc b)) (pos zero) = 1
powerof (pos (suc b)) (pos (suc e)) = mul_loop (suc b) (suc e) 1

mod-mul-mod : (a b m : ℕ) → (a % m) * b % m ≡ a * b % m
mod-mul-mod a b m = sym (add-mul-mod_self_left (a % m * b) m (a / m * b)) ∙ ap (λ t. t % m) spread
  where
    spread : a % m * b + m * (a / m * b) ≡ a * b
    spread =
        a % m * b + m * (a / m * b)
        ≡⟨ omega arith ⟩ (a % m + m * (a / m)) * b
        ≡⟨ ap (λ t. t * b) (mod-add-div a m) ⟩ a * b ∎

mul_loop_lem : (base e res : ℕ) → mul_loop base e res % u64_mod ≡ res * base ^ e % u64_mod
unfolding mul_loop
mul_loop_lem base zero res = ap (λ t. t % u64_mod) (rw pow-zero (omega arith))
mul_loop_lem base (suc e) res =
    mul_loop_lem base e (res * base % u64_mod)
    ∙ mod-mul-mod (res * base) (base ^ e) u64_mod
    ∙ ap (λ t. t % u64_mod)
        (mul_assoc res base (base ^ e) ∙ ap (λ t. res * t) (sym (pow-succ' base e)))

mul_loop-lt : (base e res : ℕ) → res < u64_mod → mul_loop base e res < u64_mod
unfolding mul_loop
mul_loop-lt base zero res h = h
mul_loop-lt base (suc e) res h = mul_loop-lt base e (res * base % u64_mod) (omega arith)

-- For a base above 0 and an exponent from 0 on, `powerof` is the power modulo 2^64: the power itself
-- as long as that fits in 64 bits.
pub powerof-eq-pow : (b e : ℕ) → 0 < b → powerof (pos b) (pos e) ≡ b ^ e % u64_mod
unfolding powerof
powerof-eq-pow zero e h = absurd (omega arith)
powerof-eq-pow (suc b) zero h = rw pow-zero
powerof-eq-pow (suc b) (suc e) h =
    sym (mod-eq_of_lt (mul_loop-lt (suc b) (suc e) 1 (omega arith)))
    ∙ mul_loop_lem (suc b) (suc e) 1
    ∙ ap (λ t. t % u64_mod) (omega arith)
