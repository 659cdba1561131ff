-- ===== src/Stacking/Params.antt =====
-- modparams2.c: the parameter that must be given, with a value from 1 to 5.
use linux_kernel_programming.Base.{◌≤◌, ◌≡◌, ◌↔◌, Bool, true, ◌||◌, if◌then◌else◌, ltb, arith}
use linux_kernel_programming.Base.Words.{ℤ, pos, negsuc}
use linux_kernel_programming.Kernel.{einval}

-- `(control_freak < 1) || (control_freak > 5)`
abbrev pub out_of_range : ℤ → Bool
out_of_range (pos n) = ltb n 1 || ltb 5 n
out_of_range (negsuc n) = true

unfoldable pub modparams2_init : (control_freak : ℤ) → ℤ
modparams2_init control_freak = if out_of_range control_freak then einval else pos 0

abbrev InRange : ℤ → Type 0
InRange (pos n) = (1 ≤ n) × (n ≤ 5)
InRange (negsuc n) = ⊥

-- The module loads with these values, and no others.
modparams2_init_iff :
    (control_freak : ℤ) → (modparams2_init control_freak ≡ pos 0) ↔ InRange control_freak
unfolding modparams2_init
modparams2_init_iff (pos n) = ground arith
modparams2_init_iff (negsuc n) = ((λ e. cc), λ no. absurd no)
