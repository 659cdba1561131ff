-- ===== src/Stacking/User.antt =====
-- user_lkm.c, over an interface of what the kernel has linked it with: it declares `get_skey` to give
-- a `long', and keeps the key as a `u64'.
use linux_kernel_programming.Base.{
  ℕ, ◌+◌, ◌-◌, ◌^◌, ◌≡◌, ◌≢◌, refl, List, ◌++◌, Bool, true, false, if◌then◌else◌, ltb, ==-eq-false,
  ap,
}
use linux_kernel_programming.Base.Words.{ℤ, pos, negsuc}
use linux_kernel_programming.SysInfo.Messages.{Config}
use linux_kernel_programming.SysInfo.Texts.{intro, name2}
use linux_kernel_programming.SysInfo.Fits.{Arch, x86, config, linked_info}
use linux_kernel_programming.Stacking.Core

-- The symbols that the module uses
pub record Exports : Type 0 where
  pub llkd_sysinfo2 : List ℕ
  pub get_skey : ℤ → ℕ
  pub exp_int : ℕ

-- What init prints: the key, the variable, and the message
pub record Printed : Type 0 where
  pub sk : ℕ
  pub int : ℕ
  pub message : List ℕ

abbrev pub the_one : ℤ
the_one = pos 267_254_478

-- The conversion of a `long' to `u64'
abbrev pub u64_of_long : Config → ℕ → ℕ
u64_of_long c w = if c.bits_64 then w else if ltb w (2 ^ 31) then w else w + 2 ^ 64 - 2 ^ 32

unfoldable pub user_lkm_init : Config → Exports → Printed
user_lkm_init c core = record {
  sk = u64_of_long c (core.get_skey the_one);
  int = core.exp_int;
  message = core.llkd_sysinfo2;
}

-- What core_lkm exports
abbrev pub core_lkm : Config → Exports
core_lkm c = record {
  llkd_sysinfo2 = Core.llkd_sysinfo2 c;
  get_skey = Core.get_skey c;
  exp_int = Core.exp_int;
}

abbrev pub expected : Arch → (big wide : Bool) → Printed
expected a big wide = record {
  sk = if wide then 20_043_477_188_079 else 5_668_335;
  int = 200;
  message = name2 ++ intro ++ linked_info a big wide;
}

printed_lem :
    (a : Arch) (big wide : Bool)
    → user_lkm_init (config a big wide) (core_lkm (config a big wide)) ≡ expected a big wide
unfolding user_lkm_init Core.get_skey Core.llkd_sysinfo2
printed_lem x86 true true = refl
printed_lem x86 true false = refl
printed_lem x86 false true = refl
printed_lem x86 false false = refl
printed_lem a true true = refl
printed_lem a true false = refl
printed_lem a false true = refl
printed_lem a false false = refl

other_key : (c : Config) (p : ℤ) → p ≢ the_one → Core.get_skey c p ≡ 0
unfolding Core.get_skey
other_key c (pos n) other = rw (==-eq-false n 267_254_478 (λ e. other (ap pos e))) refl
other_key c (negsuc n) other = refl

-- Together with core_lkm, on a kernel built for one architecture, of either byte order and word size:
-- the module's init gets the whole secret, the variable's value, and the whole message, of which
-- nothing is cut off; and with any other number in place of the one it uses, the key would be 0.
pub user_lkm_init_lem :
    (a : Arch) (big wide : Bool) (p : ℤ)
    → p ≢ the_one
    → (user_lkm_init (config a big wide) (core_lkm (config a big wide)) ≡ expected a big wide)
      × (Core.get_skey (config a big wide) p ≡ 0)
user_lkm_init_lem a big wide p other =
    (printed_lem a big wide, other_key (config a big wide) p other)
