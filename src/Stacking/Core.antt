-- ===== src/Stacking/Core.antt =====
-- core_lkm.c: what it exports. The `long' of 32 or 64 bits that its user takes the key for is kept
-- as its pattern.
use linux_kernel_programming.Base.{ℕ, List, ◌++◌, if◌then◌else◌, ◌==◌}
use linux_kernel_programming.Base.Words.{ℤ, pos, negsuc}
use linux_kernel_programming.SysInfo.Messages.{Config, my_snprintf_lkp}
use linux_kernel_programming.SysInfo.Linked.{add_platform}
use linux_kernel_programming.SysInfo.Texts.{intro, name2}

-- The message that it prints; `snprintf` cuts off silently.
unfoldable pub llkd_sysinfo2 : Config → List ℕ
llkd_sysinfo2 c = let (msg, warned) = my_snprintf_lkp 48 (name2 ++ intro) in add_platform c msg

abbrev pub exp_int : ℕ
exp_int = 200

abbrev pub the_one : ℤ
the_one = pos 267_254_478

abbrev pub secret_key : Config → ℕ
secret_key c = if c.bits_64 then 20_043_477_188_079 else 5_668_335

-- `p` is an `int`.
unfoldable pub get_skey : Config → ℤ → ℕ
get_skey c (pos p) = if p == 267_254_478 then secret_key c else 0
get_skey c (negsuc p) = 0
