-- ===== src/Stacking/Tests.antt =====
-- A 64-bit ARM kernel.
use linux_kernel_programming.Base.{◌≡◌, ◌≢◌, true, false}
use linux_kernel_programming.Base.Words.{pos}
use linux_kernel_programming.SysInfo.Fits.{arm64, config}
use linux_kernel_programming.Stacking.Core.{get_skey}
use linux_kernel_programming.Stacking.User.{
  the_one, user_lkm_init, core_lkm, expected, user_lkm_init_lem,
}

another : pos 1 ≢ the_one
another e = cc

user_lkm_init_lem_example :
    (user_lkm_init (config arm64 false true) (core_lkm (config arm64 false true))
      ≡ expected arm64 false true)
    × (get_skey (config arm64 false true) (pos 1) ≡ 0)
user_lkm_init_lem_example = user_lkm_init_lem arm64 false true (pos 1) another
