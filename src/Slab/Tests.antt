-- ===== src/Slab/Tests.antt =====
-- One cache short of a hundred.
use linux_kernel_programming.Base.{ℕ, some, ◌≡◌, refl, false, ◌==◌, if◌then◌else◌}
use linux_kernel_programming.Slab.Defs.{
  CachePtr, null, cache, ourmax_caches, slab_custom_mult_init, slab_custom_mult_exit,
}
use linux_kernel_programming.Slab.Custom.{
  slab_custom_init, slab_custom_exit, inits_by, slab_custom_inits_lem,
}
use linux_kernel_programming.Slab.Missing.{all_made, caches}

abbrev all_but_seven : ℕ → CachePtr
all_but_seven i = if i == 7 then null else cache

slab_custom_inits_lem_example :
    ((slab_custom_mult_init all_but_seven 300 5, slab_custom_init cache false 5)
      ≡ inits_by all_but_seven false 5)
    × (slab_custom_mult_exit (caches ourmax_caches) 105 ≡ some 5)
    × (slab_custom_exit cache 6 ≡ some 5)
slab_custom_inits_lem_example = slab_custom_inits_lem all_but_seven 300 false 5 refl

seven_missing : all_made all_but_seven ourmax_caches 0 ≡ false
unfolding all_made
seven_missing = refl
