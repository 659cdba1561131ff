-- ===== src/BitOps/Tests.antt =====
-- The run of init on a word that is 0.
use linux_kernel_programming.Base.{◌≡◌, refl, true, false, [], ◌∷◌}
use linux_kernel_programming.BitOps.Word.{mem_is, ret_is, bit_is, show_bits, atomic_rmw_bitops_init}

init_shows : atomic_rmw_bitops_init 0 ≡ (
  mem_is 0
      ∷ mem_is 128
      ∷ mem_is 128
      ∷ mem_is 0
      ∷ mem_is 128
      ∷ mem_is 129
      ∷ ret_is false
      ∷ mem_is 128
      ∷ ret_is true
      ∷ mem_is 130
      ∷ ret_is false
      ∷ bit_is 7 true
      ∷ bit_is 6 false
      ∷ bit_is 5 false
      ∷ bit_is 4 false
      ∷ bit_is 3 false
      ∷ bit_is 2 false
      ∷ bit_is 1 true
      ∷ bit_is 0 false
      ∷ [],
  130,
)
unfolding atomic_rmw_bitops_init show_bits
init_shows = refl
