-- ===== src/BitOps/Word.antt =====
-- The module's functions on `mem`, an `unsigned long` of 64 bits, with what it shows.
use linux_kernel_programming.Base.{
  ℕ, zero, suc, ◌+◌, ◌-◌, ◌/◌, ◌%◌, ◌^◌, ◌<◌, ◌≡◌, ◌↔◌, List, [], ◌∷◌, Bool, ◌==◌, if◌then◌else◌,
  arith,
}

-- The kernel's operations on bit `n` of a word: is it set; the word with it set, cleared, changed.
abbrev pub test_bit : ℕ → ℕ → Bool
test_bit n mem = mem / 2 ^ n % 2 == 1

abbrev pub set_bit : ℕ → ℕ → ℕ
set_bit n mem = if test_bit n mem then mem else mem + 2 ^ n

abbrev pub clear_bit : ℕ → ℕ → ℕ
clear_bit n mem = if test_bit n mem then mem - 2 ^ n else mem

abbrev pub change_bit : ℕ → ℕ → ℕ
change_bit n mem = if test_bit n mem then mem - 2 ^ n else mem + 2 ^ n

-- BITS_PER_BYTE - 1
abbrev pub msb : ℕ
msb = 7

abbrev pub setmsb_optimal : ℕ → ℕ
setmsb_optimal mem = set_bit msb mem

-- `tmp` is a `u8`: it takes the low byte of the word.
abbrev pub setmsb_suboptimal : ℕ → ℕ
setmsb_suboptimal mem = let tmp = mem % 256 in set_bit 7 tmp

-- A line of the log: `mem`; a bit's old value; or a bit with its value.
pub data Line : Type 0 where
  mem_is : ℕ → Line
  ret_is : Bool → Line
  bit_is : ℕ → Bool → Line

-- The loop from `msb` down to 0; `n` bits are left.
unfoldable pub show_bits : ℕ → ℕ → List Line
show_bits zero mem = []
show_bits (suc n) mem = bit_is n (test_bit n mem) ∷ show_bits n mem

-- What init shows, and `mem` then.
unfoldable pub atomic_rmw_bitops_init : ℕ → List Line × ℕ
atomic_rmw_bitops_init mem =
    let m1 = setmsb_optimal mem in
    let m2 = setmsb_suboptimal m1 in
    let m3 = clear_bit msb m2 in
    let m4 = change_bit msb m3 in
    let m5 = set_bit 0 m4 in
    let m6 = clear_bit 0 m5 in
    let m7 = change_bit 1 m6 in
    (
      mem_is mem
          ∷ mem_is m1
          ∷ mem_is m2
          ∷ mem_is m3
          ∷ mem_is m4
          ∷ mem_is m5
          ∷ ret_is (test_bit 0 m4)
          ∷ mem_is m6
          ∷ ret_is (test_bit 0 m5)
          ∷ mem_is m7
          ∷ ret_is (test_bit 1 m6)
          ∷ show_bits (msb + 1) m7,
      m7,
    )

abbrev pub atomic_rmw_bitops_exit : ℕ → ℕ
atomic_rmw_bitops_exit mem = 0

-- Both ways to set the bit agree on a word of one byte, and on no other: the second one clears all
-- higher bits.
setmsbs_agree_iff : (mem : ℕ) → (setmsb_optimal mem ≡ setmsb_suboptimal mem) ↔ (mem < 256)
setmsbs_agree_iff mem = ground arith
