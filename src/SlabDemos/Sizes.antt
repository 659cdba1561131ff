-- ===== src/SlabDemos/Sizes.antt =====
-- slab3_maxsize.c and slab4_actualsize.c: `kmalloc` with larger and larger sizes, until it fails.
-- `gives` says at which size, in which round, there is memory; `stepsz` is the parameter as the
-- `size_t` that it is added as. The loops are on fuel, and give `none` when it runs out.
use linux_kernel_programming.Base.{
  ℕ, zero, suc, ◌+◌, ◌-◌, ◌*◌, ◌/◌, ◌%◌, ◌==◌, if◌then◌else◌, Bool, List, [], ◌∷◌, none,
}
use linux_kernel_programming.Base.Words.{ℤ, u64_mod}
use linux_kernel_programming.Kernel.{enomem}
use linux_kernel_programming.Alloc.Heap.{kmem, Cmd, pure, ◌>>=◌, ◌>>◌, alloc}
use linux_kernel_programming.SlabDemos.Demos.{kfree}

-- Returns the error, with the sizes that were printed.
unfoldable pub test_maxallocsz : (ℕ → ℕ → Bool) → (stepsz : ℕ) → ℕ → ℕ → Cmd (ℤ × List ℕ)
test_maxallocsz gives stepsz zero size2alloc = λ h. none
test_maxallocsz gives stepsz (suc fuel) size2alloc = do
  p ← alloc (gives fuel size2alloc) kmem
  if p == 0 then pure (enomem, []) else (do
    kfree p
    rest ← test_maxallocsz gives stepsz fuel ((size2alloc + stepsz) % u64_mod)
    pure (rest.0, size2alloc ∷ rest.1))

abbrev pub slab3_maxsize_init : (ℕ → ℕ → Bool) → ℕ → ℕ → Cmd (ℤ × List ℕ)
slab3_maxsize_init gives stepsz fuel = test_maxallocsz gives stepsz fuel 0

-- A line of the table: the size asked for, the actual size, the waste, and that in percent
pub record Row : Type 0 where
  pub size2alloc : ℕ
  pub actual_alloced : ℕ
  pub wastage : ℕ
  pub percent : ℕ

abbrev pub waste : ℕ → ℕ → ℕ
waste actual size = (actual + u64_mod - size) % u64_mod

-- The division is by the size; `ksize` gives the actual size of a piece that was asked for so.
abbrev pub row_of : (ℕ → ℕ) → ℕ → Row
row_of ksize size = record {
  size2alloc = size;
  actual_alloced = ksize size;
  wastage = waste (ksize size) size;
  percent = waste (ksize size) size * 100 % u64_mod / size;
}

unfoldable pub test_actual : (ℕ → ℕ) → (ℕ → ℕ → Bool) → (stepsz : ℕ) → ℕ → ℕ → Cmd (ℤ × List Row)
test_actual ksize gives stepsz zero size2alloc = λ h. none
test_actual ksize gives stepsz (suc fuel) size2alloc = do
  p ← alloc (gives fuel size2alloc) kmem
  if p == 0 then pure (enomem, []) else (do
    kfree p
    rest ← test_actual ksize gives stepsz fuel ((size2alloc + stepsz) % u64_mod)
    pure (rest.0, row_of ksize size2alloc ∷ rest.1))

abbrev pub slab4_actualsize_init : (ℕ → ℕ) → (ℕ → ℕ → Bool) → ℕ → ℕ → Cmd (ℤ × List Row)
slab4_actualsize_init ksize gives stepsz fuel = test_actual ksize gives stepsz fuel 100
