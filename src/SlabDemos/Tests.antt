-- ===== src/SlabDemos/Tests.antt =====
-- The theorems on a small heap.
use linux_kernel_programming.Base.{
  ℕ, ◌*◌, ◌≡◌, refl, ◌+◌, ltb, leb, true, false, Bool, [], ◌∷◌, none, arith, ◌<◌, ◌≤◌,
}
use linux_kernel_programming.Base.Words.{u64_mod}
use linux_kernel_programming.Kernel.{enomem}
use linux_kernel_programming.Alloc.Heap.{Heap, pages, Ends}
use linux_kernel_programming.SlabDemos.Demos.{slab2_buggy_init, slab_ptr_array_init}
use linux_kernel_programming.SlabDemos.Sizes.{slab3_maxsize_init, slab4_actualsize_init}
use linux_kernel_programming.SlabDemos.Cleanup.{
  leaked, slab2_buggy_init_lem, slab_ptr_array_init_leaks,
}
use linux_kernel_programming.SlabDemos.Ends.{Over, Steps, Table, size_inits_end}

-- Somebody else's page is live.
abbrev some_heap : Heap
some_heap = record { next = 9; live = (4, pages 0) ∷ [] }

abbrev always : ℕ → Bool
always i = true

slab2_buggy_init_lem_example : slab2_buggy_init always some_heap ≡ none
slab2_buggy_init_lem_example = slab2_buggy_init_lem always some_heap (omega arith, tt)

-- There is memory for slots 0 and 1, and none for slot 2.
abbrev first_two : ℕ → Bool
first_two i = ltb i 2

two_given : (j : ℕ) → j < 2 → first_two j ≡ true
two_given j h = ground arith

slab_ptr_array_init_leaks_example :
    Ends enomem (leaked 2 some_heap) (slab_ptr_array_init first_two some_heap)
slab_ptr_array_init_leaks_example =
    slab_ptr_array_init_leaks first_two some_heap 2 (omega arith) two_given refl

-- Pieces up to 4 MB, in steps of 200 KB.
abbrev up_to_limit : ℕ → ℕ → Bool
up_to_limit r s = leb s 4_194_304

refuses : (r s : ℕ) → 4_194_304 < s → up_to_limit r s ≡ false
refuses r s h = ground arith

abbrev ksize : ℕ → ℕ
ksize s = s + 24

covers : (s : ℕ) → s ≤ 4_194_304 → (s ≤ ksize s) × (ksize s * 100 < u64_mod)
covers s small = (omega arith, omega arith)

size_inits_end_example :
    Over some_heap
      (Steps up_to_limit 204_800 21 0)
      (slab3_maxsize_init up_to_limit 204_800 22 some_heap)
    × Over some_heap
        (Table ksize up_to_limit 204_800 21 100)
        (slab4_actualsize_init ksize up_to_limit 204_800 22 some_heap)
size_inits_end_example =
    size_inits_end up_to_limit ksize 204_800 4_194_304 21 some_heap (omega arith) (omega arith)
      refuses covers (omega arith)
