-- ===== src/Alloc/PagesUse.antt =====
-- What ch8/lowlevel_mem takes and gives back.
use linux_kernel_programming.Base.{
  ℕ, suc, ◌≡◌, ◌≢◌, refl, List, ◌∷◌, Option, none, some, Bool, true, false, ◌&&◌, arith,
}
use linux_kernel_programming.Base.Words.{ℤ, pos}
use linux_kernel_programming.Kernel.{enomem}
use linux_kernel_programming.Alloc.Heap.{Block, pages, Heap, remove, Ends, Leaves, Taken}
use linux_kernel_programming.Alloc.Pages.{Gptrs, bsa_alloc, lowlevel_mem_exit}

-- The exit gives everything back, and these pieces are left; or it frees what it must not.
abbrev pub Unloads : List (ℕ × Block) → ℕ → Option ((ℤ × Gptrs) × Heap) → Type 0
Unloads live order none = ⊥
Unloads live order (some ((r, g), h)) = (r ≡ pos 0) × Leaves live (lowlevel_mem_exit g order h)

abbrev pub UnloadFaults : ℕ → Option ((ℤ × Gptrs) × Heap) → Type 0
UnloadFaults order none = ⊥
UnloadFaults order (some ((r, g), h)) = (r ≡ pos 0) × (lowlevel_mem_exit g order h ≡ none)

-- The five pieces that are taken when there is memory for all
abbrev five : ℕ → Gptrs
five n = record {
  gptr1 = suc n;
  gptr2 = suc (suc n);
  gptr3 = suc (suc (suc n));
  gptr4 = suc (suc (suc (suc n)));
  gptr5 = suc (suc (suc (suc (suc n))));
}

abbrev taken_five : ℕ → Heap → Heap
taken_five order h = record {
  next = suc (suc (suc (suc (suc h.next))));
  live =
      ((five h.next).gptr5, pages 5)
      ∷ ((five h.next).gptr4, pages 0)
      ∷ ((five h.next).gptr3, pages 0)
      ∷ ((five h.next).gptr2, pages order)
      ∷ ((five h.next).gptr1, pages 0)
      ∷ h.live;
}

module _ (page_address : ℕ → ℕ) (address : (n : ℕ) → page_address (suc n) ≡ suc n) where
  -- With a `page_address` that is right for every page: when one is missing at one of the first
  -- four steps, `bsa_alloc` returns -ENOMEM and has given back all that it took.
  pub bsa_alloc-cleans :
      (ok : ℕ → Bool) (order : ℕ) (h : Heap)
      → (ok 1 && (ok 2 && (ok 3 && ok 4))) ≡ false
      → Ends enomem h.live (bsa_alloc page_address ok order h)
  unfolding bsa_alloc remove
  bsa_alloc-cleans ok order h e = ground arith

  bsa_alloc_all :
      (ok : ℕ → Bool) (order : ℕ) (h : Heap)
      → ((n : ℕ) → ok n ≡ true)
      → bsa_alloc page_address ok order h ≡ some ((pos 0, five h.next), taken_five order h)
  unfolding bsa_alloc
  bsa_alloc_all ok order h e = ground (
    arith,
    e 1,
    e 2,
    e 3,
    e 4,
    e 5,
    address (suc (suc (suc h.next))),
    address (suc (suc (suc (suc h.next)))),
  )

  exit_five :
      (order : ℕ) (h : Heap)
      → Leaves h.live (lowlevel_mem_exit (five h.next) order (taken_five order h))
  unfolding lowlevel_mem_exit remove
  exit_five order h = ground arith

  -- With a `page_address` that is right for every page: when there is memory at all five steps,
  -- `bsa_alloc` returns 0, and the exit with the same `order` leaves exactly the pieces that were
  -- live before.
  pub bsa_alloc-Unloads :
      (ok : ℕ → Bool) (order : ℕ) (h : Heap)
      → ((n : ℕ) → ok n ≡ true)
      → Unloads h.live order (bsa_alloc page_address ok order h)
  bsa_alloc-Unloads ok order h e = rw (bsa_alloc_all ok order h e) (refl, exit_five order h)

  exit_five_faults :
      (order order' : ℕ) (h : Heap)
      → order' ≢ order
      → lowlevel_mem_exit (five h.next) order' (taken_five order h) ≡ none
  unfolding lowlevel_mem_exit remove
  exit_five_faults order order' h ne = ground arith

  -- With memory at all five steps, and a `page_address` that is right for every page: if `order`,
  -- which can be written while the module is loaded, is another at the exit than at the init, the
  -- exit frees the second piece with a wrong order.
  pub bsa_alloc-UnloadFaults :
      (ok : ℕ → Bool) (order order' : ℕ) (h : Heap)
      → ((n : ℕ) → ok n ≡ true)
      → order' ≢ order
      → UnloadFaults order' (bsa_alloc page_address ok order h)
  bsa_alloc-UnloadFaults ok order order' h e ne =
      rw (bsa_alloc_all ok order h e) (refl, exit_five_faults order order' h ne)

  -- With a `page_address` that is right for every page: when only the pages of step 5 are missing,
  -- it depends on what `page_address` makes of NULL: if that is NULL, all is given back and -ENOMEM
  -- returned; if it is another address, as it may be, `bsa_alloc` returns 0 without those pages.
  pub bsa_alloc_last :
      (ok : ℕ → Bool) (order : ℕ) (h : Heap)
      → ((n : ℕ) → n ≢ 5 → ok n ≡ true)
      → ok 5 ≡ false
      → (page_address 0 ≡ 0 → Ends enomem h.live (bsa_alloc page_address ok order h))
        × (page_address 0 ≢ 0 → Taken 4 h.live (bsa_alloc page_address ok order h))
  unfolding bsa_alloc remove
  bsa_alloc_last ok order h e e5 = (
    λ z. ground (
      arith,
      e 1 (omega arith),
      e 2 (omega arith),
      e 3 (omega arith),
      e 4 (omega arith),
      address (suc (suc (suc h.next))),
    ),
    λ nz. ground (
      arith,
      e 1 (omega arith),
      e 2 (omega arith),
      e 3 (omega arith),
      e 4 (omega arith),
      address (suc (suc (suc h.next))),
    ),
  )
