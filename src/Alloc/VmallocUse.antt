-- ===== src/Alloc/VmallocUse.antt =====
-- What ch9/vmalloc_demo takes and gives back.
use linux_kernel_programming.Base.{
  ℕ, suc, ◌≡◌, ◌≤◌, refl, List, ◌∷◌, Option, none, some, Bool, true, false, ◌&&◌, ◌||◌, not, arith,
  if◌then◌else◌,
}
use linux_kernel_programming.Base.Words.{ℤ, pos}
use linux_kernel_programming.Kernel.{enomem}
use linux_kernel_programming.Alloc.Heap.{Block, vmem, kmem, Heap, remove, Leaves, Ends}
use linux_kernel_programming.Alloc.Vmalloc.{
  Ptrs, Kern, vmalloc_try, vmalloc_demo_init, vmalloc_demo_exit,
}

abbrev pub Unloads : Kern → List (ℕ × Block) → Option ((ℤ × Ptrs) × Heap) → Type 0
Unloads k live none = ⊥
Unloads k live (some ((r, p), h)) = (r ≡ pos 0) × Leaves live (vmalloc_demo_exit k p h)

-- The pieces that are taken when there is memory for all
abbrev taken_ptrs : Bool → ℕ → Ptrs
taken_ptrs older n = record {
  vptr_rndm = suc n;
  vptr_init = suc (suc n);
  kv = suc (suc (suc n));
  kvarr = suc (suc (suc (suc n)));
  vrx = if older then suc (suc (suc (suc (suc n)))) else 0;
}

abbrev four : Kern → Heap → List (ℕ × Block)
four k h =
    (suc (suc (suc (suc h.next))), kmem)
    ∷ (suc (suc (suc h.next)), if k.big then vmem else kmem)
    ∷ (suc (suc h.next), vmem)
    ∷ (suc h.next, vmem)
    ∷ h.live

abbrev taken : Kern → Heap → Heap
taken k h =
    if k.older
    then record {
      next = suc (suc (suc (suc (suc h.next))));
      live = (suc (suc (suc (suc (suc h.next)))), vmem) ∷ four k h;
    }
    else record { next = suc (suc (suc (suc h.next))); live = four k h }

module _ (k : Kern) where
  -- For at least 16 bytes: when there is no memory at one of the first three steps, or none at the
  -- fourth and the memory of `kvmalloc` is vmalloc's, init returns -ENOMEM and has given back all
  -- that it took.
  pub vmalloc_demo_init_cleans :
      (kvnum : ℕ) (h : Heap)
      → 16 ≤ kvnum
      → (k.ok 1 && (k.ok 2 && (k.ok 3 && (k.ok 4 || not k.big)))) ≡ false
      → Ends enomem h.live (vmalloc_demo_init k (pos kvnum) h)
  unfolding vmalloc_demo_init vmalloc_try remove
  vmalloc_demo_init_cleans kvnum h big e = ground arith

  -- For at least 16 bytes: `vfree` is called, a fault, on memory of kmalloc's when the fourth step
  -- fails and `kvmalloc` gave such, and on a kernel before 5.8 whenever the fifth step fails.
  pub vmalloc_demo_init_faults :
      (kvnum : ℕ) (h : Heap)
      → 16 ≤ kvnum
      → (k.ok 1 && (k.ok 2 && k.ok 3)) ≡ true
      → (if k.ok 4 then (k.older && not (k.ok 5)) else not k.big) ≡ true
      → vmalloc_demo_init k (pos kvnum) h ≡ none
  unfolding vmalloc_demo_init vmalloc_try remove
  vmalloc_demo_init_faults kvnum h big e f = ground arith

  init_all :
      (kvnum : ℕ) (h : Heap)
      → 16 ≤ kvnum
      → ((n : ℕ) → k.ok n ≡ true)
      → vmalloc_demo_init k (pos kvnum) h ≡ some ((pos 0, taken_ptrs k.older h.next), taken k h)
  unfolding vmalloc_demo_init vmalloc_try
  init_all kvnum h big e = ground (arith, e 1, e 2, e 3, e 4, e 5)

  exit_all :
      (h : Heap) → Leaves h.live (vmalloc_demo_exit k (taken_ptrs k.older h.next) (taken k h))
  unfolding vmalloc_demo_exit remove
  exit_all h = ground arith

  -- For at least 16 bytes: when there is memory at all steps, init returns 0, and the exit leaves
  -- exactly the pieces that were live before.
  pub vmalloc_demo_init-Unloads :
      (kvnum : ℕ) (h : Heap)
      → 16 ≤ kvnum
      → ((n : ℕ) → k.ok n ≡ true)
      → Unloads k h.live (vmalloc_demo_init k (pos kvnum) h)
  vmalloc_demo_init-Unloads kvnum h big e = rw (init_all kvnum h big e) (refl, exit_all h)
