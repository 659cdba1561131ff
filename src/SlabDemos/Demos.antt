-- ===== src/SlabDemos/Demos.antt =====
-- slab1.c, slab2_buggy.c and slab_ptr_array.c over the live pieces of memory. Whether there is
-- memory is a parameter at each allocation; what is written into it is left out.
use linux_kernel_programming.Base.{
  ℕ, zero, suc, ◌==◌, if◌then◌else◌, Bool, true, false, List, [], ◌∷◌, ◌++◌,
}
use linux_kernel_programming.Base.Words.{ℤ, pos}
use linux_kernel_programming.Kernel.{enomem}
use linux_kernel_programming.Alloc.Heap.{
  Block, kmem, Cmd, pure, ◌>>=◌, ◌>>◌, alloc, free_unless_null,
}

abbrev pub is_kmem : Block → Bool
is_kmem kmem = true
is_kmem _ = false

-- `kfree` does nothing to NULL; what is not a live piece of kmalloc's is a fault.
unfoldable pub kfree : ℕ → Cmd (Unit {0})
kfree p = free_unless_null p is_kmem

-- What init returns, with gkptr and ctx
unfoldable pub slab1_init : Bool → Bool → Cmd (ℤ × (ℕ × ℕ))
slab1_init first second = do
  gkptr ← alloc first kmem
  if gkptr == 0 then pure (enomem, (gkptr, 0)) else (do
    ctx ← alloc second kmem
    if ctx == 0 then (do kfree gkptr; pure (enomem, (gkptr, ctx))) else pure (pos 0, (gkptr, ctx)))

unfoldable pub slab1_exit : ℕ × ℕ → Cmd (Unit {0})
slab1_exit (gkptr, ctx) = do kfree ctx; kfree gkptr

-- The loop with `x` rounds to go; `kptr` keeps its value after it has been freed.
unfoldable pub slab2_loop : (ℕ → Bool) → ℕ → ℕ → Cmd ℤ
slab2_loop ok zero kptr = pure (pos 0)
slab2_loop ok (suc x) kptr = do
  kptr' ← if kptr == 0 then alloc (ok x) kmem else pure kptr
  if kptr' == 0 then pure enomem else (do kfree kptr'; slab2_loop ok x kptr')

unfoldable pub slab2_buggy_init : (ℕ → Bool) → Cmd ℤ
slab2_buggy_init ok = slab2_loop ok 3 0

abbrev pub slab_maxloop : ℕ
slab_maxloop = 5

-- `for (j = i; j > 0; j--) kfree(gkptr[j])`, for the slots from i down to 0
unfoldable pub cleanup : List ℕ → Cmd (Unit {0})
cleanup [] = pure tt
cleanup (p ∷ []) = pure tt
cleanup (p ∷ q ∷ ps) = do kfree p; cleanup (q ∷ ps)

-- The loop with `rounds` rounds to go at index `i`; `taken` are the slots below `i`, the last first.
unfoldable pub slot_loop : (ℕ → Bool) → ℕ → ℕ → List ℕ → Cmd (ℤ × List ℕ)
slot_loop ok zero i taken = pure (pos 0, taken)
slot_loop ok (suc rounds) i taken = do
  p ← alloc (ok i) kmem
  if p == 0
      then (do cleanup (p ∷ taken); pure (enomem, p ∷ taken))
      else slot_loop ok rounds (suc i) (p ∷ taken)

unfoldable pub slab_ptr_array_init : (ℕ → Bool) → Cmd (ℤ × List ℕ)
slab_ptr_array_init ok = slot_loop ok slab_maxloop 0 []

unfoldable pub free_slots : List ℕ → Cmd (Unit {0})
free_slots [] = pure tt
free_slots (p ∷ ps) = do kfree p; free_slots ps

abbrev pub backwards : List ℕ → List ℕ
backwards [] = []
backwards (p ∷ ps) = backwards ps ++ p ∷ []

-- The exit frees the slots from the first on.
unfoldable pub slab_ptr_array_cleanup : List ℕ → Cmd (Unit {0})
slab_ptr_array_cleanup taken = free_slots (backwards taken)
