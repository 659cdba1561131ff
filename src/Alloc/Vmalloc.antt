-- ===== src/Alloc/Vmalloc.antt =====
-- ch9/vmalloc_demo/vmalloc_demo.c
use linux_kernel_programming.Base.{ℕ, ◌==◌, ltb, if◌then◌else◌, Bool, true}
use linux_kernel_programming.Base.Words.{ℤ, pos, negsuc}
use linux_kernel_programming.Kernel.{enomem, einval}
use linux_kernel_programming.Alloc.Heap.{Cmd, pure, ◌>>=◌, ◌>>◌, alloc, vmem, kmem, vfree, kvfree}

-- The module's pointers; `vrx` is there before version 5.8 of the kernel.
pub record Ptrs : Type 0 where
  pub vptr_rndm : ℕ
  pub vptr_init : ℕ
  pub kv : ℕ
  pub kvarr : ℕ
  pub vrx : ℕ

abbrev ptrs : ℕ → ℕ → ℕ → ℕ → ℕ → Ptrs
ptrs p1 p2 p3 p4 p5 = record { vptr_rndm = p1; vptr_init = p2; kv = p3; kvarr = p4; vrx = p5 }

abbrev err_out2 : ℕ → Cmd ℤ
err_out2 vptr_rndm = do vfree vptr_rndm; pure enomem

abbrev err_out3 : ℕ → ℕ → Cmd ℤ
err_out3 vptr_rndm vptr_init = do vfree vptr_init; err_out2 vptr_rndm

abbrev err_out4 : ℕ → ℕ → ℕ → Cmd ℤ
err_out4 vptr_rndm vptr_init kv = do vfree kv; err_out3 vptr_rndm vptr_init

abbrev err_out5 : ℕ → ℕ → ℕ → ℕ → Cmd ℤ
err_out5 vptr_rndm vptr_init kv kvarr = do vfree kvarr; err_out4 vptr_rndm vptr_init kv

-- What the kernel is and does: is it older than 5.8, is there memory at step `n`, and is the memory
-- that `kvmalloc` gives vmalloc's or kmalloc's?
pub record Kern : Type 0 where
  pub older : Bool
  pub ok : ℕ → Bool
  pub big : Bool

module _ (k : Kern) where
  abbrev step5 : ℕ → ℕ → ℕ → ℕ → Cmd (ℤ × Ptrs)
  step5 p1 p2 p3 p4 =
      if k.older
      then (do
        vrx ← alloc (k.ok 5) vmem
        if vrx == 0
            then (do r ← err_out5 p1 p2 p3 p4; pure (r, ptrs p1 p2 p3 p4 0))
            else pure (pos 0, ptrs p1 p2 p3 p4 vrx))
      else pure (pos 0, ptrs p1 p2 p3 p4 0)

  abbrev step4 : ℕ → ℕ → ℕ → Cmd (ℤ × Ptrs)
  step4 p1 p2 p3 = do
    kvarr ← alloc (k.ok 4) kmem
    if kvarr == 0
        then (do r ← err_out4 p1 p2 p3; pure (r, ptrs p1 p2 p3 0 0))
        else step5 p1 p2 p3 kvarr

  abbrev step3 : ℕ → ℕ → Cmd (ℤ × Ptrs)
  step3 p1 p2 = do
    kv ← alloc (k.ok 3) (if k.big then vmem else kmem)
    if kv == 0 then (do r ← err_out3 p1 p2; pure (r, ptrs p1 p2 0 0 0)) else step4 p1 p2 kv

  abbrev step2 : ℕ → Cmd (ℤ × Ptrs)
  step2 p1 = do
    vptr_init ← alloc (k.ok 2) vmem
    if vptr_init == 0 then (do r ← err_out2 p1; pure (r, ptrs p1 0 0 0 0)) else step3 p1 vptr_init

  unfoldable pub vmalloc_try : Cmd (ℤ × Ptrs)
  vmalloc_try = do
    vptr_rndm ← alloc (k.ok 1) vmem
    if vptr_rndm == 0 then pure (enomem, ptrs 0 0 0 0 0) else step2 vptr_rndm

  -- KVN_MIN_BYTES is 16.
  abbrev too_small : ℤ → Bool
  too_small (pos n) = ltb n 16
  too_small (negsuc n) = true

  unfoldable pub vmalloc_demo_init : ℤ → Cmd (ℤ × Ptrs)
  unfolding vmalloc_try
  vmalloc_demo_init kvnum = if too_small kvnum then pure (einval, ptrs 0 0 0 0 0) else vmalloc_try

  unfoldable pub vmalloc_demo_exit : Ptrs → Cmd (Unit {0})
  vmalloc_demo_exit p = do
    if k.older then vfree p.vrx else pure tt
    kvfree p.kvarr
    kvfree p.kv
    vfree p.vptr_init
    vfree p.vptr_rndm
