-- ===== src/Refcount/Same.antt =====
-- A read and a write are those of the driver with mutexes.
use linux_kernel_programming.Base.{ℕ, ◌≡◌, List, Option-cases, Bool-cases, ◌==◌, inl, inr}
use linux_kernel_programming.Base.Words.{pos}
use linux_kernel_programming.Kernel.{Kernel, memset}
use linux_kernel_programming.Mutexlock
use linux_kernel_programming.Mutexlock.{DrvCtx, Driver}
use linux_kernel_programming.Spinlock
use linux_kernel_programming.Spinlock.{◌>>=◌}
use linux_kernel_programming.Spinlock.Same.{state, as_spinlock, unlocked, read_same}
use linux_kernel_programming.Refcount.Ops.{
  read_miscdrv_rdwr, read_secret, write_miscdrv_rdwr, write_secret,
}

module _ (k : Kernel) (c : DrvCtx) (d : Driver) where
  pub read_as :
      (ubuf : List ℕ) (count : ℕ)
      → read_miscdrv_rdwr k ubuf count (state (unlocked c d) (pos 0))
        ≡ as_spinlock (pos 0) (Mutexlock.read_miscdrv_rdwr k ubuf count (unlocked c d))
  unfolding read_miscdrv_rdwr read_secret Spinlock.read_miscdrv_rdwr Spinlock.read_secret
  read_as ubuf count = read_same k (pos 0) c d ubuf count

  pub write_as :
      (ubuf : List ℕ) (count : ℕ)
      → write_miscdrv_rdwr k ubuf count (state (unlocked c d) (pos 0))
        ≡ as_spinlock (pos 0) (Mutexlock.write_miscdrv_rdwr k ubuf count (unlocked c d))
  unfolding write_miscdrv_rdwr Mutexlock.write_miscdrv_rdwr write_secret Mutexlock.write_secret
  write_as ubuf count = elim (Option-cases (k.kvmalloc count)) [
    | inl e ↦ rw (◌>>=◌, Mutexlock.◌>>=◌, e)
    | inr (b, e) ↦ elim (Bool-cases ((k.copy_from_user (memset b 0 count) ubuf count).0 == 0)) [
      | inl y ↦ rw (◌>>=◌, Mutexlock.◌>>=◌, e, y)
      | inr y ↦ rw (◌>>=◌, Mutexlock.◌>>=◌, e, y)
    ]
  ]
