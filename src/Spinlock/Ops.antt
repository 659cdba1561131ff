-- ===== src/Spinlock/Ops.antt =====
-- The methods of the driver.
use linux_kernel_programming.Base.{
  ℕ, ◌+◌, ◌-◌, ◌%◌, List, Bool, true, false, Option, none, some, ltb, ◌==◌, replicate,
  if◌then◌else◌,
}
use linux_kernel_programming.Base.Words.{ℤ, pos, negsuc, add32, sub32, int_of_size, u32_mod}
use linux_kernel_programming.Kernel.{Kernel, strlen, memset, enomem, efault, einval}
use linux_kernel_programming.Mutexlock.{maxbytes, zero_ctx, initmsg, overrun}
use linux_kernel_programming.Spinlock.Defs.{
  ended, faulted, Cmd, pure, ◌>>=◌, ◌>>◌, get_ctx, put_driver, put_ctx, might_sleep, lock_spin,
  unlock_spin, lock_mutex, unlock_mutex, lock_lock1, unlock_lock1,
}

abbrev pub display_stats : Bool → Cmd (Unit {0})
display_stats show_stats = do
  dev ← get_ctx
  if show_stats then (do lock_spin; unlock_spin) else pure tt

unfoldable pub open_miscdrv_rdwr : Cmd ℤ
open_miscdrv_rdwr = do
  dev ← get_ctx
  lock_lock1
  λ s. put_driver (record s.driver { ga = add32 s.driver.ga 1; gb = sub32 s.driver.gb 1 }) s
  unlock_lock1
  display_stats true
  pure (pos 0)

unfoldable pub close_miscdrv_rdwr : Cmd ℤ
close_miscdrv_rdwr = do
  dev ← get_ctx
  lock_lock1
  λ s. put_driver (record s.driver { ga = sub32 s.driver.ga 1; gb = add32 s.driver.gb 1 }) s
  unlock_lock1
  display_stats true
  pure (pos 0)

abbrev pub secret_length : Cmd ℕ
secret_length = do
  c ← get_ctx
  elim (strlen c.oursecret) [ none ↦ λ s. faulted overrun | some n ↦ pure n ]

-- From `mutex_lock` on: the copy and the statistics are under the mutex, not the spinlock.
unfoldable pub read_secret : Kernel → List ℕ → ℕ → Cmd (ℤ × List ℕ)
read_secret k ubuf secret_len = do
  lock_mutex
  c ← get_ctx
  might_sleep
  let (left, ubuf') = k.copy_to_user ubuf c.oursecret secret_len
  if left == 0
      then (do
        put_ctx (record c { tx = add32 c.tx secret_len })
        unlock_mutex
        display_stats false
        pure (int_of_size secret_len, ubuf'))
      else (do unlock_mutex; display_stats true; pure (efault, ubuf'))

unfoldable pub read_miscdrv_rdwr : Kernel → List ℕ → ℕ → Cmd (ℤ × List ℕ)
unfolding read_secret
read_miscdrv_rdwr k ubuf count = do
  lock_spin
  secret_len ← secret_length
  unlock_spin
  if ltb count maxbytes
      then pure (einval, ubuf)
      else if secret_len == 0
      then pure (einval, ubuf)
      else read_secret k ubuf secret_len

abbrev pub is_one : ℤ → Bool
is_one (pos n) = n == 1
is_one (negsuc n) = false

-- `schedule_timeout` under the spinlock, if `buggy` is 1
abbrev block_if_buggy : Cmd (Unit {0})
block_if_buggy s = if is_one s.buggy then might_sleep s else ended tt s

unfoldable pub write_secret : Kernel → List ℕ → ℕ → Cmd (Unit {0})
write_secret k kbuf count = do
  lock_spin
  c ← get_ctx
  put_ctx (record c {
    oursecret = k.strscpy c.oursecret kbuf (if ltb maxbytes count then maxbytes else count);
    rx = add32 c.rx (count % u32_mod);
  })
  block_if_buggy
  unlock_spin

abbrev pub alloc_kbuf : Kernel → ℕ → Cmd (Option (List ℕ))
alloc_kbuf k count = do
  might_sleep
  elim (k.kvmalloc count) [
    | none ↦ pure none
    | some b ↦
        λ s. ended (some b) (record s { driver = record s.driver { kbufs = s.driver.kbufs + 1 } })
  ]

abbrev pub kvfree : Cmd (Unit {0})
kvfree s = ended tt (record s { driver = record s.driver { kbufs = s.driver.kbufs - 1 } })

unfoldable pub write_miscdrv_rdwr : Kernel → List ℕ → ℕ → Cmd ℤ
unfolding write_secret
write_miscdrv_rdwr k ubuf count = do
  dev ← get_ctx
  kbuf? ← alloc_kbuf k count
  elim kbuf? [
    | none ↦ pure enomem
    | some kbuf ↦ do
      might_sleep
      let (left, kbuf') = k.copy_from_user (memset kbuf 0 count) ubuf count in
          if left == 0
          then (do
            write_secret k kbuf' count
            kvfree
            display_stats false
            pure (int_of_size count))
          else (do kvfree; display_stats true; pure efault)
  ]

-- `reg` is what `misc_register` returns, and `mem` says whether `devm_kzalloc` succeeds.
unfoldable pub miscdrv_init_spinlock : Kernel → ℤ → Bool → Cmd ℤ
miscdrv_init_spinlock k (negsuc e) mem = pure (negsuc e)
miscdrv_init_spinlock k (pos r) mem = do
  λ s. put_driver (record s.driver { registered = true }) s
  if mem
      then (do
        put_ctx (record zero_ctx { oursecret = k.strscpy (replicate maxbytes 0) initmsg 8 })
        λ s. ended tt (record s { spinlock = false })
        pure (pos 0))
      else (do λ s. put_driver (record s.driver { ctx = none }) s; pure enomem)

-- `mutex_destroy` goes through `ctx`.
unfoldable pub miscdrv_exit_spinlock : Cmd (Unit {0})
miscdrv_exit_spinlock = do c ← get_ctx; λ s. put_driver (record s.driver { registered = false }) s
