-- ===== src/Refcount/Ops.antt =====
-- The methods, the init and the exit. The state is that of the driver with spinlocks, whose `lock1`
-- and `buggy` this driver does not have: they stay as they are. `ga` and `gb` are `refcount_t` here.
use linux_kernel_programming.Base.{
  ℕ, ◌+◌, ◌-◌, ◌<◌, ◌≡◌, ◌%◌, ◌^◌, List, Bool, true, false, none, some, ltb, ◌==◌, replicate,
  if◌then◌else◌,
}
use linux_kernel_programming.Base.Words.{ℤ, pos, negsuc, add32, int_of_size, u32_mod}
use linux_kernel_programming.Kernel.{Kernel, memset, enomem, efault, einval}
use linux_kernel_programming.Mutexlock.{maxbytes, zero_ctx, initmsg}
use linux_kernel_programming.Spinlock.{
  State, ended, Cmd, pure, ◌>>=◌, ◌>>◌, get_ctx, put_driver, put_ctx, might_sleep, lock_spin,
  unlock_spin, lock_mutex, unlock_mutex, display_stats, secret_length, alloc_kbuf, kvfree,
}

-- The kernel's `refcount_inc` and `refcount_dec`, as functions of the counter's 32-bit pattern.
pub record Refcount : Type 0 where
  pub inc : ℕ → ℕ
  pub dec : ℕ → ℕ

-- The kernel's REFCOUNT_SATURATED, INT_MIN / 2
abbrev pub saturated : ℕ
saturated = 3221225472

-- Within bounds the counter counts. A decrement that would reach 0 saturates it (with a warning),
-- and a saturated counter stays so.
pub record RefcountLaws (r : Refcount) : Type 0 where
  pub inc_counts : (n : ℕ) → 0 < n → n + 1 < 2 ^ 31 → r.inc n ≡ n + 1
  pub dec_counts : (n : ℕ) → 1 < n → n < 2 ^ 31 → r.dec n ≡ n - 1
  pub dec_to_zero : r.dec 1 ≡ saturated
  pub inc_saturated : r.inc saturated ≡ saturated
  pub dec_saturated : r.dec saturated ≡ saturated

abbrev pub refcount_ga : (ℕ → ℕ) → Cmd (Unit {0})
refcount_ga f s = put_driver (record s.driver { ga = f s.driver.ga }) s

abbrev pub refcount_gb : (ℕ → ℕ) → Cmd (Unit {0})
refcount_gb f s = put_driver (record s.driver { gb = f s.driver.gb }) s

unfoldable pub open_miscdrv_rdwr : Refcount → Cmd ℤ
open_miscdrv_rdwr r = do
  dev ← get_ctx
  refcount_ga r.inc
  refcount_gb r.dec
  display_stats true
  pure (pos 0)

unfoldable pub close_miscdrv_rdwr : Refcount → Cmd ℤ
close_miscdrv_rdwr r = do
  dev ← get_ctx
  refcount_ga r.dec
  refcount_gb r.inc
  display_stats true
  pure (pos 0)

-- From `mutex_lock` on
unfoldable pub read_secret : Kernel → List ℕ → ℕ → Cmd (ℤ × List ℕ)
read_secret k ubuf secret_len = do
  lock_mutex
  c ← get_ctx
  might_sleep
  let (left, ubuf') = k.copy_to_user ubuf c.oursecret secret_len
  if left == 0
      then (do
        put_ctx (record c { tx = add32 c.tx secret_len })
        unlock_mutex
        display_stats false
        pure (int_of_size secret_len, ubuf'))
      else (do unlock_mutex; display_stats true; pure (efault, ubuf'))

unfoldable pub read_miscdrv_rdwr : Kernel → List ℕ → ℕ → Cmd (ℤ × List ℕ)
read_miscdrv_rdwr k ubuf count = do
  lock_spin
  secret_len ← secret_length
  unlock_spin
  if ltb count maxbytes
      then pure (einval, ubuf)
      else if secret_len == 0
      then pure (einval, ubuf)
      else read_secret k ubuf secret_len

unfoldable pub write_secret : Kernel → List ℕ → ℕ → Cmd (Unit {0})
write_secret k kbuf count = do
  lock_spin
  c ← get_ctx
  put_ctx (record c {
    oursecret = k.strscpy c.oursecret kbuf (if ltb maxbytes count then maxbytes else count);
    rx = add32 c.rx (count % u32_mod);
  })
  unlock_spin

unfoldable pub write_miscdrv_rdwr : Kernel → List ℕ → ℕ → Cmd ℤ
write_miscdrv_rdwr k ubuf count = do
  dev ← get_ctx
  kbuf? ← alloc_kbuf k count
  elim kbuf? [
    | none ↦ pure enomem
    | some kbuf ↦ do
      might_sleep
      let (left, kbuf') = k.copy_from_user (memset kbuf 0 count) ubuf count in
          if left == 0
          then (do
            write_secret k kbuf' count
            kvfree
            display_stats false
            pure (int_of_size count))
          else (do kvfree; display_stats true; pure efault)
  ]

-- `reg` is what `misc_register` returns, and `mem` says whether `kzalloc` succeeds.
unfoldable pub miscdrv_init_refcount : Kernel → ℤ → Bool → Cmd ℤ
miscdrv_init_refcount k (negsuc e) mem = pure (negsuc e)
miscdrv_init_refcount k (pos r) mem = do
  λ s. put_driver (record s.driver { registered = true }) s
  if mem
      then (do
        put_ctx (record zero_ctx { oursecret = k.strscpy (replicate maxbytes 0) initmsg 8 })
        λ s. ended tt (record s { spinlock = false })
        pure (pos 0))
      else (do λ s. put_driver (record s.driver { ctx = none }) s; pure enomem)

-- `mutex_destroy` goes through `ctx`.
unfoldable pub miscdrv_exit_refcount : Cmd (Unit {0})
miscdrv_exit_refcount = do c ← get_ctx; λ s. put_driver (record s.driver { registered = false }) s

-- The module's globals before its init runs: both counters are REFCOUNT_INIT(42).
abbrev pub at_insmod : State
at_insmod = record {
  driver = record { ga = 42; gb = 42; lock1 = false; ctx = none; registered = false; kbufs = 0 };
  spinlock = false;
  buggy = pos 0;
}
