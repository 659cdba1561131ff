-- ===== src/Mutexlock/Ops.antt =====
-- The methods of the driver, its init and its exit.
use linux_kernel_programming.Base.{
  ℕ, ◌+◌, ◌-◌, ◌%◌, List, [], ◌∷◌, Bool, true, false, Option, none, some, ltb, ◌==◌, if◌then◌else◌,
  replicate,
}
use linux_kernel_programming.Base.Words.{ℤ, pos, negsuc, add32, sub32, int_of_size, u32_mod}
use linux_kernel_programming.Kernel.{Kernel, strlen, memset, enomem, efault, einval}
use linux_kernel_programming.Mutexlock.Defs.{
  DrvCtx, maxbytes, Driver, overrun, done, fault, Cmd, pure, ◌>>=◌, ◌>>◌, get_ctx, put_ctx,
  lock_ctx, unlock_ctx, lock_lock1, unlock_lock1,
}

unfoldable pub open_miscdrv_rdwr : Cmd ℤ
open_miscdrv_rdwr = do
  dev ← get_ctx
  lock_lock1
  λ d. done tt (record d { ga = add32 d.ga 1; gb = sub32 d.gb 1 })
  unlock_lock1
  pure (pos 0)

unfoldable pub close_miscdrv_rdwr : Cmd ℤ
close_miscdrv_rdwr = do
  dev ← get_ctx
  lock_lock1
  λ d. done tt (record d { ga = sub32 d.ga 1; gb = add32 d.gb 1 })
  unlock_lock1
  pure (pos 0)

-- `strlen(ctx->oursecret)`
abbrev pub secret_length : Cmd ℕ
secret_length = do
  c ← get_ctx
  elim (strlen c.oursecret) [ none ↦ λ d. fault overrun | some n ↦ pure n ]

-- `kvmalloc` and `kvfree`, counting the live buffers
abbrev pub alloc_kbuf : Kernel → ℕ → Cmd (Option (List ℕ))
alloc_kbuf k count = elim (k.kvmalloc count) [
  | none ↦ pure none
  | some b ↦ λ d. done (some b) (record d { kbufs = d.kbufs + 1 })
]

abbrev pub kvfree : Cmd (Unit {0})
kvfree d = done tt (record d { kbufs = d.kbufs - 1 })

-- The second critical section of the read, from `mutex_lock` to `out_ctu`, for a `secret_len` that
-- the first one found: the value of `ret`, and the user's buffer.
unfoldable pub read_secret : Kernel → List ℕ → ℕ → Cmd (ℤ × List ℕ)
read_secret k ubuf secret_len = do
  lock_ctx
  c ← get_ctx
  let (left, ubuf') = k.copy_to_user ubuf c.oursecret secret_len
  if left == 0
      then (do
        put_ctx (record c { tx = add32 c.tx secret_len })
        unlock_ctx
        pure (int_of_size secret_len, ubuf'))
      else (do unlock_ctx; pure (efault, ubuf'))

unfoldable pub read_miscdrv_rdwr : Kernel → List ℕ → ℕ → Cmd (ℤ × List ℕ)
read_miscdrv_rdwr k ubuf count = do
  lock_ctx
  secret_len ← secret_length
  unlock_ctx
  if ltb count maxbytes
      then pure (einval, ubuf)
      else if secret_len == 0
      then pure (einval, ubuf)
      else read_secret k ubuf secret_len

-- The critical section of the write, with the update of the statistics.
unfoldable pub write_secret : Kernel → List ℕ → ℕ → Cmd (Unit {0})
write_secret k kbuf count = do
  lock_ctx
  c ← get_ctx
  put_ctx (record c {
    oursecret = k.strscpy c.oursecret kbuf (if ltb maxbytes count then maxbytes else count);
    rx = add32 c.rx (count % u32_mod);
  })
  unlock_ctx

-- `out_cfu` and `out_nomem` are the ends of the two branches.
unfoldable pub write_miscdrv_rdwr : Kernel → List ℕ → ℕ → Cmd ℤ
write_miscdrv_rdwr k ubuf count = do
  dev ← get_ctx
  kbuf? ← alloc_kbuf k count
  elim kbuf? [
    | none ↦ pure enomem
    | some kbuf ↦
        let (left, kbuf') = k.copy_from_user (memset kbuf 0 count) ubuf count in
        if left == 0
        then (do write_secret k kbuf' count; kvfree; pure (int_of_size count))
        else (do kvfree; pure efault)
  ]

-- The zeroed context that `devm_kzalloc` gives.
abbrev pub zero_ctx : DrvCtx
zero_ctx = record {
  tx = 0;
  rx = 0;
  err = 0;
  myword = 0;
  config1 = 0;
  config2 = 0;
  config3 = 0;
  oursecret = replicate maxbytes 0;
  lock = false;
}

-- "initmsg" with its NUL
abbrev pub initmsg : List ℕ
initmsg = b'i' ∷ b'n' ∷ b'i' ∷ b't' ∷ b'm' ∷ b's' ∷ b'g' ∷ 0 ∷ []

abbrev put_null : Cmd (Unit {0})
put_null d = done tt (record d { ctx = none })

-- `reg` is what `misc_register` returns, and `mem` says whether `devm_kzalloc` succeeds.
unfoldable pub miscdrv_init_mutexlock : Kernel → ℤ → Bool → Cmd ℤ
miscdrv_init_mutexlock k (negsuc e) mem = pure (negsuc e)
miscdrv_init_mutexlock k (pos r) mem = do
  λ d. done tt (record d { registered = true })
  if mem
      then (do
        put_ctx (record zero_ctx { oursecret = k.strscpy (replicate maxbytes 0) initmsg 8 })
        pure (pos 0))
      else (do put_null; pure enomem)

unfoldable pub miscdrv_exit_mutexlock : Cmd (Unit {0})
miscdrv_exit_mutexlock = do c ← get_ctx; λ d. done tt (record d { registered = false })

-- The module's globals before its init runs.
abbrev pub at_insmod : Driver
at_insmod = record { ga = 0; gb = 1; lock1 = false; ctx = none; registered = false; kbufs = 0 }
