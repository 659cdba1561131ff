-- ===== src/Spinlock/Same.antt =====
-- One call at a time, the driver does what the driver with mutexes does.
use linux_kernel_programming.Base.{
  ℕ, ◌≡◌, ◌≢◌, refl, List, false, some, ltb, ◌==◌, Option-cases, Bool-cases, ==-eq-false, ap, sym,
  ◌∙◌, inl, inr,
}
use linux_kernel_programming.Base.Words.{ℤ, pos, negsuc}
use linux_kernel_programming.Kernel.{Kernel, strlen, memset}
use linux_kernel_programming.Mutexlock.{DrvCtx, Driver, Fault, done, fault}
use linux_kernel_programming.Mutexlock
use linux_kernel_programming.Mutexlock.Ready.{IsReady}
use linux_kernel_programming.Spinlock.Defs.{State, Run, ended, faulted, ◌>>=◌}
use linux_kernel_programming.Spinlock.Ops.{
  open_miscdrv_rdwr, read_miscdrv_rdwr, read_secret, write_miscdrv_rdwr, write_secret,
  close_miscdrv_rdwr, is_one, secret_length,
}

-- The state with both locks of the context free, and a run of the other driver seen as one of this.
abbrev pub state : Driver → ℤ → State
state d buggy = record { driver = d; spinlock = false; buggy = buggy }

abbrev pub as_spinlock : {A : Type 0} → ℤ → Mutexlock.Run A → Run A
as_spinlock buggy (done a d) = ended a (state d buggy)
as_spinlock buggy (fault e) = faulted e

not_one : (buggy : ℤ) → buggy ≢ pos 1 → is_one buggy ≡ false
not_one (pos n) ne = ==-eq-false n 1 (λ e. ne (ap pos e))
not_one (negsuc n) ne = refl

-- A driver with this context whose mutex, like `lock1`, is free.
abbrev pub unlocked : DrvCtx → Driver → Driver
unlocked c d = record d { lock1 = false; ctx = some (record c { lock = false }) }

pub unlocked_lem : {c : DrvCtx} {d : Driver} (r : IsReady c d) → unlocked c d ≡ d
unlocked_lem {c} {d} r =
    ap (λ l. record d { lock1 = false; ctx = some (record c { lock = l }) }) (sym r.free)
    ∙ ap (λ o. record d { lock1 = false; ctx = o }) (sym r.here)
    ∙ ap (λ l. record d { lock1 = l }) (sym r.free1)

module _ (buggy : ℤ) (c : DrvCtx) (d : Driver) where
  pub open_same :
      open_miscdrv_rdwr (state (unlocked c d) buggy)
      ≡ as_spinlock buggy (Mutexlock.open_miscdrv_rdwr (unlocked c d))
  unfolding open_miscdrv_rdwr Mutexlock.open_miscdrv_rdwr
  open_same = refl

  pub close_same :
      close_miscdrv_rdwr (state (unlocked c d) buggy)
      ≡ as_spinlock buggy (Mutexlock.close_miscdrv_rdwr (unlocked c d))
  unfolding close_miscdrv_rdwr Mutexlock.close_miscdrv_rdwr
  close_same = refl

module _ (k : Kernel) (buggy : ℤ) (c : DrvCtx) (d : Driver) where
  read_secret_same :
      (ubuf : List ℕ) (n : ℕ)
      → read_secret k ubuf n (state (unlocked c d) buggy)
        ≡ as_spinlock buggy (Mutexlock.read_secret k ubuf n (unlocked c d))
  unfolding read_secret Mutexlock.read_secret
  read_secret_same ubuf n = elim (Bool-cases ((k.copy_to_user ubuf c.oursecret n).0 == 0)) [
    | inl y ↦ rw (◌>>=◌, Mutexlock.◌>>=◌, y)
    | inr y ↦ rw (◌>>=◌, Mutexlock.◌>>=◌, y)
  ]

  write_secret_same :
      (kbuf : List ℕ) (count : ℕ)
      → buggy ≢ pos 1
      → write_secret k kbuf count (state (unlocked c d) buggy)
        ≡ as_spinlock buggy (Mutexlock.write_secret k kbuf count (unlocked c d))
  unfolding write_secret Mutexlock.write_secret
  write_secret_same kbuf count ne = rw (◌>>=◌, Mutexlock.◌>>=◌, not_one buggy ne)

  pub read_same :
      (ubuf : List ℕ) (count : ℕ)
      → read_miscdrv_rdwr k ubuf count (state (unlocked c d) buggy)
        ≡ as_spinlock buggy (Mutexlock.read_miscdrv_rdwr k ubuf count (unlocked c d))
  unfolding read_miscdrv_rdwr Mutexlock.read_miscdrv_rdwr
  read_same ubuf count = elim (Option-cases (strlen c.oursecret)) [
    | inl e ↦ rw (◌>>=◌, Mutexlock.◌>>=◌, secret_length, Mutexlock.secret_length, e)
    | inr (n, e) ↦ elim (Bool-cases (ltb count Mutexlock.maxbytes)) [
      | inl small ↦ rw (◌>>=◌, Mutexlock.◌>>=◌, secret_length, Mutexlock.secret_length, e, small)
      | inr big ↦ elim (Bool-cases (n == 0)) [
        | inl y ↦ rw (◌>>=◌, Mutexlock.◌>>=◌, secret_length, Mutexlock.secret_length, e, big, y)
        | inr y ↦
            rw (◌>>=◌, Mutexlock.◌>>=◌, secret_length, Mutexlock.secret_length, e, big, y)
              (read_secret_same ubuf n)
      ]
    ]
  ]

  pub write_same :
      (ubuf : List ℕ) (count : ℕ)
      → buggy ≢ pos 1
      → write_miscdrv_rdwr k ubuf count (state (unlocked c d) buggy)
        ≡ as_spinlock buggy (Mutexlock.write_miscdrv_rdwr k ubuf count (unlocked c d))
  unfolding write_miscdrv_rdwr Mutexlock.write_miscdrv_rdwr write_secret Mutexlock.write_secret
  write_same ubuf count ne = elim (Option-cases (k.kvmalloc count)) [
    | inl e ↦ rw (◌>>=◌, Mutexlock.◌>>=◌, e)
    | inr (b, e) ↦ elim (Bool-cases ((k.copy_from_user (memset b 0 count) ubuf count).0 == 0)) [
      | inl y ↦ rw (◌>>=◌, Mutexlock.◌>>=◌, e, y, not_one buggy ne)
      | inr y ↦ rw (◌>>=◌, Mutexlock.◌>>=◌, e, y)
    ]
  ]
