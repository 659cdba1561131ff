-- ===== src/Spinlock/Sessions.antt =====
-- Sequences of calls, one at a time: the driver cannot be told from the driver with mutexes.
use linux_kernel_programming.Base.{ℕ, ◌≡◌, ◌≢◌, refl, List, [], ◌∷◌, some}
use mathlib.Core.Path.{subst}
use linux_kernel_programming.Base.Words.{ℤ, pos}
use linux_kernel_programming.Kernel.{Kernel, memset}
use linux_kernel_programming.Mutexlock
use linux_kernel_programming.Mutexlock.{DrvCtx, Driver, done, fault}
use linux_kernel_programming.Mutexlock.Sessions.{
  Call, open_call, close_call, read_call, write_call, AllFair, IsFair, calls, call, opens,
  Completes, IsIdle, call-Completes, opens,
}
use linux_kernel_programming.Spinlock.Defs.{slept_in_atomic, Cmd, pure, ◌>>=◌, ◌>>◌}
use linux_kernel_programming.Spinlock.Ops.{
  open_miscdrv_rdwr, read_miscdrv_rdwr, write_miscdrv_rdwr, write_secret, close_miscdrv_rdwr,
}
use linux_kernel_programming.Spinlock.Same.{
  state, as_spinlock, unlocked, unlocked_lem, open_same, close_same, read_same, write_same,
}

unfoldable pub spin_call : Call → Cmd (Unit {0})
spin_call open_call = do r ← open_miscdrv_rdwr; pure tt
spin_call close_call = do r ← close_miscdrv_rdwr; pure tt
spin_call (read_call k ubuf count) = do r ← read_miscdrv_rdwr k ubuf count; pure tt
spin_call (write_call k ubuf count) = do r ← write_miscdrv_rdwr k ubuf count; pure tt

unfoldable pub spin_calls : List Call → Cmd (Unit {0})
unfolding spin_call
spin_calls [] = pure tt
spin_calls (c ∷ cs) = spin_call c >> spin_calls cs

pub forget_same :
    {A : Type 0} (buggy : ℤ) (m : Cmd A) (n : Mutexlock.Cmd A) (d : Driver)
    → m (state d buggy) ≡ as_spinlock buggy (n d)
    → (m >>= λ r. pure tt) (state d buggy)
      ≡ as_spinlock buggy (Mutexlock.◌>>=◌ n (λ r. Mutexlock.pure tt) d)
forget_same buggy m n d e = rw (◌>>=◌, e) (by_result (n d))
  where
    by_result :
        {A : Type 0} (r : Mutexlock.Run A)
        → ◌>>=◌ (λ s. as_spinlock buggy r) (λ _. pure tt) (state d buggy)
          ≡ as_spinlock buggy (Mutexlock.◌>>=◌ (λ _. r) (λ _. Mutexlock.pure tt) d)
    by_result (done a d') = refl
    by_result (fault e) = refl

module _ (buggy : ℤ) where
  call_same :
      (call : Call) (c : DrvCtx) (d : Driver)
      → buggy ≢ pos 1
      → spin_call call (state (unlocked c d) buggy)
        ≡ as_spinlock buggy (Mutexlock.Sessions.call call (unlocked c d))
  unfolding spin_call Mutexlock.Sessions.call
  call_same open_call c d ne =
      forget_same buggy open_miscdrv_rdwr Mutexlock.open_miscdrv_rdwr (unlocked c d)
        (open_same buggy c d)
  call_same close_call c d ne =
      forget_same buggy close_miscdrv_rdwr Mutexlock.close_miscdrv_rdwr (unlocked c d)
        (close_same buggy c d)
  call_same (read_call k ubuf count) c d ne =
      forget_same buggy (read_miscdrv_rdwr k ubuf count) (Mutexlock.read_miscdrv_rdwr k ubuf count)
        (unlocked c d) (read_same k buggy c d ubuf count)
  call_same (write_call k ubuf count) c d ne =
      forget_same buggy (write_miscdrv_rdwr k ubuf count)
        (Mutexlock.write_miscdrv_rdwr k ubuf count) (unlocked c d)
        (write_same k buggy c d ubuf count ne)

  -- From an idle driver, and unless `buggy` is 1, a sequence of calls (with buffers that have room
  -- and a kernel that keeps its promises) does what it does to the driver with mutexes: it never
  -- sleeps with a spinlock held, and it comes to an end in the same state.
  pub spin_calls_same :
      (cs : List Call) (d : Driver)
      → buggy ≢ pos 1
      → AllFair cs
      → IsIdle d
      → spin_calls cs (state d buggy) ≡ as_spinlock buggy (calls cs d)
  unfolding spin_calls calls
  spin_calls_same [] d ne fair idle = refl
  spin_calls_same (c ∷ cs) d ne (f, fair) idle =
      let one : spin_call c (state d buggy) ≡ as_spinlock buggy (call c d) =
        subst (λ d. spin_call c (state d buggy) ≡ as_spinlock buggy (call c d))
          (unlocked_lem idle.ready) (call_same c idle.ctx d ne) in
      let completes = call-Completes c d f idle in
      rw (◌>>=◌, one, Mutexlock.◌>>=◌, completes.runs)
        (spin_calls_same cs completes.after ne fair completes.idle)

-- With `buggy` 1, a write that has its memory and its copy sleeps in `schedule_timeout` while it
-- holds the spinlock.
pub write_sleeps :
    (k : Kernel) (c : DrvCtx) (d : Driver) (ubuf : List ℕ) (count : ℕ) (b : List ℕ)
    → k.kvmalloc count ≡ some b
    → (k.copy_from_user (memset b 0 count) ubuf count).0 ≡ 0
    → write_miscdrv_rdwr k ubuf count (state (unlocked c d) (pos 1)) ≡ slept_in_atomic
unfolding write_miscdrv_rdwr write_secret
write_sleeps k c d ubuf count b e y = rw (◌>>=◌, e, y)
