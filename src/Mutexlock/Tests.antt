-- ===== src/Mutexlock/Tests.antt =====
-- Runs of the driver, and its theorems at concrete calls.
use linux_kernel_programming.Base.{
  ℕ, ◌≡◌, ◌≢◌, refl, inl, List, [], ◌∷◌, ◌++◌, false, true, some, length, drop, arith, replicate,
}
use linux_kernel_programming.Base.Words.{ℤ, pos}
use linux_kernel_programming.Kernel.{
  Kernel, KernelLaws, concrete, concrete-KernelLaws, c_string, strlen, memset, enomem,
}
use linux_kernel_programming.Mutexlock.Defs.{DrvCtx, Driver, Run, done, fault, Cmd, ◌>>=◌}
use linux_kernel_programming.Mutexlock.Ops.{
  read_secret, write_secret, miscdrv_init_mutexlock, at_insmod, open_miscdrv_rdwr,
  read_miscdrv_rdwr, write_miscdrv_rdwr,
}
use linux_kernel_programming.Mutexlock.Ready.{secret, IsReady}
use linux_kernel_programming.Mutexlock.Write.{write_errors}
use linux_kernel_programming.Mutexlock.RoundTrip.{read-write, stored_part}
use linux_kernel_programming.Mutexlock.Sessions.{
  Call, open_call, close_call, read_call, write_call, IsIdle, Completes, calls, opens,
  calls_complete,
}
use linux_kernel_programming.Mutexlock.Register.{Reply, answers, Runs}
use linux_kernel_programming.Mutexlock.Refines.{answers_refine}

abbrev result : {A : Type 0} → Run A → List A
result (done a d) = a ∷ []
result (fault e) = []

abbrev session : Cmd (ℤ × List ℕ)
session = do
  r ← miscdrv_init_mutexlock concrete (pos 0) true
  o ← open_miscdrv_rdwr
  w ← write_miscdrv_rdwr concrete (b'h' ∷ b'e' ∷ b'y' ∷ []) 3
  read_miscdrv_rdwr concrete (replicate 130 1) 130

-- The last byte of a write without a NUL is cut off.
session_lem : result (session at_insmod) ≡ (pos 2, b'h' ∷ b'e' ∷ replicate 128 1) ∷ []
unfolding read_secret write_secret read_miscdrv_rdwr write_miscdrv_rdwr miscdrv_init_mutexlock
    open_miscdrv_rdwr c_string strlen memset
session_lem = refl

abbrev hi : DrvCtx
hi = record {
  tx = 5;
  rx = 7;
  err = 0;
  myword = 0;
  config1 = 0;
  config2 = 0;
  config3 = 0;
  oursecret = b'h' ∷ b'i' ∷ replicate 126 0;
  lock = false;
}

abbrev driver : Driver
driver = record { ga = 1; gb = 0; lock1 = false; ctx = some hi; registered = true; kbufs = 0 }

driver-IsReady : IsReady hi driver
unfolding c_string
driver-IsReady = record {
  here = refl;
  free1 = refl;
  free = refl;
  size = refl;
  terminated = omega arith;
}

driver-IsIdle : IsIdle driver
driver-IsIdle = record { ctx = hi; ready = driver-IsReady; ga_fits = omega arith; gb_is = refl }

-- A kernel whose copies to the user always fail, with one byte left over.
abbrev no_copy : Kernel
no_copy = record concrete { copy_to_user = λ u s n. (1, u) }

no_copy-KernelLaws : KernelLaws no_copy
no_copy-KernelLaws = record {
  strscpy_zero = concrete-KernelLaws.strscpy_zero;
  strscpy_copies = concrete-KernelLaws.strscpy_copies;
  strscpy_size = concrete-KernelLaws.strscpy_size;
  kvmalloc_size = concrete-KernelLaws.kvmalloc_size;
  copy_to_user_all = λ u s n p q e. cc e;
  copy_from_user_all = concrete-KernelLaws.copy_from_user_all;
}

abbrev buffer : List ℕ
buffer = replicate 130 1

abbrev message : List ℕ
message = b'h' ∷ b'e' ∷ b'y' ∷ 0 ∷ []

secret_full : secret hi ≢ []
unfolding c_string
secret_full e = cc

write_errors_example : write_miscdrv_rdwr concrete message 5000 driver ≡ done enomem driver
write_errors_example = write_errors concrete-KernelLaws driver-IsReady message 5000 [] (inl refl)

stored_full : stored_part message 4 ≢ []
unfolding c_string
stored_full e = cc

read-write_example :
    (d' : Driver) × (d'' : Driver) × (write_miscdrv_rdwr concrete message 4 driver
      ≡ done (pos 4) d')
    × (read_miscdrv_rdwr concrete buffer 130 d'
        ≡ done
            (
              pos (length (stored_part message 4)),
              stored_part message 4 ++ drop (length (stored_part message 4)) buffer,
            )
            d'')
read-write_example =
    read-write concrete-KernelLaws driver-IsReady (replicate 4 7) message 4 buffer 130 (omega arith)
      (omega arith) (omega arith) refl refl (omega arith) (omega arith) stored_full (λ s. refl)

abbrev some_calls : List Call
some_calls =
    open_call ∷ write_call concrete message 4 ∷ read_call no_copy buffer 130 ∷ close_call ∷ []

calls_complete_example : Completes (calls some_calls) (opens some_calls) driver
calls_complete_example =
    calls_complete some_calls driver
      (
        tt,
        (
          (concrete-KernelLaws, omega arith, omega arith),
          ((no_copy-KernelLaws, omega arith), (tt, tt)),
        ),
      )
      driver-IsIdle

answers_refine_example :
    (rs : List Reply) × (c' : DrvCtx) × (d' : Driver) × (answers some_calls driver ≡ done rs d')
    × IsReady c' d'
    × Runs some_calls (secret hi) rs (secret c')
answers_refine_example = answers_refine some_calls driver-IsReady (
  tt,
  ((concrete-KernelLaws, omega arith, omega arith), ((no_copy-KernelLaws, omega arith), (tt, tt))),
)
