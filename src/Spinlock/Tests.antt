-- ===== src/Spinlock/Tests.antt =====
-- The theorems on the driver with spinlocks at concrete calls.
use linux_kernel_programming.Base.{
  ℕ, ◌≡◌, ◌≢◌, refl, List, [], ◌∷◌, true, false, some, replicate, arith,
}
use linux_kernel_programming.Base.Words.{pos}
use linux_kernel_programming.Kernel.{concrete, concrete-KernelLaws, c_string}
use linux_kernel_programming.Mutexlock.{
  miscdrv_init_mutexlock, miscdrv_exit_mutexlock, at_insmod, DrvCtx, Driver,
}
use linux_kernel_programming.Mutexlock.Ready.{IsReady}
use linux_kernel_programming.Mutexlock.Sessions.{
  Call, close_call, read_call, write_call, calls, IsIdle,
}
use linux_kernel_programming.Spinlock.Ops.{miscdrv_init_spinlock, miscdrv_exit_spinlock}
use linux_kernel_programming.Spinlock.Same.{state, as_spinlock}
use linux_kernel_programming.Spinlock.Sessions.{spin_calls, spin_calls_same}

abbrev context : DrvCtx
context = record {
  tx = 1;
  rx = 2;
  err = 0;
  myword = 0;
  config1 = 0;
  config2 = 0;
  config3 = 0;
  oursecret = b'o' ∷ b'k' ∷ replicate 126 0;
  lock = false;
}

abbrev opened : Driver
opened = record { ga = 1; gb = 0; lock1 = false; ctx = some context; registered = true; kbufs = 0 }

context-IsReady : IsReady context opened
unfolding c_string
context-IsReady = record {
  here = refl;
  free1 = refl;
  free = refl;
  size = refl;
  terminated = omega arith;
}

opened-IsIdle : IsIdle opened
opened-IsIdle = record {
  ctx = context;
  ready = context-IsReady;
  ga_fits = omega arith;
  gb_is = refl;
}

abbrev three_bytes : List ℕ
three_bytes = b'a' ∷ b'b' ∷ 0 ∷ []

abbrev room : List ℕ
room = replicate 130 1

abbrev write_then_read : List Call
write_then_read = write_call concrete three_bytes 3 ∷ read_call concrete room 130 ∷ close_call ∷ []

not_buggy : pos 0 ≢ pos 1
not_buggy e = cc

spin_calls_same_example :
    spin_calls write_then_read (state opened (pos 0))
    ≡ as_spinlock (pos 0) (calls write_then_read opened)
spin_calls_same_example =
    spin_calls_same (pos 0) write_then_read opened not_buggy
      ((
        (concrete-KernelLaws, omega arith, omega arith),
        ((concrete-KernelLaws, omega arith), (tt, tt)),
      ))
      opened-IsIdle

-- A load and an unload do what they do to the driver with mutexes.
loaded_same :
    miscdrv_init_spinlock concrete (pos 0) true (state at_insmod (pos 0))
    ≡ as_spinlock (pos 0) (miscdrv_init_mutexlock concrete (pos 0) true at_insmod)
unfolding miscdrv_init_spinlock miscdrv_init_mutexlock
loaded_same = refl

unloaded_same :
    miscdrv_exit_spinlock (state opened (pos 0))
    ≡ as_spinlock (pos 0) (miscdrv_exit_mutexlock opened)
unfolding miscdrv_exit_spinlock miscdrv_exit_mutexlock
unloaded_same = refl
