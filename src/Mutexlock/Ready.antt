-- ===== src/Mutexlock/Ready.antt =====
-- The states in which the driver waits for a call: both locks free, the secret a C string.
use linux_kernel_programming.Base.{ℕ, ◌<◌, ◌≡◌, List, false, some, length}
use linux_kernel_programming.Kernel.{c_string}
use linux_kernel_programming.Mutexlock.Defs.{DrvCtx, maxbytes, Driver}

abbrev pub secret : DrvCtx → List ℕ
secret c = c_string c.oursecret

pub record IsReady (c : DrvCtx) (d : Driver) : Type 0 where
  pub here : d.ctx ≡ some c
  pub free1 : d.lock1 ≡ false
  pub free : c.lock ≡ false
  pub size : length c.oursecret ≡ maxbytes
  pub terminated : length (secret c) < maxbytes

-- The locks and the secret are as they were after a change of `ga` and `gb`.
pub recount :
    {c : DrvCtx} {d : Driver} (a b : ℕ) → IsReady c d → IsReady c (record d { ga = a; gb = b })
recount a b r = record {
  here = r.here;
  free1 = r.free1;
  free = r.free;
  size = r.size;
  terminated = r.terminated;
}
