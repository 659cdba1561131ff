-- ===== src/Refcount/Tests.antt =====
-- The theorems at concrete calls.
use linux_kernel_programming.Base.{
  ℕ, zero, suc, ◌+◌, ◌-◌, ◌≤◌, ◌≡◌, refl, List, [], ◌∷◌, ◌++◌, replicate, ltb, ◌==◌, if◌then◌else◌,
  arith,
}
use linux_kernel_programming.Kernel.{concrete, concrete-KernelLaws}
use linux_kernel_programming.Mutexlock.{Driver}
use linux_kernel_programming.Mutexlock.Sessions.{
  Call, open_call, close_call, read_call, write_call, AllFair,
}
use linux_kernel_programming.Spinlock.{ended}
use linux_kernel_programming.Spinlock.Same.{state}
use linux_kernel_programming.Base.Words.{pos}
use linux_kernel_programming.Refcount.Ops.{Refcount, RefcountLaws, saturated, at_insmod}
use linux_kernel_programming.Refcount.Limits.{
  InBounds, files, load_and_call, load_and_call_counts, load_and_call_saturates,
}

-- A counter that saturates at both ends and stays there.
abbrev counter : Refcount
counter = record {
  inc = λ n. if n == 0 then saturated else if ltb (n + 1) 2147483648 then n + 1 else saturated;
  dec = λ n. if ltb n 2 then saturated else if ltb n 2147483648 then n - 1 else saturated;
}

counter-RefcountLaws : RefcountLaws counter
counter-RefcountLaws = record {
  inc_counts = λ n lo hi. ground arith;
  dec_counts = λ n lo hi. ground arith;
  dec_to_zero = refl;
  inc_saturated = refl;
  dec_saturated = refl;
}

abbrev session : List Call
session =
    open_call
    ∷ write_call concrete (b'a' ∷ b'b' ∷ 0 ∷ []) 3
    ∷ open_call
    ∷ read_call concrete (replicate 130 1) 130
    ∷ close_call
    ∷ []

load_and_call_counts_example :
    (d : Driver) × (load_and_call concrete 0 counter session at_insmod ≡ ended tt (state d (pos 0)))
    × (d.ga ≡ 43)
    × (d.gb ≡ 41)
    × (files 0 session ≤ 41)
    × (d.kbufs ≡ 0)
unfolding files
load_and_call_counts_example =
    load_and_call_counts concrete concrete-KernelLaws 0 counter-RefcountLaws session
      ((
        tt,
        (
          (concrete-KernelLaws, omega arith, omega arith),
          (tt, ((concrete-KernelLaws, omega arith), (tt, tt))),
        ),
      ))
      ((omega arith, (omega arith, (omega arith, tt))))

opens-AllFair : (n : ℕ) (ds : List Call) → AllFair ds → AllFair (replicate n open_call ++ ds)
opens-AllFair zero ds fair = fair
opens-AllFair (suc n) ds fair = (tt, opens-AllFair n ds fair)

opens-InBounds : (n m : ℕ) → n + m ≤ 41 → InBounds m (replicate n open_call)
opens-InBounds zero m le = tt
opens-InBounds (suc n) m le = (omega arith, opens-InBounds n (m + 1) (omega arith))

load_and_call_saturates_example :
    (d : Driver) × (load_and_call concrete 0 counter
        (replicate 41 open_call ++ open_call ∷ close_call ∷ close_call ∷ [])
        at_insmod
      ≡ ended tt (state d (pos 0)))
    × (d.gb ≡ saturated)
unfolding files
load_and_call_saturates_example =
    load_and_call_saturates concrete concrete-KernelLaws 0 counter-RefcountLaws
      (replicate 41 open_call) (close_call ∷ close_call ∷ [])
      (opens-AllFair 41 (open_call ∷ close_call ∷ close_call ∷ []) (tt, (tt, (tt, tt))))
      (opens-InBounds 41 0 (omega arith)) refl
