-- ===== src/Percpu/Defs.antt =====
-- The threads as sequences of updates of the copy of the CPU that they run on, and every
-- interleaving of them. One update, between `get_cpu_var` and `put_cpu_var`, is one step.
use linux_kernel_programming.Base.{ℕ, zero, suc, ◌≡◌, List, [], ◌∷◌, ◌++◌, Option, none, some}
use linux_kernel_programming.Base.Words.{ℤ, pos, negsuc, add32, sub32}

-- One CPU's `pcpa` and the members of its `struct drv_ctx` that are used, as 32-bit patterns.
pub record Copy : Type 0 where
  pub pcpa : ℕ
  pub tx : ℕ
  pub rx : ℕ

pub data Update : Type 0 where
  increment decrement add_tx add_rx : Update

abbrev pub apply : Update → Copy → Copy
apply increment c = record c { pcpa = add32 c.pcpa 1 }
apply decrement c = record c { pcpa = sub32 c.pcpa 1 }
apply add_tx c = record c { tx = add32 c.tx 100 }
apply add_rx c = record c { rx = add32 c.rx 200 }

-- THRD0_ITERS and THRD1_ITERS
abbrev thrd_iters : ℕ
thrd_iters = 3

iterate : ℕ → List Update → List Update
iterate zero updates = []
iterate (suc n) updates = updates ++ iterate n updates

-- `thrd_work` after its check of `thrd`: `affinity` is what `set_cpuaffinity` returns.
abbrev pinned : ℤ → List Update → ℤ × List Update
pinned (negsuc e) updates = (negsuc 37, [])
pinned (pos r) updates = (pos 0, iterate thrd_iters updates)

unfoldable pub thrd_work : ℤ → ℤ → ℤ × List Update
unfolding iterate
thrd_work affinity (pos zero) = pinned affinity (increment ∷ add_tx ∷ [])
thrd_work affinity (pos (suc zero)) = pinned affinity (decrement ∷ add_rx ∷ [])
thrd_work affinity thrd = (negsuc 21, [])

-- The copies of the CPUs 0 and 1, and what each thread has yet to do.
pub record Sys : Type 0 where
  pub cpu0 : Copy
  pub cpu1 : Copy
  pub p0 : List Update
  pub p1 : List Update

pub data Tid : Type 0 where
  thrd_0 thrd_1 : Tid

-- The next step of thread 0, and of thread 1; `none` if it has finished.
abbrev pub step0 : Sys → List Update → Option Sys
step0 s [] = none
step0 s (a ∷ p) = some (record s { cpu0 = apply a s.cpu0; p0 = p })

abbrev pub step1 : Sys → List Update → Option Sys
step1 s [] = none
step1 s (a ∷ p) = some (record s { cpu1 = apply a s.cpu1; p1 = p })

abbrev pub move : Tid → Sys → Option Sys
move thrd_0 s = step0 s s.p0
move thrd_1 s = step1 s s.p1

-- `init_percpu_var` has made both threads: a static per-CPU variable and `alloc_percpu` begin at 0.
abbrev pub begin : ℤ → ℤ → Sys
begin affinity0 affinity1 = record {
  cpu0 = record { pcpa = 0; tx = 0; rx = 0 };
  cpu1 = record { pcpa = 0; tx = 0; rx = 0 };
  p0 = (thrd_work affinity0 (pos 0)).1;
  p1 = (thrd_work affinity1 (pos 1)).1;
}

pub data Reach (s : Sys) : Sys → Type 0 where
  here : Reach s s
  later : {u v : Sys} (t : Tid) → Reach s u → move t u ≡ some v → Reach s v
