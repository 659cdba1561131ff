-- ===== src/Kthreads/Runs.antt =====
-- What a load and an unload leave behind, and what a thread that cannot be made does.
use linux_kernel_programming.Base.{ℕ, ◌+◌, ◌≡◌, ◌≢◌, refl, Bool, true, false, ==-eq-false}
use linux_kernel_programming.Kernel.{enomem}
use linux_kernel_programming.Base.Words.{ℤ, pos}
use linux_kernel_programming.Kthreads.Defs.{TaskPtr, err_ptr, thread, Module, ended, oops, Cmd}
use linux_kernel_programming.Kthreads.Inits.{
  enosys, init_percpu_var, exit_percpu_var, deadlock_eg_ab_ba_init, deadlock_eg_ab_ba_exit,
}

-- A module whose threads are stopped and that has no memory; it has taken so many references.
abbrev pub Stopped : Module → Type 0
Stopped m = (m.running0 ≡ false) × (m.running1 ≡ false) × (m.pcp_ctx ≡ false)

-- Both threads were made.
abbrev started : Module → Module
started m = record m {
  arr_tsk0 = thread;
  arr_tsk1 = thread;
  refs0 = m.refs0 + 1;
  refs1 = m.refs1 + 1;
  running0 = true;
  running1 = true;
}

-- Both threads were made, and stopped.
abbrev stopped : Module → Module
stopped m = record (started m) { running0 = false; running1 = false }

-- What a load with exit, of a module in the state `m`, leaves behind: init returns `ret`, and then
-- the exit stops both threads and frees the memory, but keeps one reference more to each thread.
abbrev pub LoadsKeepingRefs : ℤ → Module → Cmd ℤ → Cmd (Unit {0}) → Type 0
LoadsKeepingRefs ret m load unload =
    (loaded : Module) × (m' : Module) × (load m ≡ ended ret loaded)
    × (loaded.running0 ≡ true)
    × (loaded.running1 ≡ true)
    × (unload loaded ≡ ended tt m')
    × Stopped m'
    × (m'.refs0 ≡ m.refs0 + 1)
    × (m'.refs1 ≡ m.refs1 + 1)

-- With both threads made, init returns 0 with both running, and the exit after it stops both and
-- frees the memory; but the references of `get_task_struct` are kept, one more to each thread. It is
-- so in both modules.
pub inits_keep_refs :
    (func_ptr : ℕ) (m : Module)
    → func_ptr ≢ 0
    → Stopped m
    → LoadsKeepingRefs (pos 0) m (init_percpu_var func_ptr true thread thread) exit_percpu_var
      × LoadsKeepingRefs
          (pos 0)
          m
          (deadlock_eg_ab_ba_init func_ptr thread thread)
          deadlock_eg_ab_ba_exit
unfolding init_percpu_var exit_percpu_var deadlock_eg_ab_ba_init deadlock_eg_ab_ba_exit
inits_keep_refs func_ptr m ne (s0, s1, sp) = (
  (
    record (started m) { pcp_ctx = true },
    record (stopped m) { pcp_ctx = false },
    rw (==-eq-false func_ptr 0 ne),
    refl,
    refl,
    refl,
    (refl, refl, refl),
    refl,
    refl,
  ),
  (
    started m,
    stopped m,
    rw (==-eq-false func_ptr 0 ne),
    refl,
    refl,
    refl,
    (refl, refl, sp),
    refl,
    refl,
  ),
)

-- `kthread_run` fails with an error value, never with NULL: then init does not clean up and return
-- -ENOMEM, but goes through the error value, whichever thread it is and in both modules.
pub inits_oops :
    (func_ptr : ℕ) (m : Module) (p1 : TaskPtr)
    → func_ptr ≢ 0
    → (init_percpu_var func_ptr true err_ptr p1 m ≡ oops)
      × (init_percpu_var func_ptr true thread err_ptr m ≡ oops)
      × (deadlock_eg_ab_ba_init func_ptr err_ptr p1 m ≡ oops)
      × (deadlock_eg_ab_ba_init func_ptr thread err_ptr m ≡ oops)
unfolding init_percpu_var deadlock_eg_ab_ba_init
inits_oops func_ptr m p1 ne = (
  rw (==-eq-false func_ptr 0 ne),
  rw (==-eq-false func_ptr 0 ne),
  rw (==-eq-false func_ptr 0 ne),
  rw (==-eq-false func_ptr 0 ne),
)

-- Without the address of `sched_setaffinity` both inits return -ENOSYS and change nothing; without
-- memory the per-CPU one returns -ENOMEM with no thread made.
pub inits_refuse :
    (m : Module) (p0 p1 : TaskPtr) (mem : Bool) (func_ptr : ℕ)
    → func_ptr ≢ 0
    → Stopped m
    → (init_percpu_var 0 mem p0 p1 m ≡ ended enosys m)
      × (deadlock_eg_ab_ba_init 0 p0 p1 m ≡ ended enosys m)
      × ((m' : Module) × (init_percpu_var func_ptr false p0 p1 m ≡ ended enomem m') × Stopped m')
unfolding init_percpu_var deadlock_eg_ab_ba_init
inits_refuse m p0 p1 mem func_ptr ne (s0, s1, sp) =
    (refl, refl, (record m { pcp_ctx = false }, rw (==-eq-false func_ptr 0 ne), (s0, s1, refl)))
