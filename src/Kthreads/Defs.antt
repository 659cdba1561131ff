-- ===== src/Kthreads/Defs.antt =====
-- Pointers to threads, the state of a module that has two of them, and the wrappers that both
-- modules have.
use linux_kernel_programming.Base.{ℕ, ◌+◌, Bool, true, false, not, if◌then◌else◌}
use linux_kernel_programming.Base.Words.{ℤ, pos, negsuc}
use linux_kernel_programming.Kernel.{enomem}

-- What a `struct task_struct *` is: NULL, an error value of ERR_PTR, or a thread.
pub data TaskPtr : Type 0 where
  null err_ptr thread : TaskPtr

-- `arr_tsk`, how many references to each thread the module has taken, how many of its threads have
-- not been stopped, and whether the memory of `alloc_percpu` is live.
pub record Module : Type 0 where
  pub arr_tsk0 : TaskPtr
  pub arr_tsk1 : TaskPtr
  pub refs0 : ℕ
  pub refs1 : ℕ
  pub running0 : Bool
  pub running1 : Bool
  pub pcp_ctx : Bool

-- A command ends, or goes through a pointer that is none.
pub data Run (A : Type 0) : Type 0 where
  ended : A → Module → Run A
  oops : Run A

abbrev pub Cmd : Type 0 → Type 0
Cmd A = Module → Run A

abbrev pub pure : {A : Type 0} → A → Cmd A
pure a m = ended a m

infixl 5 ◌>>=◌ ◌>>◌
abbrev pub ◌>>=◌ : {A B : Type 0} → Cmd A → (A → Cmd B) → Cmd B
◌>>=◌ c f m = elim (c m) [ ended a m' ↦ f a m' | oops ↦ oops ]

abbrev pub ◌>>◌ : {B : Type 0} → Cmd (Unit {0}) → Cmd B → Cmd B
c >> d = c >>= λ _. d

pub data Thrd : Type 0 where
  thrd_0 thrd_1 : Thrd

abbrev pub arr_tsk : Thrd → Module → TaskPtr
arr_tsk thrd_0 m = m.arr_tsk0
arr_tsk thrd_1 m = m.arr_tsk1

abbrev pub is_thread : TaskPtr → Bool
is_thread thread = true
is_thread _ = false

-- `kthread_run` has returned `p`; a thread that was made runs.
abbrev pub store_task : Thrd → TaskPtr → Cmd (Unit {0})
store_task thrd_0 p m = ended tt (record m { arr_tsk0 = p; running0 = is_thread p })
store_task thrd_1 p m = ended tt (record m { arr_tsk1 = p; running1 = is_thread p })

abbrev count_ref : Thrd → Cmd (Unit {0})
count_ref thrd_0 m = ended tt (record m { refs0 = m.refs0 + 1 })
count_ref thrd_1 m = ended tt (record m { refs1 = m.refs1 + 1 })

abbrev set_stopped : Thrd → Cmd (Unit {0})
set_stopped thrd_0 m = ended tt (record m { running0 = false })
set_stopped thrd_1 m = ended tt (record m { running1 = false })

abbrev pub get_task_struct : Thrd → TaskPtr → Cmd (Unit {0})
get_task_struct t null m = oops
get_task_struct t err_ptr m = oops
get_task_struct t thread m = count_ref t m

abbrev stop : Thrd → TaskPtr → Cmd (Unit {0})
stop t null m = oops
stop t err_ptr m = oops
stop t thread m = set_stopped t m

abbrev pub kthread_stop : Thrd → Cmd (Unit {0})
kthread_stop t m = stop t (arr_tsk t m) m

abbrev pub is_null : TaskPtr → Bool
is_null null = true
is_null _ = false

-- Both modules' `run_kthrd`, with what `kthread_run` returns.
abbrev pub run_kthrd : Thrd → TaskPtr → Cmd ℤ
run_kthrd t p = do
  store_task t p
  if is_null p then pure (negsuc 0) else (do get_task_struct t p; pure (pos 0))

abbrev pub is_negative : ℤ → Bool
is_negative (pos n) = false
is_negative (negsuc n) = true

-- Both modules' `set_cpuaffinity`, with what its calls give: is the caller root already, does
-- `prepare_creds` have memory, is user 0 of the namespace valid, and what `sched_setaffinity`
-- returns as a `long`.
pub record Affinity : Type 0 where
  pub root : Bool
  pub creds : Bool
  pub valid : Bool
  pub sched_setaffinity : ℤ

unfoldable pub set_cpuaffinity : Affinity → ℤ
set_cpuaffinity a =
    if a.root
    then a.sched_setaffinity
    else if not a.creds
    then enomem
    else if not a.valid
    then negsuc 0
    else a.sched_setaffinity
