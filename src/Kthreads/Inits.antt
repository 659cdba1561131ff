-- ===== src/Kthreads/Inits.antt =====
-- Init and exit of the two modules, with what `kthread_run` returns for either thread.
use linux_kernel_programming.Base.{ℕ, ◌==◌, Bool, false, if◌then◌else◌}
use linux_kernel_programming.Base.Words.{ℤ, pos, negsuc}
use linux_kernel_programming.Kernel.{enomem}
use linux_kernel_programming.Kthreads.Defs.{
  TaskPtr, ended, Cmd, pure, ◌>>=◌, ◌>>◌, thrd_0, thrd_1, kthread_stop, run_kthrd, is_negative,
}

abbrev pub enosys : ℤ
enosys = negsuc 37

abbrev set_pcp_ctx : Bool → Cmd (Unit {0})
set_pcp_ctx live m = ended tt (record m { pcp_ctx = live })

abbrev free_percpu : Cmd (Unit {0})
free_percpu = set_pcp_ctx false

-- From `alloc_percpu` on
abbrev pub spawn_both : TaskPtr → TaskPtr → Cmd ℤ
spawn_both p0 p1 = do
  r0 ← run_kthrd thrd_0 p0
  if is_negative r0 then (do free_percpu; pure enomem) else (do
    r1 ← run_kthrd thrd_1 p1
    if is_negative r1 then (do kthread_stop thrd_0; free_percpu; pure enomem) else pure (pos 0))

-- `mem` says whether `alloc_percpu` has memory.
unfoldable pub init_percpu_var : (func_ptr : ℕ) (mem : Bool) → TaskPtr → TaskPtr → Cmd ℤ
init_percpu_var func_ptr mem p0 p1 =
    if func_ptr == 0
    then pure enosys
    else do set_pcp_ctx mem; if mem then spawn_both p0 p1 else pure enomem

unfoldable pub exit_percpu_var : Cmd (Unit {0})
exit_percpu_var = do kthread_stop thrd_0; kthread_stop thrd_1; free_percpu

unfoldable pub deadlock_eg_ab_ba_init : (func_ptr : ℕ) → TaskPtr → TaskPtr → Cmd ℤ
deadlock_eg_ab_ba_init func_ptr p0 p1 = if func_ptr == 0 then pure enosys else do
  r0 ← run_kthrd thrd_0 p0
  if is_negative r0 then pure enomem else (do
    r1 ← run_kthrd thrd_1 p1
    if is_negative r1 then (do kthread_stop thrd_0; pure enomem) else pure (pos 0))

unfoldable pub deadlock_eg_ab_ba_exit : Cmd (Unit {0})
deadlock_eg_ab_ba_exit = do kthread_stop thrd_0; kthread_stop thrd_1
