-- ===== src/Threads/Fixed.antt =====
-- thrd_showall_fixed.c (ch13/4_lockdep): the lock is given back around the call that takes it. Its
-- functions are still named `buggy`.
use linux_kernel_programming.Base.{ℕ, List}
use linux_kernel_programming.Base.Words.{ℤ, pos, add32}
use linux_kernel_programming.Threads.Defs.{
  Task, Process, title, inserted, removed, row, total_line, Cmd, pure, ◌>>=◌, ◌>>◌, pr_info,
  get_task_struct, put_task_struct, task_lock, task_unlock, get_task_comm, for_each_process_thread,
}
use linux_kernel_programming.Threads.Row.{begin_row, end_row}

unfoldable pub show_thread : ℕ → Process → Task → Cmd ℕ
show_thread total g t = do
  get_task_struct t
  task_lock t
  buf ← begin_row g t
  task_unlock t
  tasknm ← get_task_comm t
  task_lock t
  buf ← end_row g t tasknm buf
  pr_info (row buf)
  task_unlock t
  put_task_struct t
  pure (add32 total 1)

unfoldable pub showthrds_buggy : List Process → Cmd ℕ
showthrds_buggy tasks = do pr_info title; for_each_process_thread show_thread tasks 0

unfoldable pub thrd_showall_buggy_init : List Process → Cmd ℤ
thrd_showall_buggy_init tasks = do
  pr_info inserted
  total ← showthrds_buggy tasks
  pr_info (total_line total)
  pure (pos 0)

unfoldable pub thrd_showall_buggy_exit : Cmd (Unit {0})
thrd_showall_buggy_exit = pr_info removed
