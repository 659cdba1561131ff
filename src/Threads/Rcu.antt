-- ===== src/Threads/Rcu.antt =====
-- thrd_showall_rcu.c (ch13/3_lockfree): the walk is one RCU read-side section, where
-- `rcu_dereference` only reads a pointer.
use linux_kernel_programming.Base.{ℕ, List}
use linux_kernel_programming.Base.Words.{ℤ, pos, add32}
use linux_kernel_programming.Threads.Defs.{
  Task, Process, title, inserted, removed, row, total_line, Cmd, pure, ◌>>=◌, ◌>>◌, pr_info,
  get_task_struct, put_task_struct, get_task_comm, rcu_read_lock, rcu_read_unlock,
  for_each_process_thread,
}
use linux_kernel_programming.Threads.Row.{begin_row, end_row}

unfoldable pub show_thread : ℕ → Process → Task → Cmd ℕ
show_thread total g t = do
  get_task_struct t
  buf ← begin_row g t
  tasknm ← get_task_comm t
  buf ← end_row g t tasknm buf
  pr_info (row buf)
  put_task_struct t
  pure (add32 total 1)

unfoldable pub showthrds_rcu : List Process → Cmd ℕ
showthrds_rcu tasks = do
  pr_info title
  rcu_read_lock
  total ← for_each_process_thread show_thread tasks 0
  rcu_read_unlock
  pure total

unfoldable pub thrd_showall_rcu_init : List Process → Cmd ℤ
thrd_showall_rcu_init tasks = do
  pr_info inserted
  total ← showthrds_rcu tasks
  pr_info (total_line total)
  pure (pos 0)

unfoldable pub thrd_showall_rcu_exit : Cmd (Unit {0})
thrd_showall_rcu_exit = pr_info removed
