-- ===== src/Threads/Showall.antt =====
-- thrd_showall.c and prcs_showall.c (ch6/foreach).
use linux_kernel_programming.Base.{ℕ, List, [], ◌∷◌, ◌++◌, if◌then◌else◌}
use linux_kernel_programming.Base.Words.{ℤ, pos, add32}
use linux_kernel_programming.Threads.Format.{
  Text, space, newline, decimal, pad_left, pad_right, pointer,
}
use linux_kernel_programming.Threads.Defs.{
  Task, Process, title, inserted, removed, row, total_line, Cmd, pure, ◌>>=◌, ◌>>◌, pr_info,
  get_task_struct, put_task_struct, task_lock, task_unlock, rcu_read_lock, rcu_read_unlock,
  snprintf_lkp, for_each_process_thread,
}
use linux_kernel_programming.Threads.Row.{name_text, count_text, is_main_of_many}

-- "%8d %8d  0x%px 0x%px"
abbrev pub fields_text : ℕ → Task → Text
fields_text tgid t =
    pad_left 8 (decimal tgid)
    ++ space ∷ []
    ++ pad_left 8 (decimal t.pid)
    ++ space ∷ space ∷ []
    ++ pointer t.address
    ++ space ∷ []
    ++ pointer t.stack

-- The row of `init_task`
abbrev pub idle_text : Task → Text
idle_text t = fields_text t.pid t ++ space ∷ 91 ∷ pad_left 16 t.comm ++ 93 ∷ newline ∷ []

unfoldable pub disp_idle_thread : Task → Cmd (Unit {0})
disp_idle_thread init_task = pr_info (row (idle_text init_task))

-- The pieces tmp1, tmp2 and tmp3 of 128 bytes are printed behind one another.
unfoldable pub show_thread : ℕ → Process → Task → Cmd ℕ
show_thread total p t = do
  get_task_struct t
  task_lock t
  tmp1 ← snprintf_lkp 127 (fields_text p.tgid t)
  tmp2 ← snprintf_lkp 127 (name_text p t.comm)
  tmp3 ← if is_main_of_many p t then snprintf_lkp 127 (count_text p) else pure []
  pr_info (row (tmp1 ++ tmp2 ++ tmp3 ++ newline ∷ []))
  task_unlock t
  put_task_struct t
  pure (add32 total 1)

unfoldable pub showthrds : Task → List Process → Cmd ℕ
showthrds init_task tasks = do
  pr_info title
  disp_idle_thread init_task
  for_each_process_thread show_thread tasks 1

unfoldable pub thrd_showall_init : Task → List Process → Cmd ℤ
thrd_showall_init init_task tasks = do
  pr_info inserted
  total ← showthrds init_task tasks
  pr_info (total_line total)
  pure (pos 0)

unfoldable pub thrd_showall_exit : Cmd (Unit {0})
thrd_showall_exit = pr_info removed

-- "%-16s|%8d|%8d|%7u|%7u\n" of a process
abbrev pub process_text : Process → Text
process_text p =
    pad_right 16 p.leader.comm
    ++ 124 ∷ pad_left 8 (decimal p.tgid)
    ++ 124 ∷ pad_left 8 (decimal p.leader.pid)
    ++ 124 ∷ pad_left 7 (decimal p.uid)
    ++ 124 ∷ pad_left 7 (decimal p.euid)
    ++ newline ∷ []

unfoldable pub show_process : ℕ → Process → Cmd ℕ
show_process total p = do
  get_task_struct p.leader
  tmp ← snprintf_lkp 128 (process_text p)
  put_task_struct p.leader
  pr_info (row tmp)
  pure (add32 total 1)

-- `for_each_process`; `numread`, a sum that nothing reads, is left out.
unfoldable pub for_each_process : List Process → ℕ → Cmd ℕ
for_each_process [] total = pure total
for_each_process (p ∷ ps) total = do total' ← show_process total p; for_each_process ps total'

unfoldable pub show_prcs_in_tasklist : List Process → Cmd ℕ
show_prcs_in_tasklist tasks = do
  pr_info title
  rcu_read_lock
  total ← for_each_process tasks 0
  rcu_read_unlock
  pure total

unfoldable pub prcs_showall_init : List Process → Cmd ℤ
prcs_showall_init tasks = do
  pr_info inserted
  total ← show_prcs_in_tasklist tasks
  pr_info (total_line total)
  pure (pos 0)

unfoldable pub prcs_showall_exit : Cmd (Unit {0})
prcs_showall_exit = pr_info removed
