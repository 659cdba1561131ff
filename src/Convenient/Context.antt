-- ===== src/Convenient/Context.antt =====
-- PRINT_CTX: the columns that it prints of the context it runs in.
use linux_kernel_programming.Base.{
  ℕ, ◌≤◌, ◌≡◌, refl, List, Bool, true, ◌&&◌, not, if◌then◌else◌, ◌==◌, arith,
}

-- What the kernel answers about the context
pub record Context : Type 0 where
  pub cpu : ℕ
  pub comm : List ℕ
  pub pid : ℕ
  pub mm : Bool
  pub in_task : Bool
  pub in_hardirq : Bool
  pub in_serving_softirq : Bool
  pub irqs_disabled : Bool
  pub need_resched : Bool
  pub preempt_count : ℕ

-- The arguments of `pr_debug`, the function's name left out
pub record Columns : Type 0 where
  pub cpu : ℕ
  pub before : ℕ
  pub comm : List ℕ
  pub behind : ℕ
  pub pid : ℕ
  pub irqs : ℕ
  pub resched : ℕ
  pub intr : ℕ
  pub depth : ℕ

abbrev pub intr_of : Context → ℕ
intr_of c =
    if not c.in_task
    then (if c.in_hardirq && c.in_serving_softirq
        then b'H'
        else if c.in_hardirq
        then b'h'
        else if c.in_serving_softirq
        then b's'
        else b'.')
    else b'.'

-- `preempt_count() && 0xff`, a truth value
abbrev pub depth_of : ℕ → ℕ
depth_of preempt_count = if preempt_count == 0 then 0 else 1

unfoldable pub print_ctx : Context → Columns
print_ctx c = record {
  cpu = c.cpu;
  before = if not c.mm then b'[' else b' ';
  comm = c.comm;
  behind = if not c.mm then b']' else b' ';
  pid = c.pid;
  irqs = if c.irqs_disabled then b'd' else b'.';
  resched = if c.need_resched then b'N' else b'.';
  intr = intr_of c;
  depth = depth_of c.preempt_count;
}

-- A depth of 2 or more is shown as 1.
depth-le : (c : Context) → (print_ctx c).depth ≤ 1
unfolding print_ctx
depth-le c = ground arith

-- In a task the column of interrupts is a dot, whatever else the kernel answers.
task_dot : (c : Context) → c.in_task ≡ true → (print_ctx c).intr ≡ b'.'
unfolding print_ctx
task_dot c task = rw task refl
