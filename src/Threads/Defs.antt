-- ===== src/Threads/Defs.antt =====
-- Tasks as the modules read them, what the modules do to the kernel's state, and the loops over all
-- processes and threads. The list of tasks stands still while a module walks it; a task lock is
-- taken by nobody but the module.
use linux_kernel_programming.Base.{
  ℕ, suc, ◌+◌, ◌-◌, List, [], ◌∷◌, ◌++◌, Bool, true, false, if◌then◌else◌, ◌==◌, ltb, leb, min,
  length, take,
}
use linux_kernel_programming.Threads.Format.{Text}

-- A `struct task_struct` at `address`
pub record Task : Type 0 where
  pub address : ℕ
  pub pid : ℕ
  pub stack : ℕ
  pub comm : Text

-- A process: its main thread, where the walk over its threads begins, the others, and the fields
-- that are read through the main thread; `mm` tells whether it has a user address space.
pub record Process : Type 0 where
  pub leader : Task
  pub others : List Task
  pub tgid : ℕ
  pub mm : Bool
  pub nr_threads : ℕ
  pub uid : ℕ
  pub euid : ℕ

-- What is printed: the table's title, `inserted`, `removed`, a row, the total that init prints, and
-- the warning of `snprintf_lkp`.
pub data Line : Type 0 where
  title inserted removed overflow_warning : Line
  row : Text → Line
  total_line : ℕ → Line

-- By a task's address: is its `alloc_lock` held, and how many references to it there are; how deep
-- the RCU read-side section is nested; and what has been printed.
pub record World : Type 0 where
  pub held : ℕ → Bool
  pub refs : ℕ → ℕ
  pub rcu : ℕ
  pub log : List Line

-- A command ends, waits forever for a lock that its own thread holds, or writes past a buffer.
pub data Run (A : Type 0) : Type 0 where
  ended : A → World → Run A
  deadlock : Run A
  overrun : Run A

abbrev pub Cmd : Type 0 → Type 0
Cmd A = World → Run A

abbrev pub pure : {A : Type 0} → A → Cmd A
pure a w = ended a w

infixl 5 ◌>>=◌ ◌>>◌
abbrev pub ◌>>=◌ : {A B : Type 0} → Cmd A → (A → Cmd B) → Cmd B
◌>>=◌ c f w = elim (c w) [ ended a w' ↦ f a w' | deadlock ↦ deadlock | overrun ↦ overrun ]

abbrev pub ◌>>◌ : {B : Type 0} → Cmd (Unit {0}) → Cmd B → Cmd B
c >> d = c >>= λ _. d

unfoldable pub update : {A : Type 0} → ℕ → A → (ℕ → A) → ℕ → A
update a v f b = if b == a then v else f b

unfoldable pub pr_info : Line → Cmd (Unit {0})
pr_info line w = ended tt (record w { log = w.log ++ line ∷ [] })

unfoldable pub get_task_struct : Task → Cmd (Unit {0})
get_task_struct t w = ended tt (record w { refs = update t.address (w.refs t.address + 1) w.refs })

unfoldable pub put_task_struct : Task → Cmd (Unit {0})
put_task_struct t w = ended tt (record w { refs = update t.address (w.refs t.address - 1) w.refs })

unfoldable pub task_lock : Task → Cmd (Unit {0})
task_lock t w =
    if w.held t.address
    then deadlock
    else ended tt (record w { held = update t.address true w.held })

unfoldable pub task_unlock : Task → Cmd (Unit {0})
task_unlock t w = ended tt (record w { held = update t.address false w.held })

-- The kernel's function copies the name, at most 15 bytes of it, under the task's lock.
unfoldable pub get_task_comm : Task → Cmd Text
get_task_comm t = do task_lock t; task_unlock t; pure (take 15 t.comm)

unfoldable pub rcu_read_lock : Cmd (Unit {0})
rcu_read_lock w = ended tt (record w { rcu = suc w.rcu })

unfoldable pub rcu_read_unlock : Cmd (Unit {0})
rcu_read_unlock w = ended tt (record w { rcu = w.rcu - 1 })

-- `snprintf_lkp` with the text that its arguments format to: the string in the buffer
unfoldable pub snprintf_lkp : ℕ → Text → Cmd Text
snprintf_lkp maxsize text = do
  if leb maxsize (length text) then pr_info overflow_warning else pure tt
  pure (take (maxsize - 1) text)

-- `strncat(buf, tmp, n)` in a buffer of `cap` bytes; a NUL follows what is appended.
unfoldable pub strncat : ℕ → Text → Text → ℕ → Cmd Text
strncat cap buf tmp n w =
    if ltb (length buf + min n (length tmp)) cap then ended (buf ++ take n tmp) w else overrun

-- `do_each_thread`: `body` with each thread of each process, main thread first; `total` goes along.
unfoldable pub for_each_thread : (ℕ → Process → Task → Cmd ℕ) → Process → List Task → ℕ → Cmd ℕ
for_each_thread body g [] total = pure total
for_each_thread body g (t ∷ ts) total = do total' ← body total g t; for_each_thread body g ts total'

unfoldable pub for_each_process_thread : (ℕ → Process → Task → Cmd ℕ) → List Process → ℕ → Cmd ℕ
for_each_process_thread body [] total = pure total
for_each_process_thread body (g ∷ gs) total = do
  total' ← for_each_thread body g (g.leader ∷ g.others) total
  for_each_process_thread body gs total'
