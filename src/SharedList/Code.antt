-- ===== src/SharedList/Code.antt =====
-- Code that runs in parallel with other code on one list. The list is the sequence of its entries'
-- addresses, as in the list demo; entries are only added, at the end, so the place of an entry in
-- the sequence stands for a pointer to it. The stores into a node that no one else can see yet are
-- one step with its allocation, and each round of a walk is a step.
use linux_kernel_programming.Base.{
  ℕ, zero, suc, ◌≡◌, List, [], ◌∷◌, ◌++◌, Option, none, some, Bool, true, false, length,
}
use linux_kernel_programming.ListDemo.{Node, Memory, write, list_empty}
use linux_kernel_programming.Rdwr.{set}

-- What is left to do of a method. `add_begin` and `add_end` are the beginning and the end of
-- `list_add_tail` and of `list_add_tail_rcu`; `returned` is `return count`, with the rows that were
-- printed.
pub data Code : Type 0 where
  read_lock read_unlock write_lock write_unlock : Code → Code
  rcu_read_lock rcu_read_unlock spin_lock spin_unlock : Code → Code
  if_empty : (Bool → Code) → Code
  walk : List Node → (List Node → Code) → Code
  kzalloc : Node → (Option ℕ → Code) → Code
  add_begin add_end : ℕ → Code → Code
  returned : (count : ℕ) → List Node → Code

-- The nodes, the list, the writer that holds the lock, the readers that hold it, and the threads. A
-- section of RCU has no effect here, since nothing is freed while the driver is in use.
pub record Sys : Type 0 where
  pub nodes : Memory
  pub head_node : List ℕ
  pub writer : Option ℕ
  pub readers : ℕ → Bool
  pub threads : ℕ → Code

abbrev pub entry {ℓ} : {A : Type ℓ} → ℕ → List A → Option A
entry n [] = none
entry zero (p ∷ ps) = some p
entry (suc n) (p ∷ ps) = entry n ps

-- May a thread take its next step? `given` is what `kzalloc` returns, if that is the step.
abbrev pub Enabled : Sys → Option ℕ → Code → Type 0
Enabled s given (read_lock k) = s.writer ≡ none
Enabled s given (write_lock k) = (s.writer ≡ none) × ((j : ℕ) → s.readers j ≡ false)
Enabled s given (spin_lock k) = s.writer ≡ none
Enabled s (some a) (kzalloc n k) = s.nodes a ≡ none
Enabled s given (returned count rows) = ⊥
Enabled s given _ = Unit {0}

abbrev pub go_on : ℕ → Code → Sys → Sys
go_on i k s = record s { threads = set s.threads i k }

abbrev pub alloc_then : ℕ → Option ℕ → Node → (Option ℕ → Code) → Sys → Sys
alloc_then i none n k s = go_on i (k none) s
alloc_then i (some a) n k s = go_on i (k (some a)) (record s { nodes = write s.nodes a (some n) })

-- A row of the walk, or its end. A node that is not there is not read: the thread has gone wrong.
abbrev pub row_then : ℕ → Option Node → List Node → (List Node → Code) → Sys → Sys
row_then i none rows k s = s
row_then i (some n) rows k s = go_on i (walk (rows ++ n ∷ []) k) s

abbrev pub walk_then : ℕ → Option ℕ → List Node → (List Node → Code) → Sys → Sys
walk_then i none rows k s = go_on i (k rows) s
walk_then i (some p) rows k s = row_then i (s.nodes p) rows k s

-- The state after the next step of thread `i`, whose code is given.
unfoldable pub after : ℕ → Option ℕ → Code → Sys → Sys
after i given (read_lock k) s = go_on i k (record s { readers = set s.readers i true })
after i given (read_unlock k) s = go_on i k (record s { readers = set s.readers i false })
after i given (write_lock k) s = go_on i k (record s { writer = some i })
after i given (write_unlock k) s = go_on i k (record s { writer = none })
after i given (rcu_read_lock k) s = go_on i k s
after i given (rcu_read_unlock k) s = go_on i k s
after i given (spin_lock k) s = go_on i k (record s { writer = some i })
after i given (spin_unlock k) s = go_on i k (record s { writer = none })
after i given (if_empty k) s = go_on i (k (list_empty s.head_node)) s
after i given (walk rows k) s = walk_then i (entry (length rows) s.head_node) rows k s
after i given (kzalloc n k) s = alloc_then i given n k s
after i given (add_begin p k) s = go_on i k s
after i given (add_end p k) s = go_on i k (record s { head_node = s.head_node ++ p ∷ [] })
after i given (returned count rows) s = s

pub data Reach (s : Sys) : Sys → Type 0 where
  here : Reach s s
  step :
      {u : Sys}
      → Reach s u
      → (i : ℕ) (given : Option ℕ) → Enabled u given (u.threads i)
      → Reach s (after i given (u.threads i) u)

-- A call of the read or of the write method; the latter reads `jiffies`, which gives the values of
-- the third node.
pub data Call : Type 0 where
  reads : (count : ℕ) → Call
  writes : (count now later : ℕ) → Call

-- The state after init, with an empty list.
abbrev pub start : (ℕ → Code) → Sys
start threads = record {
  nodes = λ p. none;
  head_node = [];
  writer = none;
  readers = λ i. false;
  threads = threads;
}
