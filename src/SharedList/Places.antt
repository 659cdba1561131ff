-- ===== src/SharedList/Places.antt =====
-- The places in the methods' code, what a thread knows at each, and the invariant.
use linux_kernel_programming.Base.{
  ℕ, ◌≡◌, ◌≢◌, List, [], ◌∷◌, ◌++◌, map, Option, none, some, Bool, true, false, if◌then◌else◌,
}
use linux_kernel_programming.ListDemo.{Node, Memory}
use linux_kernel_programming.SharedList.Code.{
  Code, Sys, Call, entry, read_lock, read_unlock, write_lock, write_unlock, rcu_read_lock,
  rcu_read_unlock, spin_lock, spin_unlock, if_empty, walk, kzalloc, add_begin, add_end, returned,
}
use linux_kernel_programming.SharedList.RwLock
use linux_kernel_programming.SharedList.Rcu

-- Which of the two drivers.
pub data Sync : Type 0 where
  by_rwlock by_rcu : Sync

abbrev pub method : Sync → Call → Code
method by_rwlock = RwLock.method
method by_rcu = Rcu.method

abbrev pub enter : Sync → Code → Code
enter by_rwlock = read_lock
enter by_rcu = rcu_read_lock

abbrev pub leave : Sync → Code → Code
leave by_rwlock = read_unlock
leave by_rcu = rcu_read_unlock

abbrev pub lock : Sync → Code → Code
lock by_rwlock = write_lock
lock by_rcu = spin_lock

abbrev pub unlock : Sync → Code → Code
unlock by_rwlock = write_unlock
unlock by_rcu = spin_unlock

-- In the read method, with the rows walked; in the write method, with the nodes still to be added.
pub data Pos : Type 0 where
  r_empty r_lock : Pos
  r_walk r_unlock r_done : List Node → Pos
  w_alloc : List Node → Pos
  w_lock w_begin w_end : ℕ → List Node → Pos
  w_unlock : List Node → Pos

module _ (s : Sync) (count : ℕ) where
  abbrev pub linking : Code → Option ℕ → Code
  linking rest none = rest
  linking rest (some p) = lock s (add_begin p (add_end p (unlock s rest)))

  unfoldable pub adds : List Node → Code
  adds [] = returned count []
  adds (n ∷ ns) = let rest = adds ns in kzalloc n (λ p. linking rest p)

  abbrev pub walked : List Node → Code
  walked rows = leave s (returned count rows)

  abbrev pub code_of : Pos → Code
  code_of r_empty = if_empty (λ e. if e then returned count [] else enter s (walk [] walked))
  code_of r_lock = enter s (walk [] walked)
  code_of (r_walk rows) = walk rows walked
  code_of (r_unlock rows) = walked rows
  code_of (r_done rows) = returned count rows
  code_of (w_alloc todo) = adds todo
  code_of (w_lock p todo) = linking (adds todo) (some p)
  code_of (w_begin p todo) = add_begin p (add_end p (unlock s (adds todo)))
  code_of (w_end p todo) = add_end p (unlock s (adds todo))
  code_of (w_unlock todo) = unlock s (adds todo)

-- The rows it has, the node it is to add, and whether it holds the writers' lock and reads: no more
-- and no fewer locks than these.
pub record View : Type 0 where
  pub rows : Option (List Node)
  pub own : Option ℕ
  pub writing : Bool
  pub reading : Bool

abbrev pub view : Pos → View
view (r_walk rows) = record { rows = some rows; own = none; writing = false; reading = true }
view (r_unlock rows) = record { rows = some rows; own = none; writing = false; reading = true }
view (r_done rows) = record { rows = some rows; own = none; writing = false; reading = false }
view (w_lock p todo) = record { rows = none; own = some p; writing = false; reading = false }
view (w_begin p todo) = record { rows = none; own = some p; writing = true; reading = false }
view (w_end p todo) = record { rows = none; own = some p; writing = true; reading = false }
view (w_unlock todo) = record { rows = none; own = none; writing = true; reading = false }
view _ = record { rows = none; own = none; writing = false; reading = false }

-- The rows are those of the first entries of the list.
abbrev pub Begins : Memory → List ℕ → List Node → Type 0
Begins mem head rows = (rest : List (Option Node)) × (map mem head ≡ map some rows ++ rest)

abbrev pub Rows : Memory → List ℕ → Option (List Node) → Type 0
Rows mem head none = Unit {0}
Rows mem head (some rows) = Begins mem head rows

abbrev pub Own : Memory → Option ℕ → Type 0
Own mem none = Unit {0}
Own mem (some p) = mem p ≢ none

abbrev pub Writing : Option ℕ → ℕ → Bool → Type 0
Writing writer j false = writer ≢ some j
Writing writer j true = writer ≡ some j

abbrev pub Reading : Sync → (ℕ → Bool) → ℕ → Bool → Type 0
Reading by_rwlock readers j b = readers j ≡ b
Reading by_rcu readers j b = Unit {0}

abbrev pub Knows : Sync → Sys → ℕ → View → Type 0
Knows s u j v =
    Rows u.nodes u.head_node v.rows
    × Own u.nodes v.own
    × Writing u.writer j v.writing
    × Reading s u.readers j v.reading

-- Under the read-write lock nobody reads while one writes.
abbrev pub Apart : Sync → Option ℕ → (ℕ → Bool) → Type 0
Apart by_rwlock writer readers = (i j : ℕ) → writer ≡ some i → readers j ≡ false
Apart by_rcu writer readers = Unit {0}

pub record Inv (s : Sync) (counts : ℕ → ℕ) (p : ℕ → Pos) (u : Sys) : Type 0 where
  pub codes : (j : ℕ) → u.threads j ≡ code_of s (counts j) (p j)
  pub knows : (j : ℕ) → Knows s u j (view (p j))
  pub linked : (n q : ℕ) → entry n u.head_node ≡ some q → u.nodes q ≢ none
  pub apart : Apart s u.writer u.readers
