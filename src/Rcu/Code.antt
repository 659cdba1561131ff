-- ===== src/Rcu/Code.antt =====
-- Code that runs in parallel with other code under RCU: objects in memory, the pointer that readers
-- and writers share, read-side critical sections and grace periods. Each thread's steps are taken in
-- the order of its program; the publication of a pointer orders the writer's stores before it.
use linux_kernel_programming.Base.{
  ℕ, ◌≡◌, ◌≢◌, List, [], ◌∷◌, Option, none, some, Bool, true, false,
}
use linux_kernel_programming.Rdwr.{GlobalData, Seen, set}

-- What is left to do of a method. `load_outside` is a load through `gdata` that is in no read-side
-- section; `synchronize` and `await` are the beginning and the end of `synchronize_rcu`.
pub data Code : Type 0 where
  rcu_read_lock rcu_read_unlock : Code → Code
  dereference : (ℕ → Code) → Code
  load : ℕ → (GlobalData → ℕ) → (ℕ → Code) → Code
  load_outside : ℕ → (GlobalData → ℕ) → (ℕ → Code) → Code
  spin_lock spin_unlock : Code → Code
  kzalloc : (Option ℕ → Code) → Code
  copy : (gd gd_new : ℕ) → Code → Code
  store : ℕ → (GlobalData → GlobalData) → Code → Code
  assign_pointer : ℕ → Code → Code
  synchronize await : Code → Code
  kfree : ℕ → Code → Code
  return_read : (count : ℕ) → Seen → List ℕ → Code
  return_write : (count : ℕ) → Code

-- The memory of the objects, where a freed one is gone; `gdata`; who holds `gdata_lock`; which
-- threads are in a read-side section; and for which readers a thread's grace period still waits.
pub record Sys : Type 0 where
  pub mem : ℕ → Option GlobalData
  pub gdata : ℕ
  pub gdata_lock : Option ℕ
  pub in_section : ℕ → Bool
  pub waits : ℕ → ℕ → Bool
  pub threads : ℕ → Code

abbrev pub zeroed : GlobalData
zeroed = record { gps_lock = 0; lat = 0; longit = 0; alt = 0; issue_in_l6 = 0 }

-- May thread `i` take its next step? `given` is what `kzalloc` returns, if that is the step.
abbrev pub Enabled : Sys → ℕ → Option ℕ → Code → Type 0
Enabled s i given (spin_lock k) = s.gdata_lock ≡ none
Enabled s i (some a) (kzalloc k) = s.mem a ≡ none
Enabled s i given (await k) = (j : ℕ) → s.waits i j ≡ false
Enabled s i given (return_read count seen shown) = ⊥
Enabled s i given (return_write count) = ⊥
Enabled s i given _ = Unit {0}

abbrev pub go_on : ℕ → Code → Sys → Sys
go_on i k s = record s { threads = set s.threads i k }

abbrev pub load_then : ℕ → Option GlobalData → (GlobalData → ℕ) → (ℕ → Code) → Sys → Sys
load_then i none f k s = s
load_then i (some o) f k s = go_on i (k (f o)) s

abbrev pub store_then : ℕ → ℕ → Option GlobalData → (GlobalData → GlobalData) → Code → Sys → Sys
store_then i p none f k s = s
store_then i p (some o) f k s = go_on i k (record s { mem = set s.mem p (some (f o)) })

abbrev pub copy_then : ℕ → ℕ → Option GlobalData → Code → Sys → Sys
copy_then i gd_new none k s = s
copy_then i gd_new (some o) k s = store_then i gd_new (s.mem gd_new) (λ _. o) k s

abbrev pub alloc_then : ℕ → Option ℕ → (Option ℕ → Code) → Sys → Sys
alloc_then i none k s = go_on i (k none) s
alloc_then i (some a) k s = go_on i (k (some a)) (record s { mem = set s.mem a (some zeroed) })

-- No grace period waits for thread `j` any more.
abbrev pub quiet : ℕ → (ℕ → ℕ → Bool) → ℕ → ℕ → Bool
quiet j w i = set (w i) j false

-- The state after the next step of thread `i`, whose code is given. A step through an object that is
-- gone does nothing: the thread has gone wrong.
unfoldable pub after : ℕ → Option ℕ → Code → Sys → Sys
after i given (rcu_read_lock k) s = go_on i k (record s { in_section = set s.in_section i true })
after i given (rcu_read_unlock k) s =
    go_on i k (record s { in_section = set s.in_section i false; waits = quiet i s.waits })
after i given (dereference k) s = go_on i (k s.gdata) s
after i given (load p f k) s = load_then i (s.mem p) f k s
after i given (load_outside p f k) s = load_then i (s.mem p) f k s
after i given (spin_lock k) s = go_on i k (record s { gdata_lock = some i })
after i given (spin_unlock k) s = go_on i k (record s { gdata_lock = none })
after i given (kzalloc k) s = alloc_then i given k s
after i given (copy gd gd_new k) s = copy_then i gd_new (s.mem gd) k s
after i given (store p f k) s = store_then i p (s.mem p) f k s
after i given (assign_pointer p k) s = go_on i k (record s { gdata = p })
after i given (synchronize k) s = go_on i k (record s { waits = set s.waits i s.in_section })
after i given (await k) s = go_on i k s
after i given (kfree p k) s = go_on i k (record s { mem = set s.mem p none })
after i given (return_read count seen shown) s = s
after i given (return_write count) s = s

pub data Reach (s : Sys) : Sys → Type 0 where
  here : Reach s s
  step :
      {u : Sys}
      → Reach s u
      → (i : ℕ) (given : Option ℕ) → Enabled u i given (u.threads i)
      → Reach s (after i given (u.threads i) u)

-- The objects that the next step touches, other than by `load_outside`.
abbrev pub touched : Code → List ℕ
touched (load p f k) = p ∷ []
touched (copy gd gd_new k) = gd ∷ gd_new ∷ []
touched (store p f k) = p ∷ []
touched (kfree p k) = p ∷ []
touched _ = []

abbrev pub AllLive : (ℕ → Option GlobalData) → List ℕ → Type 0
AllLive mem [] = Unit {0}
AllLive mem (p ∷ ps) = (mem p ≢ none) × AllLive mem ps

-- What a method's thread has seen when it has returned.
abbrev pub saw : Code → Option Seen
saw (return_read count seen shown) = some seen
saw _ = none

-- The state after init: one object, at `a`, and no thread in a section.
abbrev pub start : ℕ → GlobalData → (ℕ → Code) → Sys
start a g threads = record {
  mem = set (λ p. none) a (some g);
  gdata = a;
  gdata_lock = none;
  in_section = λ i. false;
  waits = λ i j. false;
  threads = threads;
}
