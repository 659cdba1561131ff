-- ===== src/Rdwr/Code.antt =====
-- Code that runs in parallel with other code on one `struct global_data`. A load or a store of one
-- field is a step of its own, and the steps of all threads are interleaved in any order; that the
-- compiler or the processor reorders a thread's own accesses is left out.
use linux_kernel_programming.Base.{
  ℕ, ◌≡◌, ◌≢◌, List, [], ◌∷◌, ◌++◌, Option, none, some, ◌==◌, if◌then◌else◌, Bool, true, false,
}
use linux_kernel_programming.Base.Words.{ℤ, pos, negsuc}
use linux_kernel_programming.Kernel.{enomem}

-- `struct global_data`, less its lock; a `long` is its 64-bit pattern.
pub record GlobalData : Type 0 where
  pub gps_lock : ℕ
  pub lat : ℕ
  pub longit : ℕ
  pub alt : ℕ
  pub issue_in_l6 : ℕ

-- The locals of `reader` at its end: `stat`, and `x`, `y`, `z` if they were set.
pub record Seen : Type 0 where
  pub stat : ℕ
  pub place : Option (ℕ × ℕ × ℕ)

-- What is left to do of a method. The last two are its `return count`: a read with what `reader`
-- saw and what SHOW_DATA printed.
pub data Code : Type 0 where
  read_lock read_unlock write_lock write_unlock : Code → Code
  load : (GlobalData → ℕ) → (ℕ → Code) → Code
  store : (GlobalData → GlobalData) → Code → Code
  return_read : (count : ℕ) → Seen → List ℕ → Code
  return_write : (count : ℕ) → Code

-- SHOW_DATA, with the fields still to be printed.
unfoldable pub show_data : ℕ → Seen → List (GlobalData → ℕ) → List ℕ → Code
show_data count seen [] shown = return_read count seen shown
show_data count seen (f ∷ fs) shown = load f (λ v. show_data count seen fs (shown ++ v ∷ []))

abbrev pub fields : List (GlobalData → ℕ)
fields =
    (λ g. g.gps_lock) ∷ (λ g. g.lat) ∷ (λ g. g.longit) ∷ (λ g. g.alt) ∷ (λ g. g.issue_in_l6) ∷ []

-- How a thread holds the read-write lock.
pub data Hold : Type 0 where
  unheld reading writing : Hold

-- Any number of threads: each has a number, its code and its hold on the lock.
pub record Sys : Type 0 where
  pub gd : GlobalData
  pub holds : ℕ → Hold
  pub threads : ℕ → Code

abbrev pub set : {A : Type 0} → (ℕ → A) → ℕ → A → ℕ → A
set f i v j = if j == i then v else f j

-- A read-write lock is given to a reader while nobody writes, to a writer while nobody holds it.
abbrev pub Enabled : Sys → Code → Type 0
Enabled s (read_lock k) = (j : ℕ) → s.holds j ≢ writing
Enabled s (write_lock k) = (j : ℕ) → s.holds j ≡ unheld
Enabled s (return_read count seen shown) = ⊥
Enabled s (return_write count) = ⊥
Enabled s _ = Unit {0}

-- The state after the next step of thread `i`, whose code is given.
unfoldable pub after : ℕ → Code → Sys → Sys
after i (read_lock k) s = record s { holds = set s.holds i reading; threads = set s.threads i k }
after i (write_lock k) s = record s { holds = set s.holds i writing; threads = set s.threads i k }
after i (read_unlock k) s = record s { holds = set s.holds i unheld; threads = set s.threads i k }
after i (write_unlock k) s = record s { holds = set s.holds i unheld; threads = set s.threads i k }
after i (load f k) s = record s { threads = set s.threads i (k (f s.gd)) }
after i (store f k) s = record s { gd = f s.gd; threads = set s.threads i k }
after i (return_read count seen shown) s = s
after i (return_write count) s = s

pub data Reach (s : Sys) : Sys → Type 0 where
  here : Reach s s
  step :
      {u : Sys} → Reach s u → (i : ℕ) → Enabled u (u.threads i) → Reach s (after i (u.threads i) u)

-- A call of the read or of the write method.
pub data Call : Type 0 where
  reads writes : (count : ℕ) → Call

abbrev pub start : GlobalData → (ℕ → Code) → Sys
start g threads = record { gd = g; holds = λ i. unheld; threads = threads }

-- What a method's thread has seen when it has returned.
abbrev pub saw : Code → Option Seen
saw (return_read count seen shown) = some seen
saw _ = none

-- What an init leaves: its result, `gd`, and whether the device is registered.
pub record Loaded : Type 0 where
  pub ret : ℤ
  pub gd : Option GlobalData
  pub registered : Bool

-- Both modules' init: `reg` is what `misc_register` returns, and `mem` says whether there is memory.
abbrev pub register_and_alloc : ℤ → Bool → Loaded
register_and_alloc (negsuc e) mem = record { ret = negsuc e; gd = none; registered = false }
register_and_alloc (pos r) false = record { ret = enomem; gd = none; registered = true }
register_and_alloc (pos r) true = record {
  ret = pos 0;
  gd = some (record { gps_lock = 1; lat = 0; longit = 0; alt = 0; issue_in_l6 = 0 });
  registered = true;
}
