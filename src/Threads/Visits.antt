-- ===== src/Threads/Visits.antt =====
-- One round of each of the loops: what it prints, and that locks and references are given back.
use mathlib.Core.Path.{fun_ext}
use linux_kernel_programming.Base.{
  ℕ, ◌+◌, ◌-◌, ◌≤◌, ◌≡◌, refl, [], ◌∷◌, ◌++◌, Bool, true, false, length, take, arith, ==_refl,
  ==-eq-false, take_all, sym, ℕ_discrete,
}
use linux_kernel_programming.Base.Words.{add32}
use linux_kernel_programming.Threads.Format.{Text}
use linux_kernel_programming.Threads.Defs.{
  Task, Process, row, ended, deadlock, ◌>>=◌, World, update, pr_info, get_task_struct,
  put_task_struct, task_lock, task_unlock, get_task_comm,
}
use linux_kernel_programming.Threads.Fits.{row_text, begin_row-fits, end_row-fits}
use linux_kernel_programming.Threads.Buggy
use linux_kernel_programming.Threads.Fixed
use linux_kernel_programming.Threads.Rcu

update_same : {A : Type 0} (a : ℕ) (v : A) (f : ℕ → A) → update a v f a ≡ v
unfolding update
update_same a v f = rw (==_refl a) refl

-- What stood at `a` before is forgotten; nothing changes when it is what is stored.
update_back : {A : Type 0} (a : ℕ) (u v : A) (f : ℕ → A) → f a ≡ v → update a v (update a u f) ≡ f
unfolding update
update_back a u v f e = fun_ext (λ b. elim (ℕ_discrete b a) [
  | yes same ↦ rw (same, ==_refl a) (sym e)
  | no other ↦ rw (==-eq-false b a other) refl
])

pub give_lock_back : (a : ℕ) (f : ℕ → Bool) → f a ≡ false → update a false (update a true f) ≡ f
give_lock_back a f free = update_back a true false f free

pub give_ref_back :
    (a : ℕ) (f : ℕ → ℕ) → update a (update a (f a + 1) f a - 1) (update a (f a + 1) f) ≡ f
give_ref_back a f =
    let before : f a ≡ update a (f a + 1) f a - 1 = rw (update_same a (f a + 1) f) (omega arith) in
    update_back a (f a + 1) (update a (f a + 1) f a - 1) f before

pub get_task_comm_free :
    (t : Task) (w : World) → w.held t.address ≡ false → get_task_comm t w ≡ ended (take 15 t.comm) w
unfolding get_task_comm task_lock task_unlock
get_task_comm_free t w free = rw (free, give_lock_back t.address w.held free, ◌>>=◌) refl

pub get_task_comm_held :
    (t : Task) (w : World) → w.held t.address ≡ true → get_task_comm t w ≡ deadlock
unfolding get_task_comm task_lock
get_task_comm_held t w locked = rw (locked, ◌>>=◌) refl

-- A line more in the log, and nothing else
abbrev pub after_row : Text → World → World
after_row text w = record w { log = w.log ++ row text ∷ [] }

abbrev pub thread_text : Process → Task → Text
thread_text g t = row_text g t t.comm

pub buggy_show_thread_lem :
    (total : ℕ) (g : Process) (t : Task) (w : World)
    → w.held t.address ≡ false
    → Buggy.show_thread total g t w ≡ deadlock
unfolding Buggy.show_thread get_task_struct task_lock
buggy_show_thread_lem total g t w free =
    let locked : World = record w {
      held = update t.address true w.held;
      refs = update t.address (w.refs t.address + 1) w.refs;
    } in
    rw
      (
        free,
        begin_row-fits g t locked,
        get_task_comm_held t locked (update_same t.address true w.held),
        ◌>>=◌,
      )
      refl

pub rcu_show_thread_lem :
    (total : ℕ) (g : Process) (t : Task) (w : World)
    → length t.comm ≤ 15
    → w.held t.address ≡ false
    → Rcu.show_thread total g t w ≡ ended (add32 total 1) (after_row (thread_text g t) w)
unfolding Rcu.show_thread get_task_struct put_task_struct pr_info
rcu_show_thread_lem total g t w short free =
    let counted : World = record w { refs = update t.address (w.refs t.address + 1) w.refs } in
    rw
      (
        begin_row-fits g t counted,
        get_task_comm_free t counted free,
        take_all 15 t.comm short,
        end_row-fits g t t.comm counted short,
        give_ref_back t.address w.refs,
        ◌>>=◌,
      )
      refl

pub fixed_show_thread_lem :
    (total : ℕ) (g : Process) (t : Task) (w : World)
    → length t.comm ≤ 15
    → w.held t.address ≡ false
    → Fixed.show_thread total g t w ≡ ended (add32 total 1) (after_row (thread_text g t) w)
unfolding Fixed.show_thread get_task_struct put_task_struct pr_info task_lock task_unlock
fixed_show_thread_lem total g t w short free =
    let counted : World = record w { refs = update t.address (w.refs t.address + 1) w.refs } in
    let locked : World = record counted { held = update t.address true w.held } in
    rw
      (
        free,
        begin_row-fits g t locked,
        give_lock_back t.address w.held free,
        get_task_comm_free t counted free,
        free,
        take_all 15 t.comm short,
        end_row-fits g t t.comm locked short,
        give_lock_back t.address w.held free,
        give_ref_back t.address w.refs,
        ◌>>=◌,
      )
      refl
