-- ===== src/Threads/Lists.antt =====
-- What the three versions in ch13 do from their init on.
use mathlib.Core.List.{append_assoc}
use linux_kernel_programming.Base.{
  ℕ, suc, arith, ◌-◌, ◌%◌, ◌≡◌, ◌≢◌, ◌↔◌, refl, List, [], ◌∷◌, ◌++◌,
}
use linux_kernel_programming.Base.Words.{pos, u32_mod, add32}
use linux_kernel_programming.Threads.Defs.{
  Process, Line, title, inserted, total_line, ended, deadlock, ◌>>=◌, World, pr_info, rcu_read_lock,
  rcu_read_unlock, for_each_process_thread, for_each_thread,
}
use linux_kernel_programming.Threads.Visits.{
  thread_text, buggy_show_thread_lem, fixed_show_thread_lem, rcu_show_thread_lem,
}
use linux_kernel_programming.Threads.Loops.{
  AllNamesFit, Unlocked, thread_count, all_rows, after_rows, for_each_process_thread_lem,
}
use linux_kernel_programming.Threads.Buggy
use linux_kernel_programming.Threads.Fixed
use linux_kernel_programming.Threads.Rcu

-- All that is printed from init on: the rows of the threads between the title and their number
abbrev pub listing : List Process → List Line
listing tasks =
    inserted ∷ title ∷ all_rows thread_text tasks ++ total_line (thread_count tasks % u32_mod) ∷ []

pub after_listing :
    (log rows : List Line) (a b c : Line)
    → log ++ a ∷ [] ++ b ∷ [] ++ rows ++ c ∷ [] ≡ log ++ (a ∷ b ∷ rows ++ c ∷ [])
after_listing log rows a b c =
    rw
      (
        append_assoc log (a ∷ []) (b ∷ []),
        append_assoc log (a ∷ b ∷ []) rows,
        append_assoc log (a ∷ b ∷ rows) (c ∷ []),
      )
      refl

pub add32_from_zero : (n : ℕ) → add32 0 n ≡ n % u32_mod
add32_from_zero n = omega arith

pub suc-sub_one : (n : ℕ) → suc n - 1 ≡ n
suc-sub_one n = omega arith

-- Where nobody holds a task's lock: init never comes back from the buggy version, since it waits
-- for a lock that it holds itself, if there is a thread at all, and only then.
pub buggy_init_deadlocks :
    (tasks : List Process) (w : World)
    → Unlocked w
    → (Buggy.thrd_showall_buggy_init tasks w ≡ deadlock) ↔ (tasks ≢ [])
unfolding Buggy.thrd_showall_buggy_init Buggy.showthrds_buggy for_each_process_thread
    for_each_thread pr_info
buggy_init_deadlocks [] w free = (λ e. cc, λ e. absurd (e refl))
buggy_init_deadlocks (g ∷ gs) w free =
    let printed = after_rows (title ∷ []) (after_rows (inserted ∷ []) w) in
    (
      λ _ e. cc,
      λ _. rw (buggy_show_thread_lem 0 g g.leader printed (free g.leader.address), ◌>>=◌) refl,
    )

fixed_init_lem :
    (tasks : List Process) (w : World)
    → AllNamesFit tasks
    → Unlocked w
    → Fixed.thrd_showall_buggy_init tasks w ≡ ended (pos 0) (after_rows (listing tasks) w)
unfolding Fixed.thrd_showall_buggy_init Fixed.showthrds_buggy pr_info
fixed_init_lem tasks w fit free =
    let printed = after_rows (title ∷ []) (after_rows (inserted ∷ []) w) in
    rw
      (
        for_each_process_thread_lem Fixed.show_thread thread_text fixed_show_thread_lem tasks 0
            printed (omega arith) fit free,
        add32_from_zero (thread_count tasks),
        after_listing w.log (all_rows thread_text tasks) inserted title
            (total_line (thread_count tasks % u32_mod)),
        ◌>>=◌,
      )
      refl

rcu_init_lem :
    (tasks : List Process) (w : World)
    → AllNamesFit tasks
    → Unlocked w
    → Rcu.thrd_showall_rcu_init tasks w ≡ ended (pos 0) (after_rows (listing tasks) w)
unfolding Rcu.thrd_showall_rcu_init Rcu.showthrds_rcu pr_info rcu_read_lock rcu_read_unlock
rcu_init_lem tasks w fit free =
    let printed : World = record (after_rows (title ∷ []) (after_rows (inserted ∷ []) w)) {
      rcu = suc w.rcu;
    } in
    rw
      (
        for_each_process_thread_lem Rcu.show_thread thread_text rcu_show_thread_lem tasks 0 printed
            (omega arith) fit free,
        add32_from_zero (thread_count tasks),
        suc-sub_one w.rcu,
        after_listing w.log (all_rows thread_text tasks) inserted title
            (total_line (thread_count tasks % u32_mod)),
        ◌>>=◌,
      )
      refl

-- Where nobody holds a task's lock, and names have 15 bytes at most: the fixed version and the RCU
-- version end and print the same, the title, a row for each thread with its whole name, in order,
-- and the number of threads (modulo 2^32); no buffer is overrun, no text is cut off, and all locks,
-- references and read-side sections are given back.
pub fixed_and_rcu_list_all :
    (tasks : List Process) (w : World)
    → AllNamesFit tasks
    → Unlocked w
    → (Fixed.thrd_showall_buggy_init tasks w ≡ ended (pos 0) (after_rows (listing tasks) w))
      × (Rcu.thrd_showall_rcu_init tasks w ≡ ended (pos 0) (after_rows (listing tasks) w))
fixed_and_rcu_list_all tasks w fit free =
    (fixed_init_lem tasks w fit free, rcu_init_lem tasks w fit free)
