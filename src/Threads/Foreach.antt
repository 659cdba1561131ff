-- ===== src/Threads/Foreach.antt =====
-- What the two modules of ch6/foreach print.
use mathlib.Core.List.{append_assoc, append-nil}
use linux_kernel_programming.Base.{
  ℕ, suc, ◌%◌, ◌<◌, ◌≡◌, refl, List, [], ◌∷◌, ◌++◌, length, map, arith,
}
use linux_kernel_programming.Base.Words.{pos, u32_mod, add32}
use linux_kernel_programming.Threads.Defs.{
  Task, Process, Line, row, title, inserted, total_line, ended, ◌>>=◌, World, pr_info,
  rcu_read_lock, rcu_read_unlock,
}
use linux_kernel_programming.Threads.Visits.{after_row}
use linux_kernel_programming.Threads.Loops.{
  AllNamesFit, Unlocked, thread_count, all_rows, after_rows, for_each_process_thread_lem,
  add32_zero, add32-small, add32-suc,
}
use linux_kernel_programming.Threads.Lists.{after_listing, add32_from_zero, suc-sub_one}
use linux_kernel_programming.Threads.Showall.{
  idle_text, disp_idle_thread, show_thread, showthrds, thrd_showall_init, process_text,
  for_each_process, show_prcs_in_tasklist, prcs_showall_init,
}
use linux_kernel_programming.Threads.Rounds.{long_text, show_thread_lem, show_process_lem}

unfoldable pub process_rows : List Process → List Line
process_rows ps = map (λ p. row (process_text p)) ps

for_each_process_lem :
    (ps : List Process) (total : ℕ) (w : World)
    → total < u32_mod
    → AllNamesFit ps
    → for_each_process ps total w ≡ ended (add32 total (length ps)) (after_rows (process_rows ps) w)
unfolding for_each_process process_rows
for_each_process_lem [] total w small fit = rw (add32_zero total small, append-nil w.log) refl
for_each_process_lem (p ∷ ps) total w small fit =
    rw
      (
        show_process_lem total p w fit.0.0,
        for_each_process_lem ps (add32 total 1) (after_row (process_text p) w) (add32-small total 1)
            fit.1,
        add32-suc total (length ps),
        append_assoc w.log (row (process_text p) ∷ []) (process_rows ps),
        ◌>>=◌,
      )
      refl

-- All that `thrd_showall` prints at its init: the idle thread is listed first, and counted.
abbrev pub thread_listing : Task → List Process → List Line
thread_listing init_task tasks =
    inserted
    ∷ title
    ∷ (row (idle_text init_task) ∷ all_rows long_text tasks
        ++ total_line (suc (thread_count tasks) % u32_mod) ∷ [])

-- All that `prcs_showall` prints at its init
abbrev pub process_listing : List Process → List Line
process_listing tasks =
    inserted ∷ title ∷ (process_rows tasks ++ total_line (length tasks % u32_mod) ∷ [])

one_more : (n : ℕ) → add32 1 n ≡ suc n % u32_mod
one_more n = omega arith

thrd_showall_init_lem :
    (init_task : Task) (tasks : List Process) (w : World)
    → AllNamesFit tasks
    → Unlocked w
    → thrd_showall_init init_task tasks w
      ≡ ended (pos 0) (after_rows (thread_listing init_task tasks) w)
unfolding thrd_showall_init showthrds disp_idle_thread pr_info
thrd_showall_init_lem init_task tasks w fit free =
    let idle = row (idle_text init_task) in
    let printed = after_rows (idle ∷ []) (after_rows (title ∷ []) (after_rows (inserted ∷ []) w)) in
    let start = w.log ++ inserted ∷ [] ++ title ∷ [] in
    rw
      (
        for_each_process_thread_lem show_thread long_text show_thread_lem tasks 1 printed
            (omega arith) fit free,
        one_more (thread_count tasks),
        append_assoc start (idle ∷ []) (all_rows long_text tasks),
        after_listing w.log (idle ∷ all_rows long_text tasks) inserted title
            (total_line (suc (thread_count tasks) % u32_mod)),
        ◌>>=◌,
      )
      refl

prcs_showall_init_lem :
    (tasks : List Process) (w : World)
    → AllNamesFit tasks
    → prcs_showall_init tasks w ≡ ended (pos 0) (after_rows (process_listing tasks) w)
unfolding prcs_showall_init show_prcs_in_tasklist pr_info rcu_read_lock rcu_read_unlock
prcs_showall_init_lem tasks w fit =
    let printed : World = record (after_rows (title ∷ []) (after_rows (inserted ∷ []) w)) {
      rcu = suc w.rcu;
    } in
    rw
      (
        for_each_process_lem tasks 0 printed (omega arith) fit,
        add32_from_zero (length tasks),
        suc-sub_one w.rcu,
        after_listing w.log (process_rows tasks) inserted title
            (total_line (length tasks % u32_mod)),
        ◌>>=◌,
      )
      refl

-- Where nobody holds a task's lock, and names have 15 bytes at most: thrd_showall prints the
-- title, the idle thread, a row for each thread, in order, and one more than the number of these
-- threads; prcs_showall a row for each process and their number (both numbers modulo 2^32). Both
-- inits return 0, no text is cut off, and all locks, references and read-side sections are given
-- back.
pub showall_inits_list_all :
    (init_task : Task) (tasks : List Process) (w : World)
    → AllNamesFit tasks
    → Unlocked w
    → (thrd_showall_init init_task tasks w
        ≡ ended (pos 0) (after_rows (thread_listing init_task tasks) w))
      × (prcs_showall_init tasks w ≡ ended (pos 0) (after_rows (process_listing tasks) w))
showall_inits_list_all init_task tasks w fit free =
    (thrd_showall_init_lem init_task tasks w fit free, prcs_showall_init_lem tasks w fit)
