-- ===== src/Threads/Rounds.antt =====
-- One round of the loops of the two modules of ch6/foreach.
use linux_kernel_programming.Base.{
  ℕ, ◌+◌, ◌≤◌, ◌≡◌, refl, [], ◌∷◌, ◌++◌, true, false, if◌then◌else◌, length, length-append, arith,
  Bool-cases, inl, inr,
}
use linux_kernel_programming.Base.Words.{add32}
use linux_kernel_programming.Threads.Format.{
  Text, space, newline, decimal, pad_left, pad_right, pointer, length-pointer, length-pad_right,
}
use linux_kernel_programming.Threads.Defs.{
  Task, Process, ended, ◌>>=◌, World, pure, update, pr_info, get_task_struct, put_task_struct,
  task_lock, task_unlock, snprintf_lkp,
}
use linux_kernel_programming.Threads.Row.{name_text, count_text, is_main_of_many}
use linux_kernel_programming.Threads.Fits.{
  snprintf_lkp-fits, short_number, length-name_text, length-count_text, count_or_nothing,
}
use linux_kernel_programming.Threads.Visits.{after_row, give_lock_back, give_ref_back}
use linux_kernel_programming.Threads.Showall.{fields_text, show_thread, process_text, show_process}

length-fields_text : (tgid : ℕ) (t : Task) → length (fields_text tgid t) ≤ 60
length-fields_text tgid t =
    let a = pad_left 8 (decimal tgid) in
    let b = a ++ space ∷ [] in
    let c = b ++ pad_left 8 (decimal t.pid) in
    let d = c ++ space ∷ space ∷ [] in
    let e = d ++ pointer t.address in
    omega (
      arith,
      short_number 8 tgid (omega arith),
      short_number 8 t.pid (omega arith),
      length-append a (space ∷ []),
      length-append b (pad_left 8 (decimal t.pid)),
      length-append c (space ∷ space ∷ []),
      length-append d (pointer t.address),
      length-append e (space ∷ []),
      length-append (e ++ space ∷ []) (pointer t.stack),
      length-pointer t.address,
      length-pointer t.stack,
    )

-- The row of a thread
abbrev pub long_text : Process → Task → Text
long_text p t = fields_text p.tgid t ++ name_text p t.comm ++ count_or_nothing p t ++ newline ∷ []

count_fits :
    (p : Process) (t : Task) (w : World)
    → (if is_main_of_many p t then snprintf_lkp 127 (count_text p) else pure []) w
      ≡ ended (count_or_nothing p t) w
count_fits p t w =
    let l = length-count_text p in
    elim (Bool-cases (is_main_of_many p t)) [
      | inl many ↦ rw (many, snprintf_lkp-fits 127 (count_text p) w (omega arith)) refl
      | inr single ↦ rw single refl
    ]

pub show_thread_lem :
    (total : ℕ) (p : Process) (t : Task) (w : World)
    → length t.comm ≤ 15
    → w.held t.address ≡ false
    → show_thread total p t w ≡ ended (add32 total 1) (after_row (long_text p t) w)
unfolding show_thread get_task_struct put_task_struct pr_info task_lock task_unlock
show_thread_lem total p t w short free =
    let locked : World = record w {
      refs = update t.address (w.refs t.address + 1) w.refs;
      held = update t.address true w.held;
    } in
    let fields = length-fields_text p.tgid t in
    let name = length-name_text p t.comm short in
    rw
      (
        free,
        snprintf_lkp-fits 127 (fields_text p.tgid t) locked (omega arith),
        snprintf_lkp-fits 127 (name_text p t.comm) locked (omega arith),
        count_fits p t locked,
        give_lock_back t.address w.held free,
        give_ref_back t.address w.refs,
        ◌>>=◌,
      )
      refl

length-process_text : (p : Process) → length p.leader.comm ≤ 15 → length (process_text p) ≤ 61
length-process_text p short =
    let a = pad_right 16 p.leader.comm in
    let b = a ++ 124 ∷ pad_left 8 (decimal p.tgid) in
    let c = b ++ 124 ∷ pad_left 8 (decimal p.leader.pid) in
    let d = c ++ 124 ∷ pad_left 7 (decimal p.uid) in
    let e = d ++ 124 ∷ pad_left 7 (decimal p.euid) in
    omega (
      arith,
      length-pad_right 16 16 p.leader.comm (omega arith) (omega arith),
      short_number 8 p.tgid (omega arith),
      short_number 8 p.leader.pid (omega arith),
      short_number 7 p.uid (omega arith),
      short_number 7 p.euid (omega arith),
      length-append a (124 ∷ pad_left 8 (decimal p.tgid)),
      length-append b (124 ∷ pad_left 8 (decimal p.leader.pid)),
      length-append c (124 ∷ pad_left 7 (decimal p.uid)),
      length-append d (124 ∷ pad_left 7 (decimal p.euid)),
      length-append e (newline ∷ []),
    )

pub show_process_lem :
    (total : ℕ) (p : Process) (w : World)
    → length p.leader.comm ≤ 15
    → show_process total p w ≡ ended (add32 total 1) (after_row (process_text p) w)
unfolding show_process get_task_struct put_task_struct pr_info
show_process_lem total p w short =
    let t = p.leader in
    let counted : World = record w { refs = update t.address (w.refs t.address + 1) w.refs } in
    let l = length-process_text p short in
    rw
      (
        snprintf_lkp-fits 128 (process_text p) counted (omega arith),
        give_ref_back t.address w.refs,
        ◌>>=◌,
      )
      refl
