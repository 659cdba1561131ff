-- ===== src/Rdwr/Tests.antt =====
-- A writer and then a reader, and the theorems at their calls.
use linux_kernel_programming.Base.{
  ℕ, ◌≢◌, ◌*◌, ◌≤◌, List, [], ◌∷◌, ◌↔◌, refl, arith, some, ◌==◌, if◌then◌else◌,
}
use linux_kernel_programming.Rdwr.Code.{
  GlobalData, Seen, after, writing, unheld, set, Call, reads, writes, Reach, Sys, start, here, step,
  show_data,
}
use linux_kernel_programming.Rdwr.Exclusion.{reader-Snapshot}
use linux_kernel_programming.Rdwr.Progress.{AllStuck, HasReturned}
use linux_kernel_programming.Rdwr.Ends.{methods, steps, methods_end}
use linux_kernel_programming.Rdwr.Positions.{Snapshot}
use linux_kernel_programming.Rdwr.Torn.{Witnessed, reader-Plausible}
use linux_kernel_programming.Rdwr.Racy.{Plausible}

-- Thread 1 writes, all others read.
abbrev calls : ℕ → Call
calls i = if i == 1 then writes 5 else reads 8

nobody_writes : (j : ℕ) → set (set (λ i. unheld) 1 writing) 1 unheld j ≢ writing
nobody_writes j e = ground arith

reader-Snapshot_example : Snapshot (record { stat = 1; place = some (129780, 775952, 920) })
unfolding show_data after
reader-Snapshot_example =
    reader-Snapshot 0 calls _ 0 (record { stat = 1; place = some (129780, 775952, 920) }) refl
      (step
        (step
          (step
            (step
              (step
                (step
                  (step
                    (step
                      (step
                        (step
                          (step
                            (step
                              (step
                                (step (step (step (step (step here 1 (λ j. refl)) 1 tt) 1 tt) 1 tt)
                                  1 tt)
                                1 tt)
                              0 nobody_writes)
                            0 tt)
                          0 tt)
                        0 tt)
                      0 tt)
                    0 tt)
                  0 tt)
                0 tt)
              0 tt)
            0 tt)
          0 tt)
        0 tt)
      refl

-- The new latitude with the old longitude
abbrev torn : Seen
torn = record { stat = 0; place = some (129780, 0, 0) }

abbrev loaded : GlobalData
loaded = record { gps_lock = 1; lat = 0; longit = 0; alt = 0; issue_in_l6 = 0 }

reader-Plausible_example : Witnessed loaded torn ↔ Plausible torn
reader-Plausible_example = reader-Plausible 0 torn refl

-- One thread writes and returns, and there is no other.
abbrev one_writer : ℕ → Call
one_writer i = writes 5

unfoldable run : List ℕ → Sys → Sys
run [] s = s
run (i ∷ rest) s = run rest (after i (s.threads i) s)

abbrev written : Sys
written = run (0 ∷ 0 ∷ 0 ∷ 0 ∷ 0 ∷ 0 ∷ []) (start loaded (methods 1 one_writer))

abbrev writes_all : Reach (start loaded (methods 1 one_writer)) written
unfolding run after
writes_all = step (step (step (step (step (step here 0 (λ j. refl)) 0 tt) 0 tt) 0 tt) 0 tt) 0 tt

methods_end_example :
    (steps writes_all ≤ 1 * 12) × ¬ (AllStuck written × ¬ HasReturned (written.threads 0))
methods_end_example = methods_end 0 1 one_writer written 0 refl writes_all
