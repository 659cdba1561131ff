-- ===== src/Rcu/Tests.antt =====
-- A reader in its section while a writer publishes a new object, and the theorems at their calls.
use linux_kernel_programming.Base.{
  ℕ, ◌≡◌, refl, Option, some, none, ◌==◌, if◌then◌else◌, List, [], ◌∷◌,
}
use linux_kernel_programming.Rdwr.{Call, reads, writes}
use linux_kernel_programming.Rdwr.Positions.{Snapshot, fresh}
use linux_kernel_programming.Rcu.Code.{Sys, after, here, step, AllLive, start}
use linux_kernel_programming.Rcu.Driver.{method, show_data}
use linux_kernel_programming.Rcu.Grace.{touched-AllLive, read_miscdrv_rdwr-Snapshot}

-- Thread 1 writes, all others read.
abbrev calls : ℕ → Call
calls i = if i == 1 then writes 5 else reads 8

abbrev initial : Sys
initial = start 3 fresh (λ i. method (calls i))

unfoldable run : List (ℕ × Option ℕ) → Sys → Sys
run [] s = s
run ((i, given) ∷ rest) s = run rest (after i given (s.threads i) s)

-- Reader 0 has the pointer to the object at 3; writer 1 has published the one at 5.
abbrev published : Sys
published =
    run
      ((0, none)
        ∷ (0, none)
        ∷ (1, none)
        ∷ (1, none)
        ∷ (1, some 5)
        ∷ (1, none)
        ∷ (1, none)
        ∷ (1, none)
        ∷ (1, none)
        ∷ (1, none)
        ∷ (1, none)
        ∷ (1, none)
        ∷ (1, none)
        ∷ [])
      initial

touched-AllLive_example : AllLive published.mem (3 ∷ [])
unfolding run after show_data
touched-AllLive_example = touched-AllLive 0 3 calls published 0 refl (
    step
      (step
        (step
          (step
            (step
              (step
                (step
                  (step
                    (step (step (step (step (step here 0 none tt) 0 none tt) 1 none refl) 1 none tt)
                      1 (some 5) refl)
                    1 none tt)
                  1 none tt)
                1 none tt)
              1 none tt)
            1 none tt)
          1 none tt)
        1 none tt)
      1 none tt)

-- Reader 0 runs to its end.
read_miscdrv_rdwr-Snapshot_example : Snapshot (record { stat = 0; place = some (0, 0, 0) })
unfolding run after show_data
read_miscdrv_rdwr-Snapshot_example =
    read_miscdrv_rdwr-Snapshot 0 3 calls
      (run
        ((0, none)
          ∷ (0, none)
          ∷ (0, none)
          ∷ (0, none)
          ∷ (0, none)
          ∷ (0, none)
          ∷ (0, none)
          ∷ (0, none)
          ∷ (0, none)
          ∷ (0, none)
          ∷ (0, none)
          ∷ (0, none)
          ∷ (0, none)
          ∷ (0, none)
          ∷ (0, none)
          ∷ (0, none)
          ∷ (0, none)
          ∷ (0, none)
          ∷ [])
        initial)
      0 refl
      (step
        (step
          (step
            (step
              (step
                (step
                  (step
                    (step
                      (step
                        (step
                          (step
                            (step
                              (step
                                (step
                                  (step (step (step (step here 0 none tt) 0 none tt) 0 none tt) 0
                                    none tt)
                                  0 none tt)
                                0 none tt)
                              0 none tt)
                            0 none tt)
                          0 none tt)
                        0 none tt)
                      0 none tt)
                    0 none tt)
                  0 none tt)
                0 none tt)
              0 none tt)
            0 none tt)
          0 none tt)
        0 none tt)
      (record { stat = 0; place = some (0, 0, 0) }) refl

-- SHOW_DATA has the pointer to the object at 3, to load a field of it, when the object is gone.
show_data_after_kfree :
    (run
        ((0, none)
          ∷ (0, none)
          ∷ (0, none)
          ∷ (0, none)
          ∷ (0, none)
          ∷ (0, none)
          ∷ (0, none)
          ∷ (0, none)
          ∷ (0, none)
          ∷ (1, none)
          ∷ (1, none)
          ∷ (1, some 5)
          ∷ (1, none)
          ∷ (1, none)
          ∷ (1, none)
          ∷ (1, none)
          ∷ (1, none)
          ∷ (1, none)
          ∷ (1, none)
          ∷ (1, none)
          ∷ (1, none)
          ∷ (1, none)
          ∷ [])
        initial).mem
      3
    ≡ none
unfolding run after show_data
show_data_after_kfree = refl
