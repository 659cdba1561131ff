-- ===== src/Percpu/Tests.antt =====
-- The theorem on the per-CPU data for one interleaving.
use linux_kernel_programming.Base.{◌≡◌, refl, []}
use linux_kernel_programming.Base.Words.{pos}
use linux_kernel_programming.Percpu.Defs.{Sys, thrd_0, thrd_1, thrd_work, here, later, Reach, begin}
use linux_kernel_programming.Percpu.Final.{final0, final1, thrd_work_final}

abbrev done_all : Sys
done_all = record { cpu0 = final0 (pos 0); cpu1 = final1 (pos 0); p0 = []; p1 = [] }

in_turn : Reach (begin (pos 0) (pos 0)) done_all
unfolding thrd_work
in_turn =
    later thrd_1
      (later thrd_0
        (later thrd_1
          (later thrd_0
            (later thrd_1
              (later thrd_0
                (later thrd_1
                  (later thrd_0
                    (later thrd_1 (later thrd_0 (later thrd_1 (later thrd_0 here refl) refl) refl)
                      refl)
                    refl)
                  refl)
                refl)
              refl)
            refl)
          refl)
        refl)
      refl

thrd_work_final_example : (done_all.cpu0 ≡ final0 (pos 0)) × (done_all.cpu1 ≡ final1 (pos 0))
thrd_work_final_example = thrd_work_final (pos 0) (pos 0) done_all in_turn refl refl
