-- ===== src/Deadlock/Tests.antt =====
-- The theorems on the lock order at concrete threads.
use linux_kernel_programming.Base.{◌≤◌, ◌≡◌, ◌≢◌, ◌↔◌, refl, List, [], none, Option}
use linux_kernel_programming.Base.Words.{pos}
use linux_kernel_programming.Deadlock.Defs.{
  Action, Tid, Sys, init, t0, t1, move, thrd_work, Reach, here, later, IsDeadlock,
}
use linux_kernel_programming.Deadlock.Order.{moves, IsDeadlock-iff_ooo, order_terminates}

IsDeadlock-iff_ooo_example :
    ((s : Sys) × Reach (init (pos 0) (pos 0) (pos 1)) s × IsDeadlock s) ↔ (pos 1 ≡ pos 1)
IsDeadlock-iff_ooo_example = IsDeadlock-iff_ooo 0 0 (pos 1)

abbrev over : Sys
over = record { a = none; b = none; p0 = []; p1 = [] }

-- Thread 0 runs to its end, then thread 1.
one_by_one : Reach (init (pos 0) (pos 0) (pos 0)) over
unfolding move thrd_work
one_by_one =
    later t1
      (later t1
        (later t1
          (later t1 (later t0 (later t0 (later t0 (later t0 here refl) refl) refl) refl) refl) refl)
        refl)
      refl

zero_ne_one : pos 0 ≢ pos 1
zero_ne_one e = cc

order_terminates_example :
    (moves one_by_one ≤ 8)
    × (((move t0 over ≡ none) × (move t1 over ≡ none)) ↔ (
        ◌≡◌ {A = List Action} [] []
        × ◌≡◌ {A = List Action} [] []
        × ◌≡◌ {A = Option Tid} none none
        × ◌≡◌ {A = Option Tid} none none))
order_terminates_example = order_terminates 0 0 (pos 0) zero_ne_one one_by_one
