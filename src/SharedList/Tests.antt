-- ===== src/SharedList/Tests.antt =====
-- A writer and a reader under the read-write lock, and the theorems at their calls.
use linux_kernel_programming.Base.{
  ℕ, ◌≡◌, ◌≢◌, ℕ_discrete, arith, refl, ltb, ==-eq-false, Option, some, none, ◌==◌, if◌then◌else◌,
  List, [], ◌∷◌, false, ◌↔◌,
}
use mathlib.Core.Path.{subst}
use linux_kernel_programming.ListDemo.{Node, Demo, list_empty}
use linux_kernel_programming.SharedList.Code.{
  Enabled, returned, Code, Sys, Call, reads, writes, after, here, step, start,
}
use linux_kernel_programming.SharedList.Places.{method, by_rwlock}
use linux_kernel_programming.SharedList.Progress.{methods, AllStuck, HasReturned, AllStuck-returned}
use linux_kernel_programming.SharedList.Free.{rwlock_freelist, rcu_freelist, freelists_fault_iff}
use linux_kernel_programming.SharedList.Walks.{InAdd, listed, walk_steady, list_add_tail_alone}

-- Thread 1 writes, all others read.
abbrev calls : ℕ → Call
calls i = if i == 1 then writes 5 100 175 else reads 8

abbrev initial : Sys
initial = start (λ i. method by_rwlock (calls i))

unfoldable run : List (ℕ × Option ℕ) → Sys → Sys
run [] s = s
run ((i, given) ∷ rest) s = run rest (after i given (s.threads i) s)

-- Thread 1 is adding the node at 7.
abbrev adding : Sys
adding = run ((1, some 7) ∷ (1, none) ∷ (1, none) ∷ []) initial

abbrev writer : ℕ
writer = 1

list_add_tail_alone_example : writer ≡ writer
unfolding run after
list_add_tail_alone_example =
    list_add_tail_alone by_rwlock calls adding
      (step (step (step here 1 (some 7) refl) 1 none ((refl, λ j. refl))) 1 none tt) writer writer
      tt tt

abbrev letter_r : Node
letter_r = record { ival1 = 1; ival2 = 2; letter = b'R' }

-- It has added that, and thread 0 has taken the lock and is in its walk.
abbrev walking : Sys
walking =
    run
      ((1, some 7)
        ∷ (1, none)
        ∷ (1, none)
        ∷ (1, none)
        ∷ (1, none)
        ∷ (0, none)
        ∷ (0, none)
        ∷ (0, none)
        ∷ [])
      initial

abbrev reader : ℕ
reader = 0

-- Meanwhile thread 1 takes memory for its next node.
walk_steady_example :
    ¬ InAdd (walking.threads writer)
    × (listed (after writer (some 8) (walking.threads writer) walking) ≡ listed walking)
unfolding run after
walk_steady_example =
    walk_steady calls walking reader writer (some 8)
      (step
        (step
          (step
            (step
              (step (step (step (step here 1 (some 7) refl) 1 none ((refl, λ j. refl))) 1 none tt) 1
                none tt)
              1 none tt)
            0 none tt)
          0 none refl)
        0 none tt)
      tt refl

abbrev one_node : Demo
one_node = record { nodes = λ p. some letter_r; head_node = 7 ∷ []; log = [] }

freelists_fault_iff_example :
    ((rwlock_freelist one_node ≡ none) ↔ (list_empty one_node.head_node ≡ false))
    × ((rcu_freelist one_node ≡ none) ↔ (list_empty one_node.head_node ≡ false))
freelists_fault_iff_example = freelists_fault_iff one_node

-- Thread 0 has read the empty list, and thread 1 has had no memory for any of its nodes.
abbrev finished : Sys
finished =
    run ((1, none) ∷ (0, none) ∷ (1, none) ∷ (1, none) ∷ []) (start (methods by_rwlock 2 calls))

no_others : (i : ℕ) → i ≢ 1 → i ≢ 0 → HasReturned (finished.threads i)
unfolding run after
no_others i one null =
    let unused : ltb i 2 ≡ false = ground arith in
    rw (==-eq-false i 1 one, ==-eq-false i 0 null, unused) tt

returned_stuck : (c : Code) → HasReturned c → ¬ Enabled finished none c
returned_stuck (returned count rows) over can = can
returned_stuck c over can = absurd over

finished-AllStuck : AllStuck finished
unfolding run after
finished-AllStuck i can = elim (ℕ_discrete i 1) [
  | yes one ↦ subst (λ k. Enabled finished none (finished.threads k)) one can
  | no other ↦ elim (ℕ_discrete i 0) [
    | yes null ↦ subst (λ k. Enabled finished none (finished.threads k)) null can
    | no more ↦ returned_stuck (finished.threads i) (no_others i other more) can
  ]
]

AllStuck-returned_example : HasReturned (finished.threads writer)
unfolding run after
AllStuck-returned_example =
    AllStuck-returned by_rwlock 2 calls finished
      (step (step (step (step here 1 none tt) 0 none tt) 1 none tt) 1 none tt) finished-AllStuck
      writer
