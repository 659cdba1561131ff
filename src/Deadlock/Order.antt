-- ===== src/Deadlock/Order.antt =====
-- With the lock order kept no deadlock is reachable, and with the order broken one is.
use linux_kernel_programming.Base.{
  ℕ, zero, suc, ◌+◌, ◌≤◌, ◌≡◌, ◌≢◌, ◌↔◌, refl, List, [], ◌∷◌, Option, none, some, length, Bool,
  true, false, ◌&&◌, arith, ap, sym, ◌∙◌,
}
use mathlib.Core.Path.{subst, ap₂}
use linux_kernel_programming.Base.Words.{ℤ, pos, negsuc}
use linux_kernel_programming.Deadlock.Defs.{
  lock_a, lock_b, Action, take, release, a_then_b, thrd_work, Tid, t0, t1, Sys, init, act, move,
  Reach, here, later, IsDeadlock,
}

-- How far a thread is that takes `lock_a` and then `lock_b`.
data Pos : Type 0 where
  start has_a has_both left_b finished : Pos

abbrev rest : Pos → List Action
rest start = a_then_b
rest has_a = take lock_b ∷ release lock_b ∷ release lock_a ∷ []
rest has_both = release lock_b ∷ release lock_a ∷ []
rest left_b = release lock_a ∷ []
rest finished = []

abbrev next : Pos → Pos
next start = has_a
next has_a = has_both
next has_both = left_b
next _ = finished

abbrev holds_a : Pos → Bool
holds_a start = false
holds_a finished = false
holds_a _ = true

abbrev holds_b : Pos → Bool
holds_b has_both = true
holds_b _ = false

abbrev owner : Bool → Bool → Option Tid
owner true _ = some t0
owner false true = some t1
owner false false = none

abbrev state : Pos → Pos → Sys
state q0 q1 = record {
  a = owner (holds_a q0) (holds_a q1);
  b = owner (holds_b q0) (holds_b q1);
  p0 = rest q0;
  p1 = rest q1;
}

-- A lock has one holder.
abbrev Apart : Pos → Pos → Type 0
Apart q0 q1 = ((holds_a q0 && holds_a q1) ≡ false)

move0 :
    (q0 q1 : Pos) (s : Sys)
    → Apart q0 q1
    → move t0 (state q0 q1) ≡ some s
    → (s ≡ state (next q0) q1) × Apart (next q0) q1
unfolding move
move0 start start s h e = ground arith
move0 q0 q1 s h e = ground arith

move1 :
    (q0 q1 : Pos) (s : Sys)
    → Apart q0 q1
    → move t1 (state q0 q1) ≡ some s
    → (s ≡ state q0 (next q1)) × Apart q0 (next q1)
unfolding move
move1 start start s h e = ground arith
move1 q0 q1 s h e = ground arith

progress : (q0 q1 : Pos) → Apart q0 q1 → ¬ IsDeadlock (state q0 q1)
unfolding move
progress start start h d = cc d.stuck0
progress finished finished h d = d.unfinished (refl, refl)
progress q0 q1 h d = ground (arith, d.stuck0, d.stuck1)

-- The states that the two positions describe.
record IsOrdered (s : Sys) : Type 0 where
  q0 : Pos
  q1 : Pos
  is : s ≡ state q0 q1
  apart : Apart q0 q1

move-IsOrdered : {u v : Sys} (t : Tid) → move t u ≡ some v → IsOrdered u → IsOrdered v
move-IsOrdered {u} {v} t0 m o =
    let (is, apart) = move0 o.q0 o.q1 v o.apart (ap (move t0) (sym o.is) ∙ m) in
    record { q0 = next o.q0; q1 = o.q1; is = is; apart = apart }
move-IsOrdered {u} {v} t1 m o =
    let (is, apart) = move1 o.q0 o.q1 v o.apart (ap (move t1) (sym o.is) ∙ m) in
    record { q0 = o.q0; q1 = next o.q1; is = is; apart = apart }

Reach-IsOrdered : {s u : Sys} → IsOrdered s → Reach s u → IsOrdered u
Reach-IsOrdered o here = o
Reach-IsOrdered o (later t r m) = move-IsOrdered t m (Reach-IsOrdered o r)

init-IsOrdered :
    (a0 a1 : ℕ) (lock_ooo : ℤ) → lock_ooo ≢ pos 1 → IsOrdered (init (pos a0) (pos a1) lock_ooo)
unfolding thrd_work
init-IsOrdered a0 a1 (pos zero) ne = record { q0 = start; q1 = start; is = refl; apart = refl }
init-IsOrdered a0 a1 (pos (suc zero)) ne = absurd (ne refl)
init-IsOrdered a0 a1 (pos (suc (suc n))) ne = record {
  q0 = start;
  q1 = finished;
  is = refl;
  apart = refl;
}
init-IsOrdered a0 a1 (negsuc n) ne = record { q0 = start; q1 = finished; is = refl; apart = refl }

ordered_moves : {s : Sys} → IsOrdered s → ¬ IsDeadlock s
ordered_moves o d = progress o.q0 o.q1 o.apart (subst IsDeadlock o.is d)

broken_order : (a0 a1 : ℕ) → (s : Sys) × Reach (init (pos a0) (pos a1) (pos 1)) s × IsDeadlock s
unfolding thrd_work move
broken_order a0 a1 = (
  _,
  later t1 (later t0 here refl) refl,
  record { stuck0 = refl; stuck1 = refl; unfinished = λ p. cc p.0 },
)

-- With both threads pinned to their CPUs, a deadlock can be reached if `lock_ooo` is 1, and only
-- then: for any other value every reachable state has a thread that can move, or both are done.
pub IsDeadlock-iff_ooo :
    (a0 a1 : ℕ) (lock_ooo : ℤ)
    → ((s : Sys) × Reach (init (pos a0) (pos a1) lock_ooo) s × IsDeadlock s) ↔ (lock_ooo ≡ pos 1)
IsDeadlock-iff_ooo a0 a1 lock_ooo = (only_if lock_ooo, λ e. rw e (broken_order a0 a1))
  where
    only_if :
        (ooo : ℤ) → (s : Sys) × Reach (init (pos a0) (pos a1) ooo) s × IsDeadlock s → ooo ≡ pos 1
    only_if (pos (suc zero)) d = refl
    only_if ooo (s, r, d) =
        absurd (ordered_moves (Reach-IsOrdered (init-IsOrdered a0 a1 ooo (λ e. cc)) r) d)

-- A move of a thread does the first of its actions and leaves the other thread's.
act0 :
    (p : List Action) (u v : Sys)
    → act t0 u p ≡ some v
    → (length v.p0 + 1 ≡ length p) × (v.p1 ≡ u.p1)
act0 [] u v m = cc
act0 (take lock_a ∷ p) u v m = ground arith
act0 (take lock_b ∷ p) u v m = ground arith
act0 (release lock_a ∷ p) u v m = ground arith
act0 (release lock_b ∷ p) u v m = ground arith

act1 :
    (p : List Action) (u v : Sys)
    → act t1 u p ≡ some v
    → (length v.p1 + 1 ≡ length p) × (v.p0 ≡ u.p0)
act1 [] u v m = cc
act1 (take lock_a ∷ p) u v m = ground arith
act1 (take lock_b ∷ p) u v m = ground arith
act1 (release lock_a ∷ p) u v m = ground arith
act1 (release lock_b ∷ p) u v m = ground arith

abbrev actions_left : Sys → ℕ
actions_left s = length s.p0 + length s.p1

move_shrinks : (t : Tid) (u v : Sys) → move t u ≡ some v → actions_left v + 1 ≡ actions_left u
unfolding move
move_shrinks t0 u v m = let (e, same) = act0 u.p0 u v m in omega (arith, ap length same)
move_shrinks t1 u v m = let (e, same) = act1 u.p1 u v m in omega (arith, ap length same)

pub moves : {s u : Sys} → Reach s u → ℕ
moves here = 0
moves (later t r m) = moves r + 1

moves_lem : {s u : Sys} (r : Reach s u) → moves r + actions_left u ≡ actions_left s
unfolding moves
moves_lem here = omega arith
moves_lem (later {u} {v} t r m) = omega (arith, moves_lem r, move_shrinks t u v m)

at_end :
    (q0 q1 : Pos)
    → Apart q0 q1
    → move t0 (state q0 q1) ≡ none
    → move t1 (state q0 q1) ≡ none
    → (q0 ≡ finished) × (q1 ≡ finished)
unfolding move
at_end start start h m0 m1 = cc
at_end q0 q1 h m0 m1 = ground arith

actions_left-init : (a0 a1 : ℕ) (lock_ooo : ℤ) → actions_left (init (pos a0) (pos a1) lock_ooo) ≤ 8
unfolding thrd_work
actions_left-init a0 a1 (pos zero) = omega arith
actions_left-init a0 a1 (pos (suc zero)) = omega arith
actions_left-init a0 a1 (pos (suc (suc n))) = omega arith
actions_left-init a0 a1 (negsuc n) = omega arith

-- With the order kept and both threads pinned to their CPUs: no run has more than eight moves,
-- whoever is scheduled when; and in a state that is reached no thread can move if and only if both
-- have finished and both locks are free.
pub order_terminates :
    (a0 a1 : ℕ) (lock_ooo : ℤ)
    → lock_ooo ≢ pos 1
    → {u : Sys} (r : Reach (init (pos a0) (pos a1) lock_ooo) u)
    → (moves r ≤ 8)
      × (((move t0 u ≡ none) × (move t1 u ≡ none))
          ↔ ((u.p0 ≡ []) × (u.p1 ≡ []) × (u.a ≡ none) × (u.b ≡ none)))
unfolding move
order_terminates a0 a1 lock_ooo ne {u} r =
    let o = Reach-IsOrdered (init-IsOrdered a0 a1 lock_ooo ne) r in
    (
      omega (arith, moves_lem r, actions_left-init a0 a1 lock_ooo),
      (
        λ (m0, m1).
            let (e0, e1) =
              at_end o.q0 o.q1 o.apart (ap (move t0) (sym o.is) ∙ m0)
                (ap (move t1) (sym o.is) ∙ m1) in
            let e : u ≡ state finished finished = o.is ∙ ap₂ state e0 e1 in
            (
              ap (λ (s : Sys). s.p0) e,
              ap (λ (s : Sys). s.p1) e,
              ap (λ (s : Sys). s.a) e,
              ap (λ (s : Sys). s.b) e,
            ),
        λ (e0, e1, _, _). (ap (act t0 u) e0, ap (act t1 u) e1),
      ),
    )
