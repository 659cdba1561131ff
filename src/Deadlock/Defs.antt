-- ===== src/Deadlock/Defs.antt =====
-- What the threads do to the locks, and the interleavings of it. A spinlock is free or held; a
-- thread that wants a held lock spins, so it makes no move.
use linux_kernel_programming.Base.{ℕ, zero, suc, ◌≡◌, List, [], ◌∷◌, ◌++◌, Option, none, some}
use linux_kernel_programming.Base.Words.{ℤ, pos, negsuc}

pub data Lock : Type 0 where
  lock_a lock_b : Lock

pub data Action : Type 0 where
  take : Lock → Action
  release : Lock → Action

-- THRD0_ITERS and THRD1_ITERS
abbrev thrd_iters : ℕ
thrd_iters = 1

repeat : ℕ → List Action → List Action
repeat zero acts = []
repeat (suc n) acts = acts ++ repeat n acts

abbrev pub a_then_b : List Action
a_then_b = take lock_a ∷ take lock_b ∷ release lock_b ∷ release lock_a ∷ []

abbrev pub b_then_a : List Action
b_then_a = take lock_b ∷ take lock_a ∷ release lock_a ∷ release lock_b ∷ []

-- One iteration of thread 1, by the module parameter `lock_ooo`.
abbrev iteration1 : ℤ → List Action
iteration1 (pos (suc zero)) = b_then_a
iteration1 (pos zero) = a_then_b
iteration1 _ = []

abbrev work : ℤ → ℤ → ℤ × List Action
work (pos zero) lock_ooo = (pos 0, repeat thrd_iters a_then_b)
work _ lock_ooo = (pos 0, repeat thrd_iters (iteration1 lock_ooo))

-- After the check of `thrd`: `affinity` is what `set_cpuaffinity` returns, and -ENOSYS is -38.
abbrev pinned : ℤ → ℤ → ℤ → ℤ × List Action
pinned (negsuc e) thrd lock_ooo = (negsuc 37, [])
pinned (pos r) thrd lock_ooo = work thrd lock_ooo

-- `thrd_work`: its result, and what it does to the locks.
unfoldable pub thrd_work : ℤ → ℤ → ℤ → ℤ × List Action
unfolding repeat
thrd_work affinity (pos zero) lock_ooo = pinned affinity (pos 0) lock_ooo
thrd_work affinity (pos (suc zero)) lock_ooo = pinned affinity (pos 1) lock_ooo
thrd_work affinity thrd lock_ooo = (negsuc 21, [])

pub data Tid : Type 0 where
  t0 t1 : Tid

-- Who holds each lock, and what each thread has yet to do.
pub record Sys : Type 0 where
  pub a : Option Tid
  pub b : Option Tid
  pub p0 : List Action
  pub p1 : List Action

abbrev pub init : ℤ → ℤ → ℤ → Sys
init affinity0 affinity1 lock_ooo = record {
  a = none;
  b = none;
  p0 = (thrd_work affinity0 (pos 0) lock_ooo).1;
  p1 = (thrd_work affinity1 (pos 1) lock_ooo).1;
}

abbrev prog : Tid → Sys → List Action
prog t0 s = s.p0
prog t1 s = s.p1

abbrev set_prog : Tid → List Action → Sys → Sys
set_prog t0 p s = record s { p0 = p }
set_prog t1 p s = record s { p1 = p }

abbrev holder : Lock → Sys → Option Tid
holder lock_a s = s.a
holder lock_b s = s.b

abbrev set_holder : Lock → Option Tid → Sys → Sys
set_holder lock_a o s = record s { a = o }
set_holder lock_b o s = record s { b = o }

abbrev pub act : Tid → Sys → List Action → Option Sys
act t s [] = none
act t s (take l ∷ p) = elim (holder l s) [
  | none ↦ some (set_prog t p (set_holder l (some t) s))
  | some _ ↦ none
]
act t s (release l ∷ p) = some (set_prog t p (set_holder l none s))

-- The next move of a thread; `none` if it has finished or spins.
unfoldable pub move : Tid → Sys → Option Sys
move t s = act t s (prog t s)

pub data Reach (s : Sys) : Sys → Type 0 where
  here : Reach s s
  later : {u v : Sys} (t : Tid) → Reach s u → move t u ≡ some v → Reach s v

-- No thread can move, and not both have finished.
pub record IsDeadlock (s : Sys) : Type 0 where
  pub stuck0 : move t0 s ≡ none
  pub stuck1 : move t1 s ≡ none
  pub unfinished : ¬ ((s.p0 ≡ []) × (s.p1 ≡ []))
