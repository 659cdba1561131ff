-- ===== src/Percpu/Final.antt =====
-- What the CPUs' copies are when both threads are done does not depend on the interleaving.
use linux_kernel_programming.Base.{◌^◌, ◌-◌, ◌≡◌, refl, sym, ◌∙◌, List, [], ◌∷◌, none, some}
use mathlib.Core.Path.{subst}
use linux_kernel_programming.Base.Words.{ℤ, pos, negsuc}
use linux_kernel_programming.Percpu.Defs.{
  Copy, Update, apply, thrd_work, Sys, Tid, thrd_0, thrd_1, step0, step1, move, begin, Reach, here,
  later,
}

abbrev run_all : List Update → Copy → Copy
run_all [] c = c
run_all (a ∷ p) c = run_all p (apply a c)

-- The copies that the CPUs will have when all that is left to do is done.
abbrev will0 : Sys → Copy
will0 u = run_all u.p0 u.cpu0

abbrev will1 : Sys → Copy
will1 u = run_all u.p1 u.cpu1

step0_keeps :
    (p : List Update) (u v : Sys)
    → step0 u p ≡ some v
    → (will0 v ≡ run_all p u.cpu0) × (will1 v ≡ will1 u)
step0_keeps [] u v m = cc
step0_keeps (a ∷ p) u v m =
    let same : record u { cpu0 = apply a u.cpu0; p0 = p } ≡ v = cc in
    subst (λ v. (will0 v ≡ run_all p (apply a u.cpu0)) × (will1 v ≡ will1 u)) same (refl, refl)

step1_keeps :
    (p : List Update) (u v : Sys)
    → step1 u p ≡ some v
    → (will0 v ≡ will0 u) × (will1 v ≡ run_all p u.cpu1)
step1_keeps [] u v m = cc
step1_keeps (a ∷ p) u v m =
    let same : record u { cpu1 = apply a u.cpu1; p1 = p } ≡ v = cc in
    subst (λ v. (will0 v ≡ will0 u) × (will1 v ≡ run_all p (apply a u.cpu1))) same (refl, refl)

move_keeps : (t : Tid) (u v : Sys) → move t u ≡ some v → (will0 v ≡ will0 u) × (will1 v ≡ will1 u)
move_keeps thrd_0 u v m = step0_keeps u.p0 u v m
move_keeps thrd_1 u v m = step1_keeps u.p1 u v m

Reach_keeps : {s u : Sys} → Reach s u → (will0 u ≡ will0 s) × (will1 u ≡ will1 s)
Reach_keeps here = (refl, refl)
Reach_keeps (later {u} {v} t r m) =
    let (k0, k1) = move_keeps t u v m in let (h0, h1) = Reach_keeps r in (k0 ∙ h0, k1 ∙ h1)

finished0 : (p : List Update) (u : Sys) → step0 u p ≡ none → run_all p u.cpu0 ≡ u.cpu0
finished0 [] u e = refl
finished0 (a ∷ p) u e = cc

finished1 : (p : List Update) (u : Sys) → step1 u p ≡ none → run_all p u.cpu1 ≡ u.cpu1
finished1 [] u e = refl
finished1 (a ∷ p) u e = cc

-- Three times + 1 and + 100 on CPU 0, three times - 1 and + 200 on CPU 1; nothing from a thread
-- that could not be pinned.
abbrev pub final0 : ℤ → Copy
final0 (negsuc e) = record { pcpa = 0; tx = 0; rx = 0 }
final0 (pos r) = record { pcpa = 3; tx = 300; rx = 0 }

abbrev pub final1 : ℤ → Copy
final1 (negsuc e) = record { pcpa = 0; tx = 0; rx = 0 }
final1 (pos r) = record { pcpa = 2 ^ 32 - 3; tx = 0; rx = 600 }

will0-begin : (a0 a1 : ℤ) → will0 (begin a0 a1) ≡ final0 a0
unfolding thrd_work
will0-begin (pos r) a1 = refl
will0-begin (negsuc e) a1 = refl

will1-begin : (a0 a1 : ℤ) → will1 (begin a0 a1) ≡ final1 a1
unfolding thrd_work
will1-begin a0 (pos r) = refl
will1-begin a0 (negsuc e) = refl

-- In whatever order the two threads run: when neither can move any more, CPU 0's copy has counted 3
-- up and 300 sent, CPU 1's 3 down and 600 received; and the copy of a CPU that its thread could not
-- be pinned to is as at the beginning.
pub thrd_work_final :
    (a0 a1 : ℤ) (u : Sys)
    → Reach (begin a0 a1) u
    → move thrd_0 u ≡ none
    → move thrd_1 u ≡ none
    → (u.cpu0 ≡ final0 a0) × (u.cpu1 ≡ final1 a1)
thrd_work_final a0 a1 u r e0 e1 =
    let (k0, k1) = Reach_keeps r in
    (
      sym (finished0 u.p0 u e0) ∙ k0 ∙ will0-begin a0 a1,
      sym (finished1 u.p1 u e1) ∙ k1 ∙ will1-begin a0 a1,
    )
