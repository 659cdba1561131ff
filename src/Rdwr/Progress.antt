-- ===== src/Rdwr/Progress.antt =====
-- Waiting for the read-write lock of ch13/rdwr_concurrent/2_demo_rdwr_rwlock/miscdrv_rdwr_rwlock.c:
-- the states in which no thread can take a step.
use linux_kernel_programming.Base.{ℕ, ◌≡◌, refl, sym, ◌∙◌, [], ◌∷◌}
use mathlib.Core.Path.{subst}
use linux_kernel_programming.Rdwr.Code.{
  Code, return_read, return_write, show_data, unheld, Sys, Enabled,
}
use linux_kernel_programming.Rdwr.Positions.{
  Pos, r0, r1, r2, r3, r4, r5, r6, showing, w0, w1, w2, w3, w4, w5, w6, code_of, held, Inv,
}

abbrev pub HasReturned : Code → Type 0
HasReturned (return_read count seen shown) = Unit {0}
HasReturned (return_write count) = Unit {0}
HasReturned _ = ⊥

abbrev pub AllStuck : Sys → Type 0
AllStuck u = (i : ℕ) → ¬ Enabled u (u.threads i)

-- Who cannot take a step does not hold the lock.
stuck_unheld : (count : ℕ) (q : Pos) (u : Sys) → ¬ Enabled u (code_of count q) → held q ≡ unheld
stuck_unheld count r0 u stuck = refl
stuck_unheld count r1 u stuck = absurd (stuck tt)
stuck_unheld count (r2 stat) u stuck = absurd (stuck tt)
stuck_unheld count (r3 stat) u stuck = absurd (stuck tt)
stuck_unheld count (r4 stat x) u stuck = absurd (stuck tt)
stuck_unheld count (r5 stat x y) u stuck = absurd (stuck tt)
stuck_unheld count (r6 seen) u stuck = absurd (stuck tt)
stuck_unheld count (showing seen fs shown) u stuck = refl
stuck_unheld count w0 u stuck = refl
stuck_unheld count w1 u stuck = absurd (stuck tt)
stuck_unheld count w2 u stuck = absurd (stuck tt)
stuck_unheld count w3 u stuck = absurd (stuck tt)
stuck_unheld count w4 u stuck = absurd (stuck tt)
stuck_unheld count w5 u stuck = absurd (stuck tt)
stuck_unheld count w6 u stuck = refl

-- Where nobody holds the lock, who cannot take a step has returned.
stuck_returned :
    (count : ℕ) (q : Pos) (u : Sys)
    → ((j : ℕ) → u.holds j ≡ unheld)
    → ¬ Enabled u (code_of count q)
    → HasReturned (code_of count q)
unfolding show_data
stuck_returned count r0 u free stuck = absurd (stuck (λ j w. let none_holds = free j in cc))
stuck_returned count w0 u free stuck = absurd (stuck free)
stuck_returned count (showing seen [] shown) u free stuck = tt
stuck_returned count (showing seen (f ∷ fs) shown) u free stuck = absurd (stuck tt)
stuck_returned count w6 u free stuck = tt
stuck_returned count r1 u free stuck = absurd (stuck tt)
stuck_returned count (r2 stat) u free stuck = absurd (stuck tt)
stuck_returned count (r3 stat) u free stuck = absurd (stuck tt)
stuck_returned count (r4 stat x) u free stuck = absurd (stuck tt)
stuck_returned count (r5 stat x y) u free stuck = absurd (stuck tt)
stuck_returned count (r6 seen) u free stuck = absurd (stuck tt)
stuck_returned count w1 u free stuck = absurd (stuck tt)
stuck_returned count w2 u free stuck = absurd (stuck tt)
stuck_returned count w3 u free stuck = absurd (stuck tt)
stuck_returned count w4 u free stuck = absurd (stuck tt)
stuck_returned count w5 u free stuck = absurd (stuck tt)

pub Inv-returned :
    {counts : ℕ → ℕ} {p : ℕ → Pos} {u : Sys}
    → Inv counts p u
    → AllStuck u
    → (i : ℕ) → HasReturned (u.threads i)
Inv-returned {counts} {p} {u} inv stuck i =
    let stuck_place : (j : ℕ) → ¬ Enabled u (code_of (counts j) (p j)) =
      λ j can. stuck j (subst (Enabled u) (sym (inv.codes j)) can) in
    let free : (j : ℕ) → u.holds j ≡ unheld =
      λ j. inv.holds j ∙ stuck_unheld (counts j) (p j) u (stuck_place j) in
    subst HasReturned (sym (inv.codes i)) (stuck_returned (counts i) (p i) u free (stuck_place i))
