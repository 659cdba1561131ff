-- ===== src/Rdwr/Threads.antt =====
-- A function that gives each thread something, changed at one thread.
use linux_kernel_programming.Base.{
  ℕ, ℕ_discrete, ◌≡◌, ◌≢◌, sym, ap, if◌then◌else◌, ==-eq-false, ==_refl,
}
use mathlib.Core.Path.{subst}
use linux_kernel_programming.Rdwr.Code.{set}

pub set_same : {A : Type 0} (f : ℕ → A) (i : ℕ) (v : A) → set f i v i ≡ v
set_same f i v = ap (λ b. if b then v else f i) (==_refl i)

pub set_other : {A : Type 0} (f : ℕ → A) (i : ℕ) (v : A) (j : ℕ) → j ≢ i → set f i v j ≡ f j
set_other f i v j ne = ap (λ b. if b then v else f j) (==-eq-false j i ne)

-- To show something of every thread after a step of thread `i`: show it of that one and the others.
pub set_all :
    {A : Type 0} (P : ℕ → A → Type 0) (f : ℕ → A) (i : ℕ) (v : A)
    → P i v
    → ((j : ℕ) → j ≢ i → P j (f j))
    → (j : ℕ) → P j (set f i v j)
set_all P f i v this others j = elim (ℕ_discrete j i) [
  | yes e ↦ subst (λ k. P k (set f i v k)) (sym e) (subst (P i) (sym (set_same f i v)) this)
  | no ne ↦ subst (P j) (sym (set_other f i v j ne)) (others j ne)
]
