-- ===== src/Rcu/Facts.antt =====
-- What a thread knows of the shared state. Each object has a status: who made it, whether `gdata`
-- points to it, and who has taken it out of use.
use linux_kernel_programming.Base.{ℕ, ◌≡◌, ◌⊎◌, some, true, false}
use linux_kernel_programming.Rdwr.{GlobalData}
use linux_kernel_programming.Rdwr.Positions.{Good}
use linux_kernel_programming.Rcu.Code.{Sys}

pub data Status : Type 0 where
  absent current : Status
  made_by retired_by awaited_by : (i : ℕ) → Status

-- What thread `j` may read in its section: the current object, one that was taken out of use, or one
-- whose grace period still waits for `j`.
abbrev pub Visible : (ℕ → Status) → Sys → ℕ → ℕ → Type 0
Visible σ u j a =
    (σ a ≡ current)
    ⊎ (((i : ℕ) × (σ a ≡ retired_by i)) ⊎ ((i : ℕ) × (σ a ≡ awaited_by i) × (u.waits i j ≡ true)))

-- An object at `a` with this property
abbrev pub Holds : Sys → ℕ → (GlobalData → Type 0) → Type 0
Holds u a P = (o : GlobalData) × (u.mem a ≡ some o) × P o

-- What a thread is about: in a section without and with a pointer; holding the lock, with the old
-- object, with the old and the new one; and after the publication, up to `kfree`.
pub data View : Type 1 where
  idle entered locking : View
  looking : ℕ → (GlobalData → Type 0) → View
  chosen : ℕ → View
  making : (gd gd_new : ℕ) → (GlobalData → Type 0) → View
  published retiring pausing freeing : ℕ → View

abbrev pub Knows : (ℕ → Status) → Sys → ℕ → View → Type 0
Knows σ u j idle = Unit {0}
Knows σ u j entered = u.in_section j ≡ true
Knows σ u j locking = u.gdata_lock ≡ some j
Knows σ u j (looking a P) =
    (u.in_section j ≡ true) × Visible σ u j a × Holds u a (λ o. Good o × P o)
Knows σ u j (chosen g) = (u.gdata_lock ≡ some j) × (g ≡ u.gdata)
Knows σ u j (making g n P) =
    (u.gdata_lock ≡ some j) × (g ≡ u.gdata) × (σ n ≡ made_by j) × Holds u n P
Knows σ u j (published g) = (u.gdata_lock ≡ some j) × (σ g ≡ retired_by j)
Knows σ u j (retiring g) = σ g ≡ retired_by j
Knows σ u j (pausing g) = σ g ≡ awaited_by j
Knows σ u j (freeing g) = (σ g ≡ awaited_by j) × ((l : ℕ) → u.waits j l ≡ false)
