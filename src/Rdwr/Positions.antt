-- ===== src/Rdwr/Positions.antt =====
-- Where a thread can be in the methods of ch13/rdwr_concurrent/2_demo_rdwr_rwlock, what it holds and
-- knows there, and the invariant of all threads together.
use linux_kernel_programming.Base.{ℕ, ◌≡◌, ◌≢◌, ◌⊎◌, List, [], none, some, ◌==◌, if◌then◌else◌}
use linux_kernel_programming.Rdwr.Code.{
  GlobalData, Seen, Code, read_unlock, write_unlock, load, store, return_write, show_data, fields,
  Hold, unheld, reading, writing, Sys,
}
use linux_kernel_programming.Rdwr.RwLock.{reader, writer}

-- The object before and after the writer's update.
abbrev pub fixed : GlobalData
fixed = record { gps_lock = 1; lat = 129780; longit = 775952; alt = 920; issue_in_l6 = 1 }

abbrev pub fresh : GlobalData
fresh = record { gps_lock = 1; lat = 0; longit = 0; alt = 0; issue_in_l6 = 0 }

abbrev pub Good : GlobalData → Type 0
Good g = (g ≡ fresh) ⊎ (g ≡ fixed)

abbrev pub Snapshot : Seen → Type 0
Snapshot seen =
    (seen ≡ record { stat = 0; place = some (0, 0, 0) })
    ⊎ (seen ≡ record { stat = 1; place = some (129780, 775952, 920) })

-- Where a thread is in its method, with its locals.
pub data Pos : Type 0 where
  r0 r1 : Pos
  r2 r3 : (stat : ℕ) → Pos
  r4 : (stat x : ℕ) → Pos
  r5 : (stat x y : ℕ) → Pos
  r6 : Seen → Pos
  showing : Seen → List (GlobalData → ℕ) → List ℕ → Pos
  w0 w1 w2 w3 w4 w5 w6 : Pos

module _ (count : ℕ) where
  abbrev pub shown_next : Seen → Code
  shown_next seen = show_data count seen fields []

  abbrev pub from_y : ℕ → ℕ → ℕ → Code
  from_y stat x y =
      load (λ g. g.alt)
        (λ z. read_unlock (shown_next (record { stat = stat; place = some (x, y, z) })))

  abbrev pub from_x : ℕ → ℕ → Code
  from_x stat x = load (λ g. g.longit) (λ y. from_y stat x y)

  abbrev pub from_locked : ℕ → Code
  from_locked stat = load (λ g. g.lat) (λ x. from_x stat x)

  abbrev pub from_stat : ℕ → Code
  from_stat stat =
      load (λ g. g.gps_lock)
        (λ locked.
          if locked == 0
          then read_unlock (shown_next (record { stat = stat; place = none }))
          else from_locked stat)

  abbrev pub code_of : Pos → Code
  code_of r0 = reader shown_next
  code_of r1 = load (λ g. g.issue_in_l6) (λ stat. from_stat stat)
  code_of (r2 stat) = from_stat stat
  code_of (r3 stat) = from_locked stat
  code_of (r4 stat x) = from_x stat x
  code_of (r5 stat x y) = from_y stat x y
  code_of (r6 seen) = read_unlock (shown_next seen)
  code_of (showing seen fs shown) = show_data count seen fs shown
  code_of w0 = writer (return_write count)
  code_of w1 =
      store (λ g. record g { lat = 129780 })
        (store (λ g. record g { longit = 775952 })
          (store (λ g. record g { alt = 920 })
            (store (λ g. record g { issue_in_l6 = 1 }) (write_unlock (return_write count)))))
  code_of w2 =
      store (λ g. record g { longit = 775952 })
        (store (λ g. record g { alt = 920 })
          (store (λ g. record g { issue_in_l6 = 1 }) (write_unlock (return_write count))))
  code_of w3 =
      store (λ g. record g { alt = 920 })
        (store (λ g. record g { issue_in_l6 = 1 }) (write_unlock (return_write count)))
  code_of w4 = store (λ g. record g { issue_in_l6 = 1 }) (write_unlock (return_write count))
  code_of w5 = write_unlock (return_write count)
  code_of w6 = return_write count

abbrev pub held : Pos → Hold
held r1 = reading
held (r2 stat) = reading
held (r3 stat) = reading
held (r4 stat x) = reading
held (r5 stat x y) = reading
held (r6 seen) = reading
held w1 = writing
held w2 = writing
held w3 = writing
held w4 = writing
held w5 = writing
held _ = unheld

-- What a thread at a position knows of the object.
abbrev pub Local : Pos → GlobalData → Type 0
Local r1 g = Good g
Local (r2 stat) g = Good g × (stat ≡ g.issue_in_l6)
Local (r3 stat) g = Good g × (stat ≡ g.issue_in_l6)
Local (r4 stat x) g = Good g × (stat ≡ g.issue_in_l6) × (x ≡ g.lat)
Local (r5 stat x y) g = Good g × (stat ≡ g.issue_in_l6) × (x ≡ g.lat) × (y ≡ g.longit)
Local (r6 seen) g = Good g × Snapshot seen
Local (showing seen fs shown) g = Snapshot seen
Local w1 g = Good g
Local w2 g = g.lat ≡ 129780
Local w3 g = (g.lat ≡ 129780) × (g.longit ≡ 775952)
Local w4 g = (g.lat ≡ 129780) × (g.longit ≡ 775952) × (g.alt ≡ 920)
Local w5 g = g ≡ fixed
Local _ g = Unit {0}

-- Who does not hold the lock knows nothing that a store could undo.
pub Local-unheld : (q : Pos) (g g' : GlobalData) → held q ≡ unheld → Local q g → Local q g'
Local-unheld r0 g g' e l = l
Local-unheld (showing seen fs shown) g g' e l = l
Local-unheld w0 g g' e l = l
Local-unheld w6 g g' e l = l
Local-unheld r1 g g' e l = cc
Local-unheld (r2 stat) g g' e l = cc
Local-unheld (r3 stat) g g' e l = cc
Local-unheld (r4 stat x) g g' e l = cc
Local-unheld (r5 stat x y) g g' e l = cc
Local-unheld (r6 seen) g g' e l = cc
Local-unheld w1 g g' e l = cc
Local-unheld w2 g g' e l = cc
Local-unheld w3 g g' e l = cc
Local-unheld w4 g g' e l = cc
Local-unheld w5 g g' e l = cc

pub record Inv (counts : ℕ → ℕ) (p : ℕ → Pos) (u : Sys) : Type 0 where
  pub codes : (j : ℕ) → u.threads j ≡ code_of (counts j) (p j)
  pub holds : (j : ℕ) → u.holds j ≡ held (p j)
  pub locals : (j : ℕ) → Local (p j) u.gd
  pub alone : (i j : ℕ) → i ≢ j → held (p i) ≡ writing → held (p j) ≡ unheld
  pub good : ((j : ℕ) → held (p j) ≢ writing) → Good u.gd
  pub locked : u.gd.gps_lock ≡ 1
