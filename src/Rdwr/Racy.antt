-- ===== src/Rdwr/Racy.antt =====
-- Where a thread can be in the methods of ch13/rdwr_concurrent/1_demo_rdwr_nolocks, and what it
-- knows there for good: a field changes at most once, from 0 to the writer's value.
use linux_kernel_programming.Base.{
  ℕ, ◌≡◌, ◌⊎◌, inl, inr, refl, List, [], none, some, ◌==◌, if◌then◌else◌,
}
use linux_kernel_programming.Rdwr.Code.{
  GlobalData, Seen, Code, load, store, return_write, show_data, fields,
}
use linux_kernel_programming.Rdwr.NoLocks.{reader, writer}

pub data Pos : Type 0 where
  r0 : Pos
  r1 r2 : (stat : ℕ) → Pos
  r3 : (stat x : ℕ) → Pos
  r4 : (stat x y : ℕ) → Pos
  showing : Seen → List (GlobalData → ℕ) → List ℕ → Pos
  w0 w1 w2 w3 w4 : Pos

module _ (count : ℕ) where
  abbrev pub shown_next : Seen → Code
  shown_next seen = show_data count seen fields []

  abbrev pub from_y : ℕ → ℕ → ℕ → Code
  from_y stat x y =
      load (λ g. g.alt) (λ z. shown_next (record { stat = stat; place = some (x, y, z) }))

  abbrev pub from_x : ℕ → ℕ → Code
  from_x stat x = load (λ g. g.longit) (λ y. from_y stat x y)

  abbrev pub from_locked : ℕ → Code
  from_locked stat = load (λ g. g.lat) (λ x. from_x stat x)

  abbrev pub code_of : Pos → Code
  code_of r0 = reader shown_next
  code_of (r1 stat) =
      load (λ g. g.gps_lock)
        (λ locked.
          if locked == 0
          then shown_next (record { stat = stat; place = none })
          else from_locked stat)
  code_of (r2 stat) = from_locked stat
  code_of (r3 stat x) = from_x stat x
  code_of (r4 stat x y) = from_y stat x y
  code_of (showing seen fs shown) = show_data count seen fs shown
  code_of w0 = writer (return_write count)
  code_of w1 =
      store (λ g. record g { longit = 775952 })
        (store (λ g. record g { alt = 920 })
          (store (λ g. record g { issue_in_l6 = 1 }) (return_write count)))
  code_of w2 =
      store (λ g. record g { alt = 920 })
        (store (λ g. record g { issue_in_l6 = 1 }) (return_write count))
  code_of w3 = store (λ g. record g { issue_in_l6 = 1 }) (return_write count)
  code_of w4 = return_write count

-- 0, or the writer's value
abbrev pub OldOr : ℕ → ℕ → Type 0
OldOr new v = (v ≡ 0) ⊎ (v ≡ new)

-- Each of `x`, `y` and `z` is from before or after the update, whatever the others are; but once
-- `stat` is 1 all of them are from after it.
abbrev pub Plausible : Seen → Type 0
Plausible seen =
    (x y z : ℕ) × (seen.place ≡ some (x, y, z))
    × (((seen.stat ≡ 0) × OldOr 129780 x × OldOr 775952 y × OldOr 920 z)
        ⊎ ((seen.stat ≡ 1) × (x ≡ 129780) × (y ≡ 775952) × (z ≡ 920)))

-- The writer's update has reached the three fields.
abbrev pub Updated : GlobalData → Type 0
Updated g = (g.lat ≡ 129780) × (g.longit ≡ 775952) × (g.alt ≡ 920)

pub record Sane (g : GlobalData) : Type 0 where
  pub lat_is : OldOr 129780 g.lat
  pub longit_is : OldOr 775952 g.longit
  pub alt_is : OldOr 920 g.alt
  pub issue : (g.issue_in_l6 ≡ 0) ⊎ ((g.issue_in_l6 ≡ 1) × Updated g)
  pub locked : g.gps_lock ≡ 1

-- What a reader knows once it has `stat`.
abbrev pub Begun : ℕ → GlobalData → Type 0
Begun stat g = (stat ≡ 0) ⊎ ((stat ≡ 1) × Updated g)

-- A field that was read: with `stat` 1 it is the new one.
abbrev pub Read : ℕ → ℕ → ℕ → Type 0
Read stat new v = OldOr new v × (stat ≡ 1 → v ≡ new)

abbrev pub Local : Pos → GlobalData → Type 0
Local (r1 stat) g = Begun stat g
Local (r2 stat) g = Begun stat g
Local (r3 stat x) g = Begun stat g × Read stat 129780 x
Local (r4 stat x y) g = Begun stat g × Read stat 129780 x × Read stat 775952 y
Local (showing seen fs shown) g = Plausible seen
Local w1 g = g.lat ≡ 129780
Local w2 g = (g.lat ≡ 129780) × (g.longit ≡ 775952)
Local w3 g = Updated g
Local _ g = Unit {0}

-- `g'` is `g` after a store of the writer's.
abbrev pub Later : GlobalData → GlobalData → Type 0
Later g g' =
    (g.lat ≡ 129780 → g'.lat ≡ 129780)
    × (g.longit ≡ 775952 → g'.longit ≡ 775952)
    × (g.alt ≡ 920 → g'.alt ≡ 920)

Updated-Later : (g g' : GlobalData) → Later g g' → Updated g → Updated g'
Updated-Later g g' (lx, ly, lz) (x, y, z) = (lx x, ly y, lz z)

pub Begun-Later : (stat : ℕ) (g g' : GlobalData) → Later g g' → Begun stat g → Begun stat g'
Begun-Later stat g g' l (inl e) = inl e
Begun-Later stat g g' l (inr (e, up)) = inr (e, Updated-Later g g' l up)

pub Local-Later : (q : Pos) (g g' : GlobalData) → Later g g' → Local q g → Local q g'
Local-Later (r1 stat) g g' l b = Begun-Later stat g g' l b
Local-Later (r2 stat) g g' l b = Begun-Later stat g g' l b
Local-Later (r3 stat x) g g' l (b, hx) = (Begun-Later stat g g' l b, hx)
Local-Later (r4 stat x y) g g' l (b, hx, hy) = (Begun-Later stat g g' l b, hx, hy)
Local-Later (showing seen fs shown) g g' l p = p
Local-Later w1 g g' (lx, ly, lz) x = lx x
Local-Later w2 g g' (lx, ly, lz) (x, y) = (lx x, ly y)
Local-Later w3 g g' l up = Updated-Later g g' l up
Local-Later r0 g g' l t = tt
Local-Later w0 g g' l t = tt
Local-Later w4 g g' l t = tt

-- What a load gives a reader.
pub Read_lem :
    (stat new v : ℕ) (g : GlobalData)
    → Begun stat g
    → (Updated g → v ≡ new)
    → OldOr new v
    → Read stat new v
Read_lem stat new v g (inl e) up o = (o, λ e'. cc)
Read_lem stat new v g (inr (e, u)) up o = (o, λ e'. up u)

pub Plausible_lem :
    (stat x y z : ℕ) (g : GlobalData)
    → Begun stat g
    → Read stat 129780 x
    → Read stat 775952 y
    → Read stat 920 z
    → Plausible (record { stat = stat; place = some (x, y, z) })
Plausible_lem stat x y z g (inl e) (ox, hx) (oy, hy) (oz, hz) = (x, y, z, refl, inl (e, ox, oy, oz))
Plausible_lem stat x y z g (inr (e, u)) (ox, hx) (oy, hy) (oz, hz) =
    (x, y, z, refl, inr (e, hx e, hy e, hz e))
