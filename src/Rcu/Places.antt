-- ===== src/Rcu/Places.antt =====
-- Where a thread can be in the methods, with its locals, and what it is about there.
use linux_kernel_programming.Base.{ℕ, ◌≡◌, List, [], ◌∷◌, ◌++◌, none, some, ◌==◌, if◌then◌else◌}
use linux_kernel_programming.Rdwr.{GlobalData, Seen, fields}
use linux_kernel_programming.Rdwr.Positions.{Good, Snapshot, fixed}
use linux_kernel_programming.Rcu.Code.{
  Code, Sys, rcu_read_unlock, dereference, load, load_outside, spin_unlock, kzalloc, copy, store,
  assign_pointer, synchronize, await, kfree, return_write,
}
use linux_kernel_programming.Rcu.Driver.{reader, writer, with_copy, update, show_data}
use linux_kernel_programming.Rcu.Facts.{
  Status, current, View, idle, entered, locking, looking, chosen, making, published, retiring,
  pausing, freeing, Knows, Holds,
}

pub data Pos : Type 0 where
  r0 r1 : Pos
  r2 : (p : ℕ) → Pos
  r3 r4 : (p stat : ℕ) → Pos
  r5 : (p stat x : ℕ) → Pos
  r6 : (p stat x y : ℕ) → Pos
  r7 : Seen → Pos
  showing : Seen → List (GlobalData → ℕ) → List ℕ → Pos
  printing : (p : ℕ) → Seen → (GlobalData → ℕ) → List (GlobalData → ℕ) → List ℕ → Pos
  w0 w1 w_failed w_done : Pos
  w2 w_unlock w_sync w_await w_free : (gd : ℕ) → Pos
  w3 w4 w5 w6 w7 w8 : (gd gd_new : ℕ) → Pos

module _ (count : ℕ) where
  abbrev pub shown_next : Seen → Code
  shown_next seen = show_data count seen fields []

  abbrev pub over : Code
  over = return_write count

  abbrev pub retire : ℕ → ℕ → Code
  retire gd gd_new = assign_pointer gd_new (spin_unlock (synchronize (await (kfree gd over))))

  abbrev pub from_y : ℕ → ℕ → ℕ → ℕ → Code
  from_y p stat x y =
      load p (λ g. g.alt)
        (λ z. rcu_read_unlock (shown_next (record { stat = stat; place = some (x, y, z) })))

  abbrev pub from_x : ℕ → ℕ → ℕ → Code
  from_x p stat x = load p (λ g. g.longit) (λ y. from_y p stat x y)

  abbrev pub from_locked : ℕ → ℕ → Code
  from_locked p stat = load p (λ g. g.lat) (λ x. from_x p stat x)

  abbrev pub from_stat : ℕ → ℕ → Code
  from_stat p stat =
      load p (λ g. g.gps_lock)
        (λ locked.
          if locked == 0
          then rcu_read_unlock (shown_next (record { stat = stat; place = none }))
          else from_locked p stat)

  abbrev pub code_of : Pos → Code
  code_of r0 = reader shown_next
  code_of r1 = dereference (λ p. load p (λ g. g.issue_in_l6) (λ stat. from_stat p stat))
  code_of (r2 p) = load p (λ g. g.issue_in_l6) (λ stat. from_stat p stat)
  code_of (r3 p stat) = from_stat p stat
  code_of (r4 p stat) = from_locked p stat
  code_of (r5 p stat x) = from_x p stat x
  code_of (r6 p stat x y) = from_y p stat x y
  code_of (r7 seen) = rcu_read_unlock (shown_next seen)
  code_of (showing seen fs shown) = show_data count seen fs shown
  code_of (printing p seen f fs shown) =
      load_outside p f (λ v. show_data count seen fs (shown ++ v ∷ []))
  code_of w0 = writer over
  code_of w1 = dereference (λ gd. kzalloc (λ gd_new. with_copy gd over gd_new))
  code_of (w2 gd) = kzalloc (λ gd_new. with_copy gd over gd_new)
  code_of w_failed = spin_unlock over
  code_of (w3 gd gd_new) = copy gd gd_new (update gd_new (retire gd gd_new))
  code_of (w4 gd gd_new) = update gd_new (retire gd gd_new)
  code_of (w5 gd gd_new) =
      store gd_new (λ g. record g { longit = 775952 })
        (store gd_new (λ g. record g { alt = 920 })
          (store gd_new (λ g. record g { issue_in_l6 = 1 }) (retire gd gd_new)))
  code_of (w6 gd gd_new) =
      store gd_new (λ g. record g { alt = 920 })
        (store gd_new (λ g. record g { issue_in_l6 = 1 }) (retire gd gd_new))
  code_of (w7 gd gd_new) = store gd_new (λ g. record g { issue_in_l6 = 1 }) (retire gd gd_new)
  code_of (w8 gd gd_new) = retire gd gd_new
  code_of (w_unlock gd) = spin_unlock (synchronize (await (kfree gd over)))
  code_of (w_sync gd) = synchronize (await (kfree gd over))
  code_of (w_await gd) = await (kfree gd over)
  code_of (w_free gd) = kfree gd over
  code_of w_done = over

abbrev pub view : Pos → View
view r1 = entered
view (r2 p) = looking p (λ o. Unit {0})
view (r3 p stat) = looking p (λ o. stat ≡ o.issue_in_l6)
view (r4 p stat) = looking p (λ o. stat ≡ o.issue_in_l6)
view (r5 p stat x) = looking p (λ o. (stat ≡ o.issue_in_l6) × (x ≡ o.lat))
view (r6 p stat x y) = looking p (λ o. (stat ≡ o.issue_in_l6) × (x ≡ o.lat) × (y ≡ o.longit))
view (r7 seen) = entered
view w1 = locking
view w_failed = locking
view (w2 gd) = chosen gd
view (w3 gd n) = making gd n (λ o. Unit {0})
view (w4 gd n) = making gd n (λ o. o.gps_lock ≡ 1)
view (w5 gd n) = making gd n (λ o. (o.gps_lock ≡ 1) × (o.lat ≡ 129780))
view (w6 gd n) = making gd n (λ o. (o.gps_lock ≡ 1) × (o.lat ≡ 129780) × (o.longit ≡ 775952))
view (w7 gd n) =
    making gd n (λ o. (o.gps_lock ≡ 1) × (o.lat ≡ 129780) × (o.longit ≡ 775952) × (o.alt ≡ 920))
view (w8 gd n) = making gd n (λ o. o ≡ fixed)
view (w_unlock gd) = published gd
view (w_sync gd) = retiring gd
view (w_await gd) = pausing gd
view (w_free gd) = freeing gd
view _ = idle

-- What a thread's result is, where it has one.
abbrev pub Result : Pos → Type 0
Result (r7 seen) = Snapshot seen
Result (showing seen fs shown) = Snapshot seen
Result (printing p seen f fs shown) = Snapshot seen
Result _ = Unit {0}

-- The invariant: every thread is at its place and knows what it should there; what has no status is
-- not in memory; and `gdata` points to the current object, which is as before or as after an update.
pub record Inv (counts : ℕ → ℕ) (σ : ℕ → Status) (p : ℕ → Pos) (u : Sys) : Type 0 where
  pub codes : (j : ℕ) → u.threads j ≡ code_of (counts j) (p j)
  pub knows : (j : ℕ) → Knows σ u j (view (p j))
  pub result : (j : ℕ) → Result (p j)
  pub backed : (a : ℕ) → u.mem a ≡ none → σ a ≡ Status.absent
  pub now : σ u.gdata ≡ current
  pub content : Holds u u.gdata Good
