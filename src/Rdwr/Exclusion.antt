-- ===== src/Rdwr/Exclusion.antt =====
-- Under the read-write lock a reader sees the object as it is between two writes, never within one.
use linux_kernel_programming.Base.{
  ℕ, ◌≡◌, ◌≢◌, inl, inr, refl, sym, ap, ◌∙◌, [], ◌∷◌, ◌++◌, some, true,
}
use mathlib.Core.Path.{subst}
use linux_kernel_programming.Base.Words.{pos}
use linux_kernel_programming.Rdwr.Code.{
  GlobalData, Seen, show_data, fields, unheld, writing, Sys, set, Enabled, after, Reach, here, step,
  Call, reads, writes, start, saw,
}
use linux_kernel_programming.Rdwr.RwLock.{method, list_demo_rdwrlock_init}
use linux_kernel_programming.Rdwr.Positions.{
  Good, Snapshot, fresh, Pos, r0, r1, r2, r3, r4, r5, r6, showing, w0, w1, w2, w3, w4, w5, w6,
  code_of, held, Local, Inv,
}
use linux_kernel_programming.Rdwr.Steps.{rebuild, Local-at, loads, stores}

snapshot_lem :
    (g : GlobalData) (stat x y : ℕ)
    → Good g
    → stat ≡ g.issue_in_l6
    → x ≡ g.lat
    → y ≡ g.longit
    → Snapshot (record { stat = stat; place = some (x, y, g.alt) })
snapshot_lem g stat x y (inl e) hs hx hy = inl (rw (hs, hx, hy, e))
snapshot_lem g stat x y (inr e) hs hx hy = inr (rw (hs, hx, hy, e))

module _ {counts : ℕ → ℕ} {p : ℕ → Pos} {u : Sys} (inv : Inv counts p u) (i : ℕ) where
  abbrev Kept : Sys → Type 0
  Kept v = (p' : ℕ → Pos) × Inv counts p' v

  -- Every step keeps the invariant.
  keeps_at :
      (q : Pos)
      → p i ≡ q
      → Enabled u (code_of (counts i) q)
      → Kept (after i (code_of (counts i) q) u)
  unfolding after show_data
  keeps_at r0 e ok = (
    set p i r1,
    rebuild inv i r1 u.gd _ _ refl (λ j. refl) inv.locked
        (inv.good (λ j. subst (λ h. h ≢ writing) (inv.holds j) (ok j))) (λ j ne. inv.locals j)
        (λ w. cc) (λ j ne w. absurd (ok j (inv.holds j ∙ w)))
        (λ _ _. inv.good (λ j. subst (λ h. h ≢ writing) (inv.holds j) (ok j))),
  )
  keeps_at r1 e ok = (
    set p i (r2 u.gd.issue_in_l6),
    loads inv i e (r2 u.gd.issue_in_l6) _ refl (λ w. cc) refl (Local-at inv i e, refl),
  )
  keeps_at (r2 stat) e ok = (
    set p i (r3 stat),
    loads inv i e (r3 stat) _ refl (λ w. cc) (rw (inv.locked)) (Local-at inv i e),
  )
  keeps_at (r3 stat) e ok =
      let (g, s) = Local-at inv i e in
      (
        set p i (r4 stat u.gd.lat),
        loads inv i e (r4 stat u.gd.lat) _ refl (λ w. cc) refl (g, s, refl),
      )
  keeps_at (r4 stat x) e ok =
      let (g, s, hx) = Local-at inv i e in
      (
        set p i (r5 stat x u.gd.longit),
        loads inv i e (r5 stat x u.gd.longit) _ refl (λ w. cc) refl (g, s, hx, refl),
      )
  keeps_at (r5 stat x y) e ok =
      let (g, s, hx, hy) = Local-at inv i e in
      let seen : Seen = record { stat = stat; place = some (x, y, u.gd.alt) } in
      (
        set p i (r6 seen),
        loads inv i e (r6 seen) _ refl (λ w. cc) refl (g, snapshot_lem u.gd stat x y g s hx hy),
      )
  keeps_at (r6 seen) e ok = (
    set p i (showing seen fields []),
    rebuild inv i (showing seen fields []) u.gd _ _ refl (λ j. refl) inv.locked (Local-at inv i e).1
        (λ j ne. inv.locals j) (λ w. cc) (λ j ne w. refl) (λ _ _. (Local-at inv i e).0),
  )
  keeps_at (showing seen [] shown) e ok = absurd ok
  keeps_at (showing seen (f ∷ fs) shown) e ok = (
    set p i (showing seen fs (shown ++ f u.gd ∷ [])),
    loads inv i e (showing seen fs (shown ++ f u.gd ∷ [])) _ refl (λ w. cc) refl (Local-at inv i e),
  )
  keeps_at w0 e ok = (
    set p i w1,
    rebuild inv i w1 u.gd _ _ refl (λ j. refl) inv.locked
        (inv.good (λ j w. cc (ok j, inv.holds j, w))) (λ j ne. inv.locals j)
        (λ w j ne. sym (inv.holds j) ∙ ok j) (λ j ne w. cc (ok j, inv.holds j, w))
        (λ nw. absurd (nw refl)),
  )
  keeps_at w1 e ok = (set p i w2, stores inv i e w2 _ refl refl inv.locked refl)
  keeps_at w2 e ok = (set p i w3, stores inv i e w3 _ refl refl inv.locked (Local-at inv i e, refl))
  keeps_at w3 e ok =
      let (x, y) = Local-at inv i e in
      (set p i w4, stores inv i e w4 _ refl refl inv.locked (x, y, refl))
  keeps_at w4 e ok =
      let (x, y, z) = Local-at inv i e in
      (set p i w5, stores inv i e w5 _ refl refl inv.locked (rw (inv.locked, x, y, z)))
  keeps_at w5 e ok = (
    set p i w6,
    rebuild inv i w6 u.gd _ _ refl (λ j. refl) inv.locked tt (λ j ne. inv.locals j) (λ w. cc)
        (λ j ne w. refl) (λ _ _. inr (Local-at inv i e)),
  )
  keeps_at w6 e ok = absurd ok

  keeps : Enabled u (u.threads i) → Kept (after i (u.threads i) u)
  keeps ok =
      subst (λ c. Kept (after i c u)) (sym (inv.codes i))
        (keeps_at (p i) refl (subst (Enabled u) (inv.codes i) ok))

pub Reach-Inv :
    {counts : ℕ → ℕ} {s u : Sys}
    → (p : ℕ → Pos) × Inv counts p s
    → Reach s u
    → (p : ℕ → Pos) × Inv counts p u
Reach-Inv inv here = inv
Reach-Inv inv (step r i ok) = keeps (Reach-Inv inv r).1 i ok

abbrev pub count_of : Call → ℕ
count_of (reads count) = count
count_of (writes count) = count

abbrev pub first : Call → Pos
first (reads count) = r0
first (writes count) = w0

pub first_lem :
    (c : Call)
    → (method c ≡ code_of (count_of c) (first c))
      × (unheld ≡ held (first c))
      × Local (first c) fresh
first_lem (reads count) = (refl, refl, tt)
first_lem (writes count) = (refl, refl, tt)

start-Inv :
    (calls : ℕ → Call)
    → Inv (λ i. count_of (calls i)) (λ i. first (calls i)) (start fresh (λ i. method (calls i)))
start-Inv calls = record {
  codes = λ j. (first_lem (calls j)).0;
  holds = λ j. (first_lem (calls j)).1;
  locals = λ j. (first_lem (calls j)).2;
  alone = λ i j ne w. sym (first_lem (calls j)).1;
  good = λ _. inl refl;
  locked = refl;
}

saw_at :
    (n : ℕ) (q : Pos) (g : GlobalData) (seen : Seen)
    → Local q g
    → saw (code_of n q) ≡ some seen
    → Snapshot seen
unfolding show_data
saw_at n (showing seen' [] shown) g seen l e = let same : seen' ≡ seen = cc in subst Snapshot same l
saw_at n (showing seen' (f ∷ fs) shown) g seen l e = cc
saw_at n q g seen l e = cc

-- Once init has succeeded, and with any number of threads in the read and the write method in any
-- interleaving of their steps, each thread's in the order of its program: what `reader` returns is
-- one state of the object, before the writer's update or after it, with `x`, `y` and `z` read.
pub reader-Snapshot :
    {g : GlobalData} (r : ℕ) (calls : ℕ → Call) (u : Sys) (i : ℕ) (seen : Seen)
    → (list_demo_rdwrlock_init (pos r) true).gd ≡ some g
    → Reach (start g (λ i. method (calls i))) u
    → saw (u.threads i) ≡ some seen
    → Snapshot seen
reader-Snapshot {g} r calls u i seen loaded reached e =
    let fresh_lem : g ≡ fresh = cc in
    let (p, inv) =
      Reach-Inv (λ j. first (calls j), start-Inv calls)
        (subst (λ g. Reach (start g (λ i. method (calls i))) u) fresh_lem reached) in
    saw_at (count_of (calls i)) (p i) u.gd seen (inv.locals i) (ap saw (sym (inv.codes i)) ∙ e)
