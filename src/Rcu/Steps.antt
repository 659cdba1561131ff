-- ===== src/Rcu/Steps.antt =====
-- Every step of every thread keeps the invariant.
use linux_kernel_programming.Base.{
  ℕ, ℕ_discrete, ◌≡◌, ◌≢◌, inl, inr, refl, sym, ap, ◌∙◌, [], ◌∷◌, ◌++◌, Option, none, some, true,
  false, arith,
}
use mathlib.Core.Path.{subst}
use linux_kernel_programming.Rdwr.{GlobalData, Seen, fields, set}
use linux_kernel_programming.Rdwr.Threads.{set_same, set_other}
use linux_kernel_programming.Rdwr.Positions.{Good, Snapshot}
use linux_kernel_programming.Rcu.Code.{
  Code, Sys, Enabled, after, go_on, load_then, quiet, zeroed, store_then, copy_then,
}
use linux_kernel_programming.Rcu.Driver.{show_data, update}
use linux_kernel_programming.Rcu.Facts.{
  Status, absent, current, made_by, retired_by, awaited_by, Visible, Knows,
}
use linux_kernel_programming.Rcu.Moves.{Kept, rebuild, moves, loads, flags, changes}
use linux_kernel_programming.Rcu.Publish.{
  apart, publish, publish_old, publish_other, publish-Frame, synchronize-Frame,
}
use linux_kernel_programming.Rcu.Places.{
  Pos, r0, r1, r2, r3, r4, r5, r6, r7, showing, printing, w0, w1, w_failed, w_done, w2, w_unlock,
  w_sync, w_await, w_free, w3, w4, w5, w6, w7, w8, code_of, retire, view, Result, Inv,
}

snapshot_lem :
    (o : GlobalData) (stat x y : ℕ)
    → Good o
    → stat ≡ o.issue_in_l6
    → x ≡ o.lat
    → y ≡ o.longit
    → Snapshot (record { stat = stat; place = some (x, y, o.alt) })
snapshot_lem o stat x y (inl e) hs hx hy = inl (rw (hs, hx, hy, e))
snapshot_lem o stat x y (inr e) hs hx hy = inr (rw (hs, hx, hy, e))

gps_of : (o : GlobalData) → Good o → o.gps_lock ≡ 1
gps_of o (inl e) = ap (λ o. o.gps_lock) e
gps_of o (inr e) = ap (λ o. o.gps_lock) e

module _ {counts : ℕ → ℕ} {σ : ℕ → Status} {p : ℕ → Pos} {u : Sys} (inv : Inv counts σ p u)
    (i : ℕ) where
  not_seen : {n : ℕ} (j : ℕ) → σ n ≡ made_by i → ¬ (Visible σ u j n)
  not_seen j e (inl c) = cc
  not_seen j e (inr (inl (k, r))) = cc
  not_seen j e (inr (inr (k, r, t))) = cc

  owned :
      {n : ℕ} (j : ℕ)
      → σ n ≡ made_by i
      → j ≢ i
      → (σ n ≢ made_by j) × (σ n ≢ retired_by j) × (σ n ≢ awaited_by j)
  owned j e ne = (λ t. ne (ground arith), λ t. cc, λ t. cc)

  -- A store into the writer's own object
  stores :
      {n : ℕ} {o : GlobalData} (q : Pos) (f : GlobalData → GlobalData) (k : Code)
      → u.mem n ≡ some o
      → σ n ≡ made_by i
      → k ≡ code_of (counts i) q
      → Knows
          (set σ n (made_by i))
          (record u { mem = set u.mem n (some (f o)); threads = set u.threads i k })
          i
          (view q)
      → Result q
      → Kept inv i (store_then i n (u.mem n) f k u)
  stores {n} {o} q f k m by code this r =
      subst (λ x. Kept inv i (store_then i n x f k u)) (sym m)
        (changes inv i q k n (made_by i) (some (f o)) code (λ t. cc) (λ t. cc)
          (λ j ne s. not_seen j by) (λ j ne. owned j by ne) this r)

  prints :
      (x : Option GlobalData) (f : GlobalData → ℕ) (k : ℕ → Code)
      → ((v : ℕ) → Kept inv i (go_on i (k v) u))
      → Kept inv i (load_then i x f k u)
  prints none f k kept = (σ, p, inv)
  prints (some o) f k kept = kept (f o)

  absent_not_seen : {n : ℕ} (j : ℕ) → σ n ≡ absent → ¬ (Visible σ u j n)
  absent_not_seen j e (inl c) = cc
  absent_not_seen j e (inr (inl (k, r))) = cc
  absent_not_seen j e (inr (inr (k, r, t))) = cc

  awaited_not_seen :
      {g : ℕ} (j : ℕ) → σ g ≡ awaited_by i → u.waits i j ≡ false → ¬ (Visible σ u j g)
  awaited_not_seen j e w (inl c) = cc
  awaited_not_seen j e w (inr (inl (k, r))) = cc
  awaited_not_seen j e w (inr (inr (k, r, t))) =
      let same : k ≡ i = ground arith in cc (w, t, ap (λ l. u.waits l j) same)

  quiet_keeps : (j l : ℕ) → u.waits j l ≡ false → quiet i u.waits j l ≡ false
  quiet_keeps j l e = elim (ℕ_discrete l i) [
    | yes same ↦ ap (set (u.waits j) i false) same ∙ set_same (u.waits j) i false
    | no ne ↦ set_other (u.waits j) i false l ne ∙ e
  ]

  still_backed :
      (σ' : ℕ → Status)
      → ((a : ℕ) → σ a ≡ absent → σ' a ≡ σ a)
      → (a : ℕ) → u.mem a ≡ none
      → σ' a ≡ absent
  still_backed σ' same a e = same a (inv.backed a e) ∙ inv.backed a e

  pub keeps_at :
      (q : Pos) (given : Option ℕ)
      → Knows σ u i (view q)
      → Result q
      → Enabled u i given (code_of (counts i) q)
      → Kept inv i (after i given (code_of (counts i) q) u)
  unfolding after show_data
  keeps_at r0 given k r ok =
      flags inv i r1 _ (set u.in_section i true) u.gdata_lock u.waits refl
        (λ j ne. set_other u.in_section i true j ne) (λ j ne e. e) (λ j ne l. refl) (λ j l e. e)
        (set_same u.in_section i true) tt
  keeps_at r1 given k r ok =
      moves inv i (r2 u.gdata) _ refl
        (k, inl inv.now, (inv.content.0, inv.content.1, (inv.content.2, tt))) tt
  keeps_at (r2 a) given (s, vis, (o, m, (g, _))) r ok =
      loads inv i (λ g. g.issue_in_l6) _ m
        (moves inv i (r3 a o.issue_in_l6) _ refl (s, vis, (o, m, (g, refl))) tt)
  keeps_at (r3 a stat) given (s, vis, (o, m, (g, e))) r ok =
      loads inv i (λ g. g.gps_lock) _ m
        (moves inv i (r4 a stat) _ (rw (gps_of o g)) (s, vis, (o, m, (g, e))) tt)
  keeps_at (r4 a stat) given (s, vis, (o, m, (g, e))) r ok =
      loads inv i (λ g. g.lat) _ m
        (moves inv i (r5 a stat o.lat) _ refl (s, vis, (o, m, (g, (e, refl)))) tt)
  keeps_at (r5 a stat x) given (s, vis, (o, m, (g, (e, hx)))) r ok =
      loads inv i (λ g. g.longit) _ m
        (moves inv i (r6 a stat x o.longit) _ refl (s, vis, (o, m, (g, (e, hx, refl)))) tt)
  keeps_at (r6 a stat x y) given (s, vis, (o, m, (g, (e, hx, hy)))) r ok =
      let seen : Seen = record { stat = stat; place = some (x, y, o.alt) } in
      loads inv i (λ g. g.alt) _ m
        (moves inv i (r7 seen) _ refl s (snapshot_lem o stat x y g e hx hy))
  keeps_at (r7 seen) given k r ok =
      flags inv i (showing seen fields []) _ (set u.in_section i false) u.gdata_lock
        (quiet i u.waits) refl (λ j ne. set_other u.in_section i false j ne) (λ j ne e. e)
        (λ j ne l. set_other (u.waits l) i false j ne) (λ j l e. quiet_keeps j l e) tt r
  keeps_at (showing seen [] shown) given k r ok = absurd ok
  keeps_at (showing seen (f ∷ fs) shown) given k r ok =
      moves inv i (printing u.gdata seen f fs shown) _ refl tt r
  keeps_at (printing a seen f fs shown) given k r ok =
      prints (u.mem a) f _ (λ v. moves inv i (showing seen fs (shown ++ v ∷ [])) _ refl tt r)
  keeps_at w0 given k r ok =
      flags inv i w1 _ u.in_section (some i) u.waits refl (λ j ne. refl) (λ j ne e. cc (ok, e))
        (λ j ne l. refl) (λ j l e. e) refl tt
  keeps_at w1 given k r ok = moves inv i (w2 u.gdata) _ refl (k, refl) tt
  keeps_at (w2 gd) none (l, e) r ok = moves inv i w_failed _ refl l tt
  keeps_at (w2 gd) (some n) (l, e) r ok =
      let no : σ n ≡ absent = inv.backed n ok in
      changes inv i (w3 gd n) _ n (made_by i) (some zeroed) refl (λ t. cc) (λ t. cc (no, t))
        (λ j ne s v. absent_not_seen j no v)
        (λ j ne. (λ t. cc (no, t), λ t. cc (no, t), λ t. cc (no, t)))
        (l, e, set_same σ n (made_by i), (zeroed, set_same u.mem n (some zeroed), tt)) tt
  keeps_at w_failed given k r ok =
      flags inv i w_done _ u.in_section none u.waits refl (λ j ne. refl)
        (λ j ne e. absurd (ne (ground arith))) (λ j ne l. refl) (λ j l e. e) tt tt
  keeps_at (w3 gd n) given (l, e, by, (o, m, _)) r ok =
      let (c, mc, good) = inv.content in
      subst (λ x. Kept inv i (copy_then i n x (update n (retire (counts i) gd n)) u))
        (sym (ap u.mem e ∙ mc))
        (stores (w4 gd n) (λ _. c) _ m by refl
          (l, e, set_same σ n (made_by i), (c, set_same u.mem n (some c), gps_of c good)) tt)
  keeps_at (w4 gd n) given (l, e, by, (o, m, h)) r ok =
      stores (w5 gd n) (λ g. record g { lat = 129780 }) _ m by refl
        (l, e, set_same σ n (made_by i), (record o { lat = 129780 }, set_same u.mem n _, (h, refl)))
        tt
  keeps_at (w5 gd n) given (l, e, by, (o, m, (h, x))) r ok =
      stores (w6 gd n) (λ g. record g { longit = 775952 }) _ m by refl
        (
          l,
          e,
          set_same σ n (made_by i),
          (record o { longit = 775952 }, set_same u.mem n _, (h, x, refl)),
        )
        tt
  keeps_at (w6 gd n) given (l, e, by, (o, m, (h, x, y))) r ok =
      stores (w7 gd n) (λ g. record g { alt = 920 }) _ m by refl
        (
          l,
          e,
          set_same σ n (made_by i),
          (record o { alt = 920 }, set_same u.mem n _, (h, x, y, refl)),
        )
        tt
  keeps_at (w7 gd n) given (l, e, by, (o, m, (h, x, y, z))) r ok =
      stores (w8 gd n) (λ g. record g { issue_in_l6 = 1 }) _ m by refl
        (
          l,
          e,
          set_same σ n (made_by i),
          (record o { issue_in_l6 = 1 }, set_same u.mem n _, rw (h, x, y, z)),
        )
        tt
  keeps_at (w8 gd n) given (l, e, by, (o, m, h)) r ok =
      let old : σ gd ≡ current = ap σ e ∙ inv.now in
      rebuild inv i (w_unlock gd) (publish σ i gd n) (go_on i _ (record u { gdata = n })) _ refl
        refl (publish-Frame σ i gd n u _ old by l refl refl refl)
        (l, publish_old σ i gd n (apart σ old by (λ t. cc))) tt
        (still_backed (publish σ i gd n)
          (λ a no. publish_other σ i gd n a (apart σ no old (λ t. cc)) (apart σ no by (λ t. cc))))
        (set_same (set σ gd (retired_by i)) n current) (o, m, inr h)
  keeps_at (w_unlock gd) given (l, e) r ok =
      flags inv i (w_sync gd) _ u.in_section none u.waits refl (λ j ne. refl)
        (λ j ne e. absurd (ne (ground arith))) (λ j ne l. refl) (λ j l e. e) e tt
  keeps_at (w_sync gd) given k r ok =
      rebuild inv i (w_await gd) (set σ gd (awaited_by i))
        (go_on i _ (record u { waits = set u.waits i u.in_section })) _ refl refl
        (synchronize-Frame σ i gd u _ k refl refl refl refl refl) (set_same σ gd (awaited_by i)) tt
        (still_backed (set σ gd (awaited_by i))
          (λ a no. set_other σ gd _ a (apart σ no k (λ t. cc))))
        (set_other σ gd _ u.gdata (apart σ inv.now k (λ t. cc)) ∙ inv.now) inv.content
  keeps_at (w_await gd) given k r ok = moves inv i (w_free gd) _ refl (k, ok) tt
  keeps_at (w_free gd) given (e, none_left) r ok =
      changes inv i w_done _ gd absent none refl (λ t. refl) (λ t. cc)
        (λ j ne s. awaited_not_seen j e (none_left j))
        (λ j ne. (λ t. cc, λ t. cc, λ t. ne (ground arith))) tt tt
  keeps_at w_done given k r ok = absurd ok
