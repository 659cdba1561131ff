-- ===== src/Rcu/Grace.antt =====
-- Grace periods do their work: no section reads what was freed, and every read is one state.
use linux_kernel_programming.Base.{
  ℕ, ℕ_discrete, ◌≡◌, ◌≢◌, inl, refl, sym, ap, ◌∙◌, [], ◌∷◌, Option, none, some, true,
}
use mathlib.Core.Path.{subst}
use linux_kernel_programming.Base.Words.{pos}
use linux_kernel_programming.Rdwr.{GlobalData, Seen, Call, reads, writes, set}
use linux_kernel_programming.Rdwr.Threads.{set_same, set_other}
use linux_kernel_programming.Rdwr.Positions.{Snapshot, fresh}
use linux_kernel_programming.Rcu.Code.{
  Sys, Enabled, after, Reach, here, step, touched, AllLive, saw, start,
}
use linux_kernel_programming.Rcu.Driver.{method, show_data, miscdrv_rdwr_rcu_init}
use linux_kernel_programming.Rcu.Facts.{Status, absent, current, Holds, Knows}
use linux_kernel_programming.Rcu.Moves.{Kept}
use linux_kernel_programming.Rcu.Places.{
  Pos, r0, r2, r3, r4, r5, r6, showing, w0, w_free, w3, w4, w5, w6, w7, code_of, view, Result, Inv,
}
use linux_kernel_programming.Rcu.Steps.{keeps_at}

keeps :
    {counts : ℕ → ℕ} {u : Sys} (i : ℕ) (given : Option ℕ)
    → Enabled u i given (u.threads i)
    → (σ : ℕ → Status) × (p : ℕ → Pos) × Inv counts σ p u
    → (σ : ℕ → Status) × (p : ℕ → Pos) × Inv counts σ p (after i given (u.threads i) u)
keeps {counts} {u} i given ok (σ, p, inv) =
    subst (λ c. Kept inv i (after i given c u)) (sym (inv.codes i))
      (keeps_at inv i (p i) given (inv.knows i) (inv.result i)
        (subst (Enabled u i given) (inv.codes i) ok))

Reach-Inv :
    {counts : ℕ → ℕ} {s u : Sys}
    → (σ : ℕ → Status) × (p : ℕ → Pos) × Inv counts σ p s
    → Reach s u
    → (σ : ℕ → Status) × (p : ℕ → Pos) × Inv counts σ p u
Reach-Inv inv here = inv
Reach-Inv inv (step r i given ok) = keeps i given ok (Reach-Inv inv r)

abbrev count_of : Call → ℕ
count_of (reads count) = count
count_of (writes count) = count

abbrev first : Call → Pos
first (reads count) = r0
first (writes count) = w0

first_lem :
    (c : Call) (σ : ℕ → Status) (u : Sys) (j : ℕ)
    → (method c ≡ code_of (count_of c) (first c)) × Knows σ u j (view (first c)) × Result (first c)
first_lem (reads count) σ u j = (refl, tt, tt)
first_lem (writes count) σ u j = (refl, tt, tt)

only : ℕ → ℕ → Status
only a = set (λ b. absent) a current

backed_at_start : (a b : ℕ) → set (λ p. none) a (some fresh) b ≡ none → only a b ≡ absent
unfolding only
backed_at_start a b e = elim (ℕ_discrete b a) [
  | yes same ↦
      let at_a = set_same (λ p. none) a (some fresh) in
      let gone = subst (λ c. set (λ p. none) a (some fresh) c ≡ none) same e in cc
  | no other ↦ set_other (λ b. absent) a current b other
]

start-Inv :
    (a : ℕ) (calls : ℕ → Call)
    → Inv
        (λ i. count_of (calls i))
        (only a)
        (λ i. first (calls i))
        (start a fresh (λ i. method (calls i)))
unfolding only
start-Inv a calls = record {
  codes = λ j. (first_lem (calls j) (only a) (start a fresh (λ i. method (calls i))) j).0;
  knows = λ j. (first_lem (calls j) (only a) (start a fresh (λ i. method (calls i))) j).1;
  result = λ j. (first_lem (calls j) (only a) (start a fresh (λ i. method (calls i))) j).2;
  backed = λ b e. backed_at_start a b e;
  now = set_same (λ b. absent) a current;
  content = (fresh, set_same (λ p. none) a (some fresh), inl refl);
}

live : (u : Sys) (a : ℕ) {P : GlobalData → Type 0} → Holds u a P → u.mem a ≢ none
live u a (o, m, p) e = cc

module _ {counts : ℕ → ℕ} {σ : ℕ → Status} {p : ℕ → Pos} {u : Sys} (inv : Inv counts σ p u)
    (i : ℕ) where
  touched_at : (q : Pos) → Knows σ u i (view q) → AllLive u.mem (touched (code_of (counts i) q))
  unfolding show_data
  touched_at (r2 a) (s, vis, h) = (live u a h, tt)
  touched_at (r3 a stat) (s, vis, h) = (live u a h, tt)
  touched_at (r4 a stat) (s, vis, h) = (live u a h, tt)
  touched_at (r5 a stat x) (s, vis, h) = (live u a h, tt)
  touched_at (r6 a stat x y) (s, vis, h) = (live u a h, tt)
  touched_at (w3 gd n) (l, e, by, h) =
      (λ t. live u u.gdata inv.content (ap u.mem (sym e) ∙ t), (live u n h, tt))
  touched_at (w4 gd n) (l, e, by, h) = (live u n h, tt)
  touched_at (w5 gd n) (l, e, by, h) = (live u n h, tt)
  touched_at (w6 gd n) (l, e, by, h) = (live u n h, tt)
  touched_at (w7 gd n) (l, e, by, h) = (live u n h, tt)
  touched_at (w_free gd) (e, none_left) = (λ t. cc (inv.backed gd t, e), tt)
  touched_at (showing seen [] shown) k = tt
  touched_at (showing seen (f ∷ fs) shown) k = tt
  touched_at q k = tt

  saw_at :
      (q : Pos) (seen : Seen) → Result q → saw (code_of (counts i) q) ≡ some seen → Snapshot seen
  unfolding show_data
  saw_at (showing seen' [] shown) seen r e = let same : seen' ≡ seen = cc in subst Snapshot same r
  saw_at (showing seen' (f ∷ fs) shown) seen r e = cc
  saw_at q seen r e = cc

module _ {g : GlobalData} (r a : ℕ) (calls : ℕ → Call) (u : Sys) (i : ℕ)
    (loaded : (miscdrv_rdwr_rcu_init (pos r) true).gd ≡ some g)
    (reached : Reach (start a g (λ i. method (calls i))) u) where
  invariant : (σ : ℕ → Status) × (p : ℕ → Pos) × Inv (λ i. count_of (calls i)) σ p u
  invariant =
      let same : g ≡ fresh = cc in
      Reach-Inv (only a, (λ j. first (calls j)), start-Inv a calls)
        (subst (λ g. Reach (start a g (λ i. method (calls i))) u) same reached)

  -- Once init has succeeded, and with any number of threads in the read and the write method, in any
  -- interleaving of their steps and with any addresses from `kzalloc`: an object that a thread is
  -- about to load from, copy, store to or free has not been freed, except in SHOW_DATA, which loads
  -- through `gdata` outside a read-side section.
  pub touched-AllLive : AllLive u.mem (touched (u.threads i))
  touched-AllLive =
      let (σ, p, inv) = invariant in
      subst (λ c. AllLive u.mem (touched c)) (sym (inv.codes i))
        (touched_at inv i (p i) (inv.knows i))

  -- Once init has succeeded, and with any number of threads in the read and the write method, in any
  -- interleaving of their steps and with any addresses from `kzalloc`: what `reader` comes back with
  -- is one state of the object, before or after an update, with `x`, `y` and `z` read.
  pub read_miscdrv_rdwr-Snapshot : (seen : Seen) → saw (u.threads i) ≡ some seen → Snapshot seen
  read_miscdrv_rdwr-Snapshot seen e =
      let (σ, p, inv) = invariant in
      saw_at inv i (p i) seen (inv.result i) (ap saw (sym (inv.codes i)) ∙ e)
