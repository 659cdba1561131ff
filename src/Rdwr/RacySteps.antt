-- ===== src/Rdwr/RacySteps.antt =====
-- Without locks: what all threads know together, kept by every step.
use linux_kernel_programming.Base.{ℕ, ◌≡◌, inl, inr, refl, sym, ◌∙◌, [], ◌∷◌, ◌++◌, some}
use mathlib.Core.Path.{subst}
use linux_kernel_programming.Rdwr.Code.{
  GlobalData, Seen, Code, show_data, fields, Sys, set, Enabled, after, Reach, here, step, Call,
  reads, writes, start, saw,
}
use linux_kernel_programming.Rdwr.Threads.{set_same, set_other, set_all}
use linux_kernel_programming.Rdwr.NoLocks.{method}
use linux_kernel_programming.Rdwr.Positions.{fresh}
use linux_kernel_programming.Rdwr.Racy.{
  Pos, r0, r1, r2, r3, r4, showing, w0, w1, w2, w3, w4, code_of, Plausible, Sane, Local, Later,
  Begun-Later, Local-Later, Read_lem, Plausible_lem,
}

lat-Sane : {g : GlobalData} → Sane g → Sane (record g { lat = 129780 })
lat-Sane {g} s = record {
  lat_is = inr refl;
  longit_is = s.longit_is;
  alt_is = s.alt_is;
  issue =
      Begun-Later g.issue_in_l6 g (record g { lat = 129780 }) (λ e. refl, λ e. e, λ e. e) s.issue;
  locked = s.locked;
}

longit-Sane : {g : GlobalData} → Sane g → Sane (record g { longit = 775952 })
longit-Sane {g} s = record {
  lat_is = s.lat_is;
  longit_is = inr refl;
  alt_is = s.alt_is;
  issue =
      Begun-Later g.issue_in_l6 g (record g { longit = 775952 }) (λ e. e, λ e. refl, λ e. e)
        s.issue;
  locked = s.locked;
}

alt-Sane : {g : GlobalData} → Sane g → Sane (record g { alt = 920 })
alt-Sane {g} s = record {
  lat_is = s.lat_is;
  longit_is = s.longit_is;
  alt_is = inr refl;
  issue = Begun-Later g.issue_in_l6 g (record g { alt = 920 }) (λ e. e, λ e. e, λ e. refl) s.issue;
  locked = s.locked;
}

pub record Inv (counts : ℕ → ℕ) (p : ℕ → Pos) (u : Sys) : Type 0 where
  pub codes : (j : ℕ) → u.threads j ≡ code_of (counts j) (p j)
  pub locals : (j : ℕ) → Local (p j) u.gd
  pub sane : Sane u.gd

module _ {counts : ℕ → ℕ} {p : ℕ → Pos} {u : Sys} (inv : Inv counts p u) (i : ℕ) where
  abbrev Kept : Sys → Type 0
  Kept v = (p' : ℕ → Pos) × Inv counts p' v

  moves :
      (q : Pos) (g : GlobalData) (c : Code)
      → c ≡ code_of (counts i) q
      → Local q g
      → Sane g
      → Later u.gd g
      → Kept (record u { gd = g; threads = set u.threads i c })
  moves q g c code this sane later = (
    set p i q,
    record {
      codes = λ j.
          set_all (λ k r. set u.threads i c k ≡ code_of (counts k) r) p i q
            (set_same u.threads i c ∙ code) (λ k ne. set_other u.threads i c k ne ∙ inv.codes k) j;
      locals = λ j.
          set_all (λ k r. Local r g) p i q this
            (λ k ne. Local-Later (p k) u.gd g later (inv.locals k)) j;
      sane = sane;
    },
  )

  unchanged : Later u.gd u.gd
  unchanged = (λ e. e, λ e. e, λ e. e)

  keeps_at :
      (q : Pos)
      → Local q u.gd
      → Enabled u (code_of (counts i) q)
      → Kept (after i (code_of (counts i) q) u)
  unfolding after show_data
  keeps_at r0 l ok = moves (r1 u.gd.issue_in_l6) u.gd _ refl inv.sane.issue inv.sane unchanged
  keeps_at (r1 stat) l ok = moves (r2 stat) u.gd _ (rw (inv.sane.locked)) l inv.sane unchanged
  keeps_at (r2 stat) l ok =
      moves (r3 stat u.gd.lat) u.gd _ refl
        (l, Read_lem stat _ _ u.gd l (λ up. up.0) inv.sane.lat_is) inv.sane unchanged
  keeps_at (r3 stat x) (b, hx) ok =
      moves (r4 stat x u.gd.longit) u.gd _ refl
        (b, hx, Read_lem stat _ _ u.gd b (λ up. up.1) inv.sane.longit_is) inv.sane unchanged
  keeps_at (r4 stat x y) (b, hx, hy) ok =
      moves (showing (record { stat = stat; place = some (x, y, u.gd.alt) }) fields []) u.gd _ refl
        (Plausible_lem stat x y u.gd.alt u.gd b hx hy
          (Read_lem stat _ _ u.gd b (λ up. up.2) inv.sane.alt_is))
        inv.sane unchanged
  keeps_at (showing seen [] shown) l ok = absurd ok
  keeps_at (showing seen (f ∷ fs) shown) l ok =
      moves (showing seen fs (shown ++ f u.gd ∷ [])) u.gd _ refl l inv.sane unchanged
  keeps_at w0 l ok =
      moves w1 (record u.gd { lat = 129780 }) _ refl refl (lat-Sane inv.sane)
        (λ e. refl, λ e. e, λ e. e)
  keeps_at w1 l ok =
      moves w2 (record u.gd { longit = 775952 }) _ refl (l, refl) (longit-Sane inv.sane)
        (λ e. e, λ e. refl, λ e. e)
  keeps_at w2 (x, y) ok =
      moves w3 (record u.gd { alt = 920 }) _ refl (x, y, refl) (alt-Sane inv.sane)
        (λ e. e, λ e. e, λ e. refl)
  keeps_at w3 up ok =
      moves w4 (record u.gd { issue_in_l6 = 1 }) _ refl tt
        (record {
          lat_is = inv.sane.lat_is;
          longit_is = inv.sane.longit_is;
          alt_is = inv.sane.alt_is;
          issue = inr (refl, up);
          locked = inv.sane.locked;
        })
        unchanged
  keeps_at w4 l ok = absurd ok

  keeps : Enabled u (u.threads i) → Kept (after i (u.threads i) u)
  keeps ok =
      subst (λ c. Kept (after i c u)) (sym (inv.codes i))
        (keeps_at (p i) (inv.locals i) (subst (Enabled u) (inv.codes i) ok))

pub Reach-Inv :
    {counts : ℕ → ℕ} {s u : Sys}
    → (p : ℕ → Pos) × Inv counts p s
    → Reach s u
    → (p : ℕ → Pos) × Inv counts p u
Reach-Inv inv here = inv
Reach-Inv inv (step r i ok) = keeps (Reach-Inv inv r).1 i ok

abbrev pub count_of : Call → ℕ
count_of (reads count) = count
count_of (writes count) = count

abbrev pub first : Call → Pos
first (reads count) = r0
first (writes count) = w0

first_lem : (c : Call) → (method c ≡ code_of (count_of c) (first c)) × Local (first c) fresh
first_lem (reads count) = (refl, tt)
first_lem (writes count) = (refl, tt)

pub start-Inv :
    (calls : ℕ → Call)
    → Inv (λ i. count_of (calls i)) (λ i. first (calls i)) (start fresh (λ i. method (calls i)))
start-Inv calls = record {
  codes = λ j. (first_lem (calls j)).0;
  locals = λ j. (first_lem (calls j)).1;
  sane = record {
    lat_is = inl refl;
    longit_is = inl refl;
    alt_is = inl refl;
    issue = inl refl;
    locked = refl;
  };
}

pub saw_at :
    (n : ℕ) (q : Pos) (g : GlobalData) (seen : Seen)
    → Local q g
    → saw (code_of n q) ≡ some seen
    → Plausible seen
unfolding show_data
saw_at n (showing seen' [] shown) g seen l e =
    let same : seen' ≡ seen = cc in subst Plausible same l
saw_at n (showing seen' (f ∷ fs) shown) g seen l e = cc
saw_at n q g seen l e = cc
