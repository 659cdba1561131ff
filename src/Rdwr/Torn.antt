-- ===== src/Rdwr/Torn.antt =====
-- Without locks: exactly which mixtures of old and new fields `reader` can come back with.
use linux_kernel_programming.Base.{
  ℕ, ◌≡◌, ◌↔◌, inl, inr, refl, sym, ap, ◌∙◌, List, [], ◌∷◌, ◌++◌, Option, some, ◌==◌, if◌then◌else◌,
  Bool, true, false, ◌&&◌, replicate,
}
use mathlib.Core.Path.{subst}
use linux_kernel_programming.Base.Words.{pos}
use linux_kernel_programming.Rdwr.Code.{
  GlobalData, Seen, Code, load, store, show_data, Sys, Enabled, after, Reach, here, step, Call,
  reads, writes, start, saw,
}
use linux_kernel_programming.Rdwr.NoLocks.{method, miscdrv_rdwr_nolocks_init}
use linux_kernel_programming.Rdwr.Positions.{fresh}
use linux_kernel_programming.Rdwr.Racy.{OldOr, Plausible}
use linux_kernel_programming.Rdwr.RacySteps.{Reach-Inv, count_of, first, start-Inv, saw_at}

-- A run that ends with thread `i` having seen `seen`.
pub record Witnessed (g : GlobalData) (seen : Seen) : Type 0 where
  pub calls : ℕ → Call
  pub end : Sys
  pub reached : Reach (start g (λ i. method (calls i))) end
  pub i : ℕ
  pub saw_it : saw (end.threads i) ≡ some seen

-- Threads that run in a given order, as long as none has returned.
abbrev unfinished : Code → Bool
unfinished (load f k) = true
unfinished (store f k) = true
unfinished _ = false

abbrev run : List ℕ → Sys → Sys
run [] s = s
run (i ∷ is) s = run is (after i (s.threads i) s)

abbrev all_unfinished : List ℕ → Sys → Bool
all_unfinished [] s = true
all_unfinished (i ∷ is) s = unfinished (s.threads i) && all_unfinished is (after i (s.threads i) s)

Enabled-unfinished : (c : Code) (s : Sys) → unfinished c ≡ true → Enabled s c
Enabled-unfinished (load f k) s e = tt
Enabled-unfinished (store f k) s e = tt
Enabled-unfinished c s e = cc

and_left : (a b : Bool) → (a && b) ≡ true → a ≡ true
and_left true b e = refl
and_left false b e = e

and_right : (a b : Bool) → (a && b) ≡ true → b ≡ true
and_right true b e = e
and_right false b e = cc

run-Reach :
    {s : Sys} (is : List ℕ) (u : Sys) → Reach s u → all_unfinished is u ≡ true → Reach s (run is u)
run-Reach [] u r e = r
run-Reach (i ∷ is) u r e =
    run-Reach is (after i (u.threads i) u)
      (step r i (Enabled-unfinished (u.threads i) u (and_left _ _ e))) (and_right _ _ e)

-- Thread 1 writes, all others read.
abbrev one_writer : ℕ → Call
one_writer i = if i == 1 then writes 5 else reads 8

-- The reader loads `stat` after `o` stores of the writer; before it loads `x`, `y` and `z` there are
-- `a`, `b` and `c` more.
abbrev schedule : ℕ → ℕ → ℕ → ℕ → List ℕ
schedule o a b c =
    replicate o 1
    ++ 0 ∷ 0 ∷ replicate a 1
    ++ 0 ∷ replicate b 1
    ++ 0 ∷ replicate c 1
    ++ replicate 6 0

begin : Sys
begin = start fresh (λ i. method (one_writer i))

witnessed :
    (is : List ℕ) (seen : Seen)
    → all_unfinished is begin ≡ true
    → saw ((run is begin).threads 0) ≡ some seen
    → Witnessed fresh seen
unfolding begin
witnessed is seen ok e = record {
  calls = one_writer;
  end = run is begin;
  reached = run-Reach is begin here ok;
  i = 0;
  saw_it = e;
}

mixed :
    (x y z : ℕ)
    → OldOr 129780 x
    → OldOr 775952 y
    → OldOr 920 z
    → Witnessed fresh (record { stat = 0; place = some (x, y, z) })
unfolding begin after show_data
mixed x y z (inl ex) (inl ey) (inl ez) = rw (ex, ey, ez) (witnessed (schedule 0 0 0 0) _ refl refl)
mixed x y z (inl ex) (inl ey) (inr ez) = rw (ex, ey, ez) (witnessed (schedule 0 0 0 3) _ refl refl)
mixed x y z (inl ex) (inr ey) (inl ez) = rw (ex, ey, ez) (witnessed (schedule 0 0 2 0) _ refl refl)
mixed x y z (inl ex) (inr ey) (inr ez) = rw (ex, ey, ez) (witnessed (schedule 0 0 2 1) _ refl refl)
mixed x y z (inr ex) (inl ey) (inl ez) = rw (ex, ey, ez) (witnessed (schedule 0 1 0 0) _ refl refl)
mixed x y z (inr ex) (inl ey) (inr ez) = rw (ex, ey, ez) (witnessed (schedule 0 1 0 2) _ refl refl)
mixed x y z (inr ex) (inr ey) (inl ez) = rw (ex, ey, ez) (witnessed (schedule 0 1 1 0) _ refl refl)
mixed x y z (inr ex) (inr ey) (inr ez) = rw (ex, ey, ez) (witnessed (schedule 0 1 1 1) _ refl refl)

seen_ext :
    (seen : Seen) {stat : ℕ} {place : Option (ℕ × ℕ × ℕ)}
    → seen.stat ≡ stat
    → seen.place ≡ place
    → record { stat = stat; place = place } ≡ seen
seen_ext seen {stat} {place} s e =
    ap (λ a. record { stat = a; place = place }) (sym s)
    ∙ ap (λ b. record { stat = seen.stat; place = b }) (sym e)

if_Plausible : (seen : Seen) → Plausible seen → Witnessed fresh seen
unfolding begin after show_data
if_Plausible seen (x, y, z, e, inl (s, ox, oy, oz)) =
    let same : record { stat = 0; place = some (x, y, z) } ≡ seen = seen_ext seen s e in
    subst (Witnessed fresh) same (mixed x y z ox oy oz)
if_Plausible seen (x, y, z, e, inr (s, ex, ey, ez)) =
    let same : record { stat = 1; place = some (129780, 775952, 920) } ≡ seen =
      seen_ext seen s (rw (e, ex, ey, ez)) in
    subst (Witnessed fresh) same (witnessed (schedule 4 0 0 0) _ refl refl)

only_Plausible : (seen : Seen) → Witnessed fresh seen → Plausible seen
only_Plausible seen w =
    let (p, inv) = Reach-Inv (λ j. first (w.calls j), start-Inv w.calls) w.reached in
    saw_at (count_of (w.calls w.i)) (p w.i) w.end.gd seen (inv.locals w.i)
      (ap saw (sym (inv.codes w.i)) ∙ w.saw_it)

-- Once init has succeeded, with threads in the read and the write method in any interleaving of
-- their loads and stores, each thread's in the order of its program: `reader` can come back with a
-- mixture of old and new fields, and with every such mixture, as long as `stat` is 0; with `stat` 1
-- all fields are the new ones.
pub reader-Plausible :
    {g : GlobalData} (r : ℕ) (seen : Seen)
    → (miscdrv_rdwr_nolocks_init (pos r) true).gd ≡ some g
    → Witnessed g seen ↔ Plausible seen
reader-Plausible {g} r seen loaded =
    let same : fresh ≡ g = cc in
    subst (λ g. Witnessed g seen ↔ Plausible seen) same (only_Plausible seen, if_Plausible seen)
