-- ===== src/Rdwr/Steps.antt =====
-- The invariant after a step of one thread: of a load, of a store, and of any other step.
use linux_kernel_programming.Base.{ℕ, ℕ_discrete, ◌≡◌, ◌≢◌, refl, sym, ap, ◌∙◌}
use mathlib.Core.Path.{subst}
use linux_kernel_programming.Rdwr.Code.{GlobalData, Code, Hold, unheld, writing, Sys, set}
use linux_kernel_programming.Rdwr.Threads.{set_same, set_other, set_all}
use linux_kernel_programming.Rdwr.Positions.{Good, Pos, code_of, held, Local, Local-unheld, Inv}

module _ {counts : ℕ → ℕ} {p : ℕ → Pos} {u : Sys} (inv : Inv counts p u) (i : ℕ) where
  -- Thread `i` moves to `q`, and the lock and the object may change with it.
  pub rebuild :
      (q : Pos) (g : GlobalData) (h : ℕ → Hold) (c : Code)
      → c ≡ code_of (counts i) q
      → ((j : ℕ) → h j ≡ set u.holds i (held q) j)
      → g.gps_lock ≡ 1
      → Local q g
      → ((j : ℕ) → j ≢ i → Local (p j) g)
      → (held q ≡ writing → (j : ℕ) → j ≢ i → held (p j) ≡ unheld)
      → ((j : ℕ) → j ≢ i → held (p j) ≡ writing → held q ≡ unheld)
      → (held q ≢ writing → ((j : ℕ) → j ≢ i → held (p j) ≢ writing) → Good g)
      → Inv counts (set p i q) (record { gd = g; holds = h; threads = set u.threads i c })
  rebuild q g h c code holds gps this others mine theirs good = record {
    codes = λ j.
        set_all (λ k r. set u.threads i c k ≡ code_of (counts k) r) p i q
          (set_same u.threads i c ∙ code) (λ k ne. set_other u.threads i c k ne ∙ inv.codes k) j;
    holds = λ j.
        set_all (λ k r. h k ≡ held r) p i q (holds i ∙ set_same u.holds i (held q))
          (λ k ne. holds k ∙ set_other u.holds i (held q) k ne ∙ inv.holds k) j;
    locals = λ j. set_all (λ k r. Local r g) p i q this others j;
    alone = λ a b ne w.
        set_all (λ k r. (l : ℕ) → k ≢ l → held r ≡ writing → held (set p i q l) ≡ unheld) p i q
          (λ l ne w.
            set_all (λ m r. i ≢ m → held r ≡ unheld) p i q (λ ne. absurd (ne refl))
              (λ m ne' _. mine w m ne') l ne)
          (λ k nei l nkl w.
            set_all (λ m r. k ≢ m → held r ≡ unheld) p i q (λ _. theirs k nei w)
              (λ m _ nkm. inv.alone k m nkm w) l nkl)
          a b ne w;
    good = λ none_writes.
        good (subst (λ r. held r ≢ writing) (set_same p i q) (none_writes i))
          (λ j ne. subst (λ r. held r ≢ writing) (set_other p i q j ne) (none_writes j));
    locked = gps;
  }

  unmoved : (h : Hold) → h ≡ u.holds i → (j : ℕ) → u.holds j ≡ set u.holds i h j
  unmoved h e = set_all (λ j x. u.holds j ≡ x) u.holds i h (sym e) (λ j ne. refl)

  module _ {q : Pos} (at : p i ≡ q) where
    held_at : u.holds i ≡ held q
    held_at = inv.holds i ∙ ap held at

    pub Local-at : Local q u.gd
    Local-at = subst (λ r. Local r u.gd) at (inv.locals i)

    others_free : held q ≡ writing → (j : ℕ) → j ≢ i → held (p j) ≡ unheld
    others_free w j ne = inv.alone i j (λ e. ne (sym e)) (ap held at ∙ w)

    theirs_free : (j : ℕ) → j ≢ i → held (p j) ≡ writing → held q ≡ unheld
    theirs_free j ne w = sym (ap held at) ∙ inv.alone j i ne w

    Good-at : held q ≢ writing → ((j : ℕ) → j ≢ i → held (p j) ≢ writing) → Good u.gd
    Good-at nw others = inv.good (λ j. elim (ℕ_discrete j i) [
      | yes e ↦ λ w. nw (sym (ap held at) ∙ sym (ap (λ k. held (p k)) e) ∙ w)
      | no ne ↦ others j ne
    ])

    -- A load
    pub loads :
        (q' : Pos) (c : Code)
        → held q' ≡ held q
        → held q ≢ writing
        → c ≡ code_of (counts i) q'
        → Local q' u.gd
        → Inv counts (set p i q') (record u { threads = set u.threads i c })
    loads q' c same nw code this =
        rebuild q' u.gd u.holds c code (unmoved (held q') (same ∙ sym held_at)) inv.locked this
          (λ j ne. inv.locals j) (λ w. others_free (sym same ∙ w))
          (λ j ne w. same ∙ theirs_free j ne w) (λ _. Good-at nw)

    -- A store
    pub stores :
        (q' : Pos) (g : GlobalData)
        → held q ≡ writing
        → held q' ≡ writing
        → g.gps_lock ≡ 1
        → Local q' g
        → Inv counts
            (set p i q')
            (record u { gd = g; threads = set u.threads i (code_of (counts i) q') })
    stores q' g w w' gps this =
        rebuild q' g u.holds (code_of (counts i) q') refl
          (unmoved (held q') (w' ∙ sym w ∙ sym held_at)) gps this
          (λ j ne. Local-unheld (p j) u.gd g (others_free w j ne) (inv.locals j))
          (λ _. others_free w) (λ j ne wj. cc (others_free w j ne, wj)) (λ nw. absurd (nw w'))
