-- ===== src/Rcu/Moves.antt =====
-- The invariant after a step of one thread.
use linux_kernel_programming.Base.{
  ℕ, ℕ_discrete, ◌≡◌, ◌≢◌, refl, sym, ap, ◌∙◌, Option, none, some, Bool, true, false,
}
use mathlib.Core.Path.{subst}
use linux_kernel_programming.Rdwr.{GlobalData, set}
use linux_kernel_programming.Rdwr.Threads.{set_same, set_other, set_all}
use linux_kernel_programming.Rdwr.Positions.{Good}
use linux_kernel_programming.Rcu.Code.{Code, Sys, go_on, load_then}
use linux_kernel_programming.Rcu.Facts.{
  Status, absent, current, made_by, retired_by, awaited_by, Visible, Holds, Knows,
}
use linux_kernel_programming.Rcu.Frame.{Frame, Frame-Knows, still-Frame, point-Frame}
use linux_kernel_programming.Rcu.Places.{Pos, code_of, view, Result, Inv}

module _ {counts : ℕ → ℕ} {σ : ℕ → Status} {p : ℕ → Pos} {u : Sys} (inv : Inv counts σ p u)
    (i : ℕ) where
  abbrev pub Kept : Sys → Type 0
  Kept v = (σ' : ℕ → Status) × (p' : ℕ → Pos) × Inv counts σ' p' v

  pub rebuild :
      (q : Pos) (σ' : ℕ → Status) (v : Sys) (c : Code)
      → c ≡ code_of (counts i) q
      → v.threads ≡ set u.threads i c
      → ((j : ℕ) → j ≢ i → Frame σ u σ' v j)
      → Knows σ' v i (view q)
      → Result q
      → ((a : ℕ) → v.mem a ≡ none → σ' a ≡ absent)
      → σ' v.gdata ≡ current
      → Holds v v.gdata Good
      → Kept v
  rebuild q σ' v c code threads frame this result backed now content = (
    σ',
    set p i q,
    record {
      codes = λ j.
          ap (λ f. f j) threads
          ∙ set_all (λ k r. set u.threads i c k ≡ code_of (counts k) r) p i q
              (set_same u.threads i c ∙ code) (λ k ne. set_other u.threads i c k ne ∙ inv.codes k)
              j;
      knows =
          set_all (λ k r. Knows σ' v k (view r)) p i q this
            (λ k ne. Frame-Knows (view (p k)) (frame k ne) (inv.knows k));
      result = set_all (λ k r. Result r) p i q result (λ k ne. inv.result k);
      backed = backed;
      now = now;
      content = content;
    },
  )

  -- Nothing but the thread's place changes.
  pub moves :
      (q : Pos) (c : Code)
      → c ≡ code_of (counts i) q
      → Knows σ (go_on i c u) i (view q)
      → Result q
      → Kept (go_on i c u)
  moves q c code this result =
      rebuild q σ (go_on i c u) c code refl
        (λ j ne. still-Frame refl refl refl (λ e. e) (λ k. refl) (λ l e. e)) this result inv.backed
        inv.now inv.content

  pub loads :
      {a : ℕ} {o : GlobalData} (f : GlobalData → ℕ) (k : ℕ → Code)
      → u.mem a ≡ some o
      → Kept (go_on i (k (f o)) u)
      → Kept (load_then i (u.mem a) f k u)
  loads f k m kept = subst (λ x. Kept (load_then i x f k u)) (sym m) kept

  -- Only the flags of threads change.
  pub flags :
      (q : Pos) (c : Code) (section : ℕ → Bool) (lock : Option ℕ) (waits : ℕ → ℕ → Bool)
      → c ≡ code_of (counts i) q
      → ((j : ℕ) → j ≢ i → section j ≡ u.in_section j)
      → ((j : ℕ) → j ≢ i → u.gdata_lock ≡ some j → lock ≡ some j)
      → ((j : ℕ) → j ≢ i → (k : ℕ) → waits k j ≡ u.waits k j)
      → ((j l : ℕ) → u.waits j l ≡ false → waits j l ≡ false)
      → Knows σ
          (record u {
            in_section = section;
            gdata_lock = lock;
            waits = waits;
            threads = set u.threads i c;
          })
          i
          (view q)
      → Result q
      → Kept (record u {
        in_section = section;
        gdata_lock = lock;
        waits = waits;
        threads = set u.threads i c;
      })
  flags q c section lock waits code s l w o this result =
      rebuild q σ
        (record u {
          in_section = section;
          gdata_lock = lock;
          waits = waits;
          threads = set u.threads i c;
        })
        c code refl (λ j ne. still-Frame refl refl (s j ne) (l j ne) (w j ne) (λ m. o j m)) this
        result inv.backed inv.now inv.content

  backed_set :
      (n : ℕ) (s : Status) (x : Option GlobalData)
      → (x ≡ none → s ≡ absent)
      → (a : ℕ) → set u.mem n x a ≡ none
      → set σ n s a ≡ absent
  backed_set n s x h a e = elim (ℕ_discrete a n) [
    | yes same ↦
        ap (set σ n s) same
        ∙ set_same σ n s
        ∙ h (sym (set_same u.mem n x) ∙ sym (ap (set u.mem n x) same) ∙ e)
    | no ne ↦ set_other σ n s a ne ∙ inv.backed a (sym (set_other u.mem n x a ne) ∙ e)
  ]

  -- The object at `n`, which is the thread's own, and its status change.
  pub changes :
      (q : Pos) (c : Code) (n : ℕ) (s : Status) (x : Option GlobalData)
      → c ≡ code_of (counts i) q
      → (x ≡ none → s ≡ absent)
      → σ n ≢ current
      → ((j : ℕ) → j ≢ i → u.in_section j ≡ true → ¬ (Visible σ u j n))
      → ((j : ℕ) → j ≢ i → (σ n ≢ made_by j) × (σ n ≢ retired_by j) × (σ n ≢ awaited_by j))
      → Knows (set σ n s) (record u { mem = set u.mem n x; threads = set u.threads i c }) i (view q)
      → Result q
      → Kept (record u { mem = set u.mem n x; threads = set u.threads i c })
  changes q c n s x code h nc hidden others this result =
      let apart : u.gdata ≢ n = λ e. nc (sym (ap σ e) ∙ inv.now) in
      rebuild q (set σ n s) (record u { mem = set u.mem n x; threads = set u.threads i c }) c code
        refl
        (λ j ne.
          point-Frame n s x refl refl refl refl refl (hidden j ne) (others j ne).0 (others j ne).1
            (others j ne).2)
        this result (backed_set n s x h) (set_other σ n s u.gdata apart ∙ inv.now)
        (inv.content.0, set_other u.mem n x u.gdata apart ∙ inv.content.1, inv.content.2)
