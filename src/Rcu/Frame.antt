-- ===== src/Rcu/Frame.antt =====
-- What a step of one thread leaves to thread `j`, and that `j` then knows what it knew.
use linux_kernel_programming.Base.{ℕ, ◌≡◌, ◌≢◌, inl, inr, sym, ap, ◌∙◌, Option, some, true, false}
use mathlib.Core.Path.{subst}
use linux_kernel_programming.Rdwr.{GlobalData, set}
use linux_kernel_programming.Rdwr.Threads.{set_other}
use linux_kernel_programming.Rcu.Code.{Sys}
use linux_kernel_programming.Rcu.Facts.{
  Status, made_by, retired_by, awaited_by, Visible, View, idle, entered, locking, looking, chosen,
  making, published, retiring, pausing, freeing, Knows,
}

pub record Frame (σ : ℕ → Status) (u : Sys) (σ' : ℕ → Status) (u' : Sys) (j : ℕ) : Type 0 where
  pub section : u.in_section j ≡ true → u'.in_section j ≡ true
  pub visible :
      (a : ℕ) → u.in_section j ≡ true → Visible σ u j a → Visible σ' u' j a × (u'.mem a ≡ u.mem a)
  pub made : (a : ℕ) → σ a ≡ made_by j → (σ' a ≡ made_by j) × (u'.mem a ≡ u.mem a)
  pub lock : u.gdata_lock ≡ some j → (u'.gdata_lock ≡ some j) × (u'.gdata ≡ u.gdata)
  pub retired : (a : ℕ) → σ a ≡ retired_by j → σ' a ≡ retired_by j
  pub awaited : (a : ℕ) → σ a ≡ awaited_by j → σ' a ≡ awaited_by j
  pub over : (l : ℕ) → u.waits j l ≡ false → u'.waits j l ≡ false

pub Frame-Knows :
    {σ σ' : ℕ → Status} {u u' : Sys} {j : ℕ} (v : View)
    → Frame σ u σ' u' j
    → Knows σ u j v
    → Knows σ' u' j v
Frame-Knows idle f k = tt
Frame-Knows entered f k = f.section k
Frame-Knows locking f k = (f.lock k).0
Frame-Knows (looking a P) f (s, vis, (o, m, p)) =
    let (vis', same) = f.visible a s vis in (f.section s, vis', (o, same ∙ m, p))
Frame-Knows (chosen g) f (l, e) = let (l', same) = f.lock l in (l', e ∙ sym same)
Frame-Knows (making g n P) f (l, e, by, (o, m, p)) =
    let (l', same) = f.lock l in
    let (by', kept) = f.made n by in (l', e ∙ sym same, by', (o, kept ∙ m, p))
Frame-Knows (published g) f (l, e) = ((f.lock l).0, f.retired g e)
Frame-Knows (retiring g) f e = f.retired g e
Frame-Knows (pausing g) f e = f.awaited g e
Frame-Knows (freeing g) f (e, none_left) = (f.awaited g e, λ l. f.over l (none_left l))

-- A step that changes neither memory nor `gdata` nor the statuses, nor a flag of `j`.
pub still-Frame :
    {σ : ℕ → Status} {u u' : Sys} {j : ℕ}
    → u'.mem ≡ u.mem
    → u'.gdata ≡ u.gdata
    → u'.in_section j ≡ u.in_section j
    → (u.gdata_lock ≡ some j → u'.gdata_lock ≡ some j)
    → ((i : ℕ) → u'.waits i j ≡ u.waits i j)
    → ((l : ℕ) → u.waits j l ≡ false → u'.waits j l ≡ false)
    → Frame σ u σ u' j
still-Frame {σ} {u} {u'} {j} m g s lock w over = record {
  section = λ e. s ∙ e;
  visible = λ a _ v. (see v, ap (λ f. f a) m);
  made = λ a e. (e, ap (λ f. f a) m);
  lock = λ e. (lock e, g);
  retired = λ a e. e;
  awaited = λ a e. e;
  over = over;
}
  where
    see : {a : ℕ} → Visible σ u j a → Visible σ u' j a
    see (inl e) = inl e
    see (inr (inl r)) = inr (inl r)
    see (inr (inr (i, e, t))) = inr (inr (i, e, w i ∙ t))

-- A change of the object at `n` and of its status, where `n` is nothing to `j`.
pub point-Frame :
    {σ : ℕ → Status} {u u' : Sys} {j : ℕ} (n : ℕ) (s : Status) (x : Option GlobalData)
    → u'.mem ≡ set u.mem n x
    → u'.gdata ≡ u.gdata
    → u'.in_section ≡ u.in_section
    → u'.gdata_lock ≡ u.gdata_lock
    → u'.waits ≡ u.waits
    → (u.in_section j ≡ true → ¬ (Visible σ u j n))
    → σ n ≢ made_by j
    → σ n ≢ retired_by j
    → σ n ≢ awaited_by j
    → Frame σ u (set σ n s) u' j
point-Frame {σ} {u} {u'} {j} n s x m g sec lk w hidden nm nr na = record {
  section = λ e. ap (λ f. f j) sec ∙ e;
  visible = λ a e v. (
    see a (λ same. hidden e (subst (Visible σ u j) same v)) v,
    kept a (λ same. hidden e (subst (Visible σ u j) same v)),
  );
  made = λ a e.
      (status a (λ same. nm (ap σ (sym same) ∙ e)) ∙ e, kept a (λ same. nm (ap σ (sym same) ∙ e)));
  lock = λ e. (lk ∙ e, g);
  retired = λ a e. status a (λ same. nr (ap σ (sym same) ∙ e)) ∙ e;
  awaited = λ a e. status a (λ same. na (ap σ (sym same) ∙ e)) ∙ e;
  over = λ l e. ap (λ f. f j l) w ∙ e;
}
  where
    status : (a : ℕ) → a ≢ n → set σ n s a ≡ σ a
    status a ne = set_other σ n s a ne

    kept : (a : ℕ) → a ≢ n → u'.mem a ≡ u.mem a
    kept a ne = ap (λ f. f a) m ∙ set_other u.mem n x a ne

    see : (a : ℕ) → a ≢ n → Visible σ u j a → Visible (set σ n s) u' j a
    see a ne (inl e) = inl (status a ne ∙ e)
    see a ne (inr (inl (i, e))) = inr (inl (i, status a ne ∙ e))
    see a ne (inr (inr (i, e, t))) = inr (inr (i, status a ne ∙ e, ap (λ f. f i j) w ∙ t))
