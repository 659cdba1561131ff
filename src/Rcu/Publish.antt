-- ===== src/Rcu/Publish.antt =====
-- What the two steps that take an object out of use leave to the other threads.
use linux_kernel_programming.Base.{
  ℕ, ℕ_discrete, ◌≡◌, ◌≢◌, inl, inr, sym, ap, ◌∙◌, some, true, arith,
}
use linux_kernel_programming.Rdwr.{set}
use linux_kernel_programming.Rdwr.Threads.{set_same, set_other}
use linux_kernel_programming.Rcu.Code.{Sys}
use linux_kernel_programming.Rcu.Facts.{Status, current, made_by, retired_by, awaited_by, Visible}
use linux_kernel_programming.Rcu.Frame.{Frame}

-- `a` has a status that `b` has not, so they differ.
pub apart : (σ : ℕ → Status) {a b : ℕ} {s t : Status} → σ a ≡ s → σ b ≡ t → s ≢ t → a ≢ b
apart σ ea eb ne same = ne (sym ea ∙ ap σ same ∙ eb)

module _ (σ : ℕ → Status) (i g : ℕ) where
  -- `assign_pointer`: the old object is retired, the new one current.
  abbrev pub publish : ℕ → ℕ → Status
  publish n = set (set σ g (retired_by i)) n current

  pub publish_other : (n a : ℕ) → a ≢ g → a ≢ n → publish n a ≡ σ a
  publish_other n a ng nn =
      set_other (set σ g (retired_by i)) n current a nn ∙ set_other σ g (retired_by i) a ng

  pub publish_old : (n : ℕ) → g ≢ n → publish n g ≡ retired_by i
  publish_old n ne = set_other (set σ g (retired_by i)) n current g ne ∙ set_same σ g (retired_by i)

  pub publish-Frame :
      (n : ℕ) (u u' : Sys)
      → σ g ≡ current
      → σ n ≡ made_by i
      → u.gdata_lock ≡ some i
      → u'.mem ≡ u.mem
      → u'.in_section ≡ u.in_section
      → u'.waits ≡ u.waits
      → (j : ℕ) → j ≢ i
      → Frame σ u (publish n) u' j
  publish-Frame n u u' eg en lk m sec w j ne = record {
    section = λ e. ap (λ f. f j) sec ∙ e;
    visible = λ a _ v. (see a v, ap (λ f. f a) m);
    made = λ a e. (
      publish_other n a (apart σ e eg (λ t. cc)) (apart σ e en (λ t. ne (ground arith))) ∙ e,
      ap (λ f. f a) m,
    );
    lock = λ e. absurd (ne (ground arith));
    retired = λ a e. publish_other n a (apart σ e eg (λ t. cc)) (apart σ e en (λ t. cc)) ∙ e;
    awaited = λ a e. publish_other n a (apart σ e eg (λ t. cc)) (apart σ e en (λ t. cc)) ∙ e;
    over = λ l e. ap (λ f. f j l) w ∙ e;
  }
    where
      see : (a : ℕ) → Visible σ u j a → Visible (publish n) u' j a
      see a (inl e) = elim (ℕ_discrete a g) [
        | yes same ↦ inr (inl (i, ap (publish n) same ∙ publish_old n (apart σ eg en (λ t. cc))))
        | no ng ↦ inl (publish_other n a ng (apart σ e en (λ t. cc)) ∙ e)
      ]
      see a (inr (inl (k, e))) =
          inr (inl (k, publish_other n a (apart σ e eg (λ t. cc)) (apart σ e en (λ t. cc)) ∙ e))
      see a (inr (inr (k, e, t))) = inr (
          inr (
            k,
            publish_other n a (apart σ e eg (λ t. cc)) (apart σ e en (λ t. cc)) ∙ e,
            ap (λ f. f k j) w ∙ t,
          ))

  -- `synchronize`: the grace period for the retired object begins.
  pub synchronize-Frame :
      (u u' : Sys)
      → σ g ≡ retired_by i
      → u'.mem ≡ u.mem
      → u'.gdata ≡ u.gdata
      → u'.in_section ≡ u.in_section
      → u'.gdata_lock ≡ u.gdata_lock
      → u'.waits ≡ set u.waits i u.in_section
      → (j : ℕ) → j ≢ i
      → Frame σ u (set σ g (awaited_by i)) u' j
  synchronize-Frame u u' eg m gd sec lk w j ne = record {
    section = λ e. ap (λ f. f j) sec ∙ e;
    visible = λ a s v. (see a s v, ap (λ f. f a) m);
    made = λ a e. (other a (apart σ e eg (λ t. cc)) ∙ e, ap (λ f. f a) m);
    lock = λ e. (lk ∙ e, gd);
    retired = λ a e. other a (apart σ e eg (λ t. ne (ground arith))) ∙ e;
    awaited = λ a e. other a (apart σ e eg (λ t. cc)) ∙ e;
    over = λ l e. ap (λ f. f j l) w ∙ ap (λ f. f l) (set_other u.waits i u.in_section j ne) ∙ e;
  }
    where
      other : (a : ℕ) → a ≢ g → set σ g (awaited_by i) a ≡ σ a
      other a na = set_other σ g (awaited_by i) a na

      waited : u.in_section j ≡ true → u'.waits i j ≡ true
      waited s = ap (λ f. f i j) w ∙ ap (λ f. f j) (set_same u.waits i u.in_section) ∙ s

      see :
          (a : ℕ)
          → u.in_section j ≡ true
          → Visible σ u j a
          → Visible (set σ g (awaited_by i)) u' j a
      see a s (inl e) = inl (other a (apart σ e eg (λ t. cc)) ∙ e)
      see a s (inr (inl (k, e))) = elim (ℕ_discrete a g) [
        | yes same ↦
            inr (inr (i, ap (set σ g (awaited_by i)) same ∙ set_same σ g (awaited_by i), waited s))
        | no na ↦ inr (inl (k, other a na ∙ e))
      ]
      see a s (inr (inr (k, e, t))) = elim (ℕ_discrete k i) [
        | yes same ↦
            inr (
              inr (k, other a (apart σ e eg (λ t. cc)) ∙ e, ap (λ l. u'.waits l j) same ∙ waited s))
        | no nk ↦ inr (
            inr (
              k,
              other a (apart σ e eg (λ t. cc)) ∙ e,
              ap (λ f. f k j) w ∙ ap (λ f. f j) (set_other u.waits i u.in_section k nk) ∙ t,
            ))
      ]
