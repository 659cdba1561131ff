-- ===== src/Refcount/Counts.antt =====
-- What a sequence of calls does to the two counters.
use linux_kernel_programming.Base.{ℕ, ◌≡◌, ◌∙◌, refl, ap, List, [], ◌∷◌, some}
use mathlib.Core.Path.{subst}
use linux_kernel_programming.Base.Words.{pos}
use linux_kernel_programming.Mutexlock
use linux_kernel_programming.Mutexlock.{DrvCtx, Driver}
use linux_kernel_programming.Mutexlock.Ready.{IsReady, recount}
use linux_kernel_programming.Mutexlock.Stays.{Stays, read-Stays, write-Stays}
use linux_kernel_programming.Mutexlock.Sessions.{
  Call, open_call, close_call, read_call, write_call, AllFair, IsFair,
}
use linux_kernel_programming.Spinlock.{ended, Cmd, pure, ◌>>=◌, ◌>>◌}
use linux_kernel_programming.Spinlock.Same.{state, as_spinlock, unlocked, unlocked_lem}
use linux_kernel_programming.Spinlock.Sessions.{forget_same}
use linux_kernel_programming.Refcount.Ops.{
  Refcount, open_miscdrv_rdwr, close_miscdrv_rdwr, read_miscdrv_rdwr, write_miscdrv_rdwr,
}
use linux_kernel_programming.Refcount.Same.{read_as, write_as}

unfoldable pub refcount_call : Refcount → Call → Cmd (Unit {0})
refcount_call r open_call = do ret ← open_miscdrv_rdwr r; pure tt
refcount_call r close_call = do ret ← close_miscdrv_rdwr r; pure tt
refcount_call r (read_call k ubuf count) = do ret ← read_miscdrv_rdwr k ubuf count; pure tt
refcount_call r (write_call k ubuf count) = do ret ← write_miscdrv_rdwr k ubuf count; pure tt

unfoldable pub refcount_calls : Refcount → List Call → Cmd (Unit {0})
refcount_calls r [] = pure tt
refcount_calls r (c ∷ cs) = refcount_call r c >> refcount_calls r cs

-- `ga` and `gb` after the calls
unfoldable pub ga_after : Refcount → List Call → ℕ → ℕ
ga_after r [] n = n
ga_after r (open_call ∷ cs) n = ga_after r cs (r.inc n)
ga_after r (close_call ∷ cs) n = ga_after r cs (r.dec n)
ga_after r (_ ∷ cs) n = ga_after r cs n

unfoldable pub gb_after : Refcount → List Call → ℕ → ℕ
gb_after r [] n = n
gb_after r (open_call ∷ cs) n = gb_after r cs (r.dec n)
gb_after r (close_call ∷ cs) n = gb_after r cs (r.inc n)
gb_after r (_ ∷ cs) n = gb_after r cs n

-- `m` runs to its end from `d`, and leaves the driver ready, with the counters as they should be.
pub record Counted (m : Cmd (Unit {0})) (ga gb : ℕ) (d : Driver) : Type 0 where
  pub after : Driver
  pub runs : m (state d (pos 0)) ≡ ended tt (state after (pos 0))
  pub ctx : DrvCtx
  pub ready : IsReady ctx after
  pub ga_is : after.ga ≡ ga
  pub gb_is : after.gb ≡ gb
  pub kbufs_kept : after.kbufs ≡ d.kbufs
  pub registered_kept : after.registered ≡ d.registered

-- A call that is one of the driver with mutexes, which changes only the context.
as-Stays :
    {A : Type 0} {c : DrvCtx} {d : Driver} (m : Cmd A) (n : Mutexlock.Cmd A)
    → IsReady c d
    → m (state (unlocked c d) (pos 0)) ≡ as_spinlock (pos 0) (n (unlocked c d))
    → Stays (Mutexlock.◌>>=◌ n (λ _. Mutexlock.pure tt)) d
    → Counted (m >>= λ _. pure tt) d.ga d.gb d
as-Stays {A} {c} {d} m n ready same st =
    let here =
      subst (λ d. m (state d (pos 0)) ≡ as_spinlock (pos 0) (n d)) (unlocked_lem ready) same in
    record {
      after = record d { ctx = some st.ctx };
      runs = forget_same (pos 0) m n d here ∙ rw (st.runs) refl;
      ctx = st.ctx;
      ready = st.ready;
      ga_is = refl;
      gb_is = refl;
      kbufs_kept = refl;
      registered_kept = refl;
    }

call-Counted :
    (r : Refcount) (call : Call) {c : DrvCtx} {d : Driver}
    → IsReady c d
    → IsFair call
    → Counted (refcount_call r call) (ga_after r (call ∷ []) d.ga) (gb_after r (call ∷ []) d.gb) d
unfolding refcount_call ga_after gb_after open_miscdrv_rdwr close_miscdrv_rdwr
call-Counted r open_call {c} {d} ready fair = record {
  after = record d { ga = r.inc d.ga; gb = r.dec d.gb };
  runs =
      subst
        (λ d.
          refcount_call r open_call (state d (pos 0))
          ≡ ended tt (state (record d { ga = r.inc d.ga; gb = r.dec d.gb }) (pos 0)))
        (unlocked_lem ready) refl;
  ctx = c;
  ready = recount _ _ ready;
  ga_is = refl;
  gb_is = refl;
  kbufs_kept = refl;
  registered_kept = refl;
}
call-Counted r close_call {c} {d} ready fair = record {
  after = record d { ga = r.dec d.ga; gb = r.inc d.gb };
  runs =
      subst
        (λ d.
          refcount_call r close_call (state d (pos 0))
          ≡ ended tt (state (record d { ga = r.dec d.ga; gb = r.inc d.gb }) (pos 0)))
        (unlocked_lem ready) refl;
  ctx = c;
  ready = recount _ _ ready;
  ga_is = refl;
  gb_is = refl;
  kbufs_kept = refl;
  registered_kept = refl;
}
call-Counted r (read_call k ubuf count) {c} {d} ready fair =
    as-Stays (read_miscdrv_rdwr k ubuf count) (Mutexlock.read_miscdrv_rdwr k ubuf count) ready
      (read_as k c d ubuf count) (read-Stays ready k fair.0 ubuf count fair.1)
call-Counted r (write_call k ubuf count) {c} {d} ready fair =
    as-Stays (write_miscdrv_rdwr k ubuf count) (Mutexlock.write_miscdrv_rdwr k ubuf count) ready
      (write_as k c d ubuf count) (write-Stays ready k fair.0 ubuf count fair.1 fair.2)

ga_after_cons :
    (r : Refcount) (c : Call) (cs : List Call) (n : ℕ)
    → ga_after r cs (ga_after r (c ∷ []) n) ≡ ga_after r (c ∷ cs) n
unfolding ga_after
ga_after_cons r open_call cs n = refl
ga_after_cons r close_call cs n = refl
ga_after_cons r (read_call _ _ _) cs n = refl
ga_after_cons r (write_call _ _ _) cs n = refl

gb_after_cons :
    (r : Refcount) (c : Call) (cs : List Call) (n : ℕ)
    → gb_after r cs (gb_after r (c ∷ []) n) ≡ gb_after r (c ∷ cs) n
unfolding gb_after
gb_after_cons r open_call cs n = refl
gb_after_cons r close_call cs n = refl
gb_after_cons r (read_call _ _ _) cs n = refl
gb_after_cons r (write_call _ _ _) cs n = refl

pub calls-Counted :
    (r : Refcount) (cs : List Call) {c : DrvCtx} {d : Driver}
    → IsReady c d
    → AllFair cs
    → Counted (refcount_calls r cs) (ga_after r cs d.ga) (gb_after r cs d.gb) d
unfolding refcount_calls ga_after gb_after
calls-Counted r [] {c} {d} ready fair = record {
  after = d;
  runs = refl;
  ctx = c;
  ready = ready;
  ga_is = refl;
  gb_is = refl;
  kbufs_kept = refl;
  registered_kept = refl;
}
calls-Counted r (call ∷ cs) {c} {d} ready (f, fair) =
    let one = call-Counted r call ready f in
    let rest = calls-Counted r cs one.ready fair in
    record {
      after = rest.after;
      runs = rw (one.runs, ◌>>=◌) rest.runs;
      ctx = rest.ctx;
      ready = rest.ready;
      ga_is = rest.ga_is ∙ ap (ga_after r cs) one.ga_is ∙ ga_after_cons r call cs d.ga;
      gb_is = rest.gb_is ∙ ap (gb_after r cs) one.gb_is ∙ gb_after_cons r call cs d.gb;
      kbufs_kept = rest.kbufs_kept ∙ one.kbufs_kept;
      registered_kept = rest.registered_kept ∙ one.registered_kept;
    }
