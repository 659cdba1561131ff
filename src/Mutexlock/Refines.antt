-- ===== src/Mutexlock/Refines.antt =====
-- The driver refines the register: each call, on each of its branches, and any sequence of calls.
use linux_kernel_programming.Base.{
  ℕ, zero, suc, dec_lt, ℕ_discrete, ◌^◌, ◌≤◌, ◌<◌, ◌≡◌, ◌≢◌, inl, inr, refl, sym, ap, ◌∙◌, List, [],
  ◌∷◌, ◌++◌, none, some, length, drop, arith, Option-cases,
}
use mathlib.Core.Path.{subst}
use linux_kernel_programming.Base.Words.{ℤ, pos, add32, sub32}
use linux_kernel_programming.Kernel.{Kernel, KernelLaws, einval, efault, enomem, c_string}
use linux_kernel_programming.Mutexlock.Defs.{DrvCtx, Driver, done, ◌>>=◌}
use linux_kernel_programming.Mutexlock.Ops.{read_miscdrv_rdwr, write_miscdrv_rdwr}
use linux_kernel_programming.Mutexlock.Ready.{secret, IsReady, recount}
use linux_kernel_programming.Mutexlock.Read.{read_returns_secret, read_refused, read_faults}
use linux_kernel_programming.Mutexlock.Write.{
  kept, taken, write_accepted, write_errors, write_stores_secret,
}
use linux_kernel_programming.Mutexlock.Stays.{count_tx}
use linux_kernel_programming.Mutexlock.Sessions.{
  Call, open_call, close_call, read_call, write_call, IsFair, AllFair, open_lem, close_lem,
}
use linux_kernel_programming.Mutexlock.Register.{
  Reply, returned, gave, read_reply, answer, answers, Does, opens, closes, read_short, read_empty,
  read_fault, read_gives, write_no_memory, write_fault, write_nothing, write_stores, Runs, over,
  then,
}

-- The driver answers as the register that holds its secret may, and is ready again.
pub record Refines (c : DrvCtx) (d : Driver) (call : Call) : Type 0 where
  pub reply : Reply
  pub ctx : DrvCtx
  pub after : Driver
  pub runs : answer call d ≡ done reply after
  pub ready : IsReady ctx after
  pub does : Does call (secret c) reply (secret ctx)

module _ {c : DrvCtx} {d : Driver} (ready : IsReady c d) where
  -- The driver is as before.
  same :
      (call : Call) (r : Reply)
      → answer call d ≡ done r d
      → Does call (secret c) r (secret c)
      → Refines c d call
  same call r runs does = record {
    reply = r;
    ctx = c;
    after = d;
    runs = runs;
    ready = ready;
    does = does;
  }

  answer_read :
      (k : Kernel) (u : List ℕ) (n : ℕ) (r : ℤ × List ℕ) (d' : Driver)
      → read_miscdrv_rdwr k u n d ≡ done r d'
      → answer (read_call k u n) d ≡ done (read_reply r) d'
  unfolding answer
  answer_read k u n r d' e = rw (◌>>=◌, e)

  answer_write :
      (k : Kernel) (u : List ℕ) (n : ℕ) (r : ℤ) (d' : Driver)
      → write_miscdrv_rdwr k u n d ≡ done r d'
      → answer (write_call k u n) d ≡ done (returned r) d'
  unfolding answer
  answer_write k u n r d' e = rw (◌>>=◌, e)

  open-Refines : Refines c d open_call
  unfolding answer
  open-Refines = record {
    reply = returned (pos 0);
    ctx = c;
    after = record d { ga = add32 d.ga 1; gb = sub32 d.gb 1 };
    runs = rw (◌>>=◌, open_lem ready);
    ready = recount _ _ ready;
    does = opens (secret c);
  }

  close-Refines : Refines c d close_call
  unfolding answer
  close-Refines = record {
    reply = returned (pos 0);
    ctx = c;
    after = record d { ga = sub32 d.ga 1; gb = add32 d.gb 1 };
    runs = rw (◌>>=◌, close_lem ready);
    ready = recount _ _ ready;
    does = closes (secret c);
  }

  module _ (k : Kernel) (laws : KernelLaws k) (u : List ℕ) (n : ℕ) (fits : n ≤ length u) where
    read_large : 128 ≤ n → secret c ≢ [] → Refines c d (read_call k u n)
    read_large big ne = elim (ℕ_discrete (k.copy_to_user u c.oursecret (length (secret c))).0 0) [
      | yes ok ↦ record {
        reply = gave (length (secret c)) (secret c ++ drop (length (secret c)) u);
        ctx = record c { tx = add32 c.tx (length (secret c)) };
        after = record d { ctx = some (record c { tx = add32 c.tx (length (secret c)) }) };
        runs = answer_read k u n _ _ (read_returns_secret laws ready u n big fits ne ok);
        ready = count_tx ready (add32 c.tx (length (secret c)));
        does = read_gives k u n (secret c) big ne;
      }
      | no bad ↦
          same (read_call k u n) (returned efault)
            (answer_read k u n _ d (read_faults laws ready u n big ne bad))
            (read_fault k u n (secret c) big ne)
    ]

    read-Refines : Refines c d (read_call k u n)
    read-Refines = elim (dec_lt n 128) [
      | yes small ↦
          same (read_call k u n) (returned einval)
            (answer_read k u n _ d (read_refused laws ready u n (inl small)))
            (read_short k u n (secret c) small)
      | no big ↦ by_secret (secret c) refl (omega arith)
    ]
      where
        by_secret : (s : List ℕ) → secret c ≡ s → 128 ≤ n → Refines c d (read_call k u n)
        by_secret [] e big =
            same (read_call k u n) (returned einval)
              (answer_read k u n _ d (read_refused laws ready u n (inr e)))
              (subst (λ s. Does (read_call k u n) s (returned einval) s) (sym e) (read_empty k u n))
        by_secret (x ∷ xs) e big = read_large big (λ z. cc (e, z))

    -- A write for which there is memory and whose copy is complete.
    write_complete :
        (m : ℕ) (b : List ℕ)
        → n ≡ m
        → n < 2 ^ 31
        → k.kvmalloc n ≡ some b
        → (taken laws ready b u n).0 ≡ 0
        → Refines c d (write_call k u n)
    write_complete zero b z small given ok =
        let (runs, after) = write_accepted laws ready b u n fits given ok small in
        record {
          reply = returned (pos n);
          ctx = _;
          after = _;
          runs = answer_write k u n _ _ runs;
          ready = after;
          does =
              subst
                (λ m.
                  Does (write_call k u m) (secret c) (returned (pos m))
                    (c_string (k.strscpy c.oursecret (taken laws ready b u n).1 (kept m))))
                (sym z)
                (subst (Does (write_call k u 0) (secret c) (returned (pos 0)))
                  (sym (ap c_string (laws.strscpy_zero c.oursecret (taken laws ready b u n).1)))
                  (write_nothing k u (secret c)));
        }
    write_complete (suc m) b z small given ok =
        let (c', runs, stored, _, _, after) =
          write_stores_secret laws ready b u n fits given ok (omega (arith, z)) small in
        record {
          reply = returned (pos n);
          ctx = c';
          after = record d { ctx = some c' };
          runs = answer_write k u n _ _ runs;
          ready = after;
          does =
              subst (Does (write_call k u n) (secret c) (returned (pos n))) (sym stored)
                (write_stores k u n (secret c) (omega (arith, z)));
        }

    write-Refines : n < 2 ^ 31 → Refines c d (write_call k u n)
    write-Refines small = elim (Option-cases (k.kvmalloc n)) [
      | inl e ↦
          same (write_call k u n) (returned enomem) (answer_write k u n _ d (write_refused e))
            (write_no_memory k u n (secret c) e)
      | inr (b, e) ↦ elim (ℕ_discrete (taken laws ready b u n).0 0) [
        | yes ok ↦ write_complete n b refl small e ok
        | no bad ↦
            same (write_call k u n) (returned efault)
              (answer_write k u n _ d (write_failed b e bad)) (write_fault k u n (secret c) b e bad)
      ]
    ]
      where
        write_refused : k.kvmalloc n ≡ none → write_miscdrv_rdwr k u n d ≡ done enomem d
        write_refused e = write_errors laws ready u n [] (inl e) ∙ rw e

        write_failed :
            (b : List ℕ)
            → k.kvmalloc n ≡ some b
            → (taken laws ready b u n).0 ≢ 0
            → write_miscdrv_rdwr k u n d ≡ done efault d
        write_failed b e bad = write_errors laws ready u n b (inr (e, bad)) ∙ rw e

answer-Refines :
    (call : Call) {c : DrvCtx} {d : Driver} → IsReady c d → IsFair call → Refines c d call
answer-Refines open_call ready fair = open-Refines ready
answer-Refines close_call ready fair = close-Refines ready
answer-Refines (read_call k u n) ready fair = read-Refines ready k fair.0 u n fair.1
answer-Refines (write_call k u n) ready fair = write-Refines ready k fair.0 u n fair.1 fair.2

-- From a ready driver, any sequence of calls (with buffers that have room for the bytes asked for,
-- and a kernel that keeps its promises) runs to its end, and its answers are a run of the register
-- that begins with the driver's secret and ends with the one it then has; the driver is ready again.
pub answers_refine :
    (cs : List Call) {c : DrvCtx} {d : Driver}
    → IsReady c d
    → AllFair cs
    → (rs : List Reply) × (c' : DrvCtx) × (d' : Driver) × (answers cs d ≡ done rs d')
      × IsReady c' d'
      × Runs cs (secret c) rs (secret c')
unfolding answers
answers_refine [] {c} {d} ready fair = ([], c, d, refl, ready, over (secret c))
answers_refine (call ∷ cs) ready (f, fair) =
    let one = answer-Refines call ready f in
    let (rs, c', d', runs, ready', more) = answers_refine cs one.ready fair in
    (one.reply ∷ rs, c', d', rw (◌>>=◌, one.runs, runs) refl, ready', then one.does more)
