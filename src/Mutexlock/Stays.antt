-- ===== src/Mutexlock/Stays.antt =====
-- A read or a write changes at most the context, and leaves the driver ready.
use linux_kernel_programming.Base.{
  ℕ, dec_lt, ℕ_discrete, suc, ◌^◌, ◌≤◌, ◌<◌, ◌≡◌, ◌≢◌, inl, inr, refl, ap, ◌∙◌, List, [], ◌∷◌, some,
  length, arith, Option-cases,
}
use linux_kernel_programming.Base.Words.{ℤ}
use linux_kernel_programming.Kernel.{Kernel, KernelLaws}
use linux_kernel_programming.Mutexlock.Defs.{DrvCtx, maxbytes, Driver, done, Cmd, pure, ◌>>=◌}
use linux_kernel_programming.Mutexlock.Ops.{read_miscdrv_rdwr, write_miscdrv_rdwr}
use linux_kernel_programming.Mutexlock.Ready.{secret, IsReady}
use linux_kernel_programming.Mutexlock.Read.{read_returns_secret, read_refused, read_faults}
use linux_kernel_programming.Mutexlock.Write.{taken, write_accepted, write_errors}

-- `m` runs to its end from `d`; it changes at most the context, and leaves it ready.
pub record Stays (m : Cmd (Unit {0})) (d : Driver) : Type 0 where
  pub ctx : DrvCtx
  pub runs : m d ≡ done tt (record d { ctx = some ctx })
  pub ready : IsReady ctx (record d { ctx = some ctx })

module _ {c : DrvCtx} {d : Driver} (r : IsReady c d) (m : Cmd (Unit {0})) where
  keeps_ctx :
      (c' : DrvCtx)
      → m d ≡ done tt (record d { ctx = some c' })
      → IsReady c' (record d { ctx = some c' })
      → Stays m d
  keeps_ctx c' e ready = record { ctx = c'; runs = e; ready = ready }

  keeps_all : m d ≡ done tt d → Stays m d
  keeps_all e = record {
    ctx = c;
    runs = e ∙ ap (λ o. done tt (record d { ctx = o })) r.here;
    ready = record {
      here = refl;
      free1 = r.free1;
      free = r.free;
      size = r.size;
      terminated = r.terminated;
    };
  }

module _ {c : DrvCtx} {d : Driver} (r : IsReady c d) where
  pub count_tx :
      (n : ℕ) → IsReady (record c { tx = n }) (record d { ctx = some (record c { tx = n }) })
  count_tx n = record {
    here = refl;
    free1 = r.free1;
    free = r.free;
    size = r.size;
    terminated = r.terminated;
  }

-- What a command that ends does to the rest of a call.
pub then_ignore :
    {A : Type 0} (m : Cmd A) (a : A) (d d' : Driver)
    → m d ≡ done a d'
    → (m >>= λ r. pure tt) d ≡ done tt d'
then_ignore m a d d' e = rw (e, ◌>>=◌)

module _ {c : DrvCtx} {d : Driver} (i : IsReady c d) (k : Kernel) (laws : KernelLaws k)
    (ubuf : List ℕ) (count : ℕ) where
  -- A read and a write with their results thrown away.
  abbrev reading : Cmd (Unit {0})
  reading = read_miscdrv_rdwr k ubuf count >>= λ r. pure tt

  abbrev writing : Cmd (Unit {0})
  writing = write_miscdrv_rdwr k ubuf count >>= λ r. pure tt

  read_unchanged : (r : ℤ × List ℕ) → read_miscdrv_rdwr k ubuf count d ≡ done r d → Stays reading d
  read_unchanged r e = keeps_all i reading (then_ignore (read_miscdrv_rdwr k ubuf count) r d d e)

  write_unchanged : (r : ℤ) → write_miscdrv_rdwr k ubuf count d ≡ done r d → Stays writing d
  write_unchanged r e = keeps_all i writing (then_ignore (write_miscdrv_rdwr k ubuf count) r d d e)

  read-Stays_large :
      count ≤ length ubuf → maxbytes ≤ count → (n : ℕ) → length (secret c) ≡ suc n → Stays reading d
  read-Stays_large fits big n full =
      elim (ℕ_discrete (k.copy_to_user ubuf c.oursecret (length (secret c))).0 0) [
        | yes ok ↦
            keeps_ctx i reading _
              (then_ignore (read_miscdrv_rdwr k ubuf count) _ d _
                (read_returns_secret laws i ubuf count big fits ne ok))
              (count_tx i _)
        | no bad ↦ read_unchanged _ (read_faults laws i ubuf count big ne bad)
      ]
    where
      ne : secret c ≢ []
      ne e = absurd (omega (arith, ap length e, full))

  pub read-Stays : count ≤ length ubuf → Stays reading d
  read-Stays fits = elim (dec_lt count maxbytes) [
    | yes small ↦ read_unchanged _ (read_refused laws i ubuf count (inl small))
    | no big ↦ by_secret (secret c) refl (omega arith)
  ]
    where
      by_secret : (s : List ℕ) → secret c ≡ s → maxbytes ≤ count → Stays reading d
      by_secret [] e big = read_unchanged _ (read_refused laws i ubuf count (inr e))
      by_secret (x ∷ xs) e big = read-Stays_large fits big (length xs) (ap length e)

  pub write-Stays : count ≤ length ubuf → count < 2 ^ 31 → Stays writing d
  write-Stays fits small = elim (Option-cases (k.kvmalloc count)) [
    | inl e ↦ write_unchanged _ (write_errors laws i ubuf count [] (inl e))
    | inr (b, e) ↦ elim (ℕ_discrete (taken laws i b ubuf count).0 0) [
      | yes ok ↦
          let (runs, ready) = write_accepted laws i b ubuf count fits e ok small in
          keeps_ctx i writing _ (then_ignore (write_miscdrv_rdwr k ubuf count) _ d _ runs) ready
      | no bad ↦ write_unchanged _ (write_errors laws i ubuf count b (inr (e, bad)))
    ]
  ]
