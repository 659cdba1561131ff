-- ===== src/Mutexlock/Write.antt =====
-- What the write method does, on each of its branches, and what a read then finds.
use linux_kernel_programming.Base.{
  ℕ, zero, suc, ◌^◌, ◌+◌, ◌-◌, ◌%◌, ◌≤◌, ◌<◌, ◌≡◌, ◌≢◌, ◌⊎◌, inl, inr, refl, sym, ap, ne_false, ◌∙◌,
  min, List, none, some, if◌then◌else◌, length, drop, take, replicate, arith, ltb, length-replicate,
  length-append, length-drop, length-take,
}
use linux_kernel_programming.Base.Words.{pos, add32, u32_mod, int_of_size, int_of_size-small}
use mathlib.Core.Path.{subst}
use linux_kernel_programming.Kernel.{Kernel, KernelLaws, c_string, enomem, efault, memset}
use linux_kernel_programming.Mutexlock.Defs.{DrvCtx, maxbytes, Driver, done, ◌>>=◌, ◌>>◌}
use linux_kernel_programming.Mutexlock.Ops.{write_miscdrv_rdwr, write_secret, alloc_kbuf}
use linux_kernel_programming.Mutexlock.Ready.{secret, IsReady}

-- `count > MAXBYTES ? MAXBYTES : count`
abbrev pub kept : ℕ → ℕ
kept count = if ltb maxbytes count then maxbytes else count

kept-eq-min : (count : ℕ) → kept count ≡ min count maxbytes
kept-eq-min count = ground arith

length-memset : (b : List ℕ) (n : ℕ) → length b ≡ n → length (memset b 0 n) ≡ n
unfolding memset
length-memset b n h =
    omega (
      arith,
      length-append (replicate n 0) (drop n b),
      length-replicate {A = ℕ} n 0,
      length-drop n b,
    )

module _ {k : Kernel} (laws : KernelLaws k) {c : DrvCtx} {d : Driver} (r : IsReady c d) where
  open r use {here, free, size, terminated}

  -- The context after `count` bytes of `kbuf` were accepted.
  abbrev pub accepted : List ℕ → ℕ → DrvCtx
  accepted kbuf count = record c {
    oursecret = k.strscpy c.oursecret kbuf (kept count);
    rx = add32 c.rx (count % u32_mod);
  }

  write_secret_lem :
      (kbuf : List ℕ) (count n : ℕ)
      → write_secret k kbuf count (record d { kbufs = n })
        ≡ done tt (record d { ctx = some (accepted kbuf count); kbufs = n })
  unfolding write_secret
  write_secret_lem kbuf count n = rw (here, free)

  back : d.kbufs + 1 - 1 ≡ d.kbufs
  back = omega arith

  write_accepts :
      (b ubuf : List ℕ) (count : ℕ)
      → k.kvmalloc count ≡ some b
      → (k.copy_from_user (memset b 0 count) ubuf count).0 ≡ 0
      → write_miscdrv_rdwr k ubuf count d
        ≡ done (int_of_size count) (record d {
          ctx = some (accepted (k.copy_from_user (memset b 0 count) ubuf count).1 count);
        })
  unfolding write_miscdrv_rdwr
  write_accepts b ubuf count a e =
      rw (here, a, ◌>>=◌, alloc_kbuf, e)
        (rw
          (
            ◌>>◌,
            ◌>>=◌,
            write_secret_lem (k.copy_from_user (memset b 0 count) ubuf count).1 count (d.kbufs + 1),
          )
          (rw back))

  -- The buffer that `copy_from_user` fills, after `kvmalloc` gave `b`.
  abbrev pub taken : List ℕ → List ℕ → ℕ → ℕ × List ℕ
  taken b ubuf count = k.copy_from_user (memset b 0 count) ubuf count

  module _ (b ubuf : List ℕ) (count : ℕ) (fits : count ≤ length ubuf)
      (a : k.kvmalloc count ≡ some b) (e : (taken b ubuf count).0 ≡ 0) where
    abbrev pub after : DrvCtx
    after = accepted (taken b ubuf count).1 count

    buffer : (taken b ubuf count).1 ≡ take count ubuf
    buffer =
        laws.copy_from_user_all (memset b 0 count) ubuf count
          (length-memset b count (laws.kvmalloc_size count b a)) fits e

    room : kept count ≤ length (taken b ubuf count).1
    room = rw buffer (omega (arith, length-take count ubuf, kept-eq-min count))

    stored : 0 < count → secret after ≡ take (min count maxbytes - 1) (c_string (take count ubuf))
    stored h =
        laws.strscpy_copies c.oursecret (taken b ubuf count).1 (kept count)
          (omega (arith, kept-eq-min count)) (omega (arith, kept-eq-min count)) room
        ∙ rw (buffer, kept-eq-min)

    terminated_after : (n : ℕ) → count ≡ n → length (secret after) < maxbytes
    terminated_after zero z =
        subst (λ m. length (c_string (k.strscpy c.oursecret (taken b ubuf count).1 m)) < maxbytes)
          (sym kept_zero) (rw laws.strscpy_zero terminated)
      where
        kept_zero : kept count ≡ 0
        kept_zero = omega (arith, kept-eq-min count)
    terminated_after (suc n) z =
        rw (stored (omega arith))
          (omega (arith, length-take (min count maxbytes - 1) (c_string (take count ubuf))))

    pub write_accepted :
        count < 2 ^ 31
        → (write_miscdrv_rdwr k ubuf count d ≡ done (pos count) (record d { ctx = some after }))
          × IsReady after (record d { ctx = some after })
    write_accepted s = (
      write_accepts b ubuf count a e ∙ rw (int_of_size-small count s),
      record {
        here = refl;
        free1 = r.free1;
        free = free;
        size =
            laws.strscpy_size c.oursecret (taken b ubuf count).1 (kept count)
              (omega (arith, kept-eq-min count)) room
            ∙ size;
        terminated = terminated_after count refl;
      },
    )

    -- From a ready driver, and with a kernel that keeps its promises: when memory and copy are to
    -- be had, a write of 1 to 2^31 - 1 bytes returns their number, makes the string among them the
    -- secret, cut to one byte less than `count` or 128 whichever is less, counts them in `rx`,
    -- frees its buffer and leaves the rest of the driver as it was, ready for the next call.
    pub write_stores_secret :
        0 < count
        → count < 2 ^ 31
        → (c' : DrvCtx) × (write_miscdrv_rdwr k ubuf count d
            ≡ done (pos count) (record d { ctx = some c' }))
          × (secret c' ≡ take (min count maxbytes - 1) (c_string (take count ubuf)))
          × (c'.rx ≡ add32 c.rx count)
          × (c'.tx ≡ c.tx)
          × IsReady c' (record d { ctx = some c' })
    write_stores_secret h s =
        let (runs, ready) = write_accepted s in
        (after, runs, stored h, ap (add32 c.rx) (omega arith), refl, ready)

  -- From a ready driver: without memory the write returns -ENOMEM, and after a copy that fails
  -- -EFAULT: either way no buffer is left behind and the driver is as it was, the lock free.
  pub write_errors :
      (ubuf : List ℕ) (count : ℕ) (b : List ℕ)
      → (k.kvmalloc count ≡ none) ⊎ ((k.kvmalloc count ≡ some b) × ((taken b ubuf count).0 ≢ 0))
      → write_miscdrv_rdwr k ubuf count d
        ≡ done (elim (k.kvmalloc count) [ none ↦ enomem | some _ ↦ efault ]) d
  unfolding write_miscdrv_rdwr
  write_errors ubuf count b (inl a) =
      rw (here, a, ◌>>=◌, alloc_kbuf) (ap (λ o. done enomem (record d { ctx = o })) here)
  write_errors ubuf count b (inr (a, e)) =
      rw (here, a, ◌>>=◌, alloc_kbuf, ne_false (taken b ubuf count).0 e)
        (rw back (ap (λ o. done efault (record d { ctx = o })) here))
