-- ===== src/Mutexlock/Read.antt =====
-- What the read method does, on each of its branches.
use linux_kernel_programming.Base.{
  ℕ, ◌≤◌, ◌<◌, ◌≡◌, ◌≢◌, ◌⊎◌, inl, inr, refl, ap, ne_false, ◌∙◌, lt→ltb, List, [], ◌++◌, false,
  some, length, drop, arith, Bool-cases, ltb, ◌==◌,
}
use linux_kernel_programming.Base.Words.{pos, add32, int_of_size, int_of_size-small}
use linux_kernel_programming.Kernel.{
  Kernel, KernelLaws, c_string, strlen, efault, einval, take-length-c_string,
}
use linux_kernel_programming.Mutexlock.Defs.{DrvCtx, maxbytes, Driver, done, ◌>>=◌}
use linux_kernel_programming.Mutexlock.Ops.{read_miscdrv_rdwr, read_secret, secret_length}
use linux_kernel_programming.Mutexlock.Ready.{secret, IsReady}

strlen-some : (s : List ℕ) → length (c_string s) < length s → strlen s ≡ some (length (c_string s))
unfolding strlen
strlen-some s h = ground arith

module _ {k : Kernel} (laws : KernelLaws k) {c : DrvCtx} {d : Driver} (r : IsReady c d) where
  open r use {here, free, size, terminated}

  -- the call of `copy_to_user` that the read makes
  abbrev copied : List ℕ → ℕ × List ℕ
  copied ubuf = k.copy_to_user ubuf c.oursecret (length (secret c))

  read_secret_lem :
      (ubuf : List ℕ) (n : ℕ)
      → (k.copy_to_user ubuf c.oursecret n).0 ≡ 0
      → read_secret k ubuf n d
        ≡ done
            (int_of_size n, (k.copy_to_user ubuf c.oursecret n).1)
            (record d { ctx = some (record c { tx = add32 c.tx n }) })
  unfolding read_secret
  read_secret_lem ubuf n e = rw (here, free, e) refl

  read_secret_fault :
      (ubuf : List ℕ) (n : ℕ)
      → (k.copy_to_user ubuf c.oursecret n).0 ≢ 0
      → read_secret k ubuf n d ≡ done (efault, (k.copy_to_user ubuf c.oursecret n).1) d
  unfolding read_secret
  read_secret_fault ubuf n e =
      rw (here, free, ne_false (k.copy_to_user ubuf c.oursecret n).0 e) refl

  strlen-secret : strlen c.oursecret ≡ some (length (secret c))
  strlen-secret = strlen-some c.oursecret (rw size terminated)

  -- Past both tests, the read goes on to its second critical section.
  read_cases :
      (ubuf : List ℕ) (count : ℕ)
      → ltb count maxbytes ≡ false
      → (length (secret c) == 0) ≡ false
      → read_miscdrv_rdwr k ubuf count d ≡ read_secret k ubuf (length (secret c)) d
  unfolding read_miscdrv_rdwr
  read_cases ubuf count big full = rw (here, free, strlen-secret, ◌>>=◌, secret_length, big, full)

  -- From a ready driver, and with a kernel that keeps its promises: with room for 128 bytes, a
  -- secret that is not empty and a copy that succeeds, the read returns the secret's length, leaves
  -- the secret at the start of the user's buffer and the rest of that as it was, adds the length to
  -- `tx` and changes nothing else of the driver.
  pub read_returns_secret :
      (ubuf : List ℕ) (count : ℕ)
      → maxbytes ≤ count
      → count ≤ length ubuf
      → secret c ≢ []
      → (copied ubuf).0 ≡ 0
      → read_miscdrv_rdwr k ubuf count d
        ≡ done
            (pos (length (secret c)), secret c ++ drop (length (secret c)) ubuf)
            (record d { ctx = some (record c { tx = add32 c.tx (length (secret c)) }) })
  read_returns_secret ubuf count h u n e =
      read_cases ubuf count (ground arith) (ne_false len n_len)
      ∙ rw (read_secret_lem ubuf len e, int_of_size-small len (omega arith), filled)
    where
      len : ℕ
      len = length (secret c)

      n_len : len ≢ 0
      n_len = ground (arith, n)

      filled : (copied ubuf).1 ≡ secret c ++ drop len ubuf
      filled =
          laws.copy_to_user_all ubuf c.oursecret len (omega arith) (omega arith) e
          ∙ ap (λ t. t ++ drop len ubuf) (take-length-c_string c.oursecret)

  -- From a ready driver a request for fewer than 128 bytes, or one while the secret is empty, is
  -- refused with -EINVAL: the user's buffer and the driver are as they were, the lock free.
  pub read_refused :
      (ubuf : List ℕ) (count : ℕ)
      → (count < maxbytes) ⊎ (secret c ≡ [])
      → read_miscdrv_rdwr k ubuf count d ≡ done (einval, ubuf) d
  unfolding read_miscdrv_rdwr
  read_refused ubuf count (inl small) =
      rw (here, free, strlen-secret, ◌>>=◌, secret_length, lt→ltb count maxbytes small)
  read_refused ubuf count (inr empty) = elim (Bool-cases (ltb count maxbytes)) [
    | inl small ↦ rw (here, free, strlen-secret, ◌>>=◌, secret_length, small)
    | inr big ↦ rw (here, free, strlen-secret, ◌>>=◌, secret_length, big, empty)
  ]

  -- From a ready driver and past both tests, a copy to the user that fails gives -EFAULT and leaves
  -- the driver as it was, the lock free and the statistics not counted.
  pub read_faults :
      (ubuf : List ℕ) (count : ℕ)
      → maxbytes ≤ count
      → secret c ≢ []
      → (copied ubuf).0 ≢ 0
      → read_miscdrv_rdwr k ubuf count d ≡ done (efault, (copied ubuf).1) d
  read_faults ubuf count h n e =
      read_cases ubuf count (ground arith) (ne_false (length (secret c)) (ground (arith, n)))
      ∙ read_secret_fault ubuf (length (secret c)) e
