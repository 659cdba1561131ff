-- ===== src/Client/EndToEnd.antt =====
-- A run that writes a message and a run that reads it, on a driver that is ready.
use linux_kernel_programming.Base.{
  ℕ, ◌-◌, ◌≤◌, ◌<◌, ◌≡◌, ◌≢◌, ◌∙◌, ap, refl, inr, List, [], ◌∷◌, ◌++◌, Option, some, true, false,
  if◌then◌else◌, arith, length, take, drop, ltb, length-take, length-append, length-replicate,
  replicate, take-append_left, take_all,
}
use linux_kernel_programming.Base.Words.{add32, sub32}
use linux_kernel_programming.Kernel.{Kernel, KernelLaws, c_string, c_string_idem}
use linux_kernel_programming.Mutexlock.{DrvCtx, Driver, Cmd, pure, done, ◌>>=◌, ◌>>◌, maxbytes}
use linux_kernel_programming.Mutexlock.Ready.{secret, IsReady, recount}
use linux_kernel_programming.Mutexlock.Read.{read_returns_secret, read_refused}
use linux_kernel_programming.Mutexlock.Stays.{count_tx}
use linux_kernel_programming.Mutexlock.Write.{write_stores_secret}
use linux_kernel_programming.Mutexlock.Sessions.{open_lem, close_lem}
use linux_kernel_programming.Client.Main.{
  Outcome, too_big, read_failed, printed, wrote, rdwr_main, open_and_transfer, transfer, strnlen,
  strncpy, write_size,
}
use linux_kernel_programming.Client.Device.{driver_device}
use linux_kernel_programming.Client.Stored.{NoNul, stored_lem}

-- Memory is to be had for a transfer, and every copy between user space and kernel is complete.
pub record Succeeds (k : Kernel) (malloc : ℕ → Option (List ℕ)) : Type 0 where
  pub gives : (n : ℕ) → n ≤ 128 → (b : List ℕ) × (malloc n ≡ some b) × (length b ≡ n)
  pub kernel_gives : (n : ℕ) → n ≤ 128 → (b : List ℕ) × (k.kvmalloc n ≡ some b)
  pub copies_in : (b u : List ℕ) (n : ℕ) → (k.copy_from_user b u n).0 ≡ 0
  pub copies_out : (u s : List ℕ) (n : ℕ) → (k.copy_to_user u s n).0 ≡ 0

-- What a run that reads ends with, for this secret.
abbrev pub shown : List ℕ → Outcome
shown [] = read_failed
shown (c ∷ cs) = printed (length (c ∷ cs)) (c ∷ cs)

-- The driver after an open and after a close.
abbrev opened : Driver → Driver
opened d = record d { ga = add32 d.ga 1; gb = sub32 d.gb 1 }

abbrev closed : Driver → Driver
closed d = record d { ga = sub32 d.ga 1; gb = add32 d.gb 1 }

module _ {k : Kernel} (laws : KernelLaws k) {malloc : ℕ → Option (List ℕ)}
    (fine : Succeeds k malloc) where
  as_write :
      (prg dev msg : List ℕ)
      → rdwr_main malloc (driver_device k) (prg ∷ (b'w' ∷ []) ∷ dev ∷ msg ∷ [])
        ≡ open_and_transfer malloc (driver_device k) true msg
  unfolding rdwr_main
  as_write prg dev msg =
      let fits : ltb maxbytes (strnlen msg maxbytes) ≡ false = ground arith in
      ap (λ b. if b then pure too_big else open_and_transfer malloc (driver_device k) true msg) fits

  as_read :
      (prg dev : List ℕ)
      → rdwr_main malloc (driver_device k) (prg ∷ (b'r' ∷ []) ∷ dev ∷ [])
        ≡ open_and_transfer malloc (driver_device k) false []
  unfolding rdwr_main
  as_read prg dev = refl

  size-le : (msg : List ℕ) → write_size msg ≤ 128
  size-le msg = ground arith

  size-lt : (msg : List ℕ) → 0 < write_size msg
  size-lt msg = ground arith

  length-strncpy : (buf msg : List ℕ) (n : ℕ) → n ≤ length (strncpy buf msg n)
  length-strncpy buf msg n = omega (
    arith,
    length-append (take n msg ++ replicate (n - length msg) 0) (drop n buf),
    length-append (take n msg) (replicate (n - length msg) 0),
    length-take n msg,
    length-replicate {A = ℕ} (n - length msg) 0,
  )

  then_close :
      {c : DrvCtx} {d : Driver}
      → IsReady c d
      → (o : Outcome) → ((driver_device k).close_file >> pure o) d ≡ done o (closed d)
  then_close ready o = rw (◌>>=◌, close_lem ready) refl

  write_run :
      {c : DrvCtx} {d : Driver} (prg dev msg : List ℕ)
      → IsReady c d
      → NoNul msg
      → (c' : DrvCtx) × (d' : Driver) × (rdwr_main malloc
            (driver_device k)
            (prg ∷ (b'w' ∷ []) ∷ dev ∷ msg ∷ [])
            d
          ≡ done (wrote (write_size msg)) d')
        × IsReady c' d'
        × (secret c' ≡ take 127 msg)
  write_run {c} {d} prg dev msg ready ok =
      let (buf, given, size) = fine.gives (write_size msg) (size-le msg) in
      let (kbuf, kgiven) = fine.kernel_gives (write_size msg) (size-le msg) in
      let ready' : IsReady c (opened d) = recount _ _ ready in
      let (c', runs, stored, _, _, after) =
        write_stores_secret laws ready' kbuf (strncpy buf msg (write_size msg)) (write_size msg)
          (length-strncpy buf msg (write_size msg)) kgiven (fine.copies_in _ _ _) (size-lt msg)
          (omega (arith, size-le msg)) in
      (
        c',
        closed (record (opened d) { ctx = some c' }),
        ap (λ m. m d) (as_write prg dev msg)
            ∙ rw (◌>>=◌, open_lem ready)
                (rw (transfer, given) (rw (◌>>=◌, runs) (then_close after _))),
        recount _ _ after,
        stored ∙ stored_lem buf msg ok,
      )

  printed_lem :
      {c : DrvCtx} {d : Driver} (rbuf : List ℕ)
      → IsReady c d
      → c_string (take (length (secret c)) (secret c ++ drop (length (secret c)) rbuf)) ≡ secret c
  printed_lem {c} rbuf ready =
      ap c_string (
        take-append_left (length (secret c)) (secret c) (drop (length (secret c)) rbuf)
          (omega arith)
        ∙ take_all (length (secret c)) (secret c) (omega arith))
      ∙ c_string_idem c.oursecret

  read_run_at :
      {c : DrvCtx} {d : Driver} (s : List ℕ)
      → secret c ≡ s
      → IsReady c d
      → (d' : Driver) × (open_and_transfer malloc (driver_device k) false [] d ≡ done (shown s) d')
  read_run_at {c} {d} [] e ready =
      let (rbuf, given, size) = fine.gives 128 (omega arith) in
      let ready' : IsReady c (opened d) = recount _ _ ready in
      (
        closed (opened d),
        rw (◌>>=◌, open_lem ready)
            (rw (transfer, given)
              (rw (◌>>=◌, read_refused laws ready' rbuf 128 (inr e)) (then_close ready' _))),
      )
  read_run_at {c} {d} (x ∷ xs) e ready =
      let (rbuf, given, size) = fine.gives 128 (omega arith) in
      let ready' : IsReady c (opened d) = recount _ _ ready in
      let full : secret c ≢ [] = λ z. cc (e, z) in
      let after : IsReady (record c { tx = add32 c.tx (length (secret c)) })
          (record (opened d) { ctx = some (record c { tx = add32 c.tx (length (secret c)) }) }) =
        count_tx ready' (add32 c.tx (length (secret c))) in
      (
        closed
            (record (opened d) { ctx = some (record c { tx = add32 c.tx (length (secret c)) }) }),
        rw (◌>>=◌, open_lem ready)
            (rw (transfer, given)
              (rw
                (
                  ◌>>=◌,
                  read_returns_secret laws ready' rbuf 128 (omega arith) (omega (arith, size)) full
                      (fine.copies_out _ _ _),
                )
                (then_close after _ ∙ rw (printed_lem rbuf ready, e) refl))),
      )

  -- The program run with `w` and the message, and then with `r`.
  abbrev pub write_then_read : (prg dev msg : List ℕ) → Cmd (Outcome × Outcome)
  write_then_read prg dev msg = do
    first ← rdwr_main malloc (driver_device k) (prg ∷ (b'w' ∷ []) ∷ dev ∷ msg ∷ [])
    second ← rdwr_main malloc (driver_device k) (prg ∷ (b'r' ∷ []) ∷ dev ∷ [])
    pure (first, second)

  -- From a ready driver, with a kernel that keeps its promises, memory to be had and complete
  -- copies: a run of the program that writes a message without a NUL byte, and a run that then
  -- reads, print the first 127 bytes of the message. For the empty message the read fails.
  pub rdwr_main_round_trip :
      {c : DrvCtx} {d : Driver} (prg dev msg : List ℕ)
      → IsReady c d
      → NoNul msg
      → (d' : Driver) × (write_then_read prg dev msg d
          ≡ done (wrote (write_size msg), shown (take 127 msg)) d')
  rdwr_main_round_trip prg dev msg ready ok =
      let (c', d', first, ready', stored) = write_run prg dev msg ready ok in
      let (d'', second) = read_run_at (take 127 msg) stored ready' in
      (d'', rw (◌>>=◌, first, as_read prg dev, second) refl)
