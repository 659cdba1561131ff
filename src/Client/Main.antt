-- ===== src/Client/Main.antt =====
-- The program. Its static `stay_alive` is 0 and stays so. An argument is the list of its bytes, less
-- the NUL at its end.
use linux_kernel_programming.Base.{
  ℕ, zero, suc, ◌+◌, ◌-◌, List, [], ◌∷◌, ◌++◌, Bool, ◌&&◌, ◌||◌, not, Option, none, some, ltb, ◌==◌,
  if◌then◌else◌, length, take, drop, replicate, min,
}
use linux_kernel_programming.Base.Words.{ℤ, pos, negsuc}
use linux_kernel_programming.Kernel.{c_string}
use linux_kernel_programming.Mutexlock.{maxbytes, Cmd, pure, ◌>>=◌, ◌>>◌}

-- The system calls, as far as the program needs them: does `open` give a descriptor; what `read` and
-- `write` return, and the buffer after the read.
pub record Device : Type 0 where
  pub open_file : Cmd Bool
  pub read_file : List ℕ → ℕ → Cmd (ℤ × List ℕ)
  pub write_file : List ℕ → ℕ → Cmd ℤ
  pub close_file : Cmd (Unit {0})

-- How a run ends. The last two exit with success: a read of `n` bytes and the secret as printed, a
-- write of `n` bytes.
pub data Outcome : Type 0 where
  bad_usage too_big not_opened no_memory read_failed write_failed : Outcome
  printed : (n : ℕ) → List ℕ → Outcome
  wrote : (n : ℕ) → Outcome

-- `argv[n]`, where there is one
abbrev pub argument : ℕ → List (List ℕ) → List ℕ
argument n [] = []
argument zero (a ∷ rest) = a
argument (suc n) (a ∷ rest) = argument n rest

-- `argv[1][0]`
abbrev pub first_byte : List ℕ → ℕ
first_byte [] = 0
first_byte (c ∷ cs) = c

-- The C library's `strnlen` and `strncpy`
abbrev pub strnlen : List ℕ → ℕ → ℕ
strnlen s n = min (length s) n

abbrev pub strncpy : List ℕ → List ℕ → ℕ → List ℕ
strncpy dst src n = take n src ++ replicate (n - length src) 0 ++ drop n dst

-- The number of bytes to write
abbrev pub write_size : List ℕ → ℕ
write_size msg = let num = strnlen msg maxbytes + 1 in if ltb maxbytes num then maxbytes else num

module _ (malloc : ℕ → Option (List ℕ)) (sys : Device) where
  -- What follows `read`, with the value it returned; "%.*s" prints the string in the first n bytes.
  abbrev pub after_read : ℤ → List ℕ → Cmd Outcome
  after_read (negsuc e) buf = do sys.close_file; pure read_failed
  after_read (pos n) buf = do sys.close_file; pure (printed n (c_string (take n buf)))

  abbrev pub after_write : ℤ → Cmd Outcome
  after_write (negsuc e) = do sys.close_file; pure write_failed
  after_write (pos n) = do sys.close_file; pure (wrote n)

  -- From `malloc` on
  abbrev pub transfer : Bool → List ℕ → Cmd Outcome
  transfer writing msg =
      let num = if writing then write_size msg else maxbytes in
      elim (malloc num) [
        | none ↦ do sys.close_file; pure no_memory
        | some buf ↦
            if writing
            then (do n ← sys.write_file (strncpy buf msg num) num; after_write n)
            else (do r ← sys.read_file buf num; after_read r.0 r.1)
      ]

  abbrev pub open_and_transfer : Bool → List ℕ → Cmd Outcome
  open_and_transfer writing msg = do
    opened ← sys.open_file
    if opened then transfer writing msg else pure not_opened

  unfoldable pub rdwr_main : List (List ℕ) → Cmd Outcome
  rdwr_main argv =
      let argc = length argv in
      let opt = first_byte (argument 1 argv) in
      if ltb argc 3
      then pure bad_usage
      else if not (opt == b'r') && not (opt == b'w')
      then pure bad_usage
      else if (opt == b'w') && not (argc == 4) || (opt == b'r') && not (argc == 3)
      then pure bad_usage
      else if (opt == b'w') && ltb maxbytes (strnlen (argument 3 argv) maxbytes)
      then pure too_big
      else open_and_transfer (opt == b'w') (argument 3 argv)
