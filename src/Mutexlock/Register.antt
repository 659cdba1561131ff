-- ===== src/Mutexlock/Register.antt =====
-- What the driver promises: a register that holds a string. `Does` says what a call may answer and
-- what it makes of the string, without a word on buffers, locks and counters.
use linux_kernel_programming.Base.{
  ℕ, ◌≤◌, ◌<◌, ◌≡◌, ◌≢◌, List, [], ◌∷◌, ◌++◌, none, some, length, drop,
}
use linux_kernel_programming.Base.Words.{ℤ, pos, negsuc}
use linux_kernel_programming.Kernel.{Kernel, einval, efault, enomem, memset}
use linux_kernel_programming.Mutexlock.Defs.{Cmd, pure, ◌>>=◌}
use linux_kernel_programming.Mutexlock.Ops.{
  open_miscdrv_rdwr, close_miscdrv_rdwr, read_miscdrv_rdwr, write_miscdrv_rdwr,
}
use linux_kernel_programming.Mutexlock.RoundTrip.{stored_part}
use linux_kernel_programming.Mutexlock.Sessions.{Call, open_call, close_call, read_call, write_call}

-- What user space gets from a call: a value, or for a read that succeeds the number of bytes and the
-- buffer.
pub data Reply : Type 0 where
  returned : ℤ → Reply
  gave : (n : ℕ) (ubuf : List ℕ) → Reply

abbrev pub read_reply : ℤ × List ℕ → Reply
read_reply (negsuc e, ubuf) = returned (negsuc e)
read_reply (pos n, ubuf) = gave n ubuf

unfoldable pub answer : Call → Cmd Reply
answer open_call = do r ← open_miscdrv_rdwr; pure (returned r)
answer close_call = do r ← close_miscdrv_rdwr; pure (returned r)
answer (read_call k ubuf count) = do r ← read_miscdrv_rdwr k ubuf count; pure (read_reply r)
answer (write_call k ubuf count) = do r ← write_miscdrv_rdwr k ubuf count; pure (returned r)

unfoldable pub answers : List Call → Cmd (List Reply)
answers [] = pure []
answers (c ∷ cs) = do r ← answer c; rs ← answers cs; pure (r ∷ rs)

-- A call on the register, which holds `s` before and the last string after it.
pub data Does : Call → (s : List ℕ) → Reply → List ℕ → Type 0 where
  opens : (s : List ℕ) → Does open_call s (returned (pos 0)) s
  closes : (s : List ℕ) → Does close_call s (returned (pos 0)) s
  read_short :
      (k : Kernel) (u : List ℕ) (n : ℕ) (s : List ℕ)
      → n < 128
      → Does (read_call k u n) s (returned einval) s
  read_empty : (k : Kernel) (u : List ℕ) (n : ℕ) → Does (read_call k u n) [] (returned einval) []
  read_fault :
      (k : Kernel) (u : List ℕ) (n : ℕ) (s : List ℕ)
      → 128 ≤ n
      → s ≢ []
      → Does (read_call k u n) s (returned efault) s
  read_gives :
      (k : Kernel) (u : List ℕ) (n : ℕ) (s : List ℕ)
      → 128 ≤ n
      → s ≢ []
      → Does (read_call k u n) s (gave (length s) (s ++ drop (length s) u)) s
  write_no_memory :
      (k : Kernel) (u : List ℕ) (n : ℕ) (s : List ℕ)
      → k.kvmalloc n ≡ none
      → Does (write_call k u n) s (returned enomem) s
  write_fault :
      (k : Kernel) (u : List ℕ) (n : ℕ) (s b : List ℕ)
      → k.kvmalloc n ≡ some b
      → (k.copy_from_user (memset b 0 n) u n).0 ≢ 0
      → Does (write_call k u n) s (returned efault) s
  write_nothing :
      (k : Kernel) (u : List ℕ) (s : List ℕ) → Does (write_call k u 0) s (returned (pos 0)) s
  write_stores :
      (k : Kernel) (u : List ℕ) (n : ℕ) (s : List ℕ)
      → 0 < n
      → Does (write_call k u n) s (returned (pos n)) (stored_part u n)

-- A sequence of calls on the register.
pub data Runs : List Call → (s : List ℕ) → List Reply → List ℕ → Type 0 where
  over : (s : List ℕ) → Runs [] s [] s
  then :
      {c : Call} {cs : List Call} {s t v : List ℕ} {r : Reply} {rs : List Reply}
      → Does c s r t
      → Runs cs t rs v
      → Runs (c ∷ cs) s (r ∷ rs) v
