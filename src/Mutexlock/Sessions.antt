-- ===== src/Mutexlock/Sessions.antt =====
-- Sequences of calls: the driver stays ready, whatever the kernel's allocations and copies do.
use linux_kernel_programming.Base.{
  ℕ, ◌+◌, ◌%◌, ◌^◌, ◌≤◌, ◌<◌, ◌≡◌, refl, ap, ◌∙◌, List, [], ◌∷◌, some, length, arith,
}
use linux_kernel_programming.Base.Words.{pos, add32, sub32, u32_mod}
use linux_kernel_programming.Kernel.{Kernel, KernelLaws}
use linux_kernel_programming.Mutexlock.Defs.{DrvCtx, Driver, done, Cmd, pure, ◌>>=◌, ◌>>◌}
use linux_kernel_programming.Mutexlock.Ops.{
  open_miscdrv_rdwr, close_miscdrv_rdwr, read_miscdrv_rdwr, write_miscdrv_rdwr,
}
use linux_kernel_programming.Mutexlock.Ready.{IsReady, recount}
use linux_kernel_programming.Mutexlock.Stays.{Stays, then_ignore, read-Stays, write-Stays}

-- A call of user space, with the kernel's answers during it.
pub data Call : Type 0 where
  open_call close_call : Call
  read_call write_call : Kernel → (ubuf : List ℕ) (count : ℕ) → Call

-- The kernel keeps its promises, and the user's buffer has room for the bytes asked for. (The VFS
-- cuts every request below 2 ^ 31 bytes.)
abbrev pub IsFair : Call → Type 0
IsFair (read_call k ubuf count) = KernelLaws k × (count ≤ length ubuf)
IsFair (write_call k ubuf count) = KernelLaws k × (count ≤ length ubuf) × (count < 2 ^ 31)
IsFair _ = Unit

abbrev pub AllFair : List Call → Type 0
AllFair [] = Unit
AllFair (c ∷ cs) = IsFair c × AllFair cs

unfoldable pub call : Call → Cmd (Unit {0})
call open_call = do r ← open_miscdrv_rdwr; pure tt
call close_call = do r ← close_miscdrv_rdwr; pure tt
call (read_call k ubuf count) = do r ← read_miscdrv_rdwr k ubuf count; pure tt
call (write_call k ubuf count) = do r ← write_miscdrv_rdwr k ubuf count; pure tt

unfoldable pub calls : List Call → Cmd (Unit {0})
calls [] = pure tt
calls (c ∷ cs) = call c >> calls cs

-- How many more files were opened than closed, as a 32-bit pattern.
unfoldable pub opens : List Call → ℕ
opens [] = 0
opens (open_call ∷ cs) = add32 (opens cs) 1
opens (close_call ∷ cs) = sub32 (opens cs) 1
opens (_ ∷ cs) = opens cs

-- A state between two calls.
pub record IsIdle (d : Driver) : Type 0 where
  pub ctx : DrvCtx
  pub ready : IsReady ctx d
  pub ga_fits : d.ga < u32_mod
  pub gb_is : (d.ga + d.gb) % u32_mod ≡ 1

-- `c` runs to its end from `d`, in a state that is idle again; the live buffers are as many.
pub record Completes (c : Cmd (Unit {0})) (opened : ℕ) (d : Driver) : Type 0 where
  pub after : Driver
  pub runs : c d ≡ done tt after
  pub idle : IsIdle after
  pub kbufs_kept : after.kbufs ≡ d.kbufs
  pub registered_kept : after.registered ≡ d.registered
  pub ga_is : after.ga ≡ add32 d.ga opened

module _ {c : DrvCtx} {d : Driver} (r : IsReady c d) where
  pub open_lem :
      open_miscdrv_rdwr d ≡ done (pos 0) (record d { ga = add32 d.ga 1; gb = sub32 d.gb 1 })
  unfolding open_miscdrv_rdwr
  open_lem = rw (r.here, r.free1)

  pub close_lem :
      close_miscdrv_rdwr d ≡ done (pos 0) (record d { ga = sub32 d.ga 1; gb = add32 d.gb 1 })
  unfolding close_miscdrv_rdwr
  close_lem = rw (r.here, r.free1)

-- A call that only changes the context, and leaves it ready.
stays : {m : Cmd (Unit {0})} {d : Driver} (i : IsIdle d) → Stays m d → Completes m 0 d
stays {m} {d} i st = record {
  after = record d { ctx = some st.ctx };
  runs = st.runs;
  idle = record { ctx = st.ctx; ready = st.ready; ga_fits = i.ga_fits; gb_is = i.gb_is };
  kbufs_kept = refl;
  registered_kept = refl;
  ga_is = omega (arith, i.ga_fits);
}

-- Every call of user space runs to its end: no lock is taken twice or left taken, no buffer is
-- left allocated, and `ga + gb` stays 1 modulo 2^32.
pub call-Completes :
    (c : Call) (d : Driver) → IsFair c → IsIdle d → Completes (call c) (opens (c ∷ [])) d
unfolding call opens
call-Completes open_call d f i = record {
  after = record d { ga = add32 d.ga 1; gb = sub32 d.gb 1 };
  runs = then_ignore open_miscdrv_rdwr (pos 0) d _ (open_lem i.ready);
  idle = record {
    ctx = i.ctx;
    ready = recount _ _ i.ready;
    ga_fits = omega arith;
    gb_is = omega (arith, i.gb_is);
  };
  kbufs_kept = refl;
  registered_kept = refl;
  ga_is = omega arith;
}
call-Completes close_call d f i = record {
  after = record d { ga = sub32 d.ga 1; gb = add32 d.gb 1 };
  runs = then_ignore close_miscdrv_rdwr (pos 0) d _ (close_lem i.ready);
  idle = record {
    ctx = i.ctx;
    ready = recount _ _ i.ready;
    ga_fits = omega arith;
    gb_is = omega (arith, i.gb_is);
  };
  kbufs_kept = refl;
  registered_kept = refl;
  ga_is = omega arith;
}
call-Completes (read_call k ubuf count) d f i = stays i (read-Stays i.ready k f.0 ubuf count f.1)
call-Completes (write_call k ubuf count) d f i =
    stays i (write-Stays i.ready k f.0 ubuf count f.1 f.2)

opens-lt : (cs : List Call) → opens cs < u32_mod
unfolding opens
opens-lt [] = omega arith
opens-lt (open_call ∷ cs) = omega arith
opens-lt (close_call ∷ cs) = omega arith
opens-lt (read_call _ _ _ ∷ cs) = opens-lt cs
opens-lt (write_call _ _ _ ∷ cs) = opens-lt cs

opens-cons : (c : Call) (cs : List Call) → add32 (opens cs) (opens (c ∷ [])) ≡ opens (c ∷ cs)
unfolding opens
opens-cons open_call cs = omega arith
opens-cons close_call cs = omega arith
opens-cons (read_call _ _ _) cs = omega (arith, opens-lt cs)
opens-cons (write_call _ _ _) cs = omega (arith, opens-lt cs)

add-opens :
    (g : ℕ) (c : Call) (cs : List Call)
    → add32 (add32 g (opens (c ∷ []))) (opens cs) ≡ add32 g (opens (c ∷ cs))
add-opens g c cs = omega (arith, opens-cons c cs)

-- From an idle driver any sequence of calls, with buffers that have room for the bytes asked for
-- and a kernel that keeps its promises, runs to its end and leaves the driver idle: every lock is
-- free, the secret is always a string within its 128 bytes, no `kvmalloc` buffer leaks, `ga` has
-- gone up by the opens less the closes, and `ga + gb` is 1, modulo 2^32.
pub calls_complete :
    (cs : List Call) (d : Driver) → AllFair cs → IsIdle d → Completes (calls cs) (opens cs) d
unfolding calls opens
calls_complete [] d f i = record {
  after = d;
  runs = refl;
  idle = i;
  kbufs_kept = refl;
  registered_kept = refl;
  ga_is = omega (arith, i.ga_fits);
}
calls_complete (c ∷ cs) d f i =
    let one = call-Completes c d f.0 i in
    let rest = calls_complete cs one.after f.1 one.idle in
    record {
      after = rest.after;
      runs = rw (one.runs, ◌>>=◌) rest.runs;
      idle = rest.idle;
      kbufs_kept = rest.kbufs_kept ∙ one.kbufs_kept;
      registered_kept = rest.registered_kept ∙ one.registered_kept;
      ga_is = rest.ga_is ∙ ap (λ g. add32 g (opens cs)) one.ga_is ∙ add-opens d.ga c cs;
    }
