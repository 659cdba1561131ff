-- ===== src/Mutexlock/Init.antt =====
-- What init leaves behind, when it succeeds and when it fails.
use linux_kernel_programming.Base.{ℕ, ◌≡◌, refl, [], ◌∷◌, false, true, arith, replicate}
use linux_kernel_programming.Base.Words.{pos}
use linux_kernel_programming.Kernel.{Kernel, KernelLaws, c_string, enomem}
use linux_kernel_programming.Mutexlock.Defs.{maxbytes, Driver, done, fault, null_deref}
use linux_kernel_programming.Mutexlock.Ops.{
  miscdrv_init_mutexlock, at_insmod, initmsg, open_miscdrv_rdwr,
}
use linux_kernel_programming.Mutexlock.Ready.{secret}
use linux_kernel_programming.Mutexlock.Sessions.{IsIdle}

pub initial :
    (k : Kernel)
    → KernelLaws k
    → c_string (k.strscpy (replicate maxbytes 0) initmsg 8)
      ≡ b'i' ∷ b'n' ∷ b'i' ∷ b't' ∷ b'm' ∷ b's' ∷ b'g' ∷ []
unfolding c_string
initial k laws =
    laws.strscpy_copies (replicate maxbytes 0) initmsg 8 (omega arith) (omega arith) (omega arith)

-- A successful init registers the device and leaves the driver idle with the secret "initmsg".
pub init-IsIdle :
    (k : Kernel) (r : ℕ)
    → KernelLaws k
    → (d : Driver) × (miscdrv_init_mutexlock k (pos r) true at_insmod ≡ done (pos 0) d)
      × (i : IsIdle d) × (d.registered ≡ true)
      × (secret i.ctx ≡ b'i' ∷ b'n' ∷ b'i' ∷ b't' ∷ b'm' ∷ b's' ∷ b'g' ∷ [])
unfolding miscdrv_init_mutexlock
init-IsIdle k r laws = (
  _,
  refl,
  record {
    ctx = _;
    ready = record {
      here = refl;
      free1 = refl;
      free = refl;
      size = laws.strscpy_size (replicate maxbytes 0) initmsg 8 (omega arith) (omega arith);
      terminated = rw (initial k laws) (omega arith);
    };
    ga_fits = omega arith;
    gb_is = refl;
  },
  refl,
  initial k laws,
)

-- Init registers the device before it has memory for the context: without that memory it returns
-- -ENOMEM and leaves the device registered, and an open then goes through the NULL `ctx`.
pub init_enomem :
    (k : Kernel) (r : ℕ)
    → (d : Driver) × (miscdrv_init_mutexlock k (pos r) false at_insmod ≡ done enomem d)
      × (d.registered ≡ true)
      × (open_miscdrv_rdwr d ≡ fault null_deref)
unfolding miscdrv_init_mutexlock open_miscdrv_rdwr
init_enomem k r = (_, refl, refl, refl)
