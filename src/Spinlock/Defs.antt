-- ===== src/Spinlock/Defs.antt =====
-- The state of the driver and commands over it. Its globals and its context are those of the driver
-- with mutexes, `lock` being `ctx->mutex` and `lock1` a spinlock here; `ctx->spinlock` is new. A
-- thread that holds a spinlock must not sleep.
use linux_kernel_programming.Base.{none, some, Bool, true, false, if◌then◌else◌, ◌||◌}
use linux_kernel_programming.Base.Words.{ℤ}
use linux_kernel_programming.Mutexlock.{DrvCtx, Driver, Fault, deadlock, not_held, null_deref}

pub record State : Type 0 where
  pub driver : Driver
  pub spinlock : Bool
  pub buggy : ℤ

-- A command ends, or goes wrong, or sleeps while it holds a spinlock.
pub data Run (A : Type 0) : Type 0 where
  ended : A → State → Run A
  faulted : Fault → Run A
  slept_in_atomic : Run A

abbrev pub Cmd : Type 0 → Type 0
Cmd A = State → Run A

abbrev pub pure : {A : Type 0} → A → Cmd A
pure a s = ended a s

infixl 5 ◌>>=◌ ◌>>◌
abbrev pub ◌>>=◌ : {A B : Type 0} → Cmd A → (A → Cmd B) → Cmd B
◌>>=◌ m f s = elim (m s) [
  | ended a s' ↦ f a s'
  | faulted e ↦ faulted e
  | slept_in_atomic ↦ slept_in_atomic
]

abbrev pub ◌>>◌ : {B : Type 0} → Cmd (Unit {0}) → Cmd B → Cmd B
m >> n = m >>= λ _. n

abbrev pub get_ctx : Cmd DrvCtx
get_ctx s = elim s.driver.ctx [ none ↦ faulted null_deref | some c ↦ ended c s ]

abbrev pub put_driver : Driver → Cmd (Unit {0})
put_driver d s = ended tt (record s { driver = d })

abbrev pub put_ctx : DrvCtx → Cmd (Unit {0})
put_ctx c s = ended tt (record s { driver = record s.driver { ctx = some c } })

-- What every function that can sleep begins with
abbrev pub might_sleep : Cmd (Unit {0})
might_sleep s = if s.spinlock || s.driver.lock1 then slept_in_atomic else ended tt s

-- `ctx->spinlock`, `ctx->mutex` and `lock1`
abbrev pub lock_spin : Cmd (Unit {0})
lock_spin = do
  c ← get_ctx
  λ s. if s.spinlock then faulted deadlock else ended tt (record s { spinlock = true })

abbrev pub unlock_spin : Cmd (Unit {0})
unlock_spin = do
  c ← get_ctx
  λ s. if s.spinlock then ended tt (record s { spinlock = false }) else faulted not_held

abbrev pub lock_mutex : Cmd (Unit {0})
lock_mutex = do
  might_sleep
  c ← get_ctx
  if c.lock then (λ s. faulted deadlock) else put_ctx (record c { lock = true })

abbrev pub unlock_mutex : Cmd (Unit {0})
unlock_mutex = do
  c ← get_ctx
  if c.lock then put_ctx (record c { lock = false }) else (λ s. faulted not_held)

abbrev pub lock_lock1 : Cmd (Unit {0})
lock_lock1 s =
    if s.driver.lock1
    then faulted deadlock
    else ended tt (record s { driver = record s.driver { lock1 = true } })

abbrev pub unlock_lock1 : Cmd (Unit {0})
unlock_lock1 s =
    if s.driver.lock1
    then ended tt (record s { driver = record s.driver { lock1 = false } })
    else faulted not_held
