-- ===== src/Mutexlock/Defs.antt =====
-- The state of the driver module, and commands over it. A mutex is a flag: locking it when it is
-- held would wait for ever, since one context runs at a time here; unlocking it when it is free is
-- an error.
use linux_kernel_programming.Base.{ℕ, List, Bool, true, false, Option, none, some, if◌then◌else◌}

-- `struct drv_ctx`, less the device pointer, which is only printed
pub record DrvCtx : Type 0 where
  pub tx : ℕ
  pub rx : ℕ
  pub err : ℕ
  pub myword : ℕ
  pub config1 : ℕ
  pub config2 : ℕ
  pub config3 : ℕ
  pub oursecret : List ℕ
  pub lock : Bool

abbrev pub maxbytes : ℕ
maxbytes = 128

-- The globals: `ga`, `gb` (32-bit patterns), `lock1`, `ctx`, with whether the misc device is
-- registered and how many buffers of `kvmalloc` are live.
pub record Driver : Type 0 where
  pub ga : ℕ
  pub gb : ℕ
  pub lock1 : Bool
  pub ctx : Option DrvCtx
  pub registered : Bool
  pub kbufs : ℕ

pub data Fault : Type 0 where
  deadlock not_held null_deref overrun : Fault

pub data Run (A : Type 0) : Type 0 where
  done : A → Driver → Run A
  fault : Fault → Run A

abbrev pub Cmd : Type 0 → Type 0
Cmd A = Driver → Run A

abbrev pub pure : {A : Type 0} → A → Cmd A
pure a d = done a d

infixl 5 ◌>>=◌ ◌>>◌
abbrev pub ◌>>=◌ : {A B : Type 0} → Cmd A → (A → Cmd B) → Cmd B
◌>>=◌ m f d = elim (m d) [ done a d' ↦ f a d' | fault e ↦ fault e ]

abbrev pub ◌>>◌ : {B : Type 0} → Cmd (Unit {0}) → Cmd B → Cmd B
m >> n = m >>= λ _. n

-- `ctx->…`: a fault while `ctx` is NULL
abbrev pub get_ctx : Cmd DrvCtx
get_ctx d = elim d.ctx [ none ↦ fault null_deref | some c ↦ done c d ]

abbrev pub put_ctx : DrvCtx → Cmd (Unit {0})
put_ctx c d = done tt (record d { ctx = some c })

-- `mutex_lock(&ctx->lock)` and its unlock
abbrev pub lock_ctx : Cmd (Unit {0})
lock_ctx = do
  c ← get_ctx
  if c.lock then (λ d. fault deadlock) else put_ctx (record c { lock = true })

abbrev pub unlock_ctx : Cmd (Unit {0})
unlock_ctx = do
  c ← get_ctx
  if c.lock then put_ctx (record c { lock = false }) else (λ d. fault not_held)

-- `mutex_lock(&lock1)` and its unlock
abbrev pub lock_lock1 : Cmd (Unit {0})
lock_lock1 d = if d.lock1 then fault deadlock else done tt (record d { lock1 = true })

abbrev pub unlock_lock1 : Cmd (Unit {0})
unlock_lock1 d = if d.lock1 then done tt (record d { lock1 = false }) else fault not_held
