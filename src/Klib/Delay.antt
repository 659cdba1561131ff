-- ===== src/Klib/Delay.antt =====
-- klib.c, `delay_sec`.
use linux_kernel_programming.Base.{
  ℕ, ◌-◌, ◌*◌, ◌%◌, ◌^◌, ◌<◌, ◌≡◌, ◌≢◌, refl, Option, none, some, Bool, true, ◌==◌, if◌then◌else◌,
  arith, ==-eq-false,
}
use linux_kernel_programming.Base.Words.{u64_mod}

-- LONG_MAX
abbrev pub max_schedule_timeout : ℕ
max_schedule_timeout = 2 ^ 63 - 1

-- The timeout in jiffies that the current task sleeps for; nothing outside of a task. A `long' is
-- kept as its pattern, so -1 is 2^64 - 1.
unfoldable pub delay_sec : (in_task : Bool) → (hz : ℕ) → (val : ℕ) → Option ℕ
delay_sec in_task hz val =
    if in_task
    then (if val == u64_mod - 1 then some max_schedule_timeout else some (val * hz % u64_mod))
    else none

-- A number of seconds is slept for in full as long as its jiffies are a `long'.
delay_sec_lem :
    (hz val : ℕ) → val * hz < 2 ^ 63 → val ≢ u64_mod - 1 → delay_sec true hz val ≡ some (val * hz)
unfolding delay_sec
delay_sec_lem hz val fits finite =
    let same : val * hz % u64_mod ≡ val * hz = omega arith in
    rw (==-eq-false val (u64_mod - 1) finite, same) refl
