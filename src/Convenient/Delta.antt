-- ===== src/Convenient/Delta.antt =====
-- SHOW_DELTA on a 64-bit kernel: the difference of two times, as patterns of 64 bits; and DELAY_LOOP.
use linux_kernel_programming.Base.{
  ℕ, zero, suc, ◌+◌, ◌-◌, ◌/◌, ◌%◌, ◌^◌, ◌<◌, ◌≡◌, refl, List, [], ◌∷◌, Bool, true, if◌then◌else◌,
  ltb, leb, arith, lt→ltb,
}
use linux_kernel_programming.Base.Words.{ℤ, pos, negsuc, u64_mod}

pub data Line : Type 0 where
  delta_ns : ℤ → Line
  about_us about_ms : ℕ → Line
  close invalid : Line

abbrev pub signed64 : ℕ → ℤ
signed64 w = if ltb w (2 ^ 63) then pos w else negsuc (2 ^ 64 - w - 1)

-- `time_after(a, b)`: is `b - a` negative, as a `long'?
abbrev pub time_after : ℕ → ℕ → Bool
time_after a b = leb (2 ^ 63) ((b + u64_mod - a) % u64_mod)

-- A quotient that is 1 or more is printed; that of a negative number is not.
abbrev pub quotients : ℤ → List Line
quotients (negsuc n) = []
quotients (pos n) =
    if leb 1 (n / 1000)
    then about_us (n / 1000)
      ∷ (if leb 1 (n / 1_000_000) then about_ms (n / 1_000_000) ∷ close ∷ [] else close ∷ [])
    else []

unfoldable pub show_delta : (later earlier : ℕ) → List Line
show_delta later earlier =
    let ns = signed64 ((later + u64_mod - earlier) % u64_mod) in
    if time_after later earlier then delta_ns ns ∷ quotients ns else invalid ∷ []

-- For times of which the later one is later, less than 2^63 ns: the difference is shown, with its
-- microseconds and milliseconds where they are 1 or more.
show_delta_later :
    (later earlier : ℕ)
    → later < u64_mod
    → earlier < later
    → later - earlier < 2 ^ 63
    → show_delta later earlier
      ≡ delta_ns (pos (later - earlier)) ∷ quotients (pos (later - earlier))
unfolding show_delta
show_delta_later later earlier small order near =
    let ns : (later + u64_mod - earlier) % u64_mod ≡ later - earlier = omega arith in
    let after : time_after later earlier ≡ true = ground arith in
    rw (ns, after, lt→ltb (later - earlier) (2 ^ 63) near) refl

-- The characters that `DELAY_LOOP(val, loop_count)` prints; the loops that pass the time are left out.
unfoldable pub delay_loop : (val loop_count : ℕ) → List ℕ
delay_loop val zero = []
delay_loop val (suc loop_count) = val % 256 ∷ delay_loop val loop_count
