-- ===== src/Klib/Snprintf.antt =====
-- klib.c, `snprintf_lkp`: `vsnprintf` with a warning when the text did not fit.
use linux_kernel_programming.Base.{ℕ, suc, ◌-◌, ◌^◌, ◌<◌, ◌≡◌, ◌↔◌, Bool, false, List, arith, leb}
use linux_kernel_programming.Base.Words.{ℤ, pos, negsuc, u64_mod}

-- `n >= maxsize` compares an `int` with a `size_t`: `n` is converted to 64 unsigned bits.
abbrev size_of_int : ℤ → ℕ
size_of_int (pos n) = n
size_of_int (negsuc n) = u64_mod - suc n

-- `vsnprintf` takes the buffer, its size and the text that the arguments format to, and gives its
-- result and the buffer. The value is the result, whether the warning is printed, and the buffer.
unfoldable pub snprintf_lkp :
    (List ℕ → ℕ → List ℕ → ℤ × List ℕ) → List ℕ → ℕ → List ℕ → ℤ × Bool × List ℕ
snprintf_lkp vsnprintf buf maxsize text =
    let (n, buf') = vsnprintf buf maxsize text in (n, leb maxsize (size_of_int n), buf')

-- An `int`, and a result that says the text fits with its NUL.
abbrev pub IsInt : ℤ → Type 0
IsInt (pos n) = n < 2 ^ 31
IsInt (negsuc n) = n < 2 ^ 31

abbrev pub Fits : ℤ → ℕ → Type 0
Fits (pos n) maxsize = n < maxsize
Fits (negsuc n) maxsize = ⊥

unwarned_iff :
    (n : ℤ) (maxsize : ℕ)
    → IsInt n
    → maxsize < 2 ^ 63
    → (leb maxsize (size_of_int n) ≡ false) ↔ Fits n maxsize
unwarned_iff (pos n) maxsize h s = ground arith
unwarned_iff (negsuc n) maxsize h s = ground arith

-- For a size below 2^63, and a result that is an `int`, no warning means exactly that the result is
-- a length below the size. So an error of `vsnprintf`, a negative result, is warned of as well.
pub snprintf_lkp_silent_iff :
    (vsnprintf : List ℕ → ℕ → List ℕ → ℤ × List ℕ) (buf : List ℕ) (maxsize : ℕ) (text : List ℕ)
    → maxsize < 2 ^ 63
    → IsInt (vsnprintf buf maxsize text).0
    → ((snprintf_lkp vsnprintf buf maxsize text).1 ≡ false)
      ↔ Fits (snprintf_lkp vsnprintf buf maxsize text).0 maxsize
unfolding snprintf_lkp
snprintf_lkp_silent_iff vsnprintf buf maxsize text s h =
    unwarned_iff (vsnprintf buf maxsize text).0 maxsize h s
