-- ===== src/Threads/Format.antt =====
-- What the conversions `%8d`, `%-16s` and `%px` of the kernel's `snprintf` print, as lists of bytes.
use linux_kernel_programming.Base.{
  ℕ, zero, suc, ◌+◌, ◌-◌, ◌*◌, ◌/◌, ◌%◌, ◌^◌, ◌<◌, ◌≤◌, ◌≡◌, refl, List, [], ◌∷◌, ◌++◌,
  if◌then◌else◌, ltb, length, replicate, length-append, length-replicate, arith,
}

abbrev pub Text : Type 0
Text = List ℕ

abbrev pub space : ℕ
space = 32

abbrev pub newline : ℕ
newline = 10

-- The last `fuel` decimal digits of `n`, without leading zeros
unfoldable pub dec_digits : ℕ → ℕ → Text
dec_digits zero n = []
dec_digits (suc fuel) n =
    let rest = dec_digits fuel (n / 10) in
    if ltb n 10 then (48 + n) ∷ [] else rest ++ (48 + n % 10) ∷ []

-- An `int` or `unsigned int` that is not negative has ten digits at most.
unfoldable pub decimal : ℕ → Text
unfolding dec_digits
decimal n = dec_digits 10 n

abbrev nibble : ℕ → ℕ
nibble d = if ltb d 10 then 48 + d else 87 + d

-- The last `k` hexadecimal digits
unfoldable pub hex_digits : ℕ → ℕ → Text
hex_digits zero n = []
hex_digits (suc k) n = hex_digits k (n / 16) ++ nibble (n % 16) ∷ []

-- `0x%px` on a 64-bit kernel
unfoldable pub pointer : ℕ → Text
unfolding hex_digits
pointer n = 48 ∷ 120 ∷ hex_digits 16 n

-- A field `%8d` or `%16s`, and a field `%-16s`
unfoldable pub pad_left : ℕ → Text → Text
pad_left width text = replicate (width - length text) space ++ text

unfoldable pub pad_right : ℕ → Text → Text
pad_right width text = text ++ replicate (width - length text) space

length-dec_digits : (fuel n : ℕ) → length (dec_digits fuel n) ≤ fuel
unfolding dec_digits
length-dec_digits zero n = omega arith
length-dec_digits (suc fuel) n = ground (
  arith,
  length-dec_digits fuel (n / 10),
  length-append (dec_digits fuel (n / 10)) ((48 + n % 10) ∷ []),
)

pub length-decimal : (n : ℕ) → length (decimal n) ≤ 10
unfolding decimal
length-decimal n = length-dec_digits 10 n

length-hex_digits : (k n : ℕ) → length (hex_digits k n) ≡ k
unfolding hex_digits
length-hex_digits zero n = refl
length-hex_digits (suc k) n = omega (
  arith,
  length-hex_digits k (n / 16),
  length-append (hex_digits k (n / 16)) (nibble (n % 16) ∷ []),
)

pub length-pointer : (n : ℕ) → length (pointer n) ≡ 18
unfolding pointer
length-pointer n = omega (arith, length-hex_digits 16 n)

pub length-pad_left :
    (width bound : ℕ) (text : Text)
    → length text ≤ bound
    → width ≤ bound
    → length (pad_left width text) ≤ bound
unfolding pad_left
length-pad_left width bound text short w = omega (
  arith,
  length-append (replicate (width - length text) space) text,
  length-replicate (width - length text) space,
)

pub length-pad_right :
    (width bound : ℕ) (text : Text)
    → length text ≤ bound
    → width ≤ bound
    → length (pad_right width text) ≤ bound
unfolding pad_right
length-pad_right width bound text short w = omega (
  arith,
  length-append text (replicate (width - length text) space),
  length-replicate (width - length text) space,
)

-- The number that decimal digits stand for, `acc` being the digits before
unfoldable digits_value : ℕ → Text → ℕ
digits_value acc [] = acc
digits_value acc (d ∷ ds) = digits_value (10 * acc + (d - 48)) ds

digits_value-append :
    (acc : ℕ) (xs : Text) (d : ℕ)
    → digits_value acc (xs ++ d ∷ []) ≡ 10 * digits_value acc xs + (d - 48)
unfolding digits_value
digits_value-append acc [] d = refl
digits_value-append acc (x ∷ xs) d = digits_value-append (10 * acc + (x - 48)) xs d

digits_value-dec_digits :
    (fuel n : ℕ) → n < 10 ^ fuel → 0 < fuel → digits_value 0 (dec_digits fuel n) ≡ n
unfolding digits_value dec_digits
digits_value-dec_digits zero n h p = absurd (omega arith)
digits_value-dec_digits (suc zero) n h p = ground arith
digits_value-dec_digits (suc (suc fuel)) n h p = ground (
  arith,
  digits_value-dec_digits (suc fuel) (n / 10),
  digits_value-append 0 (dec_digits (suc fuel) (n / 10)) (48 + n % 10),
)

-- Ten digits are enough for 32 bits.
decimal_value : (n : ℕ) → n < 2 ^ 32 → digits_value 0 (decimal n) ≡ n
unfolding decimal
decimal_value n h = digits_value-dec_digits 10 n (omega arith) (omega arith)
