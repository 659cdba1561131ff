-- ===== src/Kernel/Defs.antt =====
-- C strings in byte arrays, errno values, and the kernel's copying and allocating calls.
use linux_kernel_programming.Base.{
  ℕ, ◌-◌, ◌≤◌, ◌<◌, ◌≡◌, List, [], ◌∷◌, ◌++◌, Option, none, some, arith, ltb, ◌==◌, if◌then◌else◌,
  length, take, drop, replicate,
}
use linux_kernel_programming.Base.Words.{ℤ, negsuc}

abbrev pub enomem : ℤ
enomem = negsuc 11

abbrev pub efault : ℤ
efault = negsuc 13

abbrev pub einval : ℤ
einval = negsuc 21

-- The string in an array: the bytes before the first NUL, or all if there is none.
unfoldable pub c_string : List ℕ → List ℕ
c_string [] = []
c_string (c ∷ cs) = let rest = c_string cs in if c == 0 then [] else c ∷ rest

-- `none` is a read past the end of an array that holds no NUL.
unfoldable pub strlen : List ℕ → Option ℕ
strlen s = if ltb (length (c_string s)) (length s) then some (length (c_string s)) else none

unfoldable pub memset : List ℕ → ℕ → ℕ → List ℕ
memset s c n = replicate n c ++ drop n s

pub record Kernel : Type 0 where
  -- destination, source, size; the value that the call returns is not used by the drivers
  pub strscpy : List ℕ → List ℕ → ℕ → List ℕ
  -- the buffer, or `none` for NULL
  pub kvmalloc : ℕ → Option (List ℕ)
  -- user buffer, source, size: the number of bytes not copied, and the user buffer then
  pub copy_to_user : List ℕ → List ℕ → ℕ → ℕ × List ℕ
  -- kernel buffer, user buffer, size: the number of bytes not copied, and the kernel buffer then
  pub copy_from_user : List ℕ → List ℕ → ℕ → ℕ × List ℕ

pub record KernelLaws (k : Kernel) : Type 0 where
  -- A size of 0 is refused and nothing is written.
  pub strscpy_zero : (dst src : List ℕ) → k.strscpy dst src 0 ≡ dst
  -- Else as much of the string as fits with its NUL, reading no more than `size` bytes.
  pub strscpy_copies :
      (dst src : List ℕ) (size : ℕ)
      → 0 < size
      → size ≤ length dst
      → size ≤ length src
      → c_string (k.strscpy dst src size) ≡ take (size - 1) (c_string src)
  -- The array written to keeps its size.
  pub strscpy_size :
      (dst src : List ℕ) (size : ℕ)
      → size ≤ length dst
      → size ≤ length src
      → length (k.strscpy dst src size) ≡ length dst
  pub kvmalloc_size : (n : ℕ) (b : List ℕ) → k.kvmalloc n ≡ some b → length b ≡ n
  pub copy_to_user_all :
      (u s : List ℕ) (n : ℕ)
      → n ≤ length s
      → n ≤ length u
      → (k.copy_to_user u s n).0 ≡ 0
      → (k.copy_to_user u s n).1 ≡ take n s ++ drop n u
  pub copy_from_user_all :
      (b u : List ℕ) (n : ℕ)
      → length b ≡ n
      → n ≤ length u
      → (k.copy_from_user b u n).0 ≡ 0
      → (k.copy_from_user b u n).1 ≡ take n u

-- A string is no longer than its array, and cutting an array within its string cuts the string.
pub length-c_string-le : (s : List ℕ) → length (c_string s) ≤ length s
unfolding c_string
length-c_string-le [] = omega arith
length-c_string-le (c ∷ cs) = ground (arith, length-c_string-le cs)

pub c_string_idem : (s : List ℕ) → c_string (c_string s) ≡ c_string s
unfolding c_string
c_string_idem [] = ground arith
c_string_idem (c ∷ cs) = ground (arith, c_string_idem cs)

-- The first `n` bytes of an array whose string is no longer are the string and what follows it.
pub take-length-c_string : (s : List ℕ) → take (length (c_string s)) s ≡ c_string s
unfolding c_string
take-length-c_string [] = ground arith
take-length-c_string (c ∷ cs) = ground (arith, take-length-c_string cs)
