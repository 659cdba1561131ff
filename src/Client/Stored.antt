-- ===== src/Client/Stored.antt =====
-- What the driver stores of a message that the program writes.
use linux_kernel_programming.Base.{
  ℕ, zero, suc, ◌-◌, ◌≤◌, ◌≡◌, ◌≢◌, ◌∙◌, ap, refl, List, [], ◌∷◌, ◌++◌, arith, length, take, drop,
  replicate, min, length-take, length-append, length-replicate, take-append_left, take_all,
}
use linux_kernel_programming.Kernel.{c_string}
use linux_kernel_programming.Mutexlock.{maxbytes}
use linux_kernel_programming.Mutexlock.RoundTrip.{stored_part}
use linux_kernel_programming.Client.Main.{strncpy, write_size}

abbrev pub NoNul : List ℕ → Type 0
NoNul [] = Unit {0}
NoNul (c ∷ cs) = (c ≢ 0) × NoNul cs

c_string-zeros : (n : ℕ) → c_string (replicate n 0) ≡ []
unfolding c_string
c_string-zeros zero = refl
c_string-zeros (suc n) = refl

c_string-pad : (n m : ℕ) (s : List ℕ) → NoNul s → c_string (take n s ++ replicate m 0) ≡ take n s
unfolding c_string
c_string-pad zero m s ok = c_string-zeros m
c_string-pad (suc n) m [] ok = c_string-zeros m
c_string-pad (suc n) m (c ∷ cs) (ne, ok) = ground (arith, ne, c_string-pad n m cs ok)

take-take : (m n : ℕ) (s : List ℕ) → m ≤ n → take m (take n s) ≡ take m s
take-take zero n s le = refl
take-take (suc m) zero s le = absurd (omega arith)
take-take (suc m) (suc n) [] le = refl
take-take (suc m) (suc n) (c ∷ cs) le = ap (λ t. c ∷ t) (take-take m n cs (omega arith))

take-length : (m n : ℕ) (s : List ℕ) → m ≡ min (length s) n → take m s ≡ take n s
take-length zero zero [] e = refl
take-length zero (suc n) [] e = refl
take-length (suc m) n [] e = absurd (omega arith)
take-length zero zero (c ∷ cs) e = refl
take-length zero (suc n) (c ∷ cs) e = absurd (omega arith)
take-length (suc m) zero (c ∷ cs) e = absurd (omega arith)
take-length (suc m) (suc n) (c ∷ cs) e = ap (λ t. c ∷ t) (take-length m n cs (omega arith))

-- The buffer of a write, as far as it is written.
buffer_lem :
    (n : ℕ) (buf msg : List ℕ)
    → take n (strncpy buf msg n) ≡ take n msg ++ replicate (n - length msg) 0
buffer_lem n buf msg =
    take-append_left n filled (drop n buf) (omega (arith, size))
    ∙ take_all n filled (omega (arith, size))
  where
    filled : List ℕ
    filled = take n msg ++ replicate (n - length msg) 0

    size : length filled ≡ n
    size = omega (
      arith,
      length-append (take n msg) (replicate (n - length msg) 0),
      length-take n msg,
      length-replicate {A = ℕ} (n - length msg) 0,
    )

-- A message without a NUL is stored up to its 127th byte.
pub stored_lem :
    (buf msg : List ℕ)
    → NoNul msg
    → stored_part (strncpy buf msg (write_size msg)) (write_size msg) ≡ take 127 msg
stored_lem buf msg ok =
    rw
      (
        buffer_lem (write_size msg) buf msg,
        c_string-pad (write_size msg) (write_size msg - length msg) msg ok,
      )
      (take-take (min (write_size msg) maxbytes - 1) (write_size msg) msg (omega arith)
        ∙ take-length (min (write_size msg) maxbytes - 1) 127 msg (ground arith))
