-- ===== src/Kernel/Concrete.antt =====
-- A kernel that meets the laws: every copy is complete, and every allocation up to 4096 bytes
-- succeeds. It is what the examples run with.
use linux_kernel_programming.Base.{
  ℕ, zero, suc, ◌-◌, ◌≤◌, ◌<◌, ◌≡◌, refl, ap, List, [], ◌∷◌, ◌++◌, none, some, arith, leb,
  if◌then◌else◌, length, take, drop, replicate, length-append, length-take, length-drop,
  length-replicate,
}
use linux_kernel_programming.Kernel.Defs.{c_string, Kernel, KernelLaws}

abbrev copy_string : List ℕ → List ℕ → ℕ → List ℕ
copy_string dst src zero = dst
copy_string dst src (suc n) =
    take n (c_string src) ++ 0 ∷ drop (suc (length (take n (c_string src)))) dst

c_string-append-zero :
    (n : ℕ) (s r : List ℕ) → c_string (take n (c_string s) ++ 0 ∷ r) ≡ take n (c_string s)
unfolding c_string
c_string-append-zero zero s r = ground arith
c_string-append-zero (suc n) [] r = ground arith
c_string-append-zero (suc n) (c ∷ s) r = ground (arith, c_string-append-zero n s r)

abbrev pub concrete : Kernel
concrete = record {
  strscpy = copy_string;
  kvmalloc = λ n. if leb n 4096 then some (replicate n 7) else none;
  copy_to_user = λ u s n. (0, take n s ++ drop n u);
  copy_from_user = λ b u n. (0, take n u);
}

copy_string_copies :
    (dst src : List ℕ) (size : ℕ)
    → 0 < size
    → c_string (copy_string dst src size) ≡ take (size - 1) (c_string src)
copy_string_copies dst src zero h = absurd (omega arith)
copy_string_copies dst src (suc n) h =
    rw (c_string-append-zero n src _) (ap (λ k. take k (c_string src)) (omega arith))

copy_string_size :
    (dst src : List ℕ) (size : ℕ)
    → size ≤ length dst
    → length (copy_string dst src size) ≡ length dst
copy_string_size dst src zero h = refl
copy_string_size dst src (suc n) h = omega (
  arith,
  length-append (take n (c_string src)) (0 ∷ drop (suc (length (take n (c_string src)))) dst),
  length-drop (suc (length (take n (c_string src)))) dst,
  length-take n (c_string src),
)

concrete_kvmalloc_size :
    (n : ℕ) (b : List ℕ)
    → (if leb n 4096 then some (replicate n 7) else none) ≡ some b
    → length b ≡ n
concrete_kvmalloc_size n b h = ground (arith, length-replicate {A = ℕ} n 7)

pub concrete-KernelLaws : KernelLaws concrete
concrete-KernelLaws = record {
  strscpy_zero = λ dst src. refl;
  strscpy_copies = λ dst src n p q r. copy_string_copies dst src n p;
  strscpy_size = λ dst src n p q. copy_string_size dst src n p;
  kvmalloc_size = concrete_kvmalloc_size;
  copy_to_user_all = λ u s n p q e. refl;
  copy_from_user_all = λ b u n p q e. refl;
}
