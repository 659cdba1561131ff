-- ===== src/Alloc/Exact.antt =====
-- ch8/page_exact_loop/page_exact_loop.c
use linux_kernel_programming.Base.{
  ℕ, zero, suc, ◌*◌, ◌==◌, if◌then◌else◌, Bool, List, [], ◌∷◌, ◌++◌,
}
use linux_kernel_programming.Base.Words.{ℤ, pos}
use linux_kernel_programming.Kernel.{enomem}
use linux_kernel_programming.Alloc.Heap.{Cmd, pure, ◌>>=◌, ◌>>◌, alloc, exact, free_pages_exact}

abbrev pub maxtimes : ℕ
maxtimes = 3

abbrev pub gsz : ℕ
gsz = 33 * 1024

-- `free_pages_exact(gptr[j], gsz)` for each of these slots in order
unfoldable pub free_all : List ℕ → Cmd (Unit {0})
free_all [] = pure tt
free_all (p ∷ ps) = do free_pages_exact p gsz; free_all ps

-- The loop with `rounds` rounds to go at index `i`; `taken` are the slots below `i`, the last first.
-- When a slot is NULL, the freeing begins at it.
unfoldable pub alloc_loop : (ℕ → Bool) → ℕ → ℕ → List ℕ → Cmd (ℤ × List ℕ)
unfolding free_all
alloc_loop ok zero i taken = pure (pos 0, taken)
alloc_loop ok (suc rounds) i taken = do
  p ← alloc (ok i) (exact gsz)
  if p == 0
      then (do free_all (p ∷ taken); pure (enomem, p ∷ taken))
      else alloc_loop ok rounds (suc i) (p ∷ taken)

unfoldable pub page_exact_loop_init : (ℕ → Bool) → Cmd (ℤ × List ℕ)
unfolding alloc_loop
page_exact_loop_init ok = alloc_loop ok maxtimes 0 []

abbrev pub backwards : List ℕ → List ℕ
backwards [] = []
backwards (p ∷ ps) = backwards ps ++ p ∷ []

-- The exit frees the slots from the first on.
unfoldable pub page_exact_loop_exit : List ℕ → Cmd (Unit {0})
unfolding free_all
page_exact_loop_exit taken = free_all (backwards taken)
