-- ===== src/Alloc/Tests.antt =====
-- The theorems on the memory that the modules take, with memory short at one step or another.
use linux_kernel_programming.Base.{
  ℕ, suc, ◌≡◌, ◌≢◌, ◌≤◌, refl, [], ◌∷◌, none, ◌==◌, if◌then◌else◌, Bool, true, false, not, arith,
  ==-eq-false, ap,
}
use linux_kernel_programming.Base.Words.{pos}
use linux_kernel_programming.Kernel.{enomem}
use linux_kernel_programming.Alloc.Heap.{Heap, pages, Ends}
use linux_kernel_programming.Alloc.Pages.{bsa_alloc}
use linux_kernel_programming.Alloc.Vmalloc.{Kern, vmalloc_demo_init}
use linux_kernel_programming.Alloc.PagesUse.{
  Unloads, UnloadFaults, bsa_alloc-cleans, bsa_alloc-Unloads, bsa_alloc-UnloadFaults,
}
use linux_kernel_programming.Alloc.VmallocUse.{vmalloc_demo_init_faults}

-- Somebody else's page is live.
abbrev some_heap : Heap
some_heap = record { next = 9; live = (4, pages 0) ∷ [] }

abbrev always : ℕ → Bool
always n = true

abbrev except : ℕ → ℕ → Bool
except m n = not (n == m)

-- A `page_address` that makes something of NULL.
abbrev offset : ℕ → ℕ
offset n = if n == 0 then 4096 else n

offset_lem : (n : ℕ) → offset (suc n) ≡ suc n
offset_lem n = ground arith

bsa_alloc-cleans_example :
    Ends enomem ((4, pages 0) ∷ []) (bsa_alloc (λ n. n) (except 3) 3 some_heap)
bsa_alloc-cleans_example = bsa_alloc-cleans (λ n. n) (λ n. refl) (except 3) 3 some_heap refl

bsa_alloc-Unloads_example : Unloads ((4, pages 0) ∷ []) 3 (bsa_alloc (λ n. n) always 3 some_heap)
bsa_alloc-Unloads_example = bsa_alloc-Unloads (λ n. n) (λ n. refl) always 3 some_heap (λ n. refl)

ne_next : (n : ℕ) → n ≢ suc n
ne_next n e = omega arith

bsa_alloc-UnloadFaults_example : UnloadFaults 2 (bsa_alloc (λ n. n) always 3 some_heap)
bsa_alloc-UnloadFaults_example =
    bsa_alloc-UnloadFaults (λ n. n) (λ n. refl) always 3 2 some_heap (λ n. refl) (ne_next 2)

except_five : (n : ℕ) → n ≢ 5 → except 5 n ≡ true
except_five n ne = ap not (==-eq-false n 5 ne)

abbrev kern : ℕ → Bool → Kern
kern short big = record { older = true; ok = except short; big = big }

abbrev rich : Kern
rich = record { older = true; ok = always; big = false }

enough : 16 ≤ 4096
enough = omega arith

vmalloc_demo_init_faults_example : vmalloc_demo_init (kern 4 false) (pos 4096) some_heap ≡ none
vmalloc_demo_init_faults_example =
    vmalloc_demo_init_faults (kern 4 false) 4096 some_heap enough refl refl
