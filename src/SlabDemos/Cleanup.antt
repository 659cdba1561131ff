-- ===== src/SlabDemos/Cleanup.antt =====
-- What the inits of slab1, slab2_buggy and slab_ptr_array leave behind.
use mathlib.Core.Path.{subst}
use linux_kernel_programming.Base.{
  ℕ, zero, suc, ◌+◌, ◌≤◌, ◌<◌, ◌≡◌, refl, sym, ◌==◌, if◌then◌else◌, Bool, true, false, List, [],
  ◌∷◌, ◌++◌, none, some, Option, arith, Bool-cases, inl, inr, ℕ_discrete,
}
use linux_kernel_programming.Base.Words.{ℤ, pos}
use linux_kernel_programming.Kernel.{enomem}
use linux_kernel_programming.Alloc.Heap.{Block, kmem, Heap, ◌>>=◌, remove, Ends, Leaves}
use linux_kernel_programming.SlabDemos.Demos.{
  kfree, is_kmem, slab1_init, slab1_exit, slab2_loop, slab2_buggy_init, slab_maxloop, cleanup,
  slot_loop, slab_ptr_array_init, free_slots, slab_ptr_array_cleanup,
}

-- The addresses that are live are those given out before.
abbrev pub Below : ℕ → List (ℕ × Block) → Type 0
Below next [] = Unit {0}
Below next ((p, b) ∷ rest) = (p ≤ next) × Below next rest

remove_fresh :
    (next p : ℕ) (fits : Block → Bool) (live : List (ℕ × Block))
    → Below next live
    → next < p
    → remove p fits live ≡ none
unfolding remove
remove_fresh next p fits [] below new = refl
remove_fresh next p fits ((q, b) ∷ rest) (old, below) new =
    let other : (q == p) ≡ false = ground arith in
    rw (other, remove_fresh next p fits rest below new) refl

-- slab1 takes both pieces or none, and its exit gives back what init has taken.
abbrev pub Slab1Loads : Heap → Bool → Option ((ℤ × (ℕ × ℕ)) × Heap) → Type 0
Slab1Loads h loads none = ⊥
Slab1Loads h true (some ((r, ptrs), h')) = (r ≡ pos 0) × Leaves h.live (slab1_exit ptrs h')
Slab1Loads h false (some ((r, ptrs), h')) = (r ≡ enomem) × (h'.live ≡ h.live)

slab1_init-Loads :
    (first second : Bool) (h : Heap)
    → Slab1Loads h (if first then second else false) (slab1_init first second h)
unfolding slab1_init slab1_exit kfree remove
slab1_init-Loads true true h = ground arith
slab1_init-Loads true false h = ground arith
slab1_init-Loads false second h = ground arith

pub suc_null : (n : ℕ) → (suc n == 0) ≡ false
suc_null n = ground arith

pub kfree_fresh :
    (n : ℕ) (live : List (ℕ × Block))
    → kfree (suc n) (record { next = suc n; live = (suc n, kmem) ∷ live })
      ≡ some (tt, record { next = suc n; live = live })
unfolding kfree remove
kfree_fresh n live = ground arith

kfree_again :
    (n : ℕ) (live : List (ℕ × Block))
    → Below n live
    → kfree (suc n) (record { next = suc n; live = live }) ≡ none
unfolding kfree
kfree_again n live below =
    rw (suc_null n, remove_fresh n (suc n) is_kmem live below (omega arith)) refl

-- slab2_buggy frees its piece of memory a second time in the second round, a fault, unless there is
-- no memory for it at all: then it returns -ENOMEM.
pub slab2_buggy_init_lem :
    (ok : ℕ → Bool) (h : Heap)
    → Below h.next h.live
    → slab2_buggy_init ok h ≡ (if ok 2 then none else some (enomem, h))
unfolding slab2_buggy_init slab2_loop
slab2_buggy_init_lem ok h below = elim (Bool-cases (ok 2)) [
  | inl given ↦
      rw
        (
          given,
          suc_null h.next,
          kfree_fresh h.next h.live,
          suc_null h.next,
          suc_null h.next,
          kfree_again h.next h.live below,
          ◌>>=◌,
        )
        refl
  | inr short ↦ rw (short, ◌>>=◌) refl
]

-- `n + k`, which computes
abbrev pub counted : ℕ → ℕ → ℕ
counted n zero = n
counted n (suc k) = suc (counted n k)

-- The addresses that `k` allocations give one after the other, the last first
unfoldable pub taken : ℕ → ℕ → List ℕ
taken n zero = []
taken n (suc k) = suc (counted n k) ∷ taken n k

abbrev pub pieces : List ℕ → List (ℕ × Block)
pieces [] = []
pieces (p ∷ ps) = (p, kmem) ∷ pieces ps

-- The heap after `k` allocations
abbrev pub grown : ℕ → Heap → Heap
grown k h = record { next = counted h.next k; live = pieces (taken h.next k) ++ h.live }

-- What the clean-up leaves when slot `k` could not be had: slot 0, if it is another.
abbrev pub leaked : ℕ → Heap → List (ℕ × Block)
leaked zero h = h.live
leaked (suc k) h = (suc h.next, kmem) ∷ h.live

kfree_head :
    (n p : ℕ) (live : List (ℕ × Block))
    → kfree (suc p) (record { next = n; live = (suc p, kmem) ∷ live })
      ≡ some (tt, record { next = n; live = live })
unfolding kfree remove
kfree_head n p live = ground arith

kfree_null : (h : Heap) → kfree 0 h ≡ some (tt, h)
unfolding kfree
kfree_null h = refl

-- From slot `k` down to slot 1 the pieces are given back, whatever `next` is.
cleanup-taken :
    (k n : ℕ) (h : Heap)
    → cleanup
        (taken h.next (suc k))
        (record { next = n; live = pieces (taken h.next (suc k)) ++ h.live })
      ≡ some (tt, record { next = n; live = leaked (suc k) h })
unfolding cleanup taken
cleanup-taken zero n h = refl
cleanup-taken (suc k) n h =
    rw
      (
        kfree_head n (counted h.next (suc k)) (pieces (taken h.next (suc k)) ++ h.live),
        cleanup-taken k n h,
        ◌>>=◌,
      )
      refl

cleanup_slot :
    (k : ℕ) (h : Heap)
    → cleanup (0 ∷ taken h.next k) (grown k h)
      ≡ some (tt, record { next = counted h.next k; live = leaked k h })
unfolding cleanup taken
cleanup_slot zero h = refl
cleanup_slot (suc k) h =
    rw (kfree_null (grown (suc k) h), cleanup-taken k (counted h.next (suc k)) h, ◌>>=◌) refl

slot_fails :
    (ok : ℕ → Bool) (h : Heap) (rounds k : ℕ)
    → ok k ≡ false
    → Ends enomem (leaked k h) (slot_loop ok (suc rounds) k (taken h.next k) (grown k h))
unfolding slot_loop
slot_fails ok h rounds k short = rw (short, cleanup_slot k h, ◌>>=◌) (refl, refl)

slot_loop_fails :
    (ok : ℕ → Bool) (h : Heap) (rounds i k : ℕ)
    → i ≤ k
    → k < i + rounds
    → ((j : ℕ) → j < k → ok j ≡ true)
    → ok k ≡ false
    → Ends enomem (leaked k h) (slot_loop ok rounds i (taken h.next i) (grown i h))
unfolding slot_loop taken
slot_loop_fails ok h zero i k low high given short = absurd (omega arith)
slot_loop_fails ok h (suc rounds) i k low high given short = elim (ℕ_discrete i k) [
  | yes here ↦
      subst
        (λ j. Ends enomem (leaked k h) (slot_loop ok (suc rounds) j (taken h.next j) (grown j h)))
        (sym here) (slot_fails ok h rounds k short)
  | no later ↦
      rw (given i (omega arith), suc_null (counted h.next i), ◌>>=◌)
        (slot_loop_fails ok h rounds (suc i) k (omega arith) (omega arith) given short)
]

-- When there is memory for the slots below `k`, and none for slot `k`, init returns -ENOMEM, and of
-- the slots that it has taken it gives back all but slot 0, whose piece is never freed.
pub slab_ptr_array_init_leaks :
    (ok : ℕ → Bool) (h : Heap) (k : ℕ)
    → k < slab_maxloop
    → ((j : ℕ) → j < k → ok j ≡ true)
    → ok k ≡ false
    → Ends enomem (leaked k h) (slab_ptr_array_init ok h)
unfolding slab_ptr_array_init taken
slab_ptr_array_init_leaks ok h k few given short =
    slot_loop_fails ok h slab_maxloop 0 k (omega arith) (omega arith) given short

abbrev pub Unloads : List (ℕ × Block) → Option ((ℤ × List ℕ) × Heap) → Type 0
Unloads live none = ⊥
Unloads live (some ((r, ps), h)) = (r ≡ pos 0) × Leaves live (slab_ptr_array_cleanup ps h)

exit_five : (h : Heap) → Leaves h.live (slab_ptr_array_cleanup (taken h.next 5) (grown 5 h))
unfolding slab_ptr_array_cleanup free_slots kfree remove taken
exit_five h = ground arith

slot_loop_given :
    (ok : ℕ → Bool) (h : Heap) (rounds i m : ℕ)
    → m ≡ i + rounds
    → ((j : ℕ) → j < m → ok j ≡ true)
    → slot_loop ok rounds i (taken h.next i) (grown i h) ≡ some ((pos 0, taken h.next m), grown m h)
unfolding slot_loop taken
slot_loop_given ok h zero i m e given = let same : i ≡ m = omega arith in rw same refl
slot_loop_given ok h (suc rounds) i m e given =
    rw (given i (omega arith), suc_null (counted h.next i), ◌>>=◌)
      (slot_loop_given ok h rounds (suc i) m (omega arith) given)

-- When there is memory for all slots, the exit gives back what init has taken.
slab_ptr_array-Unloads :
    (ok : ℕ → Bool) (h : Heap)
    → ((j : ℕ) → j < slab_maxloop → ok j ≡ true)
    → Unloads h.live (slab_ptr_array_init ok h)
unfolding slab_ptr_array_init taken
slab_ptr_array-Unloads ok h given =
    rw (slot_loop_given ok h slab_maxloop 0 slab_maxloop (omega arith) given) (refl, exit_five h)
