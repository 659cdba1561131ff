-- ===== src/Alloc/ExactUse.antt =====
-- What ch8/page_exact_loop takes and gives back.
use linux_kernel_programming.Base.{
  ℕ, suc, ◌≡◌, ◌≢◌, ne_false, refl, List, [], ◌∷◌, Option, none, some, Bool, true, false, ◌&&◌,
  arith,
}
use linux_kernel_programming.Base.Words.{ℤ, pos}
use linux_kernel_programming.Alloc.Heap.{Block, exact, Heap, remove, page_bytes, Leaves}
use linux_kernel_programming.Alloc.Exact.{
  gsz, alloc_loop, free_all, page_exact_loop_init, page_exact_loop_exit,
}

abbrev pub Unloads : List (ℕ × Block) → Option ((ℤ × List ℕ) × Heap) → Type 0
Unloads live none = ⊥
Unloads live (some ((r, ps), h)) = (r ≡ pos 0) × Leaves live (page_exact_loop_exit ps h)

abbrev three : Heap → Heap
three h = record {
  next = suc (suc (suc h.next));
  live =
      (suc (suc (suc h.next)), exact gsz)
      ∷ (suc (suc h.next), exact gsz)
      ∷ (suc h.next, exact gsz)
      ∷ h.live;
}

abbrev slots : ℕ → List ℕ
slots n = suc (suc (suc n)) ∷ suc (suc n) ∷ suc n ∷ []

init_all :
    (ok : ℕ → Bool) (h : Heap)
    → (ok 0 && (ok 1 && ok 2)) ≡ true
    → page_exact_loop_init ok h ≡ some ((pos 0, slots h.next), three h)
unfolding page_exact_loop_init alloc_loop
init_all ok h e = ground arith

exit_three : (h : Heap) → Leaves h.live (page_exact_loop_exit (slots h.next) (three h))
unfolding page_exact_loop_exit free_all remove
exit_three h = ground arith

-- When there is memory for all three slots, init returns 0, and the exit leaves exactly the pieces
-- that were live before.
pub page_exact_loop_init-Unloads :
    (ok : ℕ → Bool) (h : Heap)
    → (ok 0 && (ok 1 && ok 2)) ≡ true
    → Unloads h.live (page_exact_loop_init ok h)
page_exact_loop_init-Unloads ok h e = rw (init_all ok h e) (refl, exit_three h)

-- No piece stands at NULL.
abbrev pub NonNull : List (ℕ × Block) → Type 0
NonNull [] = Unit {0}
NonNull ((p, b) ∷ rest) = (p ≢ 0) × NonNull rest

remove_null :
    (fits : Block → Bool) (live : List (ℕ × Block)) → NonNull live → remove 0 fits live ≡ none
unfolding remove
remove_null fits [] z = refl
remove_null fits ((p, b) ∷ rest) (ne, z) = rw (ne_false p ne, remove_null fits rest z)

-- When no live piece stands at NULL and there is no memory for one of the slots, the clean-up
-- begins with that slot, which is NULL: `free_pages_exact` is called on what is not a piece that
-- `alloc_pages_exact` has given, a fault.
pub page_exact_loop_init_faults :
    (ok : ℕ → Bool) (h : Heap)
    → NonNull h.live
    → (ok 0 && (ok 1 && ok 2)) ≡ false
    → page_exact_loop_init ok h ≡ none
unfolding page_exact_loop_init alloc_loop free_all remove
page_exact_loop_init_faults ok h z e = ground (arith, remove_null (page_bytes gsz) h.live z)
