-- ===== src/Slab/Missing.antt =====
-- What becomes of a cache that could not be made.
use linux_kernel_programming.Base.{
  ℕ, zero, suc, ◌+◌, ◌-◌, ◌≡◌, refl, ap, ◌∙◌, List, [], ◌∷◌, Option, none, some, Bool, true, false,
  if◌then◌else◌, ◌&&◌, arith,
}
use linux_kernel_programming.Base.Words.{pos}
use linux_kernel_programming.Slab.Defs.{
  CachePtr, null, err_ptr, cache, created, Stored, destroy_all, slab_custom_mult_exit,
  ourmax_caches, create_our_llkd_caches, use_all, too_big, slab_custom_mult_init, use_or_clean_up,
}

abbrev pub is_cache : CachePtr → Bool
is_cache cache = true
is_cache _ = false

-- Are there caches at `n` indices from `i` on?
unfoldable pub all_made : (ℕ → CachePtr) → ℕ → ℕ → Bool
all_made made zero i = true
all_made made (suc n) i = is_cache (made i) && all_made made n (suc i)

-- `n` slots with a cache in each
unfoldable pub caches : ℕ → List CachePtr
caches zero = []
caches (suc n) = let rest = caches n in cache ∷ rest

-- The loop never returns an error.
create_returns_zero :
    (made : ℕ → CachePtr) (n i live : ℕ) → (create_our_llkd_caches made n i live).0.0 ≡ pos 0
unfolding create_our_llkd_caches
create_returns_zero made zero i live = refl
create_returns_zero made (suc n) i live =
    ground (arith, create_returns_zero made n (suc i) (created (made i) live))

use_all-all_made :
    (made : ℕ → CachePtr) (n i live : ℕ)
    → use_all (create_our_llkd_caches made n i live).0.1
      ≡ (if all_made made n i then some tt else none)
unfolding create_our_llkd_caches use_all all_made
use_all-all_made made zero i live = refl
use_all-all_made made (suc n) i live =
    ground (arith, use_all-all_made made n (suc i) (created (made i) live))

is_cache_lem : (c : CachePtr) → is_cache c ≡ true → c ≡ cache
is_cache_lem cache e = refl
is_cache_lem null e = cc
is_cache_lem (err_ptr n) e = cc

-- Where all caches are made, each slot has one, and they live.
create-all_made :
    (made : ℕ → CachePtr) (n i live : ℕ)
    → all_made made n i ≡ true
    → create_our_llkd_caches made n i live ≡ ((pos 0, caches n), live + n)
unfolding create_our_llkd_caches all_made caches
create-all_made made zero i live all = ap (λ l. ((pos 0, []), l)) (omega arith)
create-all_made made (suc n) i live all =
    let here : made i ≡ cache = is_cache_lem (made i) (ground (arith, all)) in
    let others : all_made made n (suc i) ≡ true = ground (arith, all) in
    let count : live + 1 + n ≡ live + suc n = omega arith in
    rw (here, create-all_made made n (suc i) (live + 1) others, count) refl

-- What init returns where it used the caches, and the fault where it could not
abbrev result : Bool → Stored × ℕ → Option (Stored × ℕ)
result b r = if b then some ((pos 0, r.0.1), r.1) else none

use_all_lem :
    (r : Stored × ℕ) (b : Bool)
    → r.0.0 ≡ pos 0
    → use_all r.0.1 ≡ (if b then some tt else none)
    → use_or_clean_up r ≡ result b r
unfolding use_or_clean_up
use_all_lem r true e u = rw (e, u)
use_all_lem r false e u = rw (e, u)

all_or_fault :
    (made : ℕ → CachePtr) (n live : ℕ) (b : Bool)
    → all_made made n 0 ≡ b
    → result b (create_our_llkd_caches made n 0 live) ≡ result b ((pos 0, caches n), live + n)
all_or_fault made n live true all = rw (create-all_made made n 0 live all) refl
all_or_fault made n live false some_missing = refl

-- Unless `xfactor` is refused, init returns 0 with a hundred caches more if all of them were made;
-- if one was not, its own clean-up is never reached, and init goes on to use the pointer that is no
-- cache: a fault.
pub slab_custom_mult_init_lem :
    (made : ℕ → CachePtr) (xfactor live : ℕ)
    → too_big xfactor ≡ false
    → slab_custom_mult_init made xfactor live ≡ (
        if all_made made ourmax_caches 0
        then some ((pos 0, caches ourmax_caches), live + ourmax_caches)
        else none)
unfolding slab_custom_mult_init
slab_custom_mult_init_lem made xfactor live small =
    let b = all_made made ourmax_caches 0 in
    rw small (
      use_all_lem (create_our_llkd_caches made ourmax_caches 0 live) b
        (create_returns_zero made ourmax_caches 0 live)
        (use_all-all_made made ourmax_caches 0 live))
    ∙ all_or_fault made ourmax_caches live b refl

-- Exit destroys them all.
destroy_caches : (n live : ℕ) → destroy_all (caches n) (live + n) ≡ some live
unfolding destroy_all caches
destroy_caches zero live = ap some (omega arith)
destroy_caches (suc n) live =
    let one_less : live + suc n - 1 ≡ live + n = omega arith in
    rw (one_less, destroy_caches n live) refl

pub slab_custom_mult_exit_lem :
    (live : ℕ) → slab_custom_mult_exit (caches ourmax_caches) (live + ourmax_caches) ≡ some live
unfolding slab_custom_mult_exit
slab_custom_mult_exit_lem live = destroy_caches ourmax_caches live
