-- ===== src/Slab/Defs.antt =====
-- The module's init and exit, with the number of caches that live. What `kmem_cache_create` returns
-- at each index is a parameter; any use of a pointer that is no cache is a fault, `none`.
use linux_kernel_programming.Base.{
  ℕ, zero, suc, ◌+◌, ◌-◌, ◌*◌, ◌%◌, List, [], ◌∷◌, ◌++◌, Option, none, some, Bool, true, false,
  if◌then◌else◌, leb, take,
}
use linux_kernel_programming.Base.Words.{ℤ, pos, negsuc, u32_mod, signed32}
use linux_kernel_programming.Kernel.{enomem, einval}

-- A `struct kmem_cache *`: NULL, an error value with its errno, or a cache.
pub data CachePtr : Type 0 where
  null : CachePtr
  err_ptr : ℤ → CachePtr
  cache : CachePtr

-- The caches that live once `kmem_cache_create` has returned
abbrev pub created : CachePtr → ℕ → ℕ
created cache live = live + 1
created _ live = live

abbrev pub ourmax_caches : ℕ
ourmax_caches = 100

abbrev pub max_allow : ℕ
max_allow = 1 * 1024 * 1024

-- `IS_ERR(ptr) ? PTR_ERR(ptr) : 0`
abbrev pub ptr_err : CachePtr → ℤ
ptr_err (err_ptr e) = e
ptr_err _ = pos 0

-- `create_cust_llkd_cache`, with what `kmem_cache_create` has returned
abbrev pub create_cust_llkd_cache : CachePtr → ℤ
create_cust_llkd_cache null = ptr_err null
create_cust_llkd_cache _ = pos 0

-- `-i`
abbrev minus : ℕ → ℤ
minus zero = pos 0
minus (suc i) = negsuc i

abbrev is_negative : ℤ → Bool
is_negative (pos n) = false
is_negative (negsuc n) = true

-- The loop with `rounds` rounds to go at index `i`: its result, and the pointers stored from `i` on;
-- then the caches that live.
unfoldable pub create_our_llkd_caches : (ℕ → CachePtr) → ℕ → ℕ → ℕ → (ℤ × List CachePtr) × ℕ
create_our_llkd_caches made zero i live = ((pos 0, []), live)
create_our_llkd_caches made (suc rounds) i live =
    let ((ret, rest), later) = create_our_llkd_caches made rounds (suc i) (created (made i) live) in
    if is_negative (create_cust_llkd_cache (made i))
    then ((minus i, made i ∷ []), created (made i) live)
    else ((ret, made i ∷ rest), later)

-- `kmem_cache_size` and `kmem_cache_alloc` read the cache; the object is given back at once.
abbrev pub use_our_cache : CachePtr → Option (Unit {0})
use_our_cache cache = some tt
use_our_cache _ = none

abbrev and_then : Option (Unit {0}) → Option (Unit {0}) → Option (Unit {0})
and_then none next = none
and_then (some _) next = next

unfoldable pub use_all : List CachePtr → Option (Unit {0})
use_all [] = some tt
use_all (c ∷ cs) = and_then (use_our_cache c) (use_all cs)

-- `kmem_cache_destroy` accepts NULL.
abbrev pub kmem_cache_destroy : CachePtr → ℕ → Option ℕ
kmem_cache_destroy (err_ptr e) live = none
kmem_cache_destroy null live = some live
kmem_cache_destroy cache live = some (live - 1)

abbrev destroy_then : Option ℕ → (ℕ → Option ℕ) → Option ℕ
destroy_then none next = none
destroy_then (some live) next = next live

unfoldable pub destroy_all : List CachePtr → ℕ → Option ℕ
destroy_all [] live = some live
destroy_all (c ∷ cs) live = destroy_then (kmem_cache_destroy c live) (λ l. destroy_all cs l)

-- `(OURMAX_CACHES * xfactor) >= MAX_ALLOW` as an `int`, for the 32-bit pattern of `xfactor`
abbrev pub too_big : ℕ → Bool
too_big xfactor = at_least (signed32 (ourmax_caches * xfactor % u32_mod))
  where
    at_least : ℤ → Bool
    at_least (pos n) = leb max_allow n
    at_least (negsuc n) = false

abbrev pub Stored : Type 0
Stored = ℤ × List CachePtr

abbrev used : List CachePtr → ℕ → Option (Unit {0}) → Option (Stored × ℕ)
used cs live none = none
used cs live (some _) = some ((pos 0, cs), live)

abbrev cleaned_up : List CachePtr → Option ℕ → Option (Stored × ℕ)
cleaned_up cs none = none
cleaned_up cs (some live) = some ((enomem, cs), live)

abbrev backwards : List CachePtr → List CachePtr
backwards [] = []
backwards (c ∷ cs) = backwards cs ++ c ∷ []

-- The slots below the one that `ret` names, from the last to the first
abbrev slots_before : ℤ → List CachePtr → List CachePtr
slots_before (negsuc i) cs = backwards (take (suc i) cs)
slots_before (pos _) cs = []

-- What init does with what `create_our_llkd_caches` returns
unfoldable pub use_or_clean_up : Stored × ℕ → Option (Stored × ℕ)
unfolding use_all destroy_all
use_or_clean_up ((ret, cs), live) =
    if is_negative ret
    then cleaned_up cs (destroy_all (slots_before ret cs) live)
    else used cs live (use_all cs)

unfoldable pub slab_custom_mult_init : (ℕ → CachePtr) → ℕ → ℕ → Option (Stored × ℕ)
unfolding create_our_llkd_caches use_or_clean_up
slab_custom_mult_init made xfactor live =
    if too_big xfactor
    then some ((einval, []), live)
    else use_or_clean_up (create_our_llkd_caches made ourmax_caches 0 live)

unfoldable pub slab_custom_mult_exit : List CachePtr → ℕ → Option ℕ
unfolding destroy_all
slab_custom_mult_exit cs live = destroy_all cs live
