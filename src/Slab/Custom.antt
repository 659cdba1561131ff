-- ===== src/Slab/Custom.antt =====
-- ch9/slab_custom/slab_custom.c, over the pointers of the other module.
use linux_kernel_programming.Base.{
  ℕ, ◌+◌, ◌-◌, ◌*◌, ◌≤◌, ◌<◌, ◌≡◌, ◌↔◌, refl, ◌∷◌, ◌++◌, Option, none, some, Bool, true, false,
  if◌then◌else◌, leb, min, length, take, length-take, take_all, ap, sym, ◌∙◌, arith,
}
use linux_kernel_programming.Base.Words.{ℤ, pos}
use linux_kernel_programming.Kernel.{enomem}
use linux_kernel_programming.Threads.Format.{Text, dec_digits, decimal}
use linux_kernel_programming.Slab.Defs.{
  CachePtr, null, err_ptr, cache, ourmax_caches, ptr_err, kmem_cache_destroy, created, Stored,
  slab_custom_mult_exit, too_big, slab_custom_mult_init,
}
use linux_kernel_programming.Slab.Missing.{
  is_cache, all_made, caches, slab_custom_mult_init_lem, slab_custom_mult_exit_lem,
}

-- What the constructor reads of the current task
pub record Accounts : Type 0 where
  pub tgid : ℕ
  pub pid : ℕ
  pub nvcsw : ℕ
  pub nivcsw : ℕ
  pub min_flt : ℕ
  pub maj_flt : ℕ

-- "%ld" of a `long' that is not negative
abbrev long_decimal : ℕ → Text
long_decimal n = dec_digits 20 n

-- "%d.%d,%ld.%ld,%ld,%ld"
abbrev pub accounts_text : Accounts → Text
accounts_text p =
    decimal p.tgid
    ++ 46 ∷ decimal p.pid
    ++ 44 ∷ long_decimal p.nvcsw
    ++ 46 ∷ long_decimal p.nivcsw
    ++ 44 ∷ long_decimal p.min_flt
    ++ 44 ∷ long_decimal p.maj_flt

-- The string in the object's `config`, after which all is 0, and whether `snprintf_lkp` warns
unfoldable pub our_ctor : Accounts → Text × Bool
our_ctor p =
    let maxsize = 6 * 8 + 5 in
    (take (maxsize - 1) (accounts_text p), leb maxsize (length (accounts_text p)))

-- With what `kmem_cache_create` has returned; the result, gctx_cachep, and the caches that live
abbrev pub create_our_cache : CachePtr → ℕ → (ℤ × CachePtr) × ℕ
create_our_cache null live = ((ptr_err null, null), created null live)
create_our_cache made live = ((pos 0, made), created made live)

-- `obj` tells whether `kmem_cache_alloc` has an object, which is given back at once; a pointer
-- that is no cache is a fault. Which caches live is left as it was.
abbrev pub use_our_cache : CachePtr → Bool → ℕ → Option (ℤ × ℕ)
use_our_cache cache obj live = if obj then some (pos 0, live) else some (enomem, live)
use_our_cache _ obj live = none

abbrev with_cache : CachePtr → Option (ℤ × ℕ) → Option ((ℤ × CachePtr) × ℕ)
with_cache gctx_cachep none = none
with_cache gctx_cachep (some (ret, live)) = some ((ret, gctx_cachep), live)

-- What `create_our_cache` returns is not looked at.
unfoldable pub slab_custom_init : CachePtr → Bool → ℕ → Option ((ℤ × CachePtr) × ℕ)
slab_custom_init made obj live =
    let ((ret, gctx_cachep), later) = create_our_cache made live in
    with_cache gctx_cachep (use_our_cache gctx_cachep obj later)

unfoldable pub slab_custom_exit : CachePtr → ℕ → Option ℕ
slab_custom_exit gctx_cachep live = kmem_cache_destroy gctx_cachep live

-- The string and its NUL stay inside `config`, and what is longer is cut off with a warning.
our_ctor-Fits :
    (p : Accounts)
    → (length (our_ctor p).0 < 64) × (((our_ctor p).1 ≡ false) ↔ ((our_ctor p).0 ≡ accounts_text p))
unfolding our_ctor
our_ctor-Fits p =
    let text = accounts_text p in
    let cut = length-take 52 text in
    (
      omega arith,
      (
        λ silent. let short : length text ≤ 52 = ground arith in take_all 52 text short,
        λ whole.
            let same : min 52 (length text) ≡ length text = sym cut ∙ ap length whole in
            ground arith,
      ),
    )

one_cache :
    (made : CachePtr) (obj : Bool) (live : ℕ)
    → slab_custom_init made obj live
      ≡ (if is_cache made then some ((if obj then pos 0 else enomem, cache), live + 1) else none)
unfolding slab_custom_init
one_cache null obj live = refl
one_cache (err_ptr e) obj live = refl
one_cache cache true live = refl
one_cache cache false live = refl

-- What the two inits return and store, and the caches that live then, by what `kmem_cache_create`
-- has made
abbrev pub inits_by : (ℕ → CachePtr) → Bool → ℕ → Option (Stored × ℕ) × Option ((ℤ × CachePtr) × ℕ)
inits_by made obj live = (
  if all_made made ourmax_caches 0
      then some ((pos 0, caches ourmax_caches), live + ourmax_caches)
      else none,
  if is_cache (made 0) then some ((if obj then pos 0 else enomem, cache), live + 1) else none,
)

-- Neither module notices that a cache could not be made. Unless `xfactor` is refused, the init with
-- a hundred caches returns 0, with a cache in each slot and a hundred more that live, if all of them
-- were made; if one was not, its own clean-up is never reached, and init goes on to use the pointer
-- that is no cache: a fault. The init with one cache uses what it gets in the same way; without
-- memory for an object it returns -ENOMEM, and one cache more lives then, as after a success. After
-- an init that returned 0 either exit destroys exactly the caches that init has made.
pub slab_custom_inits_lem :
    (made : ℕ → CachePtr) (xfactor : ℕ) (obj : Bool) (live : ℕ)
    → too_big xfactor ≡ false
    → ((slab_custom_mult_init made xfactor live, slab_custom_init (made 0) obj live)
        ≡ inits_by made obj live)
      × (slab_custom_mult_exit (caches ourmax_caches) (live + ourmax_caches) ≡ some live)
      × (slab_custom_exit cache (live + 1) ≡ some live)
unfolding slab_custom_exit
slab_custom_inits_lem made xfactor obj live small = (
  rw (slab_custom_mult_init_lem made xfactor live small, one_cache (made 0) obj live) refl,
  slab_custom_mult_exit_lem live,
  ap some (omega arith),
)
