-- ===== src/Vas/Exact.antt =====
-- The sizes that are shown, where each region's end does not lie below its start.
use linux_kernel_programming.Base.{
  ℕ, ◌-◌, ◌*◌, ◌/◌, ◌≤◌, ◌<◌, ◌≡◌, refl, List, [], ◌∷◌, ◌++◌, Bool, true, false, if◌then◌else◌,
  arith, lt→ltb, ltb, Bool-cases, inl, inr, ◌&&◌, ◌||◌, not, ◌==◌,
}
use linux_kernel_programming.Vas.Delta.{
  Config, word_mod, half_mod, delta, shifted, Name, Line, region, page_and_ram, task_size,
  vector_table, fixmap, kasan_shadow, vmemmap, vmalloc, environment, arguments, heap, static_data,
  text, kb, mb, gb, tb, fixmap_name, show_delta_m, show_delta_mg, show_delta_mgt,
}
use linux_kernel_programming.Vas.Kernel.{
  Layout, plus, when, ram_size, blocks, show_kernelvas_info, join, vectors, fixmaps, module_region,
  kasan, vmemmaps, highmems,
}
use linux_kernel_programming.Vas.User.{Mm, shown_gb, show_userspace_info}

-- The size of a region of `d` bytes, in the units that its line has
abbrev pub exact_sizes : Config → Name → ℕ → List ℕ
exact_sizes c vector_table d = d / kb ∷ []
exact_sizes c kasan_shadow d =
    if c.bits_64 then d / mb ∷ d / gb ∷ d / tb ∷ [] else d / mb ∷ d / gb ∷ []
exact_sizes c vmemmap d = if c.bits_64 then d / mb ∷ d / gb ∷ d / tb ∷ [] else d / mb ∷ d / gb ∷ []
exact_sizes c vmalloc d = if c.bits_64 then d / mb ∷ d / gb ∷ d / tb ∷ [] else d / mb ∷ []
exact_sizes c environment d = d ∷ []
exact_sizes c arguments d = d ∷ []
exact_sizes c static_data d = d ∷ []
exact_sizes c heap d = d / kb ∷ []
exact_sizes c text d = d / kb ∷ []
exact_sizes c _ d = d / mb ∷ []

-- The sizes in a line. That of the user's address space is given in GB on 64 bits, but in MB on 32.
abbrev pub IsExact : Config → Line → Type 0
IsExact c (region name low hi sizes) = sizes ≡ exact_sizes c name (hi - low)
IsExact c (page_and_ram page_size ram_mb ram_size) = ram_mb ≡ ram_size / mb
IsExact c (task_size bytes shown) = shown ≡ bytes / (if c.bits_64 then gb else mb)
IsExact c _ = Unit {0}

abbrev pub AllExact : Config → List Line → Type 0
AllExact c [] = Unit {0}
AllExact c (line ∷ lines) = IsExact c line × AllExact c lines

-- Two addresses in order, less than half of all addresses apart
abbrev pub InOrder : Config → ℕ → ℕ → Type 0
InOrder c low hi = (low ≤ hi) × (hi < word_mod c) × (hi - low < half_mod c)

abbrev pub LayoutInOrder : Config → Layout → Type 0
LayoutInOrder c l =
    InOrder c l.vectors_base (plus c l.vectors_base l.page_size)
    × InOrder c l.fixaddr_start l.fixaddr_end
    × InOrder c l.fixaddr_start (plus c l.fixaddr_start l.fixaddr_size)
    × InOrder c l.modules_vaddr l.modules_end
    × InOrder c l.kasan_shadow_start l.kasan_shadow_end
    × InOrder c l.vmemmap_base (plus c l.vmemmap_base l.vmemmap_size)
    × InOrder c l.vmalloc_start l.vmalloc_end
    × InOrder c l.page_offset (plus c l.page_offset (ram_size c l))
    × InOrder c l.pkmap_base (plus c l.pkmap_base (l.last_pkmap * l.page_size))

abbrev pub MmInOrder : Config → Mm → Type 0
MmInOrder c m =
    InOrder c m.env_start m.env_end
    × InOrder c m.arg_start m.arg_end
    × InOrder c m.start_brk m.brk
    × InOrder c m.start_data m.end_data
    × InOrder c m.start_code m.end_code

delta_lem : (c : Config) (low hi : ℕ) → InOrder c low hi → delta c low hi ≡ hi - low
unfolding delta
delta_lem c low hi order = ground arith

shifted_lem :
    (c : Config) (unit low hi : ℕ)
    → InOrder c low hi
    → shifted c unit (delta c low hi) ≡ (hi - low) / unit
unfolding shifted
shifted_lem c unit low hi order =
    let (sorted, top, near) = order in
    let small : ltb (hi - low) (half_mod c) ≡ true = lt→ltb (hi - low) (half_mod c) near in
    rw (delta_lem c low hi order, small) refl

pub append-AllExact :
    (c : Config) (xs ys : List Line) → AllExact c xs → AllExact c ys → AllExact c (xs ++ ys)
append-AllExact c [] ys left right = right
append-AllExact c (x ∷ xs) ys (this, left) right = (this, append-AllExact c xs ys left right)

when-AllExact : (c : Config) (b : Bool) (xs : List Line) → AllExact c xs → AllExact c (when b xs)
when-AllExact c true xs all = all
when-AllExact c false xs all = tt

module _ (c : Config) (low hi : ℕ) (order : InOrder c low hi) where
  shifted-mb : shifted c mb (delta c low hi) ≡ (hi - low) / mb
  shifted-mb = shifted_lem c mb low hi order

  shifted-gb : shifted c gb (delta c low hi) ≡ (hi - low) / gb
  shifted-gb = shifted_lem c gb low hi order

  shifted-tb : shifted c tb (delta c low hi) ≡ (hi - low) / tb
  shifted-tb = shifted_lem c tb low hi order

  b_exact : delta c low hi ∷ [] ≡ (hi - low) ∷ []
  b_exact = rw (delta_lem c low hi order) refl

  k_exact : shifted c kb (delta c low hi) ∷ [] ≡ (hi - low) / kb ∷ []
  k_exact = rw (shifted_lem c kb low hi order) refl

  m_exact : shifted c mb (delta c low hi) ∷ [] ≡ (hi - low) / mb ∷ []
  m_exact = rw shifted-mb refl

  mgt-IsExact : IsExact c (show_delta_mgt c vmemmap low hi)
  mgt-IsExact = elim (Bool-cases c.bits_64) [
    | inl wide ↦ rw (shifted-mb, shifted-gb, shifted-tb, wide) refl
    | inr narrow ↦ rw (shifted-mb, shifted-gb, narrow) refl
  ]

  kasan-IsExact : IsExact c (
      if c.bits_64
      then show_delta_mgt c kasan_shadow low hi
      else show_delta_mg c kasan_shadow low hi)
  kasan-IsExact = elim (Bool-cases c.bits_64) [
    | inl wide ↦ rw (shifted-mb, shifted-gb, shifted-tb, wide) refl
    | inr narrow ↦ rw (shifted-mb, shifted-gb, narrow) refl
  ]

  vmalloc-IsExact :
      IsExact c
        (if c.bits_64 then show_delta_mgt c vmalloc low hi else show_delta_m c vmalloc low hi)
  vmalloc-IsExact = elim (Bool-cases c.bits_64) [
    | inl wide ↦ rw (shifted-mb, shifted-gb, shifted-tb, wide) refl
    | inr narrow ↦ rw (shifted-mb, narrow) refl
  ]

abbrev AllBlocks : Config → List (List Line) → Type 0
AllBlocks c [] = Unit {0}
AllBlocks c (block ∷ blocks) = AllExact c block × AllBlocks c blocks

join-AllExact :
    (c : Config) (blocks : List (List Line)) → AllBlocks c blocks → AllExact c (join blocks)
unfolding join
join-AllExact c [] all = tt
join-AllExact c (block ∷ blocks) (this, others) =
    append-AllExact c block (join blocks) this (join-AllExact c blocks others)

module _ (c : Config) (l : Layout) (order : LayoutInOrder c l) where
  vectors_exact : AllExact c (vectors c l)
  vectors_exact = when-AllExact c (c.config_arm && c.newer) _ (tt, (k_exact c _ _ order.0, tt))

  fixmap-IsExact :
      (arm other : Bool)
      → IsExact c (
          if arm
          then show_delta_m c fixmap l.fixaddr_start l.fixaddr_end
          else if other
          then show_delta_m c fixmap l.fixaddr_start (plus c l.fixaddr_start l.fixaddr_size)
          else fixmap_name)
  fixmap-IsExact true other = m_exact c _ _ order.1
  fixmap-IsExact false true = m_exact c _ _ order.2
  fixmap-IsExact false false = tt

  fixmaps_exact : AllExact c (fixmaps c l)
  fixmaps_exact = (tt, (fixmap-IsExact c.config_arm (c.config_arm64 || c.config_x86), tt))

  module_region_exact : AllExact c (module_region c l)
  module_region_exact = (m_exact c _ _ order.3, tt)

  kasan_block_exact : AllExact c (kasan c l)
  kasan_block_exact = when-AllExact c c.config_kasan _ (kasan-IsExact c _ _ order.4, tt)

  vmemmaps_exact : AllExact c (vmemmaps c l)
  vmemmaps_exact =
      when-AllExact c (c.config_sparsemem_vmemmap && c.config_arm64) _
        (tt, (mgt-IsExact c _ _ order.5, tt))

  highmems_exact : AllExact c (highmems c l)
  highmems_exact = when-AllExact c (c.config_highmem && not c.bits_64) _ (m_exact c _ _ order.8, tt)

  blocks_exact : AllBlocks c (blocks c l)
  blocks_exact = (
    (refl, tt),
    (
      when-AllExact c c.config_arm64 _ (tt, tt),
      (
        when-AllExact c (c.config_arm64 && ltb 48 l.kernel_va_bits && l.page_size == 64 * 1024) _
            (tt, tt),
        (
          (tt, tt),
          (
            vectors_exact,
            (
              fixmaps_exact,
              (
                when-AllExact c c.bits_64 _ module_region_exact,
                (
                  kasan_block_exact,
                  (
                    vmemmaps_exact,
                    (
                      when-AllExact c (c.config_x86 && c.bits_64) _ (tt, (tt, tt)),
                      (
                        (vmalloc-IsExact c _ _ order.6, tt),
                        (
                          (m_exact c _ _ order.7, (tt, tt)),
                          (
                            highmems_exact,
                            (when-AllExact c (not c.bits_64) _ module_region_exact, ((tt, tt), tt)),
                          ),
                        ),
                      ),
                    ),
                  ),
                ),
              ),
            ),
          ),
        ),
      ),
    ),
  )

  pub show_kernelvas_info_exact : AllExact c (show_kernelvas_info c l)
  unfolding show_kernelvas_info
  show_kernelvas_info_exact = join-AllExact c (blocks c l) blocks_exact

gb_exact : (c : Config) (bytes : ℕ) → shown_gb c bytes ≡ bytes / (if c.bits_64 then gb else mb)
gb_exact c bytes = elim (Bool-cases c.bits_64) [
  | inl wide ↦ rw wide refl
  | inr narrow ↦ rw narrow refl
]

pub show_userspace_info_exact :
    (c : Config) (m : Mm) → MmInOrder c m → AllExact c (show_userspace_info c m)
unfolding show_userspace_info
show_userspace_info_exact c m (env, arg, heap_order, data_order, code) =
    let e = b_exact c m.env_start m.env_end env in
    let a = b_exact c m.arg_start m.arg_end arg in
    let h = k_exact c m.start_brk m.brk heap_order in
    let d = b_exact c m.start_data m.end_data data_order in
    let t = k_exact c m.start_code m.end_code code in
    (tt, (tt, (e, (a, (tt, (h, (d, (t, (tt, (tt, (gb_exact c m.user_size, (tt, tt))))))))))))
