-- ===== src/Vas/Kernel.antt =====
-- kernel_vas.c, `show_kernelvas_info`: the lines that it prints, by the kernel's configuration and
-- its layout, whose macros are parameters.
use linux_kernel_programming.Base.{
  ℕ, ◌+◌, ◌*◌, ◌/◌, ◌%◌, List, [], ◌∷◌, ◌++◌, Bool, true, false, ◌&&◌, ◌||◌, not, if◌then◌else◌,
  ltb, ◌==◌,
}
use linux_kernel_programming.Vas.Delta.{
  Config, word_mod, Line, vector_table, fixmap, modules, kasan_shadow, vmemmap, vmalloc, lowmem,
  highmem, page_and_ram, va_bits, not_supported, dots, rule, fixmap_name, page_offset_mark,
  vmemmap_start, show_delta_k, show_delta_m, show_delta_mg, show_delta_mgt,
}

-- The sum of an address and a size
abbrev pub plus : Config → ℕ → ℕ → ℕ
plus c a n = (a + n) % word_mod c

pub record Layout : Type 0 where
  pub page_size : ℕ
  pub totalram_pages : ℕ
  pub vectors_base : ℕ
  pub fixaddr_start : ℕ
  pub fixaddr_end : ℕ
  pub fixaddr_size : ℕ
  pub modules_vaddr : ℕ
  pub modules_end : ℕ
  pub kasan_shadow_start : ℕ
  pub kasan_shadow_end : ℕ
  pub vmemmap_base : ℕ
  pub vmemmap_size : ℕ
  pub vmalloc_start : ℕ
  pub vmalloc_end : ℕ
  pub page_offset : ℕ
  pub pkmap_base : ℕ
  pub last_pkmap : ℕ
  pub kernel_va_bits : ℕ

-- An `#if`
abbrev pub when : Bool → List Line → List Line
when true lines = lines
when false lines = []

unfoldable pub join : List (List Line) → List Line
join [] = []
join (block ∷ blocks) = block ++ join blocks

module _ (c : Config) (l : Layout) where
  abbrev pub ram_size : ℕ
  ram_size = l.totalram_pages * l.page_size % word_mod c

  abbrev pub ram_lines : List Line
  ram_lines = page_and_ram l.page_size (ram_size / (1024 * 1024)) ram_size ∷ []

  abbrev pub va_lines : List Line
  va_lines = when c.config_arm64 (va_bits l.kernel_va_bits ∷ [])

  abbrev pub lpa_lines : List Line
  lpa_lines =
      when (c.config_arm64 && ltb 48 l.kernel_va_bits && l.page_size == 64 * 1024)
        (not_supported ∷ [])

  abbrev pub vectors : List Line
  vectors =
      when (c.config_arm && c.newer)
        (dots ∷ show_delta_k c vector_table l.vectors_base (plus c l.vectors_base l.page_size) ∷ [])

  -- Where none of the architectures is configured, the name is printed alone.
  abbrev pub fixmaps : List Line
  fixmaps =
      dots
      ∷ (if c.config_arm
          then show_delta_m c fixmap l.fixaddr_start l.fixaddr_end
          else if c.config_arm64 || c.config_x86
          then show_delta_m c fixmap l.fixaddr_start (plus c l.fixaddr_start l.fixaddr_size)
          else fixmap_name)
      ∷ []

  abbrev pub module_region : List Line
  module_region = show_delta_m c modules l.modules_vaddr l.modules_end ∷ []

  abbrev pub kasan : List Line
  kasan = when c.config_kasan (
      (if c.bits_64
        then show_delta_mgt c kasan_shadow l.kasan_shadow_start l.kasan_shadow_end
        else show_delta_mg c kasan_shadow l.kasan_shadow_start l.kasan_shadow_end)
      ∷ [])

  abbrev pub vmemmaps : List Line
  vmemmaps =
      when (c.config_sparsemem_vmemmap && c.config_arm64)
        (dots ∷ show_delta_mgt c vmemmap l.vmemmap_base (plus c l.vmemmap_base l.vmemmap_size) ∷ [])

  abbrev pub vmemmap_starts : List Line
  vmemmap_starts = when (c.config_x86 && c.bits_64) (dots ∷ vmemmap_start l.vmemmap_base ∷ [])

  abbrev pub vmallocs : List Line
  vmallocs =
      (if c.bits_64
        then show_delta_mgt c vmalloc l.vmalloc_start l.vmalloc_end
        else show_delta_m c vmalloc l.vmalloc_start l.vmalloc_end)
      ∷ []

  abbrev pub lowmems : List Line
  lowmems =
      show_delta_m c lowmem l.page_offset (plus c l.page_offset ram_size) ∷ page_offset_mark ∷ []

  abbrev pub highmems : List Line
  highmems =
      when (c.config_highmem && not c.bits_64) (
        show_delta_m c highmem l.pkmap_base (plus c l.pkmap_base (l.last_pkmap * l.page_size)) ∷ [])

  -- The region of the modules stands where it belongs by its address, which depends on the width.
  abbrev pub blocks : List (List Line)
  blocks =
      ram_lines
      ∷ va_lines
      ∷ lpa_lines
      ∷ (rule ∷ [])
      ∷ vectors
      ∷ fixmaps
      ∷ when c.bits_64 module_region
      ∷ kasan
      ∷ vmemmaps
      ∷ vmemmap_starts
      ∷ vmallocs
      ∷ lowmems
      ∷ highmems
      ∷ when (not c.bits_64) module_region
      ∷ (dots ∷ [])
      ∷ []

  unfoldable pub show_kernelvas_info : List Line
  show_kernelvas_info = join blocks
