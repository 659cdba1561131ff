-- ===== src/Vas/Delta.antt =====
-- convenient.h, `SHOW_DELTA_*`: two addresses and their difference in one or more units. On addresses
-- of `w` bits the difference is a signed number of `w` bits, kept as its pattern, and `>>` rounds it
-- down.
use linux_kernel_programming.Base.{
  ℕ, ◌+◌, ◌-◌, ◌/◌, ◌%◌, ◌^◌, List, [], ◌∷◌, Bool, if◌then◌else◌, ltb,
}

-- What the kernel is built for; `newer` tells whether it is later than 4.11.
pub record Config : Type 0 where
  pub config_x86 : Bool
  pub config_arm : Bool
  pub config_arm64 : Bool
  pub config_kasan : Bool
  pub config_sparsemem_vmemmap : Bool
  pub config_highmem : Bool
  pub bits_64 : Bool
  pub newer : Bool

-- 2 to the number of bits of an address, and half of it
abbrev pub word_mod : Config → ℕ
word_mod c = if c.bits_64 then 2 ^ 64 else 2 ^ 32

abbrev pub half_mod : Config → ℕ
half_mod c = if c.bits_64 then 2 ^ 63 else 2 ^ 31

unfoldable pub delta : Config → ℕ → ℕ → ℕ
delta c low hi = (hi + word_mod c - low) % word_mod c

-- The shift of a signed pattern to the right, by a number of bits with this power of two
unfoldable pub shifted : Config → ℕ → ℕ → ℕ
shifted c unit d =
    if ltb d (half_mod c) then d / unit else word_mod c - (word_mod c - d + (unit - 1)) / unit

pub data Name : Type 0 where
  vector_table fixmap modules kasan_shadow vmemmap vmalloc lowmem highmem : Name
  environment arguments heap static_data text : Name

-- A region with its size in each of the units that are shown; the other lines
pub data Line : Type 0 where
  region : Name → (low hi : ℕ) → (sizes : List ℕ) → Line
  page_and_ram : (page_size ram_mb ram_size : ℕ) → Line
  va_bits : ℕ → Line
  not_supported dots rule fixmap_name page_offset_mark title skipping : Line
  vmemmap_start stack_start : ℕ → Line
  task_size : (bytes shown : ℕ) → Line
  map_count : ℕ → Line

abbrev pub kb : ℕ
kb = 2 ^ 10

abbrev pub mb : ℕ
mb = 2 ^ 20

abbrev pub gb : ℕ
gb = 2 ^ 30

abbrev pub tb : ℕ
tb = 2 ^ 40

abbrev pub show_delta_b : Config → Name → ℕ → ℕ → Line
show_delta_b c name low hi = region name low hi (delta c low hi ∷ [])

abbrev pub show_delta_k : Config → Name → ℕ → ℕ → Line
show_delta_k c name low hi = region name low hi (shifted c kb (delta c low hi) ∷ [])

abbrev pub show_delta_m : Config → Name → ℕ → ℕ → Line
show_delta_m c name low hi = region name low hi (shifted c mb (delta c low hi) ∷ [])

abbrev pub show_delta_mg : Config → Name → ℕ → ℕ → Line
show_delta_mg c name low hi =
    region name low hi (shifted c mb (delta c low hi) ∷ shifted c gb (delta c low hi) ∷ [])

-- On 32 bits the same as the one before
abbrev pub show_delta_mgt : Config → Name → ℕ → ℕ → Line
show_delta_mgt c name low hi =
    let sizes = shifted c mb (delta c low hi) ∷ shifted c gb (delta c low hi) ∷ [] in
    if c.bits_64
    then region name low hi (
        shifted c mb (delta c low hi)
        ∷ shifted c gb (delta c low hi)
        ∷ shifted c tb (delta c low hi)
        ∷ [])
    else region name low hi sizes
