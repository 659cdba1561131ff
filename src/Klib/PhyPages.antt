-- ===== src/Klib/PhyPages.antt =====
-- klib.c, `show_phy_pages`: a walk over the pages of a piece of kernel memory.
use linux_kernel_programming.Base.{
  ℕ, ℕ_discrete, zero, suc, ◌+◌, ◌-◌, ◌*◌, ◌/◌, ◌%◌, ◌^◌, ◌≤◌, ◌<◌, ◌≡◌, ◌≢◌, ◌⊎◌, inl, inr, refl,
  sym, Bool, true, false, ◌&&◌, not, List, [], ◌∷◌, ◌++◌, arith, ltb, ◌==◌, if◌then◌else◌, ne_false,
  ==-eq-false, ap,
}
use mathlib.Core.Path.{subst}
use native.Mathlib.Nat.{mod-add-div, mod-lt}
use linux_kernel_programming.Base.Words.{u32_mod, u64_mod, add32}

-- What the kernel and the architecture provide.
pub record Arch : Type 0 where
  pub page_size : ℕ
  pub virt_addr_valid : ℕ → Bool
  pub virt_to_phys : ℕ → ℕ
  pub phys_pfn : ℕ → ℕ

pub data Line : Type 0 where
  invalid : (va : ℕ) → Line
  start : (va len : ℕ) → Bool → Line
  header : Line
  page : (i va pa pfn : ℕ) → Line
  non_contiguity : (i : ℕ) → Line

module _ (a : Arch) where
  open a use {page_size, virt_addr_valid, virt_to_phys, phys_pfn}

  abbrev pub va_of : ℕ → ℕ → ℕ
  va_of kaddr i = (kaddr + i * page_size) % u64_mod

  abbrev pub pfn_of : ℕ → ℕ → ℕ
  pfn_of kaddr i = phys_pfn (virt_to_phys (va_of kaddr i))

  abbrev pub page_line : ℕ → ℕ → Line
  page_line kaddr i = page i (va_of kaddr i) (virt_to_phys (va_of kaddr i)) (pfn_of kaddr i)

  -- The body of the `for` loop, with `rounds` rounds to go at index `i`.
  unfoldable pub walk : ℕ → Bool → ℕ → ℕ → ℕ → List Line
  walk kaddr check zero i prev_pfn = []
  walk kaddr check (suc rounds) i prev_pfn =
      let rest = walk kaddr check rounds (i + 1) (if check then pfn_of kaddr i else prev_pfn) in
      if check && (not (i == 0) && not (pfn_of kaddr i == (prev_pfn + 1) % u64_mod))
      then non_contiguity i ∷ []
      else page_line kaddr i ∷ rest

  -- The rounds of `for (i = 0; i < loops; i++)`, `loops` being an `int`.
  abbrev pub loops : ℕ → ℕ
  loops len =
      let whole = len / page_size % u32_mod in
      let n = (if len % page_size == 0 then whole else add32 whole 1) in
      if ltb n (2 ^ 31) then n else 0

  -- With CONFIG_X86 an invalid address is refused first.
  unfoldable pub show_phy_pages : Bool → ℕ → ℕ → Bool → List Line
  show_phy_pages config_x86 kaddr len check =
      if config_x86 && not (virt_addr_valid kaddr)
      then invalid kaddr ∷ []
      else start kaddr len check ∷ header ∷ walk kaddr check (loops len) 0 1

  -- The lines of the pages from index `i` on.
  abbrev pub page_lines : ℕ → ℕ → ℕ → List Line
  page_lines kaddr i zero = []
  page_lines kaddr i (suc n) = page_line kaddr i ∷ page_lines kaddr (i + 1) n

  walk_unchecked : (kaddr n i p : ℕ) → walk kaddr false n i p ≡ page_lines kaddr i n
  unfolding walk
  walk_unchecked kaddr zero i p = refl
  walk_unchecked kaddr (suc n) i p =
      ap (λ t. page_line kaddr i ∷ t) (walk_unchecked kaddr n (i + 1) p)

  -- Page `j` is the first, or lies just behind page `j - 1` in physical memory.
  abbrev pub Follows : ℕ → ℕ → Type 0
  Follows kaddr j = j ≢ 0 → pfn_of kaddr j ≡ (pfn_of kaddr (j - 1) + 1) % u64_mod

  walk_contiguous :
      (kaddr n i p : ℕ)
      → ((j : ℕ) → i ≤ j → j < i + n → Follows kaddr j)
      → (i ≢ 0 → p ≡ pfn_of kaddr (i - 1))
      → walk kaddr true n i p ≡ page_lines kaddr i n
  unfolding walk
  walk_contiguous kaddr zero i p h prev = refl
  walk_contiguous kaddr (suc n) i p h prev = ground (
    arith,
    h i (omega arith) (omega arith),
    walk_contiguous kaddr n (i + 1) (pfn_of kaddr i) (λ j lo hi. h j (omega arith) (omega arith))
        (λ _. ap (pfn_of kaddr) (omega arith)),
  )

  -- Page `j` is not the first and does not lie just behind the one before it.
  abbrev pub Breaks : ℕ → ℕ → Type 0
  Breaks kaddr j = (j ≢ 0) × (pfn_of kaddr j ≢ (pfn_of kaddr (j - 1) + 1) % u64_mod)

  Breaks-here :
      (kaddr n i p k : ℕ)
      → k ≡ i
      → Breaks kaddr k
      → (i ≢ 0 → p ≡ pfn_of kaddr (i - 1))
      → walk kaddr true (suc n) i p ≡ non_contiguity k ∷ []
  unfolding walk
  Breaks-here kaddr n i p k e gap prev =
      subst (λ t. walk kaddr true (suc n) i p ≡ non_contiguity t ∷ []) (sym e)
        (broken (subst (Breaks kaddr) e gap))
    where
      broken : Breaks kaddr i → walk kaddr true (suc n) i p ≡ non_contiguity i ∷ []
      broken b = rw (ne_false i b.0, prev b.0, ==-eq-false (pfn_of kaddr i) _ b.1)

  walk_gap :
      (kaddr n i p g k : ℕ)
      → g < n
      → k ≡ i + g
      → ((j : ℕ) → i ≤ j → j < k → Follows kaddr j)
      → Breaks kaddr k
      → (i ≢ 0 → p ≡ pfn_of kaddr (i - 1))
      → walk kaddr true n i p ≡ page_lines kaddr i g ++ non_contiguity k ∷ []
  unfolding walk
  walk_gap kaddr zero i p g k lt e h gap prev = absurd (omega arith)
  walk_gap kaddr (suc n) i p zero k lt e h gap prev =
      Breaks-here kaddr n i p k (omega arith) gap prev
  walk_gap kaddr (suc n) i p (suc g) k lt e h gap prev = ground (
    arith,
    h i (omega arith) (omega arith),
    walk_gap kaddr n (i + 1) (pfn_of kaddr i) g k (omega arith) (omega arith)
        (λ j lo hi. h j (omega arith) hi) gap (λ _. ap (pfn_of kaddr) (omega arith)),
  )

  loops-eq :
      (len : ℕ)
      → len / page_size + 1 < 2 ^ 31
      → loops len ≡ (if len % page_size == 0 then len / page_size else len / page_size + 1)
  loops-eq len small = ground arith

  -- The pages cover the length, and there is none too many.
  loops_lem :
      (len : ℕ)
      → 0 < page_size
      → len / page_size + 1 < 2 ^ 31
      → (len ≤ loops len * page_size) × (loops len * page_size < len + page_size)
  loops_lem len p small = elim (ℕ_discrete (len % page_size) 0) [
    | yes e ↦ rw (loops-eq len small, e) (omega (arith, mod-add-div len page_size))
    | no ne ↦
        rw (loops-eq len small, ne_false (len % page_size) ne)
          (omega (arith, mod-add-div len page_size, mod-lt len {m = page_size} p))
  ]

  -- With a valid address and fewer than 2^31 pages, the walk covers the memory and no page more; it
  -- lists every page with its index, addresses and frame number if no check is asked for, or if each
  -- page lies just behind the one before it.
  pub show_phy_pages_all :
      (config_x86 : Bool) (kaddr len : ℕ) (check : Bool)
      → (config_x86 && not (virt_addr_valid kaddr)) ≡ false
      → 0 < page_size
      → len / page_size + 1 < 2 ^ 31
      → (check ≡ false) ⊎ ((j : ℕ) → j < loops len → Follows kaddr j)
      → (show_phy_pages config_x86 kaddr len check
          ≡ start kaddr len check ∷ header ∷ page_lines kaddr 0 (loops len))
        × (len ≤ loops len * page_size)
        × (loops len * page_size < len + page_size)
  unfolding show_phy_pages
  show_phy_pages_all x kaddr len check v p small how =
      let (least, most) = loops_lem len p small in
      (rw v (ap (λ t. start kaddr len check ∷ header ∷ t) (lines check how)), least, most)
    where
      lines :
          (c : Bool)
          → (c ≡ false) ⊎ ((j : ℕ) → j < loops len → Follows kaddr j)
          → walk kaddr c (loops len) 0 1 ≡ page_lines kaddr 0 (loops len)
      lines false _ = walk_unchecked kaddr (loops len) 0 1
      lines true (inl e) = cc
      lines true (inr h) =
          walk_contiguous kaddr (loops len) 0 1 (λ j lo hi. h j (omega arith))
            (λ ne. absurd (ne refl))

  -- With the check on, the walk stops at the first page that does not lie just behind the one
  -- before it: the pages up to there are listed, then the notice with that page's index.
  pub show_phy_pages_gap :
      (config_x86 : Bool) (kaddr len k : ℕ)
      → (config_x86 && not (virt_addr_valid kaddr)) ≡ false
      → k < loops len
      → ((j : ℕ) → j < k → Follows kaddr j)
      → Breaks kaddr k
      → show_phy_pages config_x86 kaddr len true
        ≡ start kaddr len true ∷ header ∷ (page_lines kaddr 0 k ++ non_contiguity k ∷ [])
  unfolding show_phy_pages
  show_phy_pages_gap x kaddr len k v lt h gap = rw v (
      ap (λ t. start kaddr len true ∷ header ∷ t)
        (walk_gap kaddr (loops len) 0 1 k k lt (omega arith) (λ j lo hi. h j hi) gap
          (λ ne. absurd (ne refl))))
