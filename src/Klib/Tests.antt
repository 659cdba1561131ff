-- ===== src/Klib/Tests.antt =====
-- Runs of the library's functions, and its theorems at concrete arguments.
use linux_kernel_programming.Base.{
  ℕ, zero, suc, ltb, if◌then◌else◌, ◌-◌, ◌/◌, ◌*◌, ◌+◌, ◌%◌, ◌^◌, ◌≤◌, ◌<◌, ◌≡◌, refl, inr, true,
  List, ◌∷◌, arith, length,
}
use linux_kernel_programming.Base.Words.{ℤ, pos, negsuc, u64_mod}
use linux_kernel_programming.Klib.Powerof.{powerof, powerof-eq-pow}
use linux_kernel_programming.Klib.PhyPages.{
  Follows, Arch, start, header, show_phy_pages, page_lines, loops, show_phy_pages_all,
}

powerof_tests :
    (powerof (pos 2) (pos 5) ≡ 32)
    × (powerof (pos 0) (pos 0) ≡ 0)
    × (powerof (negsuc 1) (pos 3) ≡ 2 ^ 64 - 1)
    × (powerof (pos 2) (pos 64) ≡ 0)
unfolding powerof
powerof_tests = (refl, refl, refl, refl)

powerof-eq-pow_example : powerof (pos 2) (pos 5) ≡ 2 ^ 5 % u64_mod
powerof-eq-pow_example = powerof-eq-pow 2 5 (omega arith)

-- A `vsnprintf` for buffers of any size: the text is cut to fit.
abbrev vsnprintf : List ℕ → ℕ → List ℕ → ℤ × List ℕ
vsnprintf buf maxsize text = (pos (length text), text)

-- Pages of 4096 bytes; from page 10 on the physical memory lies one frame further up.
abbrev arch : Arch
arch = record {
  page_size = 4096;
  virt_addr_valid = λ va. true;
  virt_to_phys = λ va. va;
  phys_pfn = λ pa. (if ltb pa 40960 then pa / 4096 else pa / 4096 + 1);
}

show_phy_pages_all_example :
    (show_phy_pages arch true 8192 5000 true
      ≡ start 8192 5000 true ∷ header ∷ page_lines arch 8192 0 (loops arch 5000))
    × (5000 ≤ loops arch 5000 * 4096)
    × (loops arch 5000 * 4096 < 5000 + 4096)
show_phy_pages_all_example =
    show_phy_pages_all arch true 8192 5000 true refl (omega arith) (omega arith) (inr follows)
  where
    follows : (j : ℕ) → j < 2 → Follows arch 8192 j
    follows zero lt ne = absurd (ne refl)
    follows (suc zero) lt ne = refl
    follows (suc (suc j)) lt ne = absurd (omega arith)
