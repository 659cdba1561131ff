-- ===== src/Vas/Once.antt =====
-- The modules' region is shown once, and all sizes are right.
use linux_kernel_programming.Base.{ℕ, suc, ◌+◌, ◌≡◌, List, [], ◌∷◌}
use linux_kernel_programming.Vas.Delta.{Line, region, modules}
use linux_kernel_programming.Vas.Kernel.{blocks}

-- The lines of the modules' region
unfoldable pub module_lines : List Line → ℕ
module_lines [] = 0
module_lines (region modules low hi sizes ∷ lines) = suc (module_lines lines)
module_lines (line ∷ lines) = module_lines lines

-- The numbers of these lines in each block
Counts : List (List Line) → List ℕ → Type 0
Counts [] [] = Unit {0}
Counts (block ∷ blocks) (n ∷ ns) = (module_lines block ≡ n) × Counts blocks ns
Counts _ _ = ⊥

total : List ℕ → ℕ
total [] = 0
total (n ∷ ns) = n + total ns
