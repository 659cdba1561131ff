-- ===== src/Vas/User.antt =====
-- kernel_vas.c, `show_userspace_info` and init: the regions of the current process.
use linux_kernel_programming.Base.{ℕ, ◌/◌, List, [], ◌∷◌, ◌++◌, Bool, if◌then◌else◌}
use linux_kernel_programming.Vas.Delta.{
  Config, Line, environment, arguments, heap, static_data, text, dots, rule, title, skipping,
  stack_start, task_size, map_count, mb, gb, show_delta_b, show_delta_k,
}
use linux_kernel_programming.Vas.Kernel.{Layout, show_kernelvas_info}

-- `current->mm`, and the size of the user's address space
pub record Mm : Type 0 where
  pub env_start : ℕ
  pub env_end : ℕ
  pub arg_start : ℕ
  pub arg_end : ℕ
  pub start_stack : ℕ
  pub start_brk : ℕ
  pub brk : ℕ
  pub start_data : ℕ
  pub end_data : ℕ
  pub start_code : ℕ
  pub end_code : ℕ
  pub maps : ℕ
  pub user_size : ℕ

-- What is shown as a number of GB
abbrev pub shown_gb : Config → ℕ → ℕ
shown_gb c size = if c.bits_64 then size / gb else size / mb

unfoldable pub show_userspace_info : Config → Mm → List Line
show_userspace_info c m =
    title
    ∷ dots
    ∷ show_delta_b c environment m.env_start m.env_end
    ∷ show_delta_b c arguments m.arg_start m.arg_end
    ∷ stack_start m.start_stack
    ∷ show_delta_k c heap m.start_brk m.brk
    ∷ show_delta_b c static_data m.start_data m.end_data
    ∷ show_delta_k c text m.start_code m.end_code
    ∷ dots
    ∷ rule
    ∷ task_size m.user_size (shown_gb c m.user_size)
    ∷ map_count m.maps
    ∷ []

-- After the lines of `minsysinfo`
unfoldable pub kernel_vas_init : Config → Layout → Mm → (show_uservas : Bool) → List Line
kernel_vas_init c l m show_uservas =
    show_kernelvas_info c l
    ++ (if show_uservas then show_userspace_info c m else rule ∷ skipping ∷ [])
