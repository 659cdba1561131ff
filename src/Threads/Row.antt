-- ===== src/Threads/Row.antt =====
-- The statements that put a row together in `buf`, the same in the three versions of the lister in
-- ch13 and written once here, with the line numbers of the first, thrd_showall_buggy.c.
use linux_kernel_programming.Base.{ℕ, ◌+◌, [], ◌∷◌, ◌++◌, Bool, not, ◌&&◌, if◌then◌else◌, ◌==◌, ltb}
use linux_kernel_programming.Threads.Format.{Text, space, newline, decimal, pad_left, pointer}
use linux_kernel_programming.Threads.Defs.{Task, Process, Cmd, pure, ◌>>=◌, snprintf_lkp, strncat}

abbrev pub bufmax : ℕ
bufmax = 256

abbrev pub tmpmax : ℕ
tmpmax = 128

-- `sizeof(tasknm)`
abbrev pub task_comm_len : ℕ
task_comm_len = 16

-- "%6d %6d "
abbrev pub ids_text : Process → Task → Text
ids_text g t = pad_left 6 (decimal g.tgid) ++ space ∷ [] ++ pad_left 6 (decimal t.pid) ++ space ∷ []

-- "  0x%px"
abbrev pub pointer_text : ℕ → Text
pointer_text p = space ∷ space ∷ pointer p

-- " [%16s]" for a kernel thread, "  %16s " for another
abbrev pub name_text : Process → Text → Text
name_text g tasknm =
    if not g.mm
    then space ∷ 91 ∷ pad_left 16 tasknm ++ 93 ∷ []
    else space ∷ space ∷ pad_left 16 tasknm ++ space ∷ []

-- Is `t` the main thread of a process with several?
abbrev pub is_main_of_many : Process → Task → Bool
is_main_of_many g t = g.mm && g.tgid == t.pid && ltb 1 g.nr_threads

-- " %3d"
abbrev pub count_text : Process → Text
count_text g = space ∷ pad_left 3 (decimal g.nr_threads)

unfoldable pub begin_row : Process → Task → Cmd Text
begin_row g t = do
  buf ← snprintf_lkp 255 (ids_text g t)
  tmp ← snprintf_lkp 127 (pointer_text t.address)
  buf ← strncat bufmax buf tmp tmpmax
  tmp ← snprintf_lkp 127 (pointer_text t.stack)
  strncat bufmax buf tmp tmpmax

unfoldable pub add_name : Process → Text → Text → Cmd Text
add_name g tasknm buf = do
  tmp ← snprintf_lkp (task_comm_len + 4) (name_text g tasknm)
  strncat bufmax buf tmp tmpmax

unfoldable pub add_count : Process → Task → Text → Cmd Text
add_count g t buf =
    if is_main_of_many g t
    then (do tmp ← snprintf_lkp 127 (count_text g); strncat bufmax buf tmp tmpmax)
    else pure buf

unfoldable pub add_newline : Text → Cmd Text
add_newline buf = do tmp ← snprintf_lkp 2 (newline ∷ []); strncat bufmax buf tmp 2

-- From the name to the row's end
unfoldable pub end_row : Process → Task → Text → Text → Cmd Text
end_row g t tasknm buf = do buf ← add_name g tasknm buf; buf ← add_count g t buf; add_newline buf
