-- ===== src/Alloc/Pages.antt =====
-- ch8/lowlevel_mem/lowlevel_mem.c
use linux_kernel_programming.Base.{ℕ, ◌==◌, if◌then◌else◌, Bool}
use linux_kernel_programming.Base.Words.{ℤ, pos}
use linux_kernel_programming.Kernel.{enomem}
use linux_kernel_programming.Alloc.Heap.{
  Cmd, pure, ◌>>=◌, ◌>>◌, alloc, pages, free_page, free_pages,
}

-- `gptr1` to `gptr5`
pub record Gptrs : Type 0 where
  pub gptr1 : ℕ
  pub gptr2 : ℕ
  pub gptr3 : ℕ
  pub gptr4 : ℕ
  pub gptr5 : ℕ

-- The labels `out2` to `out5`, each going on to the next
abbrev out2 : ℕ → Cmd ℤ
out2 gptr1 = do free_page gptr1; pure enomem

abbrev out3 : ℕ → ℕ → ℕ → Cmd ℤ
out3 order gptr1 gptr2 = do free_pages gptr2 order; out2 gptr1

abbrev out4 : ℕ → ℕ → ℕ → ℕ → Cmd ℤ
out4 order gptr1 gptr2 gptr3 = do free_page gptr3; out3 order gptr1 gptr2

abbrev out5 : ℕ → ℕ → ℕ → ℕ → ℕ → Cmd ℤ
out5 order gptr1 gptr2 gptr3 gptr4 = do free_page gptr4; out4 order gptr1 gptr2 gptr3

abbrev gptrs : ℕ → ℕ → ℕ → ℕ → ℕ → Gptrs
gptrs p1 p2 p3 p4 p5 = record { gptr1 = p1; gptr2 = p2; gptr3 = p3; gptr4 = p4; gptr5 = p5 }

-- Step 5: `page_address` is also called on NULL.
abbrev step5 : (ℕ → ℕ) → (ℕ → Bool) → ℕ → ℕ → ℕ → ℕ → ℕ → Cmd (ℤ × Gptrs)
step5 page_address ok order gptr1 gptr2 gptr3 gptr4 = do
  pg ← alloc (ok 5) (pages 5)
  let gptr5 = page_address pg
  if gptr5 == 0
      then (do
        r ← out5 order gptr1 gptr2 gptr3 gptr4
        pure (r, gptrs gptr1 gptr2 gptr3 gptr4 gptr5))
      else pure (pos 0, gptrs gptr1 gptr2 gptr3 gptr4 gptr5)

abbrev step4 : (ℕ → ℕ) → (ℕ → Bool) → ℕ → ℕ → ℕ → ℕ → Cmd (ℤ × Gptrs)
step4 page_address ok order gptr1 gptr2 gptr3 = do
  pg_ptr1 ← alloc (ok 4) (pages 0)
  if pg_ptr1 == 0
      then (do r ← out4 order gptr1 gptr2 gptr3; pure (r, gptrs gptr1 gptr2 gptr3 0 0))
      else step5 page_address ok order gptr1 gptr2 gptr3 (page_address pg_ptr1)

abbrev step3 : (ℕ → ℕ) → (ℕ → Bool) → ℕ → ℕ → ℕ → Cmd (ℤ × Gptrs)
step3 page_address ok order gptr1 gptr2 = do
  gptr3 ← alloc (ok 3) (pages 0)
  if gptr3 == 0
      then (do r ← out3 order gptr1 gptr2; pure (r, gptrs gptr1 gptr2 0 0 0))
      else step4 page_address ok order gptr1 gptr2 gptr3

abbrev step2 : (ℕ → ℕ) → (ℕ → Bool) → ℕ → ℕ → Cmd (ℤ × Gptrs)
step2 page_address ok order gptr1 = do
  gptr2 ← alloc (ok 2) (pages order)
  if gptr2 == 0
      then (do r ← out2 gptr1; pure (r, gptrs gptr1 0 0 0 0))
      else step3 page_address ok order gptr1 gptr2

-- `bsa_alloc`, which is all that init does: `ok n` says whether there is memory at step `n`. A
-- `struct page *` is the number of its page's address, unless it is NULL.
unfoldable pub bsa_alloc : (ℕ → ℕ) → (ℕ → Bool) → ℕ → Cmd (ℤ × Gptrs)
bsa_alloc page_address ok order = do
  gptr1 ← alloc (ok 1) (pages 0)
  if gptr1 == 0 then pure (enomem, gptrs 0 0 0 0 0) else step2 page_address ok order gptr1

-- With the module parameter `order` as it is at the exit
unfoldable pub lowlevel_mem_exit : Gptrs → ℕ → Cmd (Unit {0})
lowlevel_mem_exit g order = do
  free_pages g.gptr5 5
  free_page g.gptr4
  free_page g.gptr3
  free_pages g.gptr2 order
  free_page g.gptr1
