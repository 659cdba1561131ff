-- ===== src/Alloc/Heap.antt =====
-- The live pieces of memory, and commands that take and free them. Each piece is freed by the
-- function for its kind, with the size it was taken with; anything else is a fault, `none`.
use linux_kernel_programming.Base.{
  ℕ, suc, ◌+◌, length, ◌≡◌, List, [], ◌∷◌, Option, none, some, ◌==◌, if◌then◌else◌, Bool, true,
  false,
}
use linux_kernel_programming.Base.Words.{ℤ, pos}

-- 2^order pages, an exact number of bytes in whole pages, and the memory of vmalloc and of kmalloc
pub data Block : Type 0 where
  pages : (order : ℕ) → Block
  exact : (bytes : ℕ) → Block
  vmem kmem : Block

-- `next` is one less than the next address that is given out.
pub record Heap : Type 0 where
  pub next : ℕ
  pub live : List (ℕ × Block)

abbrev pub Cmd : Type 0 → Type 0
Cmd A = Heap → Option (A × Heap)

abbrev pub pure : {A : Type 0} → A → Cmd A
pure a h = some (a, h)

infixl 20 ◌>>=◌ ◌>>◌
abbrev pub ◌>>=◌ : {A B : Type 0} → Cmd A → (A → Cmd B) → Cmd B
(m >>= f) h = elim (m h) [ none ↦ none | some (a, h') ↦ f a h' ]

abbrev pub ◌>>◌ : {B : Type 0} → Cmd (Unit {0}) → Cmd B → Cmd B
m >> n = m >>= λ _. n

-- The address of a new piece, or NULL
abbrev pub alloc : Bool → Block → Cmd ℕ
alloc true b h = some (suc h.next, record { next = suc h.next; live = (suc h.next, b) ∷ h.live })
alloc false b h = some (0, h)

-- May a piece of this kind be freed so?
abbrev pub page_order : ℕ → Block → Bool
page_order order (pages o) = o == order
page_order order _ = false

abbrev pub page_bytes : ℕ → Block → Bool
page_bytes bytes (exact n) = n == bytes
page_bytes bytes _ = false

abbrev pub is_vmem : Block → Bool
is_vmem vmem = true
is_vmem _ = false

abbrev pub is_kv : Block → Bool
is_kv vmem = true
is_kv kmem = true
is_kv _ = false

abbrev pub keep : ℕ × Block → Option (List (ℕ × Block)) → Option (List (ℕ × Block))
keep x none = none
keep x (some rest) = some (x ∷ rest)

unfoldable pub remove : ℕ → (Block → Bool) → List (ℕ × Block) → Option (List (ℕ × Block))
remove p fits [] = none
remove p fits ((q, b) ∷ rest) =
    let later = keep (q, b) (remove p fits rest) in
    if q == p then (if fits b then some rest else none) else later

abbrev pub give_back : Heap → Option (List (ℕ × Block)) → Option (Unit {0} × Heap)
give_back h none = none
give_back h (some rest) = some (tt, record h { live = rest })

abbrev pub free : ℕ → (Block → Bool) → Cmd (Unit {0})
free p fits h = give_back h (remove p fits h.live)

-- `free_pages`, `vfree` and `kvfree` do nothing to NULL.
abbrev pub free_unless_null : ℕ → (Block → Bool) → Cmd (Unit {0})
free_unless_null p fits = if p == 0 then pure tt else free p fits

abbrev pub free_pages : ℕ → ℕ → Cmd (Unit {0})
free_pages p order = free_unless_null p (page_order order)

abbrev pub free_page : ℕ → Cmd (Unit {0})
free_page p = free_pages p 0

abbrev pub free_pages_exact : ℕ → ℕ → Cmd (Unit {0})
free_pages_exact p bytes = free p (page_bytes bytes)

abbrev pub vfree : ℕ → Cmd (Unit {0})
vfree p = free_unless_null p is_vmem

abbrev pub kvfree : ℕ → Cmd (Unit {0})
kvfree p = free_unless_null p is_kv

-- A command that comes to an end with this result, a value and these pieces live.
abbrev pub Ends : {A : Type 0} → ℤ → List (ℕ × Block) → Option ((ℤ × A) × Heap) → Type 0
Ends r live none = ⊥
Ends r live (some ((r', _), h)) = (r' ≡ r) × (h.live ≡ live)

-- A command that returns 0, with this many more pieces live.
abbrev pub Taken : {A : Type 0} → ℕ → List (ℕ × Block) → Option ((ℤ × A) × Heap) → Type 0
Taken n live none = ⊥
Taken n live (some ((r, _), h)) = (r ≡ pos 0) × (length h.live ≡ length live + n)

-- A command that comes to an end with these pieces live.
abbrev pub Leaves : {A : Type 0} → List (ℕ × Block) → Option (A × Heap) → Type 0
Leaves live none = ⊥
Leaves live (some (_, h)) = h.live ≡ live
