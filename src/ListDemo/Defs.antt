-- ===== src/ListDemo/Defs.antt =====
-- The nodes in memory, the list through them, and the operations of the module. The list of list.h
-- is the sequence of its entries' addresses. Memory that was freed holds no node, and reading it
-- is a fault, `none`.
use linux_kernel_programming.Base.{
  ℕ, ◌+◌, ◌%◌, List, [], ◌∷◌, ◌++◌, Option, none, some, ◌==◌, if◌then◌else◌, Bool, true, false,
}
use linux_kernel_programming.Base.Words.{ℤ, pos, negsuc, u32_mod}

-- `struct node`, less its links; the `int` fields are 32-bit patterns.
pub record Node : Type 0 where
  pub ival1 : ℕ
  pub ival2 : ℕ
  pub letter : ℕ

abbrev pub Memory : Type 0
Memory = ℕ → Option Node

pub data Msg : Type 0 where
  added : (letter : ℕ) → Msg
  title : Msg
  row : Node → Msg
  searching : (letter : ℕ) → Msg
  found : (letter i : ℕ) → Node → Msg
  not_found : (letter : ℕ) → Msg
  freeing : Msg
  add_failed : Msg

-- The memory, `head_node` and the kernel log, last message last.
pub record Demo : Type 0 where
  pub nodes : Memory
  pub head_node : List ℕ
  pub log : List Msg

abbrev pub write : Memory → ℕ → Option Node → Memory
write m p n q = if q == p then n else m q

abbrev pub print : Msg → Demo → Demo
print x d = record d { log = d.log ++ x ∷ [] }

abbrev pub list_empty : List ℕ → Bool
list_empty [] = true
list_empty (_ ∷ _) = false

-- `list_for_each_entry`: after the body the macro reads `curr->list.next`, so `curr` must then
-- still be there.
unfoldable pub for_each {ℓ} :
    {S : Type ℓ} → (S → ℕ → Option Node) → (ℕ → Node → S → S) → List ℕ → S → Option S
for_each mem body [] s = some s
for_each mem body (p ∷ ps) s = elim (mem s p) [
  | none ↦ none
  | some curr ↦ elim (mem (body p curr s) p) [
    | none ↦ none
    | some _ ↦ for_each mem body ps (body p curr s)
  ]
]

-- `add2tail`, with what `kzalloc` returns: the result, and the demo then.
unfoldable pub add2tail : Option ℕ → ℕ → ℕ → ℕ → Demo → ℤ × Demo
add2tail none v1 v2 achar d = (negsuc 11, d)
add2tail (some p) v1 v2 achar d = (
  pos 0,
  print (added achar) (record d {
    nodes = write d.nodes p (some (record { ival1 = v1; ival2 = v2; letter = achar }));
    head_node = d.head_node ++ p ∷ [];
  }),
)

abbrev pub show_row : ℕ → Node → Demo → Demo
show_row p curr d = print (row curr) d

abbrev pub memory : Demo → Memory
memory d = d.nodes

unfoldable pub showlist : Demo → Option Demo
unfolding for_each
showlist d =
    if list_empty d.head_node then some d else for_each memory show_row d.head_node (print title d)

-- The locals `i` and `found` of the search, with the demo.
pub record Search : Type 0 where
  pub demo : Demo
  pub i : ℕ
  pub found_any : Bool

abbrev pub search_step : ℕ → ℕ → Node → Search → Search
search_step char2locate p curr s =
    if curr.letter == char2locate
    then record { demo = print (found char2locate s.i curr) s.demo; i = s.i + 1; found_any = true }
    else record s { i = s.i + 1 }

abbrev pub search_memory : Search → Memory
search_memory s = s.demo.nodes

abbrev pub finish_search : ℕ → Option Search → Option Demo
finish_search char2locate none = none
finish_search char2locate (some s) =
    some (if s.found_any then s.demo else print (not_found char2locate) s.demo)

unfoldable pub findinlist_letter : ℕ → Demo → Option Demo
unfolding for_each
findinlist_letter char2locate d =
    if list_empty d.head_node
    then some d
    else finish_search char2locate (
        for_each search_memory (search_step char2locate) d.head_node
          (record { demo = print (searching char2locate) d; i = 0; found_any = false }))

-- `kfree(curr)`
abbrev pub kfree : ℕ → Node → Demo → Demo
kfree p curr d = record d { nodes = write d.nodes p none }

unfoldable pub freelist : Demo → Option Demo
unfolding for_each
freelist d =
    if list_empty d.head_node then some d else for_each memory kfree d.head_node (print freeing d)

-- An `add2tail` of init, which prints a warning when it fails.
abbrev add_or_warn : Option ℕ → ℕ → ℕ → ℕ → Demo → Demo
add_or_warn mem v1 v2 achar d =
    let (ret, d') = add2tail mem v1 v2 achar d in
    elim ret [ pos r ↦ d' | negsuc e ↦ print add_failed d' ]

abbrev search_both : Option Demo → Option Demo
search_both none = none
search_both (some d) = elim (findinlist_letter b'p' d) [
  | none ↦ none
  | some d' ↦ findinlist_letter b'e' d'
]

-- `mem` gives what `kzalloc` returns at each call; `jiffies` the 32-bit pattern at
-- each of its readings, and `ms300` is what `msecs_to_jiffies(300)` returns.
unfoldable pub list_init : (ℕ → Option ℕ) → (ℕ → ℕ) → ℕ → Demo → Option Demo
unfolding add2tail showlist findinlist_letter
list_init mem jiffies ms300 d =
    let d1 = add_or_warn (mem 1) 1 2 b'l' d in
    let d2 = add_or_warn (mem 2) 5 1000 b'k' d1 in
    let d3 = add_or_warn (mem 3) 3 1415 b'p' d2 in
    let d4 = add_or_warn (mem 4) (jiffies 1) ((jiffies 2 + ms300) % u32_mod) b'2' d3 in
    let d5 = add_or_warn (mem 5) (jiffies 3) ((jiffies 4 + ms300) % u32_mod) b'E' d4 in
    search_both (showlist d5)

unfoldable pub list_exit : Demo → Option Demo
unfolding freelist
list_exit d = freelist d
