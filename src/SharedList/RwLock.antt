-- ===== src/SharedList/RwLock.antt =====
-- The driver that protects the list by a read-write lock. `caller` is the code after a function
-- returns; the callers ignore what `add2tail` returns.
use linux_kernel_programming.Base.{ℕ, List, [], ◌∷◌, ◌+◌, Option, none, some, ◌==◌, if◌then◌else◌}
use linux_kernel_programming.ListDemo.{Node}
use linux_kernel_programming.SharedList.Code.{
  Code, Call, reads, writes, read_lock, read_unlock, write_lock, write_unlock, if_empty, walk,
  kzalloc, add_begin, add_end, returned,
}

abbrev pub link : Code → Option ℕ → Code
link caller none = caller
link caller (some mynode) = write_lock (add_begin mynode (add_end mynode (write_unlock caller)))

abbrev pub add2tail : (v1 v2 achar : ℕ) → Code → Code
add2tail v1 v2 achar caller =
    kzalloc (record { ival1 = v1; ival2 = v2; letter = achar }) (λ mynode. link caller mynode)

abbrev pub showlist : (List Node → Code) → Code
showlist caller =
    if_empty (λ empty.
      if empty then caller [] else read_lock (walk [] (λ rows. read_unlock (caller rows))))

-- The nodes with the letter, each with its index, which starts at `i`
unfoldable pub matches : (char2locate i : ℕ) → List Node → List (ℕ × Node)
matches char2locate i [] = []
matches char2locate i (curr ∷ rest) =
    let found = matches char2locate (i + 1) rest in
    if curr.letter == char2locate then (i, curr) ∷ found else found

-- The caller is given what is printed: nothing for an empty list, else the nodes that were found.
abbrev pub findinlist_letter : ℕ → (Option (List (ℕ × Node)) → Code) → Code
findinlist_letter char2locate caller = if_empty (λ empty.
    if empty
    then caller none
    else read_lock (walk [] (λ rows. read_unlock (caller (some (matches char2locate 0 rows))))))

abbrev pub read_miscdrv_rdwr : (count : ℕ) → Code
read_miscdrv_rdwr count = showlist (λ rows. returned count rows)

abbrev pub write_miscdrv_rdwr : (count now later : ℕ) → Code
write_miscdrv_rdwr count now later =
    add2tail 1 2 b'R' (add2tail 3 1415 b'C' (add2tail now later b'U' (returned count [])))

abbrev pub method : Call → Code
method (reads count) = read_miscdrv_rdwr count
method (writes count now later) = write_miscdrv_rdwr count now later
