-- ===== src/SharedList/Rcu.antt =====
-- The driver that protects the list by RCU, and its writers by a spinlock. `caller` is the code
-- after a function returns; the callers ignore what `add2tail` returns.
use linux_kernel_programming.Base.{ℕ, List, [], Option, none, some, if◌then◌else◌}
use linux_kernel_programming.ListDemo.{Node}
use linux_kernel_programming.SharedList.RwLock.{matches}
use linux_kernel_programming.SharedList.Code.{
  Code, Call, reads, writes, rcu_read_lock, rcu_read_unlock, spin_lock, spin_unlock, if_empty, walk,
  kzalloc, add_begin, add_end, returned,
}

abbrev pub link : Code → Option ℕ → Code
link caller none = caller
link caller (some mynode) = spin_lock (add_begin mynode (add_end mynode (spin_unlock caller)))

abbrev pub add2tail : (v1 v2 achar : ℕ) → Code → Code
add2tail v1 v2 achar caller =
    kzalloc (record { ival1 = v1; ival2 = v2; letter = achar }) (λ mynode. link caller mynode)

abbrev pub showlist : (List Node → Code) → Code
showlist caller = if_empty (λ empty.
    if empty then caller [] else rcu_read_lock (walk [] (λ rows. rcu_read_unlock (caller rows))))

-- The caller is given what is printed: nothing for an empty list, else the nodes that were found.
abbrev pub findinlist_letter : ℕ → (Option (List (ℕ × Node)) → Code) → Code
findinlist_letter char2locate caller = if_empty (λ empty.
    if empty
    then caller none
    else rcu_read_lock
        (walk [] (λ rows. rcu_read_unlock (caller (some (matches char2locate 0 rows))))))

abbrev pub read_miscdrv_rdwr : (count : ℕ) → Code
read_miscdrv_rdwr count = showlist (λ rows. returned count rows)

abbrev pub write_miscdrv_rdwr : (count now later : ℕ) → Code
write_miscdrv_rdwr count now later =
    add2tail 1 2 b'R' (add2tail 3 1415 b'C' (add2tail now later b'U' (returned count [])))

abbrev pub method : Call → Code
method (reads count) = read_miscdrv_rdwr count
method (writes count now later) = write_miscdrv_rdwr count now later
