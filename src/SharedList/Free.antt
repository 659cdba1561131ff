-- ===== src/SharedList/Free.antt =====
-- Init, and the exit with its `freelist`, when no call is under way any more.
use linux_kernel_programming.Base.{
  ℕ, ◌≡◌, ◌↔◌, refl, List, [], ◌∷◌, Option, none, some, Bool, true, false, if◌then◌else◌,
  Option-cases, inl, inr, ◌==◌, ==_refl,
}
use linux_kernel_programming.Base.Words.{ℤ, pos, negsuc}
use linux_kernel_programming.ListDemo.{
  Node, Demo, list_empty, for_each, memory, print, freeing, write,
}
use linux_kernel_programming.ListDemo

-- Both inits: `reg` is what `misc_register` returns. The result, and whether the device is registered.
abbrev pub list_demo_rdwrlock_init : ℤ → ℤ × Bool
list_demo_rdwrlock_init (negsuc e) = (negsuc e, false)
list_demo_rdwrlock_init (pos reg) = (pos 0, true)

abbrev pub list_demo_rcu_init : ℤ → ℤ × Bool
list_demo_rcu_init (negsuc e) = (negsuc e, false)
list_demo_rcu_init (pos reg) = (pos 0, true)

unfoldable pub rwlock_freelist : Demo → Option Demo
rwlock_freelist d =
    if list_empty d.head_node
    then some d
    else for_each memory ListDemo.kfree d.head_node (print freeing d)

-- The entry that is taken out keeps its own pointers, so the walk can go on from it.
abbrev pub without : ℕ → List ℕ → List ℕ
without p [] = []
without p (q ∷ qs) = let rest = without p qs in if q == p then rest else q ∷ rest

-- `list_del_rcu` and `kfree`
abbrev pub del_and_free : ℕ → Node → Demo → Demo
del_and_free p curr d = record d { nodes = write d.nodes p none; head_node = without p d.head_node }

-- No reader is left, so `synchronize_rcu` returns at once, and the spinlock is free.
unfoldable pub rcu_freelist : Demo → Option Demo
rcu_freelist d =
    if list_empty d.head_node
    then some d
    else for_each memory del_and_free d.head_node (print freeing d)

-- The exits call it and deregister the device.
abbrev pub list_demo_rdwrlock_exit : Demo → Option (Demo × Bool)
list_demo_rdwrlock_exit d = elim (rwlock_freelist d) [ none ↦ none | some d' ↦ some (d', false) ]

abbrev pub list_demo_rcu_exit : Demo → Option (Demo × Bool)
list_demo_rcu_exit d = elim (rcu_freelist d) [ none ↦ none | some d' ↦ some (d', false) ]

-- A body that frees its node, so that the macro then reads `curr->list.next` of a freed one.
walk_faults :
    (body : ℕ → Node → Demo → Demo)
    → ((p : ℕ) (n : Node) (d : Demo) → (body p n d).nodes p ≡ none)
    → (d : Demo) (p : ℕ) (ps : List ℕ) → for_each memory body (p ∷ ps) d ≡ none
unfolding for_each
walk_faults body frees d p ps = elim (Option-cases (d.nodes p)) [
  | inl gone ↦ rw (gone, for_each)
  | inr (n, e) ↦ rw (e, for_each) (rw (frees p n d))
]

faults_iff :
    (body : ℕ → Node → Demo → Demo)
    → ((p : ℕ) (n : Node) (d : Demo) → (body p n d).nodes p ≡ none)
    → (d : Demo) (ps : List ℕ)
    → let r : Option Demo =
        if list_empty ps then some d else for_each memory body ps (print freeing d) in
      (r ≡ none) ↔ (list_empty ps ≡ false)
faults_iff body frees d [] = (λ e. cc, λ e. cc)
faults_iff body frees d (p ∷ ps) = (λ e. refl, λ e. walk_faults body frees (print freeing d) p ps)

-- In both drivers `freelist` reads freed memory on every list that is not empty, and only then: with
-- `list_for_each_entry`, and with `list_for_each_entry_rcu` and `list_del_rcu`.
pub freelists_fault_iff :
    (d : Demo)
    → ((rwlock_freelist d ≡ none) ↔ (list_empty d.head_node ≡ false))
      × ((rcu_freelist d ≡ none) ↔ (list_empty d.head_node ≡ false))
unfolding rwlock_freelist rcu_freelist
freelists_fault_iff d = (
  faults_iff ListDemo.kfree (λ p n d. gone p (d.nodes p)) d d.head_node,
  faults_iff del_and_free (λ p n d. gone p (d.nodes p)) d d.head_node,
)
  where
    gone : (p : ℕ) (m : Option Node) → (if p == p then none else m) ≡ none
    gone p m = rw ==_refl
