-- ===== src/SharedList/Keeps.antt =====
-- Every step of a method keeps the invariant, place by place.
use linux_kernel_programming.Base.{
  ℕ, refl, List, [], ◌∷◌, map, Option, none, some, Bool, true, false, if◌then◌else◌,
}
use linux_kernel_programming.ListDemo.{Node, list_empty}
use linux_kernel_programming.Rdwr.Threads.{set_same}
use linux_kernel_programming.SharedList.Code.{Sys, walk, returned, Enabled, after, go_on}
use linux_kernel_programming.SharedList.Places.{
  Sync, by_rwlock, by_rcu, Pos, r_empty, r_lock, r_walk, r_unlock, r_done, w_alloc, w_lock, w_begin,
  w_end, w_unlock, code_of, adds, enter, walked, view, Knows, Inv,
}
use linux_kernel_programming.SharedList.Steps.{
  Kept, moves, allocates, takes, gives, adds_node, reads_on, walks,
}

module _ {counts : ℕ → ℕ} {p : ℕ → Pos} {u : Sys} (i : ℕ) where
  empties :
      (s : Sync) (inv : Inv s counts p u)
      → Knows s u i (view r_empty)
      → (b : Bool)
      → Kept inv i (
          go_on i (if b then returned (counts i) [] else enter s (walk [] (walked s (counts i)))) u)
  empties s inv (_, own, w, r) true =
      moves inv i (r_done []) ((map u.nodes u.head_node, refl), own, w, r)
  empties s inv k false = moves inv i r_lock k

  adding :
      (s : Sync) (inv : Inv s counts p u) (given : Option ℕ) (todo : List Node)
      → Knows s u i (view (w_alloc todo))
      → Enabled u given (adds s (counts i) todo)
      → Kept inv i (after i given (adds s (counts i) todo) u)
  unfolding adds after
  adding s inv given [] k ok = absurd ok
  adding s inv none (n ∷ ns) k ok = moves inv i (w_alloc ns) k
  adding s inv (some a) (n ∷ ns) k ok = allocates inv i a n ns k ok

  pub keeps_at :
      (s : Sync) (inv : Inv s counts p u) (given : Option ℕ) (q : Pos)
      → Knows s u i (view q)
      → Enabled u given (code_of s (counts i) q)
      → Kept inv i (after i given (code_of s (counts i) q) u)
  unfolding after
  keeps_at s inv given r_empty k ok = empties s inv k (list_empty u.head_node)
  keeps_at by_rwlock inv given r_lock (_, own, w, r) ok =
      reads_on inv i (r_walk []) true
        ((map u.nodes u.head_node, refl), own, w, set_same u.readers i true) (λ w j e. cc)
  keeps_at by_rcu inv given r_lock (_, own, w, r) ok =
      moves inv i (r_walk []) ((map u.nodes u.head_node, refl), own, w, r)
  keeps_at s inv given (r_walk rows) k ok = walks inv i rows k
  keeps_at by_rwlock inv given (r_unlock rows) (begins, own, w, r) ok =
      reads_on inv i (r_done rows) false (begins, own, w, set_same u.readers i false)
        (λ w j e. let quiet = inv.apart w i e in cc)
  keeps_at by_rcu inv given (r_unlock rows) k ok = moves inv i (r_done rows) k
  keeps_at s inv given (r_done rows) k ok = absurd ok
  keeps_at s inv given (w_alloc todo) k ok = adding s inv given todo k ok
  keeps_at by_rwlock inv given (w_lock a todo) k (free, nobody) =
      takes inv i a todo k free (λ w j e. nobody j)
  keeps_at by_rcu inv given (w_lock a todo) k free = takes inv i a todo k free tt
  keeps_at s inv given (w_begin a todo) k ok = moves inv i (w_end a todo) k
  keeps_at s inv given (w_end a todo) k ok = adds_node inv i a todo k
  keeps_at by_rwlock inv given (w_unlock todo) k ok = gives inv i todo k
  keeps_at by_rcu inv given (w_unlock todo) k ok = gives inv i todo k
