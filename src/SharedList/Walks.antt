-- ===== src/SharedList/Walks.antt =====
-- Additions to the list, and walks through it, in any interleaving.
use linux_kernel_programming.Base.{
  ℕ, length, ◌≢◌, ◌≡◌, refl, sym, ap, List, [], ◌∷◌, map, Option, none, some, true, false,
}
use mathlib.Core.Path.{subst, fun_ext}
use linux_kernel_programming.ListDemo.{Node}
use linux_kernel_programming.SharedList.Code.{
  Code, Sys, entry, row_then, walk_then, Call, reads, writes, walk, kzalloc, add_end, Enabled,
  after, Reach, here, step, start,
}
use linux_kernel_programming.SharedList.Places.{
  Sync, by_rwlock, by_rcu, Pos, r_empty, r_walk, w_alloc, w_end, code_of, adds, linking, view,
  Knows, Reading, Inv, method,
}
use linux_kernel_programming.SharedList.Frames.{map-write}
use linux_kernel_programming.SharedList.Steps.{Kept, free-Apart}
use linux_kernel_programming.SharedList.RwLock
use linux_kernel_programming.SharedList.Rcu
use linux_kernel_programming.SharedList.Keeps.{keeps_at}

keeps :
    (s : Sync) {counts : ℕ → ℕ} {u : Sys} (i : ℕ) (given : Option ℕ)
    → Enabled u given (u.threads i)
    → (p : ℕ → Pos) × Inv s counts p u
    → (p : ℕ → Pos) × Inv s counts p (after i given (u.threads i) u)
keeps s {counts} {u} i given ok (p, inv) =
    subst (λ c. Kept inv i (after i given c u)) (sym (inv.codes i))
      (keeps_at i s inv given (p i) (inv.knows i) (subst (Enabled u given) (inv.codes i) ok))

pub Reach-Inv :
    (s : Sync) {counts : ℕ → ℕ} {t u : Sys}
    → (p : ℕ → Pos) × Inv s counts p t
    → Reach t u
    → (p : ℕ → Pos) × Inv s counts p u
Reach-Inv s inv here = inv
Reach-Inv s inv (step r i given ok) = keeps s i given ok (Reach-Inv s inv r)

abbrev pub count_of : Call → ℕ
count_of (reads count) = count
count_of (writes count now later) = count

abbrev pub first : Call → Pos
first (reads count) = r_empty
first (writes count now later) = w_alloc (
    record { ival1 = 1; ival2 = 2; letter = b'R' }
    ∷ record { ival1 = 3; ival2 = 1415; letter = b'C' }
    ∷ record { ival1 = now; ival2 = later; letter = b'U' }
    ∷ [])

module _ (count : ℕ) {rest rest' : Code} (same : rest ≡ rest') where
  rwlock_link : (p : Option ℕ) → RwLock.link rest p ≡ linking by_rwlock count rest' p
  rwlock_link none = same
  rwlock_link (some p) = ap (λ r. linking by_rwlock count r (some p)) same

  rcu_link : (p : Option ℕ) → Rcu.link rest p ≡ linking by_rcu count rest' p
  rcu_link none = same
  rcu_link (some p) = ap (λ r. linking by_rcu count r (some p)) same

  rwlock_add :
      (n : Node)
      → kzalloc n (λ p. RwLock.link rest p) ≡ kzalloc n (λ p. linking by_rwlock count rest' p)
  rwlock_add n = ap (λ k. kzalloc n k) (fun_ext rwlock_link)

  rcu_add :
      (n : Node) → kzalloc n (λ p. Rcu.link rest p) ≡ kzalloc n (λ p. linking by_rcu count rest' p)
  rcu_add n = ap (λ k. kzalloc n k) (fun_ext rcu_link)

pub first_code : (s : Sync) (c : Call) → method s c ≡ code_of s (count_of c) (first c)
unfolding adds
first_code by_rwlock (reads count) = refl
first_code by_rcu (reads count) = refl
first_code by_rwlock (writes count now later) =
    rwlock_add count (rwlock_add count (rwlock_add count refl _) _) _
first_code by_rcu (writes count now later) =
    rcu_add count (rcu_add count (rcu_add count refl _) _) _

pub idle-Reading : (s : Sync) (j : ℕ) → Reading s (λ i. false) j false
idle-Reading by_rwlock j = refl
idle-Reading by_rcu j = tt

pub first_lem :
    (s : Sync) (c : Call) (threads : ℕ → Code) (j : ℕ) → Knows s (start threads) j (view (first c))
first_lem s (reads count) threads j = (tt, tt, (λ e. cc), idle-Reading s j)
first_lem s (writes count now later) threads j = (tt, tt, (λ e. cc), idle-Reading s j)

start-Inv :
    (s : Sync) (calls : ℕ → Call)
    → Inv s (λ i. count_of (calls i)) (λ i. first (calls i)) (start (λ i. method s (calls i)))
start-Inv s calls = record {
  codes = λ j. first_code s (calls j);
  knows = λ j. first_lem s (calls j) (λ i. method s (calls i)) j;
  linked = λ n q e. cc;
  apart = free-Apart s (λ i. false);
}

-- In the middle of `list_add_tail`, and in a walk.
abbrev pub InAdd : Code → Type 0
InAdd (add_end p k) = Unit {0}
InAdd _ = ⊥

abbrev pub InWalk : Code → Type 0
InWalk (walk rows k) = Unit {0}
InWalk _ = ⊥

module _ (u : Sys) where
  adder :
      (s : Sync) (count i : ℕ) (q : Pos)
      → Knows s u i (view q)
      → InAdd (code_of s count q)
      → u.writer ≡ some i
  unfolding adds
  adder s count i (w_end a todo) (rows, own, held, r) at = held
  adder s count i (w_alloc []) k at = absurd at
  adder s count i (w_alloc (n ∷ ns)) k at = absurd at
  adder by_rwlock count i q k at = absurd at
  adder by_rcu count i q k at = absurd at

  walker :
      (count i : ℕ) (q : Pos)
      → Knows by_rwlock u i (view q)
      → InWalk (code_of by_rwlock count q)
      → u.readers i ≡ true
  unfolding adds
  walker count i (r_walk seen) (rows, own, held, r) at = r
  walker count i (w_alloc []) k at = absurd at
  walker count i (w_alloc (n ∷ ns)) k at = absurd at
  walker count i q k at = absurd at

module _ (s : Sync) (calls : ℕ → Call) (u : Sys)
    (reached : Reach (start (λ i. method s (calls i))) u) where
  invariant : (p : ℕ → Pos) × Inv s (λ i. count_of (calls i)) p u
  invariant = Reach-Inv s ((λ i. first (calls i)), start-Inv s calls) reached

  -- In both drivers, whatever runs in parallel: no two threads are in the middle of `list_add_tail`
  -- or `list_add_tail_rcu` at the same time.
  pub list_add_tail_alone : (i j : ℕ) → InAdd (u.threads i) → InAdd (u.threads j) → i ≡ j
  list_add_tail_alone i j at_i at_j =
      let (p, inv) = invariant in
      let held_i : u.writer ≡ some i =
        adder u s (count_of (calls i)) i (p i) (inv.knows i) (subst InAdd (inv.codes i) at_i) in
      let held_j : u.writer ≡ some j =
        adder u s (count_of (calls j)) j (p j) (inv.knows j) (subst InAdd (inv.codes j) at_j) in
      cc

-- The list: the addresses of its entries, and what stands there
abbrev pub listed : Sys → List ℕ × List (Option Node)
listed u = (u.head_node, map u.nodes u.head_node)

row_listed :
    (u : Sys) (i : ℕ) (n : Option Node) (rows : List Node) (k : List Node → Code)
    → listed (row_then i n rows k u) ≡ listed u
row_listed u i none rows k = refl
row_listed u i (some n) rows k = refl

walk_listed :
    (u : Sys) (i : ℕ) (p : Option ℕ) (rows : List Node) (k : List Node → Code)
    → listed (walk_then i p rows k u) ≡ listed u
walk_listed u i none rows k = refl
walk_listed u i (some p) rows k = row_listed u i (u.nodes p) rows k

-- A step that is no addition leaves the list alone.
after-listed :
    (u : Sys) (i : ℕ) (given : Option ℕ) (c : Code)
    → Enabled u given c
    → ¬ InAdd c
    → ((n q : ℕ) → entry n u.head_node ≡ some q → u.nodes q ≢ none)
    → listed (after i given c u) ≡ listed u
unfolding after
after-listed u i given (add_end p k) can other linked = absurd (other tt)
after-listed u i none (kzalloc n k) can other linked = refl
after-listed u i (some a) (kzalloc n k) can other linked =
    ap (λ m. (u.head_node, m)) (map-write u.nodes a n u.head_node can linked)
after-listed u i given (walk rows k) can other linked =
    walk_listed u i (entry (length rows) u.head_node) rows k
after-listed u i given c can other linked = refl

-- Under the read-write lock, with any number of threads in the read and the write method, in any
-- interleaving of their steps: while one thread is in its walk no thread is in the middle of
-- `list_add_tail`, and no step that a thread can take changes the list, neither the entries'
-- addresses nor the nodes that stand there.
pub walk_steady :
    (calls : ℕ → Call) (u : Sys) (i j : ℕ) (given : Option ℕ)
    → Reach (start (λ i. method by_rwlock (calls i))) u
    → InWalk (u.threads i)
    → Enabled u given (u.threads j)
    → ¬ InAdd (u.threads j) × (listed (after j given (u.threads j) u) ≡ listed u)
walk_steady calls u i j given reached at_i can =
    let (p, inv) = invariant by_rwlock calls u reached in
    let reads_i : u.readers i ≡ true =
      walker u (count_of (calls i)) i (p i) (inv.knows i) (subst InWalk (inv.codes i) at_i) in
    let alone : ¬ InAdd (u.threads j) = λ at_j.
      let held_j : u.writer ≡ some j =
        adder u by_rwlock (count_of (calls j)) j (p j) (inv.knows j)
          (subst InAdd (inv.codes j) at_j) in
      let quiet : u.readers i ≡ false = inv.apart j i held_j in cc in
    (alone, after-listed u j given (u.threads j) can alone inv.linked)
