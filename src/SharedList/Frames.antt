-- ===== src/SharedList/Frames.antt =====
-- What the other threads know after a step, and the rows of a walk.
use linux_kernel_programming.Base.{
  ℕ, zero, suc, ◌≡◌, ◌≢◌, ◌⊎◌, inl, inr, refl, sym, ap, ◌∙◌, List, [], ◌∷◌, ◌++◌, map, Option, none,
  some, Bool, true, false, length, if◌then◌else◌, ==-eq-false,
}
use linux_kernel_programming.ListDemo.{Node, Memory, write}
use linux_kernel_programming.Rdwr.{set}
use linux_kernel_programming.Rdwr.Threads.{set_other}
use linux_kernel_programming.SharedList.Code.{entry}
use linux_kernel_programming.SharedList.Places.{
  Sync, by_rwlock, by_rcu, Begins, Rows, Own, Writing, Reading,
}

write_other : (mem : Memory) (a : ℕ) (n : Option Node) (q : ℕ) → q ≢ a → write mem a n q ≡ mem q
write_other mem a n q ne = ap (λ b. if b then n else mem q) (==-eq-false q a ne)

-- A node at a free address changes none that is there.
pub write-live :
    (mem : Memory) (a : ℕ) (n : Node)
    → mem a ≡ none
    → (q : ℕ) → mem q ≢ none
    → write mem a (some n) q ≡ mem q
write-live mem a n free q live = write_other mem a (some n) q (λ e. live (ap mem e ∙ free))

-- The entries of the list are what they were.
pub map-write :
    (mem : Memory) (a : ℕ) (n : Node) (head : List ℕ)
    → mem a ≡ none
    → ((k q : ℕ) → entry k head ≡ some q → mem q ≢ none)
    → map (write mem a (some n)) head ≡ map mem head
map-write mem a n [] free linked = refl
map-write mem a n (p ∷ ps) free linked =
    rw
      (
        write-live mem a n free p (linked 0 p refl),
        map-write mem a n ps free (λ k q e. linked (suc k) q e),
      )
      refl

pub alloc-Rows :
    (mem : Memory) (a : ℕ) (n : Node) (head : List ℕ)
    → mem a ≡ none
    → ((k q : ℕ) → entry k head ≡ some q → mem q ≢ none)
    → (r : Option (List Node)) → Rows mem head r
    → Rows (write mem a (some n)) head r
alloc-Rows mem a n head free linked none k = tt
alloc-Rows mem a n head free linked (some rows) (rest, e) =
    (rest, map-write mem a n head free linked ∙ e)

pub alloc-live :
    (mem : Memory) (a : ℕ) (n : Node)
    → mem a ≡ none
    → (q : ℕ) → mem q ≢ none
    → write mem a (some n) q ≢ none
alloc-live mem a n free q live e = live (sym (write-live mem a n free q live) ∙ e)

pub alloc-Own :
    (mem : Memory) (a : ℕ) (n : Node)
    → mem a ≡ none
    → (o : Option ℕ) → Own mem o
    → Own (write mem a (some n)) o
alloc-Own mem a n free none k = tt
alloc-Own mem a n free (some p) live = alloc-live mem a n free p live

map-append : (mem : Memory) (xs ys : List ℕ) → map mem (xs ++ ys) ≡ map mem xs ++ map mem ys
map-append mem [] ys = refl
map-append mem (x ∷ xs) ys = ap (λ t. mem x ∷ t) (map-append mem xs ys)

append_assoc : (xs ys zs : List (Option Node)) → (xs ++ ys) ++ zs ≡ xs ++ (ys ++ zs)
append_assoc [] ys zs = refl
append_assoc (x ∷ xs) ys zs = ap (λ t. x ∷ t) (append_assoc xs ys zs)

pub add-Rows :
    (mem : Memory) (head : List ℕ) (p : ℕ) (r : Option (List Node))
    → Rows mem head r
    → Rows mem (head ++ p ∷ []) r
add-Rows mem head p none k = tt
add-Rows mem head p (some rows) (rest, e) = (
  rest ++ mem p ∷ [],
  map-append mem head (p ∷ [])
      ∙ ap (λ t. t ++ mem p ∷ []) e
      ∙ append_assoc (map some rows) rest (mem p ∷ []),
)

pub entry_add :
    (head : List ℕ) (p k q : ℕ)
    → entry k (head ++ p ∷ []) ≡ some q
    → (entry k head ≡ some q) ⊎ (q ≡ p)
entry_add [] p zero q e = inr cc
entry_add [] p (suc k) q e = cc
entry_add (x ∷ xs) p zero q e = inl e
entry_add (x ∷ xs) p (suc k) q e = entry_add xs p k q e

-- One more row of a walk.
pub row-Begins :
    (mem : Memory) (rows : List Node) (head : List ℕ) (p : ℕ) (n : Node)
    → Begins mem head rows
    → entry (length rows) head ≡ some p
    → mem p ≡ some n
    → Begins mem head (rows ++ n ∷ [])
row-Begins mem [] [] p n (rest, e) at m = cc
row-Begins mem [] (q ∷ qs) p n (rest, e) at m =
    let same : q ≡ p = cc in (map mem qs, ap (λ o. o ∷ map mem qs) (ap mem same ∙ m))
row-Begins mem (r ∷ rs) [] p n (rest, e) at m = cc
row-Begins mem (r ∷ rs) (q ∷ qs) p n (rest, e) at m =
    let first : mem q ≡ some r = cc in
    let others : map mem qs ≡ map some rs ++ rest = cc in
    let (rest', e') = row-Begins mem rs qs p n (rest, others) at m in
    (rest', ap (λ o. o ∷ map mem qs) first ∙ ap (λ t. some r ∷ t) e')

-- Where a thread takes or gives back a lock, what another one knows of the locks stays.
pub taken-Writing : (i j : ℕ) (b : Bool) → j ≢ i → Writing none j b → Writing (some i) j b
taken-Writing i j false ne k = λ e. let same : j ≡ i = cc in ne same
taken-Writing i j true ne k = cc

pub given-Writing : (i j : ℕ) (b : Bool) → j ≢ i → Writing (some i) j b → Writing none j b
given-Writing i j false ne k = λ e. cc
given-Writing i j true ne k = let same : j ≡ i = cc in absurd (ne same)

pub set-Reading :
    (s : Sync) (readers : ℕ → Bool) (i j : ℕ) (v b : Bool)
    → j ≢ i
    → Reading s readers j b
    → Reading s (set readers i v) j b
set-Reading by_rwlock readers i j v b ne k = set_other readers i v j ne ∙ k
set-Reading by_rcu readers i j v b ne k = tt
