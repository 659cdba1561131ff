-- ===== src/ListDemo/Add.antt =====
-- The nodes of the list, and what `add2tail` does to them.
use linux_kernel_programming.Base.{
  ℕ, ◌≡◌, ◌≢◌, refl, ap, sym, Option-cases, inl, inr, ◌∙◌, List, [], ◌∷◌, ◌++◌, none, some, arith,
  ==-eq-false, ==_refl,
}
use mathlib.Core.Path.{ap₂}
use linux_kernel_programming.Base.Words.{pos}
use linux_kernel_programming.ListDemo.Defs.{Node, Memory, Demo, write, add2tail}

-- Every address holds a node.
abbrev pub AllLive : Memory → List ℕ → Type 0
AllLive m [] = Unit
AllLive m (p ∷ ps) = (m p ≢ none) × AllLive m ps

unfoldable pub entries : Memory → List ℕ → List Node
entries m [] = []
entries m (p ∷ ps) = elim (m p) [ none ↦ entries m ps | some n ↦ n ∷ entries m ps ]

abbrev pub contents : Demo → List Node
contents d = entries d.nodes d.head_node

-- The entries of the list are nodes in memory.
abbrev pub IsSound : Demo → Type 0
IsSound d = AllLive d.nodes d.head_node

pub some_of_live : (m : Memory) (p : ℕ) → m p ≢ none → (n : Node) × (m p ≡ some n)
some_of_live m p h = elim (Option-cases (m p)) [ inl e ↦ absurd (h e) | inr live ↦ live ]

pub entries-cons :
    (m : Memory) (p : ℕ) (ps : List ℕ) {n : Node}
    → m p ≡ some n
    → entries m (p ∷ ps) ≡ n ∷ entries m ps
unfolding entries
entries-cons m p ps e = rw (e, entries)

entries-append : (m : Memory) (ps qs : List ℕ) → entries m (ps ++ qs) ≡ entries m ps ++ entries m qs
unfolding entries
entries-append m [] qs = refl
entries-append m (p ∷ ps) qs = ground (arith, entries-append m ps qs)

AllLive-append :
    (m : Memory) (ps : List ℕ) (q : ℕ) → AllLive m ps → m q ≢ none → AllLive m (ps ++ q ∷ [])
AllLive-append m [] q h l = (l, tt)
AllLive-append m (p ∷ ps) q h l = (h.0, AllLive-append m ps q h.1 l)

-- A write to memory that is free leaves the nodes of a list alone.
entries-write :
    (m : Memory) (p : ℕ) (n : Node) (ps : List ℕ)
    → m p ≡ none
    → AllLive m ps
    → (entries (write m p (some n)) ps ≡ entries m ps) × AllLive (write m p (some n)) ps
unfolding entries
entries-write m p n [] f h = (refl, tt)
entries-write m p n (q ∷ ps) f h =
    let (same, live) = entries-write m p n ps f h.1 in
    let other = ==-eq-false q p (λ e. h.0 (ap m e ∙ f)) in
    let (n', e) = some_of_live m q h.0 in
    (
      entries-cons (write m p (some n)) q ps (rw other e)
          ∙ ap (λ t. n' ∷ t) same
          ∙ sym (entries-cons m q ps e),
      (rw other h.0, live),
    )

entries-new : (m : Memory) (p : ℕ) (n : Node) → entries (write m p (some n)) (p ∷ []) ≡ n ∷ []
unfolding entries
entries-new m p n = ground arith

-- If `kzalloc` gives memory that was free, `add2tail` returns 0 and the list has the new node at its
-- end, all others as before.
pub add2tail-ok :
    (p v1 v2 achar : ℕ) (d : Demo)
    → d.nodes p ≡ none
    → IsSound d
    → let (r, d') = add2tail (some p) v1 v2 achar d in
      (r ≡ pos 0)
      × (contents d' ≡ contents d ++ (record { ival1 = v1; ival2 = v2; letter = achar }) ∷ [])
      × IsSound d'
unfolding add2tail
add2tail-ok p v1 v2 achar d f h =
    let new : Node = record { ival1 = v1; ival2 = v2; letter = achar } in
    let m' = write d.nodes p (some new) in
    let (same, live) = entries-write d.nodes p new d.head_node f h in
    (
      refl,
      entries-append m' d.head_node (p ∷ []) ∙ ap₂ ◌++◌ same (entries-new d.nodes p new),
      AllLive-append m' d.head_node p live (rw ==_refl (λ e. cc)),
    )
