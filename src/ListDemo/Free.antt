-- ===== src/ListDemo/Free.antt =====
-- `freelist` reads `curr->list.next` after it has freed `curr`.
use linux_kernel_programming.Base.{
  ℕ, ◌≡◌, ◌↔◌, refl, sym, ◌∙◌, Option-cases, inl, inr, true, false, List, [], ◌∷◌, Option, none,
  some, ==_refl, if◌then◌else◌,
}
use linux_kernel_programming.ListDemo.Defs.{
  Demo, freelist, for_each, memory, kfree, print, freeing, list_empty,
}

free_faults : (d : Demo) (p : ℕ) (ps : List ℕ) → for_each memory kfree (p ∷ ps) d ≡ none
unfolding for_each
free_faults d p ps = elim (Option-cases (d.nodes p)) [
  | inl gone ↦ rw (gone, for_each)
  | inr (n, e) ↦ rw (e, for_each) (rw ==_refl)
]

-- `freelist` reads freed memory on every list that is not empty: it walks by
-- `list_for_each_entry`, which goes on through the node that its body has just freed. Only on an
-- empty list it ends, and changes nothing.
pub freelist_faults_iff :
    (d : Demo)
    → ((freelist d ≡ none) ↔ (list_empty d.head_node ≡ false))
      × ((freelist d ≡ some d) ↔ (list_empty d.head_node ≡ true))
unfolding freelist
freelist_faults_iff d = by_head d.head_node
  where
    by_head :
        (ps : List ℕ)
        → let r : Option Demo =
            if list_empty ps then some d else for_each memory kfree ps (print freeing d) in
          ((r ≡ none) ↔ (list_empty ps ≡ false)) × ((r ≡ some d) ↔ (list_empty ps ≡ true))
    by_head [] = ((λ e. cc, λ e. cc), (λ e. refl, λ e. refl))
    by_head (p ∷ ps) =
        let f = free_faults (print freeing d) p ps in
        ((λ e. refl, λ e. f), (λ e. cc (sym f ∙ e), λ e. cc))
