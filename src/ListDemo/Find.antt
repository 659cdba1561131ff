-- ===== src/ListDemo/Find.antt =====
-- `findinlist_letter` and `showlist` against the contents of the list.
use linux_kernel_programming.Base.{
  ℕ, ◌+◌, ◌≡◌, ◌≢◌, refl, ap, sym, ◌∙◌, List, [], ◌∷◌, ◌++◌, map, Option, some, ◌==◌, if◌then◌else◌,
  Bool, true, false, ◌||◌, arith, Bool-cases, inl, inr,
}
use linux_kernel_programming.ListDemo.Defs.{
  Node, Msg, row, title, found, searching, not_found, Demo, Search, search_step, showlist, show_row,
  findinlist_letter, for_each, memory, print, search_memory, finish_search, list_empty,
}
use linux_kernel_programming.ListDemo.Add.{
  AllLive, entries, contents, IsSound, some_of_live, entries-cons,
}
use mathlib.Core.List.{append_assoc, append-nil}

-- The matches among the nodes from index `i` on, each with its index.
unfoldable pub matches : ℕ → ℕ → List Node → List Msg
matches c i [] = []
matches c i (n ∷ ns) =
    let more = matches c (i + 1) ns in if n.letter == c then found c i n ∷ more else more

-- Is the letter among the nodes?
unfoldable pub has_letter : ℕ → List Node → Bool
has_letter c [] = false
has_letter c (n ∷ ns) = n.letter == c || has_letter c ns

-- One round of `list_for_each_entry`.
pub for_each-cons {ℓ} :
    {S : Type ℓ} (mem : S → ℕ → Option Node) (body : ℕ → Node → S → S) (p : ℕ) (ps : List ℕ) (s : S)
    {n m : Node}
    → mem s p ≡ some n
    → mem (body p n s) p ≡ some m
    → for_each mem body (p ∷ ps) s ≡ for_each mem body ps (body p n s)
unfolding for_each
for_each-cons mem body p ps s e f = rw (e, f, for_each)

show_each :
    (ps : List ℕ) (d : Demo)
    → AllLive d.nodes ps
    → for_each memory show_row ps d
      ≡ some (record d { log = d.log ++ map row (entries d.nodes ps) })
unfolding entries for_each
show_each [] d h = ap (λ l. some (record d { log = l })) (sym (append-nil d.log))
show_each (p ∷ ps) d h =
    let (n, e) = some_of_live d.nodes p h.0 in
    for_each-cons memory show_row p ps d e e
    ∙ show_each ps (print (row n) d) h.1
    ∙ ap (λ l. some (record d { log = l }))
        (append_assoc d.log (row n ∷ []) (map row (entries d.nodes ps))
          ∙ ap (λ t. d.log ++ map row t) (sym (entries-cons d.nodes p ps e)))

or_true : (b : Bool) → (b || true) ≡ true
or_true b = ground arith

search_each :
    (c : ℕ) (ps : List ℕ) (s : Search)
    → AllLive s.demo.nodes ps
    → (k : ℕ) × (for_each search_memory (search_step c) ps s
        ≡ some (record {
          demo = record s.demo { log = s.demo.log ++ matches c s.i (entries s.demo.nodes ps) };
          i = k;
          found_any = s.found_any || has_letter c (entries s.demo.nodes ps);
        }))
unfolding matches has_letter entries for_each
search_each c [] s h = (s.i, ground (arith, append-nil s.demo.log))
search_each c (p ∷ ps) s h =
    let (n, e) = some_of_live s.demo.nodes p h.0 in
    elim (Bool-cases (n.letter == c)) [
      | inl hit ↦
          let s' : Search = record {
            demo = print (found c s.i n) s.demo;
            i = s.i + 1;
            found_any = true;
          } in
          let (k, rest) = search_each c ps s' h.1 in
          (
            k,
            for_each-cons search_memory (search_step c) p ps s {m = n} e (rw hit e)
                ∙ ap (for_each search_memory (search_step c) ps) (rw hit)
                ∙ rest
                ∙ rw (
                  entries-cons s.demo.nodes p ps e,
                  matches,
                  has_letter,
                  hit,
                  append_assoc,
                  or_true,
                ),
          )
      | inr miss ↦
          let (k, rest) = search_each c ps (record s { i = s.i + 1 }) h.1 in
          (
            k,
            for_each-cons search_memory (search_step c) p ps s {m = n} e (rw miss e)
                ∙ ap (for_each search_memory (search_step c) ps) (rw miss)
                ∙ rest
                ∙ rw (entries-cons s.demo.nodes p ps e, matches, has_letter, miss),
          )
    ]

matches-nil : (c i : ℕ) (ns : List Node) → has_letter c ns ≡ false → matches c i ns ≡ []
unfolding matches has_letter
matches-nil c i [] h = refl
matches-nil c i (n ∷ ns) h = ground (arith, matches-nil c (i + 1) ns)

nonempty : (d : Demo) → contents d ≢ [] → list_empty d.head_node ≡ false
unfolding entries
nonempty d h = by_head d.head_node h
  where
    by_head : (ps : List ℕ) → entries d.nodes ps ≢ [] → list_empty ps ≡ false
    by_head [] ne = absurd (ne refl)
    by_head (p ∷ ps) ne = refl

-- On a sound list `showlist` logs the title and a row for each node in order, and changes nothing
-- else; on an empty list it logs nothing.
pub showlist_rows :
    (d : Demo) (n : Node) (ns : List Node)
    → IsSound d
    → contents d ≡ n ∷ ns
    → showlist d ≡ some (record d { log = (d.log ++ title ∷ []) ++ map row (n ∷ ns) })
unfolding showlist
showlist_rows d n ns h e = rw (nonempty d (λ none_left. cc (sym none_left ∙ e))) (
    show_each d.head_node (print title d) h
    ∙ ap (λ t. some (record d { log = (d.log ++ title ∷ []) ++ map row t })) e)

-- On a sound list that is not empty `findinlist_letter` reads no freed memory, logs each node with
-- the letter, with its index from 0 and in order, and "Didn't find" exactly if there is none.
pub findinlist_letter_finds :
    (c : ℕ) (d : Demo)
    → IsSound d
    → contents d ≢ []
    → findinlist_letter c d
      ≡ some (record d {
        log =
            (d.log ++ searching c ∷ [])
            ++ (if has_letter c (contents d) then matches c 0 (contents d) else not_found c ∷ []);
      })
unfolding findinlist_letter
findinlist_letter_finds c d h ne = rw (nonempty d ne) (
    ap (finish_search c)
      (search_each c d.head_node (record { demo = print (searching c) d; i = 0; found_any = false })
        h).1
    ∙ elim (Bool-cases (has_letter c (contents d))) [
      | inl hit ↦ rw hit
      | inr miss ↦ rw (miss, matches-nil c 0 (contents d) miss, append-nil)
    ])
