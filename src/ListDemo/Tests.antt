-- ===== src/ListDemo/Tests.antt =====
-- A run of the list operations, and their theorems at a concrete list.
use linux_kernel_programming.Base.{
  ℕ, Option, ◌*◌, length, ◌≡◌, ◌≢◌, ◌↔◌, refl, [], ◌∷◌, ◌++◌, none, some, true, false,
  if◌then◌else◌,
}
use linux_kernel_programming.ListDemo.Defs.{
  list_init, list_exit, for_each, Node, Demo, searching, not_found, write, list_empty, add2tail,
  showlist, findinlist_letter, freelist,
}
use linux_kernel_programming.ListDemo.Add.{IsSound, contents, entries}
use linux_kernel_programming.ListDemo.Find.{matches, has_letter, findinlist_letter_finds}
use linux_kernel_programming.ListDemo.Free.{freelist_faults_iff}

abbrev node_l : Node
node_l = record { ival1 = 1; ival2 = 2; letter = b'l' }

-- One node, at address 9.
abbrev demo : Demo
demo = record { nodes = write (λ p. none) 9 (some node_l); head_node = 9 ∷ []; log = [] }

demo-IsSound : IsSound demo
demo-IsSound = ((λ e. cc e), tt)

contents-demo : contents demo ≡ node_l ∷ []
unfolding entries
contents-demo = refl

demo_full : contents demo ≢ []
unfolding entries
demo_full e = cc

findinlist_letter_finds_example :
    findinlist_letter b'e' demo
    ≡ some (record demo {
      log =
          (searching b'e' ∷ [])
          ++ (if has_letter b'e' (contents demo)
              then matches b'e' 0 (contents demo)
              else not_found b'e' ∷ []);
    })
findinlist_letter_finds_example = findinlist_letter_finds b'e' demo demo-IsSound demo_full

freelist_faults_iff_example :
    ((freelist demo ≡ none) ↔ (list_empty (9 ∷ []) ≡ false))
    × ((freelist demo ≡ some demo) ↔ (list_empty (9 ∷ []) ≡ true))
freelist_faults_iff_example = freelist_faults_iff demo

-- A load and an unload with memory for all five nodes: init logs fifteen lines, and the exit faults.
abbrev mem_for_all : ℕ → Option ℕ
mem_for_all n = some (n * 64)

abbrev unloaded : Demo
unloaded = record { nodes = λ p. none; head_node = []; log = [] }

abbrev lines_and_exit : Option Demo → ℕ × Option Demo
lines_and_exit none = (0, none)
lines_and_exit (some d) = (length d.log, list_exit d)

load_unload : lines_and_exit (list_init mem_for_all (λ n. n) 75 unloaded) ≡ (15, none)
unfolding list_init list_exit add2tail showlist findinlist_letter freelist for_each
load_unload = refl
