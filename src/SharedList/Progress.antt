-- ===== src/SharedList/Progress.antt =====
-- Nobody waits for ever: while a method has not returned, some thread can take a step.
use linux_kernel_programming.Base.{
  ℕ, ◌≡◌, ◌∙◌, sym, inl, inr, [], ◌∷◌, none, true, false, Option-cases, Bool-cases, refl, ltb,
  if◌then◌else◌,
}
use mathlib.Core.Path.{subst}
use linux_kernel_programming.SharedList.Code.{Code, Sys, Call, returned, Enabled, Reach, start}
use linux_kernel_programming.SharedList.Places.{
  Sync, by_rwlock, by_rcu, Pos, r_empty, r_lock, r_walk, r_unlock, r_done, w_alloc, w_lock, w_begin,
  w_end, w_unlock, code_of, adds, view, Knows, Inv, method, Writing,
}
use linux_kernel_programming.SharedList.Walks.{
  Reach-Inv, count_of, first, first_code, first_lem, idle-Reading,
}
use linux_kernel_programming.SharedList.Steps.{free-Apart}

abbrev pub HasReturned : Code → Type 0
HasReturned (returned count rows) = Unit {0}
HasReturned _ = ⊥

-- No thread can take a step, even where `kzalloc` may fail.
abbrev pub AllStuck : Sys → Type 0
AllStuck u = (i : ℕ) → ¬ Enabled u none (u.threads i)

writing_moves :
    (s : Sync) (count : ℕ) (q : Pos) (u : Sys)
    → (view q).writing ≡ true
    → Enabled u none (code_of s count q)
writing_moves s count (w_begin p todo) u e = tt
writing_moves s count (w_end p todo) u e = tt
writing_moves by_rwlock count (w_unlock todo) u e = tt
writing_moves by_rcu count (w_unlock todo) u e = tt
writing_moves s count q u e = cc

reading_moves :
    (count : ℕ) (q : Pos) (u : Sys)
    → (view q).reading ≡ true
    → Enabled u none (code_of by_rwlock count q)
reading_moves count (r_walk rows) u e = tt
reading_moves count (r_unlock rows) u e = tt
reading_moves count q u e = cc

-- Nobody has the read-write lock to read.
abbrev NoReader : Sync → Sys → Type 0
NoReader by_rwlock u = (j : ℕ) → u.readers j ≡ false
NoReader by_rcu u = Unit {0}

-- With both locks free, whoever is stuck has returned.
stuck_at :
    (s : Sync) (count : ℕ) (q : Pos) (u : Sys)
    → u.writer ≡ none
    → NoReader s u
    → ¬ Enabled u none (code_of s count q)
    → HasReturned (code_of s count q)
unfolding adds
stuck_at s count r_empty u free quiet stuck = absurd (stuck tt)
stuck_at by_rwlock count r_lock u free quiet stuck = absurd (stuck free)
stuck_at by_rcu count r_lock u free quiet stuck = absurd (stuck tt)
stuck_at s count (r_walk rows) u free quiet stuck = absurd (stuck tt)
stuck_at by_rwlock count (r_unlock rows) u free quiet stuck = absurd (stuck tt)
stuck_at by_rcu count (r_unlock rows) u free quiet stuck = absurd (stuck tt)
stuck_at s count (r_done rows) u free quiet stuck = tt
stuck_at s count (w_alloc []) u free quiet stuck = tt
stuck_at s count (w_alloc (n ∷ ns)) u free quiet stuck = absurd (stuck tt)
stuck_at by_rwlock count (w_lock p todo) u free quiet stuck = absurd (stuck (free, quiet))
stuck_at by_rcu count (w_lock p todo) u free quiet stuck = absurd (stuck free)
stuck_at s count (w_begin p todo) u free quiet stuck = absurd (stuck tt)
stuck_at s count (w_end p todo) u free quiet stuck = absurd (stuck tt)
stuck_at by_rwlock count (w_unlock todo) u free quiet stuck = absurd (stuck tt)
stuck_at by_rcu count (w_unlock todo) u free quiet stuck = absurd (stuck tt)

module _ {s : Sync} {counts : ℕ → ℕ} {p : ℕ → Pos} {u : Sys} (inv : Inv s counts p u)
    (stuck : AllStuck u) where
  stuck_place : (j : ℕ) → ¬ Enabled u none (code_of s (counts j) (p j))
  stuck_place j can = stuck j (subst (Enabled u none) (sym (inv.codes j)) can)

  -- The thread that holds the writers' lock could go on.
  no_writer : u.writer ≡ none
  no_writer = elim (Option-cases u.writer) [
    | inl free ↦ free
    | inr (j, e) ↦ elim (Bool-cases (view (p j)).writing) [
      | inl writes ↦ absurd (stuck_place j (writing_moves s (counts j) (p j) u writes))
      | inr idle ↦ absurd (subst (Writing u.writer j) idle (inv.knows j).2 e)
    ]
  ]

stuck_quiet :
    (s : Sync) {counts : ℕ → ℕ} {p : ℕ → Pos} {u : Sys}
    → Inv s counts p u
    → AllStuck u
    → NoReader s u
stuck_quiet by_rwlock {counts} {p} {u} inv stuck = λ j. elim (Bool-cases (view (p j)).reading) [
  | inl reads ↦ absurd (stuck_place inv stuck j (reading_moves (counts j) (p j) u reads))
  | inr idle ↦ (inv.knows j).3 ∙ idle
]
stuck_quiet by_rcu {counts} {p} {u} inv stuck = tt

-- The calls of threads 0 to n - 1, with no other threads
abbrev pub methods : Sync → ℕ → (ℕ → Call) → ℕ → Code
methods s n calls i = if ltb i n then method s (calls i) else returned (count_of (calls i)) []

abbrev place : ℕ → (ℕ → Call) → ℕ → Pos
place n calls i = if ltb i n then first (calls i) else r_done []

methods_code :
    (s : Sync) (n : ℕ) (calls : ℕ → Call) (i : ℕ)
    → methods s n calls i ≡ code_of s (count_of (calls i)) (place n calls i)
methods_code s n calls i = elim (Bool-cases (ltb i n)) [
  | inl in_use ↦ rw in_use (first_code s (calls i))
  | inr unused ↦ rw unused refl
]

methods_know :
    (s : Sync) (n : ℕ) (calls : ℕ → Call) (threads : ℕ → Code) (i : ℕ)
    → Knows s (start threads) i (view (place n calls i))
methods_know s n calls threads i = elim (Bool-cases (ltb i n)) [
  | inl in_use ↦ rw in_use (first_lem s (calls i) threads i)
  | inr unused ↦ rw unused (([], refl), tt, (λ e. cc), idle-Reading s i)
]

methods-Inv :
    (s : Sync) (n : ℕ) (calls : ℕ → Call)
    → Inv s (λ i. count_of (calls i)) (place n calls) (start (methods s n calls))
methods-Inv s n calls = record {
  codes = methods_code s n calls;
  knows = methods_know s n calls (methods s n calls);
  linked = λ k q e. cc;
  apart = free-Apart s (λ i. false);
}

-- In both drivers, with any number of threads in the read and the write method, in any interleaving
-- of their steps, there is no deadlock: a state in which no thread can take a step, even where
-- `kzalloc` may fail, is one in which all of them have returned.
pub AllStuck-returned :
    (s : Sync) (n : ℕ) (calls : ℕ → Call) (u : Sys)
    → Reach (start (methods s n calls)) u
    → AllStuck u
    → (i : ℕ) → HasReturned (u.threads i)
AllStuck-returned s n calls u reached stuck i =
    let (p, inv) = Reach-Inv s (place n calls, methods-Inv s n calls) reached in
    subst HasReturned (sym (inv.codes i)) (
      stuck_at s (count_of (calls i)) (p i) u (no_writer inv stuck) (stuck_quiet s inv stuck)
        (stuck_place inv stuck i))
