-- ===== src/Rdwr/Ends.antt =====
-- How the calls of ch13/rdwr_concurrent/2_demo_rdwr_rwlock/miscdrv_rdwr_rwlock.c end: the places of
-- the threads in their methods, and the measure that each step of a thread lowers.
use linux_kernel_programming.Base.{
  ℕ, suc, ◌+◌, ◌*◌, ◌≤◌, ◌<◌, ◌≡◌, refl, sym, ap, ◌∙◌, [], ◌∷◌, ◌++◌, length, Bool, true, false,
  ltb, if◌then◌else◌, ◌==◌, Bool-cases, inl, inr, arith, dec_lt, none, some,
}
use mathlib.Core.Path.{subst}
use linux_kernel_programming.Base.Words.{pos}
use linux_kernel_programming.Rdwr.Code.{
  GlobalData, Code, return_write, show_data, fields, unheld, Sys, set, Enabled, after, Reach, here,
  step, Call, reads, writes, start,
}
use linux_kernel_programming.Rdwr.Threads.{set_same, set_other, set_all}
use linux_kernel_programming.Rdwr.RwLock.{method, list_demo_rdwrlock_init}
use linux_kernel_programming.Rdwr.Positions.{
  fresh, Pos, r0, r1, r2, r3, r4, r5, r6, showing, w0, w1, w2, w3, w4, w5, w6, code_of, held, Local,
  Inv,
}
use linux_kernel_programming.Rdwr.Exclusion.{Reach-Inv, count_of, first, first_lem}
use linux_kernel_programming.Rdwr.Sums.{total, total_change, total-le}
use linux_kernel_programming.Rdwr.Progress.{HasReturned, AllStuck, Inv-returned}

-- How many steps a thread has left at most
abbrev left : Pos → ℕ
left r0 = 12
left r1 = 11
left (r2 stat) = 10
left (r3 stat) = 9
left (r4 stat x) = 8
left (r5 stat x y) = 7
left (r6 seen) = 6
left (showing seen fs shown) = length fs
left w0 = 6
left w1 = 5
left w2 = 4
left w3 = 3
left w4 = 2
left w5 = 1
left w6 = 0

-- After a step the thread is at a place with fewer steps left, and the others are where they were.
abbrev Moves : ℕ → ℕ → Pos → Sys → Sys → Type 0
Moves count i q u v =
    (q' : Pos) × (v.threads ≡ set u.threads i (code_of count q')) × (left q' < left q)

locked_or_not :
    (count : ℕ) (stat : ℕ) (i : ℕ) (u : Sys) (b : Bool)
    → (q' : Pos) × (set u.threads i (
          if b
          then code_of count (r6 (record { stat = stat; place = none }))
          else code_of count (r3 stat))
        ≡ set u.threads i (code_of count q'))
      × (left q' < 10)
locked_or_not count stat i u true = (r6 (record { stat = stat; place = none }), refl, omega arith)
locked_or_not count stat i u false = (r3 stat, refl, omega arith)

Moves-at :
    (count i : ℕ) (q : Pos) (u : Sys)
    → Enabled u (code_of count q)
    → Moves count i q u (after i (code_of count q) u)
unfolding after show_data
Moves-at count i r0 u ok = (r1, refl, omega arith)
Moves-at count i r1 u ok = (r2 u.gd.issue_in_l6, refl, omega arith)
Moves-at count i (r2 stat) u ok = locked_or_not count stat i u (u.gd.gps_lock == 0)
Moves-at count i (r3 stat) u ok = (r4 stat u.gd.lat, refl, omega arith)
Moves-at count i (r4 stat x) u ok = (r5 stat x u.gd.longit, refl, omega arith)
Moves-at count i (r5 stat x y) u ok =
    (r6 (record { stat = stat; place = some (x, y, u.gd.alt) }), refl, omega arith)
Moves-at count i (r6 seen) u ok = (showing seen fields [], refl, omega arith)
Moves-at count i (showing seen [] shown) u ok = absurd ok
Moves-at count i (showing seen (f ∷ fs) shown) u ok =
    (showing seen fs (shown ++ f u.gd ∷ []), refl, omega arith)
Moves-at count i w0 u ok = (w1, refl, omega arith)
Moves-at count i w1 u ok = (w2, refl, omega arith)
Moves-at count i w2 u ok = (w3, refl, omega arith)
Moves-at count i w3 u ok = (w4, refl, omega arith)
Moves-at count i w4 u ok = (w5, refl, omega arith)
Moves-at count i w5 u ok = (w6, refl, omega arith)
Moves-at count i w6 u ok = absurd ok

pub steps : {s u : Sys} → Reach s u → ℕ
steps here = 0
steps (step r i ok) = suc (steps r)

-- The threads' places in a state; the steps that they have left, together with those taken, are not
-- more than the bound, and only the first `n` threads have any.
record Places (n : ℕ) (counts : ℕ → ℕ) (u : Sys) (taken bound : ℕ) : Type 0 where
  place : ℕ → Pos
  codes : (j : ℕ) → u.threads j ≡ code_of (counts j) (place j)
  unused : (j : ℕ) → n ≤ j → left (place j) ≡ 0
  sum : taken + total n (λ j. left (place j)) ≤ bound

module _ {n : ℕ} {counts : ℕ → ℕ} {u : Sys} {taken bound : ℕ} (at : Places n counts u taken bound)
    (i : ℕ) (v : Sys) where
  moved : Moves (counts i) i (at.place i) u v → Places n counts v (suc taken) bound
  moved (q, code, fewer) =
      let f : ℕ → ℕ = λ j. left (at.place j) in
      let g : ℕ → ℕ = λ j. left (set at.place i q j) in
      let here : g i ≡ left q = ap left (set_same at.place i q) in
      let in_use : i < n = elim (dec_lt i n) [
        | yes inside ↦ inside
        | no outside ↦ let none_left = at.unused i (omega (arith, outside)) in absurd (omega arith)
      ] in
      let change : total n g + f i ≡ total n f + g i =
        total_change f g i (λ j ne. ap left (set_other at.place i q j ne)) n in_use in
      let before = at.sum in
      record {
        place = set at.place i q;
        codes = λ j.
            ap (λ t. t j) code
            ∙ set_all (λ k r. set u.threads i (code_of (counts i) q) k ≡ code_of (counts k) r)
                at.place i q (set_same u.threads i (code_of (counts i) q))
                (λ k ne. set_other u.threads i (code_of (counts i) q) k ne ∙ at.codes k) j;
        unused =
            λ j out. ap left (set_other at.place i q j (λ e. omega (arith, e))) ∙ at.unused j out;
        sum = omega arith;
      }

moves_on :
    {n : ℕ} {counts : ℕ → ℕ} {u : Sys} {taken bound : ℕ}
    → Places n counts u taken bound
    → (i : ℕ) → Enabled u (u.threads i)
    → Places n counts (after i (u.threads i) u) (suc taken) bound
moves_on {n} {counts} {u} at i ok = moved at i (after i (u.threads i) u) (
    subst (λ c. Moves (counts i) i (at.place i) u (after i c u)) (sym (at.codes i))
      (Moves-at (counts i) i (at.place i) u (subst (Enabled u) (at.codes i) ok)))

Reach-Places :
    {n : ℕ} {counts : ℕ → ℕ} {s u : Sys} {bound : ℕ}
    → Places n counts s 0 bound
    → (r : Reach s u) → Places n counts u (steps r) bound
unfolding steps
Reach-Places at here = at
Reach-Places at (step r i ok) = moves_on (Reach-Places at r) i ok

-- The calls of threads 0 to n - 1, with no other threads
abbrev pub methods : ℕ → (ℕ → Call) → ℕ → Code
methods n calls i = if ltb i n then method (calls i) else return_write (count_of (calls i))

abbrev begin_at : ℕ → (ℕ → Call) → ℕ → Pos
begin_at n calls i = if ltb i n then first (calls i) else w6

left-first : (c : Call) → left (first c) ≤ 12
left-first (reads count) = omega arith
left-first (writes count) = omega arith

module _ (n : ℕ) (calls : ℕ → Call) where
  begin_code : (i : ℕ) → methods n calls i ≡ code_of (count_of (calls i)) (begin_at n calls i)
  begin_code i = elim (Bool-cases (ltb i n)) [
    | inl in_use ↦ rw in_use ((first_lem (calls i)).0)
    | inr unused ↦ rw unused refl
  ]

  begin_unheld : (i : ℕ) → unheld ≡ held (begin_at n calls i)
  begin_unheld i = elim (Bool-cases (ltb i n)) [
    | inl in_use ↦ rw in_use ((first_lem (calls i)).1)
    | inr unused ↦ rw unused refl
  ]

  begin-Local : (i : ℕ) → Local (begin_at n calls i) fresh
  begin-Local i = elim (Bool-cases (ltb i n)) [
    | inl in_use ↦ rw in_use ((first_lem (calls i)).2)
    | inr unused ↦ rw unused tt
  ]

  begin_few : (i : ℕ) → left (begin_at n calls i) ≤ 12
  begin_few i = elim (Bool-cases (ltb i n)) [
    | inl in_use ↦ rw in_use (left-first (calls i))
    | inr unused ↦ rw unused (omega arith)
  ]

  begin_unused : (i : ℕ) → n ≤ i → left (begin_at n calls i) ≡ 0
  begin_unused i out = let unused : ltb i n ≡ false = ground arith in rw unused refl

  begin-Inv : Inv (λ i. count_of (calls i)) (begin_at n calls) (start fresh (methods n calls))
  begin-Inv = record {
    codes = begin_code;
    holds = begin_unheld;
    locals = begin-Local;
    alone = λ i j ne w. sym (begin_unheld j);
    good = λ _. inl refl;
    locked = refl;
  }

  begin-Places : Places n (λ i. count_of (calls i)) (start fresh (methods n calls)) 0 (n * 12)
  begin-Places = record {
    place = begin_at n calls;
    codes = begin_code;
    unused = begin_unused;
    sum = let few = total-le 12 (λ j. left (begin_at n calls j)) begin_few n in omega arith;
  }

  fresh_end :
      (u : Sys) (i : ℕ) (reached : Reach (start fresh (methods n calls)) u)
      → (steps reached ≤ n * 12) × ¬ (AllStuck u × ¬ HasReturned (u.threads i))
  fresh_end u i reached =
      let within = (Reach-Places begin-Places reached).sum in
      let (p, inv) = Reach-Inv (begin_at n calls, begin-Inv) reached in
      (omega arith, λ (stuck, waits). waits (Inv-returned inv stuck i))

-- Once init has succeeded, with `n` threads in the read and the write method, in any interleaving of
-- their steps: no run has more than `12 * n` steps, and no run comes to a state in which no thread
-- can take a step and some thread has not returned.
pub methods_end :
    {g : GlobalData} (r : ℕ) (n : ℕ) (calls : ℕ → Call) (u : Sys) (i : ℕ)
    → (list_demo_rdwrlock_init (pos r) true).gd ≡ some g
    → (reached : Reach (start g (methods n calls)) u)
    → (steps reached ≤ n * 12) × ¬ (AllStuck u × ¬ HasReturned (u.threads i))
methods_end {g} r n calls u i loaded reached =
    let same : fresh ≡ g = cc in
    subst
      (λ g.
        (reached : Reach (start g (methods n calls)) u)
        → (steps reached ≤ n * 12) × ¬ (AllStuck u × ¬ HasReturned (u.threads i)))
      same (fresh_end n calls u i) reached
