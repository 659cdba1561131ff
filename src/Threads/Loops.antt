-- ===== src/Threads/Loops.antt =====
-- The loops over all threads, for a round that prints a row and leaves all else as it was.
use mathlib.Core.List.{append_assoc, append-nil}
use native.Mathlib.Nat.{mod-add-mod, add_assoc}
use linux_kernel_programming.Base.{
  ℕ, suc, ◌+◌, ◌≤◌, ◌<◌, ◌≡◌, refl, List, [], ◌∷◌, ◌++◌, map, length, false, arith,
}
use linux_kernel_programming.Base.Words.{add32, u32_mod}
use linux_kernel_programming.Threads.Format.{Text}
use linux_kernel_programming.Threads.Defs.{
  Task, Process, Line, row, ended, ◌>>=◌, World, Cmd, for_each_thread, for_each_process_thread,
}
use linux_kernel_programming.Threads.Visits.{after_row}

-- The names fit in `comm`, an array of 16 bytes with a NUL at the end.
abbrev pub NamesFit : List Task → Type 0
NamesFit [] = Unit {0}
NamesFit (t ∷ ts) = (length t.comm ≤ 15) × NamesFit ts

abbrev pub threads : Process → List Task
threads g = g.leader ∷ g.others

abbrev pub AllNamesFit : List Process → Type 0
AllNamesFit [] = Unit {0}
AllNamesFit (g ∷ gs) = NamesFit (threads g) × AllNamesFit gs

-- No task's lock is held.
abbrev pub Unlocked : World → Type 0
Unlocked w = (a : ℕ) → w.held a ≡ false

unfoldable pub thread_count : List Process → ℕ
thread_count [] = 0
thread_count (g ∷ gs) = length (threads g) + thread_count gs

-- What the loops print: a row for each thread of each process, in order
unfoldable pub all_rows : (Process → Task → Text) → List Process → List Line
all_rows text [] = []
all_rows text (g ∷ gs) = map (λ t. row (text g t)) (threads g) ++ all_rows text gs

abbrev pub after_rows : List Line → World → World
after_rows rows w = record w { log = w.log ++ rows }

add32_add : (a b c : ℕ) → add32 (add32 a b) c ≡ add32 a (b + c)
add32_add a b c = rw (mod-add-mod (a + b) u32_mod c, add_assoc a b c) refl

pub add32-suc : (a b : ℕ) → add32 (add32 a 1) b ≡ add32 a (suc b)
add32-suc a b = omega arith

pub add32_zero : (a : ℕ) → a < u32_mod → add32 a 0 ≡ a
add32_zero a small = omega arith

pub add32-small : (a b : ℕ) → add32 a b < u32_mod
add32-small a b = omega arith

module _ (body : ℕ → Process → Task → Cmd ℕ) (text : Process → Task → Text)
    (body_lem : (total : ℕ) (g : Process) (t : Task) (w : World)
      → length t.comm ≤ 15
      → w.held t.address ≡ false
      → body total g t w ≡ ended (add32 total 1) (after_row (text g t) w)) where
  for_each_thread_lem :
      (g : Process) (ts : List Task) (total : ℕ) (w : World)
      → total < u32_mod
      → NamesFit ts
      → Unlocked w
      → for_each_thread body g ts total w
        ≡ ended (add32 total (length ts)) (after_rows (map (λ t. row (text g t)) ts) w)
  unfolding for_each_thread
  for_each_thread_lem g [] total w small fit free =
      rw (add32_zero total small, append-nil w.log) refl
  for_each_thread_lem g (t ∷ ts) total w small fit free =
      rw
        (
          body_lem total g t w fit.0 (free t.address),
          for_each_thread_lem g ts (add32 total 1) (after_row (text g t) w) (add32-small total 1)
              fit.1 free,
          add32-suc total (length ts),
          append_assoc w.log (row (text g t) ∷ []) (map (λ u. row (text g u)) ts),
          ◌>>=◌,
        )
        refl

  pub for_each_process_thread_lem :
      (gs : List Process) (total : ℕ) (w : World)
      → total < u32_mod
      → AllNamesFit gs
      → Unlocked w
      → for_each_process_thread body gs total w
        ≡ ended (add32 total (thread_count gs)) (after_rows (all_rows text gs) w)
  unfolding for_each_process_thread thread_count all_rows
  for_each_process_thread_lem [] total w small fit free =
      rw (add32_zero total small, append-nil w.log) refl
  for_each_process_thread_lem (g ∷ gs) total w small fit free =
      let rows = map (λ t. row (text g t)) (threads g) in
      rw
        (
          for_each_thread_lem g (threads g) total w small fit.0 free,
          for_each_process_thread_lem gs (add32 total (length (threads g))) (after_rows rows w)
              (add32-small total (length (threads g))) fit.1 free,
          add32_add total (length (threads g)) (thread_count gs),
          append_assoc w.log rows (all_rows text gs),
          ◌>>=◌,
        )
        refl
