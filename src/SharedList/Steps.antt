-- ===== src/SharedList/Steps.antt =====
-- Every step keeps the invariant.
use linux_kernel_programming.Base.{
  ℕ, ◌≡◌, ◌≢◌, inl, inr, refl, sym, ap, ◌∙◌, List, [], ◌∷◌, ◌++◌, none, some, Bool, length,
  Option-cases, ==_refl,
}
use mathlib.Core.Path.{subst}
use linux_kernel_programming.ListDemo.{Node, write}
use linux_kernel_programming.Rdwr.{set}
use linux_kernel_programming.Rdwr.Threads.{set_same, set_other, set_all}
use linux_kernel_programming.SharedList.Code.{Sys, entry, go_on, row_then, walk_then}
use linux_kernel_programming.SharedList.Places.{
  Sync, by_rwlock, by_rcu, Pos, r_walk, r_unlock, w_alloc, w_lock, w_begin, w_end, w_unlock,
  code_of, walked, view, Knows, Inv, Writing, Apart,
}
use linux_kernel_programming.SharedList.Frames.{
  alloc-Rows, alloc-live, alloc-Own, add-Rows, entry_add, row-Begins, taken-Writing, given-Writing,
  set-Reading,
}

pub free-Apart : (s : Sync) (readers : ℕ → Bool) → Apart s none readers
free-Apart by_rwlock readers = λ i j e. cc
free-Apart by_rcu readers = tt

module _ {s : Sync} {counts : ℕ → ℕ} {p : ℕ → Pos} {u : Sys} (inv : Inv s counts p u) (i : ℕ) where
  abbrev pub Kept : Sys → Type 0
  Kept v = (p' : ℕ → Pos) × Inv s counts p' v

  rebuild :
      (q : Pos) (v : Sys)
      → v.threads ≡ u.threads
      → ((j : ℕ) → j ≢ i → Knows s v j (view (p j)))
      → Knows s v i (view q)
      → ((n a : ℕ) → entry n v.head_node ≡ some a → v.nodes a ≢ none)
      → Apart s v.writer v.readers
      → Kept (go_on i (code_of s (counts i) q) v)
  rebuild q v threads others this linked apart = (
    set p i q,
    record {
      codes =
          set_all (λ k r. set v.threads i (code_of s (counts i) q) k ≡ code_of s (counts k) r) p i q
            (set_same v.threads i (code_of s (counts i) q))
            (λ k ne.
              set_other v.threads i (code_of s (counts i) q) k ne
              ∙ ap (λ f. f k) threads
              ∙ inv.codes k);
      knows = set_all (λ k r. Knows s v k (view r)) p i q this others;
      linked = linked;
      apart = apart;
    },
  )

  -- Nothing but the thread's place changes.
  pub moves : (q : Pos) → Knows s u i (view q) → Kept (go_on i (code_of s (counts i) q) u)
  moves q this = rebuild q u refl (λ j ne. inv.knows j) this inv.linked inv.apart

  pub allocates :
      (a : ℕ) (n : Node) (todo : List Node)
      → Knows s u i (view (w_alloc (n ∷ todo)))
      → u.nodes a ≡ none
      → Kept (
          go_on i
            (code_of s (counts i) (w_lock a todo))
            (record u { nodes = write u.nodes a (some n) }))
  allocates a n todo (rows, own, w, r) free =
      rebuild (w_lock a todo) (record u { nodes = write u.nodes a (some n) }) refl
        (λ j ne.
          let (rows, own, w, r) = inv.knows j in
          (
            alloc-Rows u.nodes a n u.head_node free inv.linked (view (p j)).rows rows,
            alloc-Own u.nodes a n free (view (p j)).own own,
            w,
            r,
          ))
        (tt, (λ e. cc (e, ==_refl a)), w, r)
        (λ k q e. alloc-live u.nodes a n free q (inv.linked k q e)) inv.apart

  pub takes :
      (a : ℕ) (todo : List Node)
      → Knows s u i (view (w_lock a todo))
      → u.writer ≡ none
      → Apart s (some i) u.readers
      → Kept (go_on i (code_of s (counts i) (w_begin a todo)) (record u { writer = some i }))
  takes a todo (rows, own, w, r) free alone =
      rebuild (w_begin a todo) (record u { writer = some i }) refl
        (λ j ne.
          let (rows, own, w, r) = inv.knows j in
          (
            rows,
            own,
            taken-Writing i j (view (p j)).writing ne
                (subst (λ o. Writing o j (view (p j)).writing) free w),
            r,
          ))
        (rows, own, refl, r) inv.linked alone

  pub gives :
      (todo : List Node)
      → Knows s u i (view (w_unlock todo))
      → Kept (go_on i (code_of s (counts i) (w_alloc todo)) (record u { writer = none }))
  gives todo (rows, own, w, r) =
      rebuild (w_alloc todo) (record u { writer = none }) refl
        (λ j ne.
          let (rows', own', w', r') = inv.knows j in
          (
            rows',
            own',
            given-Writing i j (view (p j)).writing ne
                (subst (λ o. Writing o j (view (p j)).writing) w w'),
            r',
          ))
        (tt, tt, (λ e. cc), r) inv.linked (free-Apart s u.readers)

  pub adds_node :
      (a : ℕ) (todo : List Node)
      → Knows s u i (view (w_end a todo))
      → Kept (
          go_on i
            (code_of s (counts i) (w_unlock todo))
            (record u { head_node = u.head_node ++ a ∷ [] }))
  adds_node a todo (rows, live, w, r) =
      rebuild (w_unlock todo) (record u { head_node = u.head_node ++ a ∷ [] }) refl
        (λ j ne.
          let (rows, own, w, r) = inv.knows j in
          (add-Rows u.nodes u.head_node a (view (p j)).rows rows, own, w, r))
        (tt, tt, w, r)
        (λ k q e. elim (entry_add u.head_node a k q e) [
          | inl old ↦ inv.linked k q old
          | inr new ↦ subst (λ q. u.nodes q ≢ none) (sym new) live
        ])
        inv.apart

  -- A reader takes or gives back the read-write lock.
  pub reads_on :
      (q : Pos) (v : Bool)
      → Knows s (record u { readers = set u.readers i v }) i (view q)
      → Apart s u.writer (set u.readers i v)
      → Kept (go_on i (code_of s (counts i) q) (record u { readers = set u.readers i v }))
  reads_on q v this apart =
      rebuild q (record u { readers = set u.readers i v }) refl
        (λ j ne.
          let (rows, own, w, r) = inv.knows j in
          (rows, own, w, set-Reading s u.readers i j v (view (p j)).reading ne r))
        this inv.linked apart

  pub walks :
      (rows : List Node)
      → Knows s u i (view (r_walk rows))
      → Kept (walk_then i (entry (length rows) u.head_node) rows (walked s (counts i)) u)
  walks rows (begins, own, w, r) = elim (Option-cases (entry (length rows) u.head_node)) [
    | inl e ↦
        subst (λ o. Kept (walk_then i o rows (walked s (counts i)) u)) (sym e)
          (moves (r_unlock rows) (begins, own, w, r))
    | inr (a, e) ↦
        subst (λ o. Kept (walk_then i o rows (walked s (counts i)) u)) (sym e)
          (elim (Option-cases (u.nodes a)) [
            | inl gone ↦ absurd (inv.linked (length rows) a e gone)
            | inr (n, m) ↦
                subst (λ o. Kept (row_then i o rows (walked s (counts i)) u)) (sym m)
                  (moves (r_walk (rows ++ n ∷ []))
                    (row-Begins u.nodes rows u.head_node a n begins e m, own, w, r))
          ])
  ]
