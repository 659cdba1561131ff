-- ===== src/SlabDemos/Ends.antt =====
-- The loops of slab3_maxsize and slab4_actualsize come to an end.
use native.Mathlib.Nat.{div-lt_iff_lt-mul}
use linux_kernel_programming.Base.{
  ℕ, zero, suc, ◌+◌, ◌-◌, map, ◌*◌, ◌/◌, ◌%◌, ◌≤◌, ◌<◌, ◌≡◌, ◌≢◌, refl, Bool, true, false, List, [],
  ◌∷◌, Option, none, some, arith, Bool-cases, dec_lt, inl, inr,
}
use linux_kernel_programming.Base.Words.{ℤ, u64_mod}
use linux_kernel_programming.Kernel.{enomem}
use linux_kernel_programming.Alloc.Heap.{Cmd, pure, Heap, ◌>>=◌}
use linux_kernel_programming.SlabDemos.Sizes.{
  Row, row_of, waste, test_maxallocsz, slab3_maxsize_init, test_actual, slab4_actualsize_init,
}
use linux_kernel_programming.SlabDemos.Cleanup.{kfree_fresh, suc_null}

-- The sizes that `kmalloc` gave, each one step above the last, before the first that it refused.
-- `rounds` counts down, as the fuel of the loop does.
abbrev pub Steps : (ℕ → ℕ → Bool) → ℕ → (rounds size : ℕ) → List ℕ → Type 0
Steps gives stepsz rounds size [] = gives rounds size ≡ false
Steps gives stepsz zero size (s ∷ rest) = ⊥
Steps gives stepsz (suc rounds) size (s ∷ rest) =
    (gives (suc rounds) size ≡ true) × (s ≡ size) × Steps gives stepsz rounds (size + stepsz) rest

-- A row of the table: the actual size, what it has over the size, and that in percent of the size,
-- rounded down
abbrev pub RowRight : (ℕ → ℕ) → Row → Type 0
RowRight ksize r =
    (r.actual_alloced ≡ ksize r.size2alloc)
    × (r.size2alloc ≢ 0)
    × (r.size2alloc + r.wastage ≡ r.actual_alloced)
    × (r.percent ≡ (r.actual_alloced - r.size2alloc) * 100 / r.size2alloc)

abbrev pub RowsRight : (ℕ → ℕ) → List Row → Type 0
RowsRight ksize [] = Unit {0}
RowsRight ksize (r ∷ rs) = RowRight ksize r × RowsRight ksize rs

-- The rows are right, and there is one for each size that was given.
abbrev pub Table : (ℕ → ℕ) → (ℕ → ℕ → Bool) → ℕ → (rounds size : ℕ) → List Row → Type 0
Table ksize gives stepsz rounds size rows =
    RowsRight ksize rows × Steps gives stepsz rounds size (map (λ (r : Row). r.size2alloc) rows)

-- The loop returns -ENOMEM, having given everything back, and what it has printed is right.
abbrev pub Over : {A : Type 0} → Heap → (A → Type 0) → Option ((ℤ × A) × Heap) → Type 0
Over h Right none = ⊥
Over h Right (some ((r, rows), h')) = (r ≡ enomem) × (h'.live ≡ h.live) × Right rows

abbrev fresh : Heap → Heap
fresh h = record h { next = suc h.next }

-- What a round puts in front of what the later ones print
Over-cons :
    {A : Type 0} (h : Heap) (c : Cmd (ℤ × List A)) (x : A) (Later Right : List A → Type 0)
    → ((rows : List A) → Later rows → Right (x ∷ rows))
    → (o : Option ((ℤ × List A) × Heap)) → c (fresh h) ≡ o
    → Over (fresh h) Later o
    → Over h Right ((c >>= λ rest. pure (rest.0, x ∷ rest.1)) (fresh h))
Over-cons h c x Later Right put none e over = absurd over
Over-cons h c x Later Right put (some ((r, rows), h')) e (error, back, right) =
    rw (e, ◌>>=◌) (error, back, put rows right)

module _ (gives : ℕ → ℕ → Bool) (stepsz limit : ℕ) (fits : limit + stepsz < u64_mod)
    (refuses : (r s : ℕ) → limit < s → gives r s ≡ false) where
  within : (r size : ℕ) → gives r size ≡ true → size ≤ limit
  within r size given = elim (dec_lt limit size) [
    | yes over ↦ let no = refuses r size over in cc
    | no under ↦ omega arith
  ]

  no_wrap : (r size : ℕ) → gives r size ≡ true → (size + stepsz) % u64_mod ≡ size + stepsz
  no_wrap r size given = let small = within r size given in omega arith

  size_step :
      (fuel size : ℕ) (h : Heap)
      → gives fuel size ≡ true
      → test_maxallocsz gives stepsz (suc fuel) size h
        ≡ (test_maxallocsz gives stepsz fuel (size + stepsz) >>= λ rest.
              pure (rest.0, size ∷ rest.1))
            (fresh h)
  unfolding test_maxallocsz
  size_step fuel size h given =
      rw (given, suc_null h.next, kfree_fresh h.next h.live, no_wrap fuel size given, ◌>>=◌) refl

  pub maxalloc_ends :
      (fuel size : ℕ) (h : Heap)
      → limit < size + fuel * stepsz
      → Over h (Steps gives stepsz fuel size) (test_maxallocsz gives stepsz (suc fuel) size h)
  unfolding test_maxallocsz
  maxalloc_ends zero size h far =
      let over = refuses zero size (omega arith) in rw (over, ◌>>=◌) (refl, refl, over)
  maxalloc_ends (suc fuel) size h far = elim (Bool-cases (gives (suc fuel) size)) [
    | inl given ↦
        let later = test_maxallocsz gives stepsz (suc fuel) (size + stepsz) in
        rw (size_step (suc fuel) size h given) (
          Over-cons h later size (Steps gives stepsz fuel (size + stepsz))
            (Steps gives stepsz (suc fuel) size) (λ rows right. (given, refl, right))
            (later (fresh h)) refl (maxalloc_ends fuel (size + stepsz) (fresh h) (omega arith)))
    | inr over ↦ rw (over, ◌>>=◌) (refl, refl, over)
  ]

  module _ (ksize : ℕ → ℕ)
      (covers : (s : ℕ) → s ≤ limit → (s ≤ ksize s) × (ksize s * 100 < u64_mod)) where
    actual_step :
        (fuel size : ℕ) (h : Heap)
        → gives fuel size ≡ true
        → test_actual ksize gives stepsz (suc fuel) size h
          ≡ (test_actual ksize gives stepsz fuel (size + stepsz) >>= λ rest.
                pure (rest.0, row_of ksize size ∷ rest.1))
              (fresh h)
    unfolding test_actual
    actual_step fuel size h given =
        rw (given, suc_null h.next, kfree_fresh h.next h.live, no_wrap fuel size given, ◌>>=◌) refl

    waste_lem : (s : ℕ) → s ≤ limit → waste (ksize s) s ≡ ksize s - s
    waste_lem s small = let (least, most) = covers s small in omega arith

    row_right : (s : ℕ) → s ≤ limit → s ≢ 0 → RowRight ksize (row_of ksize s)
    row_right s small some_size =
        let (least, most) = covers s small in
        let w = waste_lem s small in
        let no_wrap : (ksize s - s) * 100 % u64_mod ≡ (ksize s - s) * 100 = omega arith in
        (refl, some_size, omega (arith, w), rw (w, no_wrap) refl)

    pub actual_ends :
        (fuel size : ℕ) (h : Heap)
        → limit < size + fuel * stepsz
        → size ≢ 0
        → Over h
            (Table ksize gives stepsz fuel size)
            (test_actual ksize gives stepsz (suc fuel) size h)
    unfolding test_actual
    actual_ends zero size h far some_size =
        let over = refuses zero size (omega arith) in rw (over, ◌>>=◌) (refl, refl, (tt, over))
    actual_ends (suc fuel) size h far some_size = elim (Bool-cases (gives (suc fuel) size)) [
      | inl given ↦
          let later = test_actual ksize gives stepsz (suc fuel) (size + stepsz) in
          rw (actual_step (suc fuel) size h given) (
            Over-cons h later (row_of ksize size) (Table ksize gives stepsz fuel (size + stepsz))
              (Table ksize gives stepsz (suc fuel) size)
              (λ rows (right, sizes). (
                (row_right size (within (suc fuel) size given) some_size, right),
                (given, refl, sizes),
              ))
              (later (fresh h)) refl
              (actual_ends fuel (size + stepsz) (fresh h) (omega arith)
                (λ e. some_size (omega arith))))
      | inr over ↦ rw (over, ◌>>=◌) (refl, refl, (tt, over))
    ]

-- With a positive step, a `kmalloc` that refuses all sizes above a limit, step and limit together
-- below 2^64, and a `ksize` that is at least the size asked for and a hundred times below 2^64, up
-- to the limit: with fuel for `limit / stepsz + 2` rounds, or more, both inits return -ENOMEM and
-- leave exactly the memory that was live before. What they print is for exactly the sizes that
-- `kmalloc` gave, one step apart, slab3 from 0 on and slab4 from 100 on, up to the first that it
-- refused. In each row of slab4 the actual size is that of `ksize`, the size is not 0, the waste is
-- what the actual size has over it, and the percentage is that of the waste to the size, rounded
-- down.
pub size_inits_end :
    (gives : ℕ → ℕ → Bool) (ksize : ℕ → ℕ) (stepsz limit fuel : ℕ) (h : Heap)
    → 0 < stepsz
    → limit + stepsz < u64_mod
    → ((r s : ℕ) → limit < s → gives r s ≡ false)
    → ((s : ℕ) → s ≤ limit → (s ≤ ksize s) × (ksize s * 100 < u64_mod))
    → limit / stepsz < fuel
    → Over h (Steps gives stepsz fuel 0) (slab3_maxsize_init gives stepsz (suc fuel) h)
      × Over h
          (Table ksize gives stepsz fuel 100)
          (slab4_actualsize_init ksize gives stepsz (suc fuel) h)
size_inits_end gives ksize stepsz limit fuel h step fits refuses covers enough =
    let far : limit < fuel * stepsz = (div-lt_iff_lt-mul step).0 enough in
    (
      maxalloc_ends gives stepsz limit fits refuses fuel 0 h (omega arith),
      actual_ends gives stepsz limit fits refuses ksize covers fuel 100 h (omega arith)
          (λ e. omega (arith, e)),
    )
