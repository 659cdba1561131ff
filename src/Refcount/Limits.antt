-- ===== src/Refcount/Limits.antt =====
-- How far the counters can be trusted: 41 open files.
use linux_kernel_programming.Base.{
  ℕ, ◌+◌, ◌-◌, ◌<◌, ◌≤◌, ◌≡◌, ◌∙◌, ap, refl, List, [], ◌∷◌, ◌++◌, true, false, some, arith,
  replicate,
}
use linux_kernel_programming.Base.Words.{pos}
use linux_kernel_programming.Kernel.{Kernel, KernelLaws}
use linux_kernel_programming.Mutexlock.{Driver, maxbytes, initmsg, zero_ctx}
use linux_kernel_programming.Mutexlock.Ready.{IsReady}
use linux_kernel_programming.Mutexlock.Init.{initial}
use linux_kernel_programming.Mutexlock.Sessions.{
  Call, open_call, close_call, read_call, write_call, AllFair,
}
use linux_kernel_programming.Spinlock.{Cmd, ◌>>=◌, ended}
use linux_kernel_programming.Spinlock.Same.{state}
use linux_kernel_programming.Refcount.Ops.{
  Refcount, RefcountLaws, saturated, miscdrv_init_refcount, at_insmod,
}
use linux_kernel_programming.Refcount.Counts.{refcount_calls, ga_after, gb_after, calls-Counted}

-- With `n` files open, the calls close only what is open and have at most 41 files open at a time.
abbrev pub InBounds : ℕ → List Call → Type 0
InBounds n [] = Unit {0}
InBounds n (open_call ∷ cs) = (n < 41) × InBounds (n + 1) cs
InBounds n (close_call ∷ cs) = (0 < n) × InBounds (n - 1) cs
InBounds n (_ ∷ cs) = InBounds n cs

-- How many files are open after the calls.
unfoldable pub files : ℕ → List Call → ℕ
files n [] = n
files n (open_call ∷ cs) = files (n + 1) cs
files n (close_call ∷ cs) = files (n - 1) cs
files n (_ ∷ cs) = files n cs

files_bounded : (cs : List Call) (n : ℕ) → n ≤ 41 → InBounds n cs → files n cs ≤ 41
unfolding files
files_bounded [] n le ok = le
files_bounded (open_call ∷ cs) n le (lt, ok) = files_bounded cs (n + 1) (omega arith) ok
files_bounded (close_call ∷ cs) n le (lt, ok) = files_bounded cs (n - 1) (omega arith) ok
files_bounded (read_call _ _ _ ∷ cs) n le ok = files_bounded cs n le ok
files_bounded (write_call _ _ _ ∷ cs) n le ok = files_bounded cs n le ok

module _ {r : Refcount} (laws : RefcountLaws r) where
  ga_counts :
      (cs : List Call) (n : ℕ) → n ≤ 41 → InBounds n cs → ga_after r cs (42 + n) ≡ 42 + files n cs
  unfolding files ga_after
  ga_counts [] n le ok = refl
  ga_counts (open_call ∷ cs) n le (lt, ok) =
      let up : r.inc (42 + n) ≡ 42 + (n + 1) =
        laws.inc_counts (42 + n) (omega arith) (omega arith) ∙ omega arith in
      ap (ga_after r cs) up ∙ ga_counts cs (n + 1) (omega arith) ok
  ga_counts (close_call ∷ cs) n le (lt, ok) =
      let down : r.dec (42 + n) ≡ 42 + (n - 1) =
        laws.dec_counts (42 + n) (omega arith) (omega arith) ∙ omega arith in
      ap (ga_after r cs) down ∙ ga_counts cs (n - 1) (omega arith) ok
  ga_counts (read_call _ _ _ ∷ cs) n le ok = ga_counts cs n le ok
  ga_counts (write_call _ _ _ ∷ cs) n le ok = ga_counts cs n le ok

  gb_counts :
      (cs : List Call) (n : ℕ) → n ≤ 41 → InBounds n cs → gb_after r cs (42 - n) ≡ 42 - files n cs
  unfolding files gb_after
  gb_counts [] n le ok = refl
  gb_counts (open_call ∷ cs) n le (lt, ok) =
      let down : r.dec (42 - n) ≡ 42 - (n + 1) =
        laws.dec_counts (42 - n) (omega arith) (omega arith) ∙ omega arith in
      ap (gb_after r cs) down ∙ gb_counts cs (n + 1) (omega arith) ok
  gb_counts (close_call ∷ cs) n le (lt, ok) =
      let up : r.inc (42 - n) ≡ 42 - (n - 1) =
        laws.inc_counts (42 - n) (omega arith) (omega arith) ∙ omega arith in
      ap (gb_after r cs) up ∙ gb_counts cs (n - 1) (omega arith) ok
  gb_counts (read_call _ _ _ ∷ cs) n le ok = gb_counts cs n le ok
  gb_counts (write_call _ _ _ ∷ cs) n le ok = gb_counts cs n le ok

  gb_stuck : (cs : List Call) → gb_after r cs saturated ≡ saturated
  unfolding gb_after
  gb_stuck [] = refl
  gb_stuck (open_call ∷ cs) = ap (gb_after r cs) laws.dec_saturated ∙ gb_stuck cs
  gb_stuck (close_call ∷ cs) = ap (gb_after r cs) laws.inc_saturated ∙ gb_stuck cs
  gb_stuck (read_call _ _ _ ∷ cs) = gb_stuck cs
  gb_stuck (write_call _ _ _ ∷ cs) = gb_stuck cs

  gb_after_append :
      (cs ds : List Call) (n : ℕ) → gb_after r (cs ++ ds) n ≡ gb_after r ds (gb_after r cs n)
  unfolding gb_after
  gb_after_append [] ds n = refl
  gb_after_append (open_call ∷ cs) ds n = gb_after_append cs ds (r.dec n)
  gb_after_append (close_call ∷ cs) ds n = gb_after_append cs ds (r.inc n)
  gb_after_append (read_call _ _ _ ∷ cs) ds n = gb_after_append cs ds n
  gb_after_append (write_call _ _ _ ∷ cs) ds n = gb_after_append cs ds n

  gb_too_many :
      (cs ds : List Call)
      → InBounds 0 cs
      → files 0 cs ≡ 41
      → gb_after r (cs ++ open_call ∷ ds) 42 ≡ saturated
  unfolding gb_after
  gb_too_many cs ds ok full =
      let one : gb_after r cs 42 ≡ 1 = gb_counts cs 0 (omega arith) ok ∙ ap (λ n. 42 - n) full in
      gb_after_append cs (open_call ∷ ds) 42
      ∙ ap (λ n. gb_after r ds (r.dec n)) one
      ∙ ap (gb_after r ds) laws.dec_to_zero
      ∙ gb_stuck ds

-- The module is loaded with success, and then called.
abbrev pub load_and_call : Kernel → ℕ → Refcount → List Call → Cmd (Unit {0})
load_and_call k reg r cs = do ret ← miscdrv_init_refcount k (pos reg) true; refcount_calls r cs

-- The driver after init.
abbrev pub loaded : Kernel → Driver
loaded k = record {
  ga = 42;
  gb = 42;
  lock1 = false;
  ctx = some (record zero_ctx { oursecret = k.strscpy (replicate maxbytes 0) initmsg 8 });
  registered = true;
  kbufs = 0;
}

module _ (k : Kernel) (kernel_laws : KernelLaws k) (reg : ℕ) {r : Refcount}
    (laws : RefcountLaws r) where
  loaded-IsReady :
      IsReady
        (record zero_ctx { oursecret = k.strscpy (replicate maxbytes 0) initmsg 8 })
        (loaded k)
  loaded-IsReady = record {
    here = refl;
    free1 = refl;
    free = refl;
    size = kernel_laws.strscpy_size (replicate maxbytes 0) initmsg 8 (omega arith) (omega arith);
    terminated = rw (initial k kernel_laws) (omega arith);
  }

  init_runs :
      (cs : List Call)
      → load_and_call k reg r cs at_insmod ≡ refcount_calls r cs (state (loaded k) (pos 0))
  unfolding miscdrv_init_refcount
  init_runs cs = refl

  -- Once init has succeeded, and while at most 41 files are open at a time, any sequence of calls
  -- (with buffers that have room, a kernel that keeps its promises, and closes only of open files)
  -- runs to its end, with no `kvmalloc` buffer left; `ga` is then 42 plus, and `gb` 42 less, the
  -- number of the files that are open.
  pub load_and_call_counts :
      (cs : List Call)
      → AllFair cs
      → InBounds 0 cs
      → (d : Driver) × (load_and_call k reg r cs at_insmod ≡ ended tt (state d (pos 0)))
        × (d.ga ≡ 42 + files 0 cs)
        × (d.gb ≡ 42 - files 0 cs)
        × (files 0 cs ≤ 41)
        × (d.kbufs ≡ 0)
  load_and_call_counts cs fair ok =
      let counted = calls-Counted r cs loaded-IsReady fair in
      (
        counted.after,
        init_runs cs ∙ counted.runs,
        counted.ga_is ∙ ga_counts laws cs 0 (omega arith) ok,
        counted.gb_is ∙ gb_counts laws cs 0 (omega arith) ok,
        files_bounded cs 0 (omega arith) ok,
        counted.kbufs_kept,
      )

  -- A 42nd file that is open at the same time saturates `gb`: after init, calls (closing only what
  -- is open) that leave 41 files open, one more open and any other calls, `gb` is REFCOUNT_SATURATED,
  -- whatever is closed.
  pub load_and_call_saturates :
      (cs ds : List Call)
      → AllFair (cs ++ open_call ∷ ds)
      → InBounds 0 cs
      → files 0 cs ≡ 41
      → (d : Driver) × (load_and_call k reg r (cs ++ open_call ∷ ds) at_insmod
          ≡ ended tt (state d (pos 0)))
        × (d.gb ≡ saturated)
  load_and_call_saturates cs ds fair ok full =
      let counted = calls-Counted r (cs ++ open_call ∷ ds) loaded-IsReady fair in
      (
        counted.after,
        init_runs (cs ++ open_call ∷ ds) ∙ counted.runs,
        counted.gb_is ∙ gb_too_many laws cs ds ok full,
      )
