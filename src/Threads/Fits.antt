-- ===== src/Threads/Fits.antt =====
-- The buffers are large enough: whatever the task, no text is cut off and `strncat` stays inside.
use mathlib.Core.List.{append-nil}
use linux_kernel_programming.Base.{
  ℕ, ◌+◌, ◌-◌, ◌≤◌, ◌<◌, ◌≡◌, refl, [], ◌∷◌, ◌++◌, true, false, if◌then◌else◌, ltb, leb, min,
  length, length-append, take_all, arith, Bool-cases, inl, inr,
}
use linux_kernel_programming.Threads.Format.{
  Text, space, newline, decimal, pad_left, length-decimal, length-pad_left, length-pointer,
}
use linux_kernel_programming.Threads.Defs.{
  Task, Process, ended, ◌>>=◌, World, snprintf_lkp, strncat,
}
use linux_kernel_programming.Threads.Row.{
  bufmax, tmpmax, ids_text, pointer_text, name_text, count_text, is_main_of_many, begin_row,
  add_name, add_count, add_newline, end_row,
}

pub snprintf_lkp-fits :
    (maxsize : ℕ) (text : Text) (w : World)
    → length text < maxsize
    → snprintf_lkp maxsize text w ≡ ended text w
unfolding snprintf_lkp
snprintf_lkp-fits maxsize text w h =
    let quiet : leb maxsize (length text) ≡ false = ground arith in
    rw (quiet, take_all (maxsize - 1) text (omega arith)) refl

strncat-fits :
    (buf tmp : Text) (n : ℕ) (w : World)
    → length tmp ≤ n
    → length buf + length tmp < bufmax
    → strncat bufmax buf tmp n w ≡ ended (buf ++ tmp) w
unfolding strncat
strncat-fits buf tmp n w h room =
    let inside : ltb (length buf + min n (length tmp)) bufmax ≡ true = ground arith in
    rw (inside, take_all n tmp h) refl

pub short_number : (width n : ℕ) → width ≤ 10 → length (pad_left width (decimal n)) ≤ 10
short_number width n h = length-pad_left width 10 (decimal n) (length-decimal n) h

length-ids_text : (g : Process) (t : Task) → length (ids_text g t) ≤ 22
length-ids_text g t =
    let first = pad_left 6 (decimal g.tgid) in
    let second = pad_left 6 (decimal t.pid) in
    omega (
      arith,
      short_number 6 g.tgid (omega arith),
      short_number 6 t.pid (omega arith),
      length-append first (space ∷ []),
      length-append (first ++ space ∷ []) second,
      length-append (first ++ space ∷ [] ++ second) (space ∷ []),
    )

pub length-name_text :
    (g : Process) (comm : Text) → length comm ≤ 15 → length (name_text g comm) ≤ 19
length-name_text g comm short = ground (
  arith,
  length-pad_left 16 16 comm (omega arith) (omega arith),
  length-append (pad_left 16 comm) (93 ∷ []),
  length-append (pad_left 16 comm) (space ∷ []),
)

pub length-count_text : (g : Process) → length (count_text g) ≤ 11
length-count_text g = omega (arith, short_number 3 g.nr_threads (omega arith))

-- The text of a row up to the name
abbrev pub row_head : Process → Task → Text
row_head g t = ids_text g t ++ pointer_text t.address ++ pointer_text t.stack

abbrev pub count_or_nothing : Process → Task → Text
count_or_nothing g t = if is_main_of_many g t then count_text g else []

-- The whole row, with the name that was copied
abbrev pub row_text : Process → Task → Text → Text
row_text g t tasknm = row_head g t ++ name_text g tasknm ++ count_or_nothing g t ++ newline ∷ []

length-pointer_text : (p : ℕ) → length (pointer_text p) ≡ 20
length-pointer_text p = omega (arith, length-pointer p)

length-ids_pointer : (g : Process) (t : Task) (p : ℕ) → length (ids_text g t ++ pointer_text p) ≤ 42
length-ids_pointer g t p = omega (
  arith,
  length-ids_text g t,
  length-pointer_text p,
  length-append (ids_text g t) (pointer_text p),
)

length-row_head : (g : Process) (t : Task) → length (row_head g t) ≤ 62
length-row_head g t = omega (
  arith,
  length-ids_pointer g t t.address,
  length-pointer_text t.stack,
  length-append (ids_text g t ++ pointer_text t.address) (pointer_text t.stack),
)

pub begin_row-fits : (g : Process) (t : Task) (w : World) → begin_row g t w ≡ ended (row_head g t) w
unfolding begin_row
begin_row-fits g t w =
    let ids = length-ids_text g t in
    let near = length-ids_pointer g t t.address in
    let p = length-pointer_text t.address in
    let q = length-pointer_text t.stack in
    rw
      (
        snprintf_lkp-fits 255 (ids_text g t) w (omega arith),
        snprintf_lkp-fits 127 (pointer_text t.address) w (omega arith),
        strncat-fits (ids_text g t) (pointer_text t.address) tmpmax w (omega arith) (omega arith),
        snprintf_lkp-fits 127 (pointer_text t.stack) w (omega arith),
        strncat-fits (ids_text g t ++ pointer_text t.address) (pointer_text t.stack) tmpmax w
            (omega arith) (omega arith),
        ◌>>=◌,
      )
      refl

add_name-fits :
    (g : Process) (tasknm buf : Text) (w : World)
    → length tasknm ≤ 15
    → length buf ≤ 62
    → add_name g tasknm buf w ≡ ended (buf ++ name_text g tasknm) w
unfolding add_name
add_name-fits g tasknm buf w short room =
    let l = length-name_text g tasknm short in
    rw
      (
        snprintf_lkp-fits 20 (name_text g tasknm) w (omega arith),
        strncat-fits buf (name_text g tasknm) tmpmax w (omega arith) (omega arith),
        ◌>>=◌,
      )
      refl

add_count-fits :
    (g : Process) (t : Task) (buf : Text) (w : World)
    → length buf ≤ 81
    → add_count g t buf w ≡ ended (buf ++ count_or_nothing g t) w
unfolding add_count
add_count-fits g t buf w room =
    let l = length-count_text g in
    elim (Bool-cases (is_main_of_many g t)) [
      | inl many ↦
          rw
            (
              many,
              snprintf_lkp-fits 127 (count_text g) w (omega arith),
              strncat-fits buf (count_text g) tmpmax w (omega arith) (omega arith),
              ◌>>=◌,
            )
            refl
      | inr single ↦ rw (single, append-nil buf) refl
    ]

length-count_or_nothing : (g : Process) (t : Task) → length (count_or_nothing g t) ≤ 11
length-count_or_nothing g t = ground (arith, length-count_text g)

add_newline-fits :
    (buf : Text) (w : World) → length buf ≤ 92 → add_newline buf w ≡ ended (buf ++ newline ∷ []) w
unfolding add_newline
add_newline-fits buf w room =
    rw
      (
        snprintf_lkp-fits 2 (newline ∷ []) w (omega arith),
        strncat-fits buf (newline ∷ []) 2 w (omega arith) (omega arith),
        ◌>>=◌,
      )
      refl

pub end_row-fits :
    (g : Process) (t : Task) (tasknm : Text) (w : World)
    → length tasknm ≤ 15
    → end_row g t tasknm (row_head g t) w ≡ ended (row_text g t tasknm) w
unfolding end_row
end_row-fits g t tasknm w short =
    let head = length-row_head g t in
    let name = length-name_text g tasknm short in
    let count = length-count_or_nothing g t in
    let named = length-append (row_head g t) (name_text g tasknm) in
    let counted = length-append (row_head g t ++ name_text g tasknm) (count_or_nothing g t) in
    rw
      (
        add_name-fits g tasknm (row_head g t) w short head,
        add_count-fits g t (row_head g t ++ name_text g tasknm) w (omega arith),
        add_newline-fits (row_head g t ++ name_text g tasknm ++ count_or_nothing g t) w
            (omega arith),
        ◌>>=◌,
      )
      refl
