-- ===== src/SysInfo/Messages.antt =====
-- The two functions that build a message. The buffer is given by the string it holds; `none` is a
-- write past its end.
use linux_kernel_programming.Base.{
  ℕ, ◌+◌, ◌-◌, List, ◌++◌, Bool, true, Option, none, some, ltb, leb, if◌then◌else◌, length, take,
  min,
}
use linux_kernel_programming.SysInfo.Texts.{
  intro, x86_32, x86_64, aarch32, aarch64, mips_text, powerpc, ibm_s390, big_endian_text,
  little_endian_text, os_32, os_64, name1, name2,
}

-- What the kernel is built for.
pub record Config : Type 0 where
  pub config_x86 : Bool
  pub config_arm : Bool
  pub config_arm64 : Bool
  pub config_mips : Bool
  pub config_ppc : Bool
  pub config_s390 : Bool
  pub big_endian : Bool
  pub bits_64 : Bool

abbrev pub msglen : ℕ
msglen = 128

-- The C library's `strncat`, on an array of 128 bytes, and `strlcat`
abbrev pub strncat : List ℕ → List ℕ → ℕ → Option (List ℕ)
strncat msg src n =
    if ltb (length msg + min (length src) n) msglen then some (msg ++ take n src) else none

abbrev pub strlcat : List ℕ → List ℕ → ℕ → List ℕ
strlcat msg src size = if ltb (length msg) size then take (size - 1) (msg ++ src) else msg

-- `my_snprintf_lkp` with the text that its arguments format to: the string in the buffer, and
-- whether it warns.
abbrev pub my_snprintf_lkp : ℕ → List ℕ → List ℕ × Bool
my_snprintf_lkp maxsize text = (take (maxsize - 1) text, leb maxsize (length text))

-- A `strncat` that is compiled in or not, after those before it.
abbrev pub cat_if : Bool → List ℕ → ℕ → Option (List ℕ) → Option (List ℕ)
cat_if defined src n none = none
cat_if defined src n (some msg) = if defined then strncat msg src n else some msg

abbrev pub lcat_if : Bool → List ℕ → List ℕ → List ℕ
lcat_if defined src msg = if defined then strlcat msg src msglen else msg

abbrev pub x86_text : Config → List ℕ
x86_text c = if c.bits_64 then x86_64 else x86_32

-- The message that it prints, and whether `my_snprintf_lkp` warned.
unfoldable pub llkd_sysinfo : Config → Option (List ℕ) × Bool
llkd_sysinfo c =
    let (msg, warned) = my_snprintf_lkp 47 (name1 ++ intro) in
    let cpu = cat_if c.config_s390 ibm_s390 10 (
      cat_if c.config_ppc powerpc 9 (
        cat_if c.config_mips mips_text 7 (
          cat_if c.config_arm64 aarch64 19
            (cat_if c.config_arm aarch32 19 (cat_if c.config_x86 (x86_text c) 9 (some msg)))))) in
    let order =
      if c.big_endian
      then cat_if true big_endian_text 13 cpu
      else cat_if true little_endian_text 16 cpu in
    ((if c.bits_64 then cat_if true os_64 12 order else cat_if true os_32 12 order), warned)

unfoldable pub llkd_sysinfo2 : Config → List ℕ × Bool
llkd_sysinfo2 c =
    let (msg, warned) = my_snprintf_lkp 48 (name2 ++ intro) in
    let cpu = lcat_if c.config_s390 ibm_s390 (
      lcat_if c.config_ppc powerpc (
        lcat_if c.config_mips mips_text (
          lcat_if c.config_arm64 aarch64
            (lcat_if c.config_arm aarch32 (lcat_if c.config_x86 (x86_text c) msg))))) in
    let order =
      if c.big_endian
      then lcat_if true big_endian_text cpu
      else lcat_if true little_endian_text cpu in
    ((if c.bits_64 then lcat_if true os_64 order else lcat_if true os_32 order), warned)
