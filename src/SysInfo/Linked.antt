-- ===== src/SysInfo/Linked.antt =====
-- klib.c, `minsysinfo`, which modules link with.
use linux_kernel_programming.Base.{ℕ, List, ◌++◌, Bool, true, if◌then◌else◌}
use linux_kernel_programming.SysInfo.Messages.{Config, my_snprintf_lkp, lcat_if, x86_text}
use linux_kernel_programming.SysInfo.Texts.{
  intro_klib, name_klib, arm_32, aarch_64, mips_text, powerpc, ibm_s390, big_endian_text,
  little_endian_text, os_32, os_64,
}

-- What is put into `msg` after its beginning; core_lkm.c has the same statements.
abbrev pub add_platform : Config → List ℕ → List ℕ
add_platform c msg =
    let cpu = lcat_if c.config_s390 ibm_s390 (
      lcat_if c.config_ppc powerpc (
        lcat_if c.config_mips mips_text (
          lcat_if c.config_arm64 aarch_64
            (lcat_if c.config_arm arm_32 (lcat_if c.config_x86 (x86_text c) msg))))) in
    let order =
      if c.big_endian
      then lcat_if true big_endian_text cpu
      else lcat_if true little_endian_text cpu in
    if c.bits_64 then lcat_if true os_64 order else lcat_if true os_32 order

-- The message that it prints, and whether `snprintf_lkp` warns
unfoldable pub minsysinfo : Config → List ℕ × Bool
minsysinfo c =
    let (msg, warned) = my_snprintf_lkp 48 (name_klib ++ intro_klib) in (add_platform c msg, warned)
