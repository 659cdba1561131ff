-- ===== src/SysInfo/Fits.antt =====
-- The messages fit, on each platform.
use linux_kernel_programming.Base.{
  ℕ, ◌≡◌, refl, List, [], ◌++◌, Bool, true, false, some, if◌then◌else◌,
}
use linux_kernel_programming.SysInfo.Texts.{
  intro, x86_32, x86_64, aarch32, aarch64, mips_text, powerpc, ibm_s390, big_endian_text,
  little_endian_text, os_32, os_64, name1, name2, name_klib, intro_klib, arm_32, aarch_64,
}
use linux_kernel_programming.SysInfo.Linked.{minsysinfo}
use linux_kernel_programming.SysInfo.Messages.{Config, llkd_sysinfo, llkd_sysinfo2}

-- A kernel is built for one architecture, one of these or another.
pub data Arch : Type 0 where
  x86 arm arm64 mips ppc s390 another : Arch

abbrev pub is : Arch → Arch → Bool
is x86 x86 = true
is arm arm = true
is arm64 arm64 = true
is mips mips = true
is ppc ppc = true
is s390 s390 = true
is a b = false

abbrev pub config : Arch → (big wide : Bool) → Config
config a big wide = record {
  config_x86 = is a x86;
  config_arm = is a arm;
  config_arm64 = is a arm64;
  config_mips = is a mips;
  config_ppc = is a ppc;
  config_s390 = is a s390;
  big_endian = big;
  bits_64 = wide;
}

-- What follows the function's name in either message.
abbrev pub arch_text : Arch → Bool → List ℕ
arch_text x86 wide = if wide then x86_64 else x86_32
arch_text arm wide = aarch32
arch_text arm64 wide = aarch64
arch_text mips wide = mips_text
arch_text ppc wide = powerpc
arch_text s390 wide = ibm_s390
arch_text another wide = []

-- The same in the modules that link with klib.c or with core_lkm.c
abbrev pub linked_arch_text : Arch → Bool → List ℕ
linked_arch_text arm wide = arm_32
linked_arch_text arm64 wide = aarch_64
linked_arch_text a wide = arch_text a wide

abbrev pub linked_info : Arch → (big wide : Bool) → List ℕ
linked_info a big wide =
    linked_arch_text a wide
    ++ (if big then big_endian_text else little_endian_text)
    ++ (if wide then os_64 else os_32)

abbrev pub info : Arch → (big wide : Bool) → List ℕ
info a big wide =
    intro
    ++ arch_text a wide
    ++ (if big then big_endian_text else little_endian_text)
    ++ (if wide then os_64 else os_32)

-- On a kernel built for one architecture, of either byte order and word size: the two functions of
-- min_sysinfo.c and `minsysinfo` of klib.c print their name and then the whole information, nothing
-- is written past the buffer, nothing is cut off, and there is no warning.
pub sysinfos_fit :
    (a : Arch) (big wide : Bool)
    → (llkd_sysinfo (config a big wide) ≡ (some (name1 ++ info a big wide), false))
      × (llkd_sysinfo2 (config a big wide) ≡ (name2 ++ info a big wide, false))
      × (minsysinfo (config a big wide)
          ≡ (name_klib ++ intro_klib ++ linked_info a big wide, false))
unfolding llkd_sysinfo llkd_sysinfo2 minsysinfo
sysinfos_fit x86 true true = (refl, refl, refl)
sysinfos_fit x86 true false = (refl, refl, refl)
sysinfos_fit x86 false true = (refl, refl, refl)
sysinfos_fit x86 false false = (refl, refl, refl)
sysinfos_fit a true true = (refl, refl, refl)
sysinfos_fit a true false = (refl, refl, refl)
sysinfos_fit a false true = (refl, refl, refl)
sysinfos_fit a false false = (refl, refl, refl)
