-- ===== src/SysInfo/Tests.antt =====
-- One platform, and a configuration for all architectures at once, which no kernel has.
use linux_kernel_programming.Base.{◌≡◌, refl, ◌++◌, true, false, none, some, length}
use linux_kernel_programming.SysInfo.Texts.{name1, name2, name_klib, intro_klib}
use linux_kernel_programming.SysInfo.Linked.{minsysinfo}
use linux_kernel_programming.SysInfo.Messages.{Config, llkd_sysinfo, llkd_sysinfo2}
use linux_kernel_programming.SysInfo.Fits.{arm64, config, info, linked_info, sysinfos_fit}

sysinfos_fit_example :
    (llkd_sysinfo (config arm64 false true) ≡ (some (name1 ++ info arm64 false true), false))
    × (llkd_sysinfo2 (config arm64 false true) ≡ (name2 ++ info arm64 false true, false))
    × (minsysinfo (config arm64 false true)
        ≡ (name_klib ++ intro_klib ++ linked_info arm64 false true, false))
sysinfos_fit_example = sysinfos_fit arm64 false true

abbrev all_at_once : Config
all_at_once = record {
  config_x86 = true;
  config_arm = true;
  config_arm64 = true;
  config_mips = true;
  config_ppc = true;
  config_s390 = true;
  big_endian = false;
  bits_64 = true;
}

-- There `strncat` would write past the buffer, and `strlcat` cut the message off.
overrun : (llkd_sysinfo all_at_once).0 ≡ none
unfolding llkd_sysinfo
overrun = refl

cut_off : length (llkd_sysinfo2 all_at_once).0 ≡ 127
unfolding llkd_sysinfo2
cut_off = refl
