-- ===== src/Vas/Tests.antt =====
-- A 64-bit and a 32-bit kernel.
use linux_kernel_programming.Base.{◌*◌, ◌^◌, ◌≡◌, refl, true, false}
use linux_kernel_programming.Vas.Delta.{Config}
use linux_kernel_programming.Vas.Kernel.{Layout}
use linux_kernel_programming.Vas.User.{Mm, shown_gb}

abbrev arm64_kernel : Config
arm64_kernel = record {
  config_x86 = false;
  config_arm = false;
  config_arm64 = true;
  config_kasan = true;
  config_sparsemem_vmemmap = true;
  config_highmem = false;
  bits_64 = true;
  newer = true;
}

abbrev layout : Layout
layout = record {
  page_size = 4096;
  totalram_pages = 262_144;
  vectors_base = 65_536;
  fixaddr_start = 18_446_741_873_686_568_960;
  fixaddr_end = 18_446_741_873_692_352_512;
  fixaddr_size = 5_783_552;
  modules_vaddr = 18_446_603_336_255_832_064;
  modules_end = 18_446_603_336_390_049_792;
  kasan_shadow_start = 18_446_603_336_221_196_288;
  kasan_shadow_end = 18_446_603_336_255_832_064;
  vmemmap_base = 18_446_739_675_663_040_512;
  vmemmap_size = 2_199_023_255_552;
  vmalloc_start = 18_446_603_336_390_049_792;
  vmalloc_end = 18_446_741_324_923_240_448;
  page_offset = 18_446_462_598_732_840_960;
  pkmap_base = 4096;
  last_pkmap = 512;
  kernel_va_bits = 48;
}

abbrev mm : Mm
mm = record {
  env_start = 7000;
  env_end = 8000;
  arg_start = 6000;
  arg_end = 7000;
  start_stack = 5900;
  start_brk = 4000;
  brk = 5000;
  start_data = 3000;
  end_data = 3500;
  start_code = 1000;
  end_code = 3000;
  maps = 20;
  user_size = 2 ^ 48;
}

-- A 32-bit kernel shows 3 GB as 3072 GB.
three_gb : shown_gb (record arm64_kernel { bits_64 = false }) (3 * 2 ^ 30) ≡ 3072
three_gb = refl
