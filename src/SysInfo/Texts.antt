-- ===== src/SysInfo/Texts.antt =====
-- The strings of the messages, as their bytes; a line end is 10.
use linux_kernel_programming.Base.{ℕ, List, [], ◌∷◌}

abbrev pub intro : List ℕ
intro =
    b'(' ∷ b')' ∷ b':' ∷ b' ' ∷ b'm' ∷ b'i' ∷ b'n' ∷ b'i' ∷ b'm' ∷ b'a' ∷ b'l' ∷ b' ' ∷ b'P' ∷ b'l'
    ∷ b'a' ∷ b't' ∷ b'f' ∷ b'o' ∷ b'r' ∷ b'm' ∷ b' ' ∷ b'I' ∷ b'n' ∷ b'f' ∷ b'o' ∷ b':' ∷ 10 ∷ b'C'
    ∷ b'P' ∷ b'U' ∷ b':' ∷ b' ' ∷ []

abbrev pub x86_32 : List ℕ
x86_32 = b'x' ∷ b'8' ∷ b'6' ∷ b'_' ∷ b'3' ∷ b'2' ∷ b',' ∷ b' ' ∷ []

abbrev pub x86_64 : List ℕ
x86_64 = b'x' ∷ b'8' ∷ b'6' ∷ b'_' ∷ b'6' ∷ b'4' ∷ b',' ∷ b' ' ∷ []

abbrev pub aarch32 : List ℕ
aarch32 =
    b'A' ∷ b'A' ∷ b'r' ∷ b'c' ∷ b'h' ∷ b'3' ∷ b'2' ∷ b' ' ∷ b'(' ∷ b'A' ∷ b'R' ∷ b'M' ∷ b'-' ∷ b'3'
    ∷ b'2' ∷ b')' ∷ b',' ∷ b' ' ∷ []

abbrev pub aarch64 : List ℕ
aarch64 =
    b'A' ∷ b'A' ∷ b'r' ∷ b'c' ∷ b'h' ∷ b'6' ∷ b'4' ∷ b' ' ∷ b'(' ∷ b'A' ∷ b'R' ∷ b'M' ∷ b'-' ∷ b'6'
    ∷ b'4' ∷ b')' ∷ b',' ∷ b' ' ∷ []

abbrev pub mips_text : List ℕ
mips_text = b'M' ∷ b'I' ∷ b'P' ∷ b'S' ∷ b',' ∷ b' ' ∷ []

abbrev pub powerpc : List ℕ
powerpc = b'P' ∷ b'o' ∷ b'w' ∷ b'e' ∷ b'r' ∷ b'P' ∷ b'C' ∷ b',' ∷ b' ' ∷ []

abbrev pub ibm_s390 : List ℕ
ibm_s390 = b'I' ∷ b'B' ∷ b'M' ∷ b' ' ∷ b'S' ∷ b'3' ∷ b'9' ∷ b'0' ∷ b',' ∷ b' ' ∷ []

abbrev pub big_endian_text : List ℕ
big_endian_text =
    b'b' ∷ b'i' ∷ b'g' ∷ b'-' ∷ b'e' ∷ b'n' ∷ b'd' ∷ b'i' ∷ b'a' ∷ b'n' ∷ b';' ∷ b' ' ∷ []

abbrev pub little_endian_text : List ℕ
little_endian_text =
    b'l' ∷ b'i' ∷ b't' ∷ b't' ∷ b'l' ∷ b'e' ∷ b'-' ∷ b'e' ∷ b'n' ∷ b'd' ∷ b'i' ∷ b'a' ∷ b'n' ∷ b';'
    ∷ b' ' ∷ []

abbrev pub os_32 : List ℕ
os_32 = b'3' ∷ b'2' ∷ b'-' ∷ b'b' ∷ b'i' ∷ b't' ∷ b' ' ∷ b'O' ∷ b'S' ∷ b'.' ∷ 10 ∷ []

abbrev pub os_64 : List ℕ
os_64 = b'6' ∷ b'4' ∷ b'-' ∷ b'b' ∷ b'i' ∷ b't' ∷ b' ' ∷ b'O' ∷ b'S' ∷ b'.' ∷ 10 ∷ []

abbrev pub name1 : List ℕ
name1 = b'l' ∷ b'l' ∷ b'k' ∷ b'd' ∷ b'_' ∷ b's' ∷ b'y' ∷ b's' ∷ b'i' ∷ b'n' ∷ b'f' ∷ b'o' ∷ []

abbrev pub name2 : List ℕ
name2 =
    b'l' ∷ b'l' ∷ b'k' ∷ b'd' ∷ b'_' ∷ b's' ∷ b'y' ∷ b's' ∷ b'i' ∷ b'n' ∷ b'f' ∷ b'o' ∷ b'2' ∷ []

abbrev pub intro_klib : List ℕ
intro_klib =
    b'(' ∷ b')' ∷ b':' ∷ b' ' ∷ b'm' ∷ b'i' ∷ b'n' ∷ b'i' ∷ b'm' ∷ b'a' ∷ b'l' ∷ b' ' ∷ b'p' ∷ b'l'
    ∷ b'a' ∷ b't' ∷ b'f' ∷ b'o' ∷ b'r' ∷ b'm' ∷ b' ' ∷ b'i' ∷ b'n' ∷ b'f' ∷ b'o' ∷ b':' ∷ 10 ∷ b'C'
    ∷ b'P' ∷ b'U' ∷ b':' ∷ b' ' ∷ []

abbrev pub arm_32 : List ℕ
arm_32 = b'A' ∷ b'R' ∷ b'M' ∷ b'-' ∷ b'3' ∷ b'2' ∷ b',' ∷ b' ' ∷ []

abbrev pub aarch_64 : List ℕ
aarch_64 = b'A' ∷ b'a' ∷ b'r' ∷ b'c' ∷ b'h' ∷ b'6' ∷ b'4' ∷ b',' ∷ b' ' ∷ []

abbrev pub name_klib : List ℕ
name_klib = b'm' ∷ b'i' ∷ b'n' ∷ b's' ∷ b'y' ∷ b's' ∷ b'i' ∷ b'n' ∷ b'f' ∷ b'o' ∷ []
