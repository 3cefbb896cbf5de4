-- ===== src/Macho/Consts.antt =====
-- crates/loader/src/macho/consts.rs: the constants that the parser compares with.
use emulator_ios_for_android.Base.{ℕ, bit_or}

abbrev pub mh_magic_64 : ℕ
mh_magic_64 = 0xfeed_facf

abbrev pub mh_cigam_64 : ℕ
mh_cigam_64 = 0xcffa_edfe

abbrev pub fat_magic : ℕ
fat_magic = 0xcafe_babe

abbrev pub fat_magic_64 : ℕ
fat_magic_64 = 0xcafe_babf

abbrev pub cpu_arch_abi64 : ℕ
cpu_arch_abi64 = 0x0100_0000

abbrev pub cpu_type_arm : ℕ
cpu_type_arm = 12

abbrev pub cpu_type_arm64 : ℕ
cpu_type_arm64 = bit_or cpu_type_arm cpu_arch_abi64

abbrev pub cpu_subtype_arm64e : ℕ
cpu_subtype_arm64e = 2

abbrev pub mh_pie : ℕ
mh_pie = 0x0020_0000

abbrev pub lc_req_dyld : ℕ
lc_req_dyld = 0x8000_0000

abbrev pub lc_segment_64 : ℕ
lc_segment_64 = 0x19

abbrev pub lc_symtab : ℕ
lc_symtab = 0x02

abbrev pub lc_load_dylib : ℕ
lc_load_dylib = 0x0c

abbrev pub lc_load_dylinker : ℕ
lc_load_dylinker = 0x0e

abbrev pub lc_load_weak_dylib : ℕ
lc_load_weak_dylib = bit_or 0x18 lc_req_dyld

abbrev pub lc_reexport_dylib : ℕ
lc_reexport_dylib = bit_or 0x1f lc_req_dyld

abbrev pub lc_uuid : ℕ
lc_uuid = 0x1b

abbrev pub lc_unixthread : ℕ
lc_unixthread = 0x05

abbrev pub lc_encryption_info_64 : ℕ
lc_encryption_info_64 = 0x2c

abbrev pub lc_dyld_info : ℕ
lc_dyld_info = 0x22

abbrev pub lc_dyld_info_only : ℕ
lc_dyld_info_only = bit_or 0x22 lc_req_dyld

abbrev pub lc_function_starts : ℕ
lc_function_starts = 0x26

abbrev pub lc_main : ℕ
lc_main = bit_or 0x28 lc_req_dyld

abbrev pub lc_version_min_iphoneos : ℕ
lc_version_min_iphoneos = 0x25

abbrev pub arm_thread_state64 : ℕ
arm_thread_state64 = 6

abbrev pub arm_thread_state64_count : ℕ
arm_thread_state64_count = 68

abbrev pub section_type : ℕ
section_type = 0xff

abbrev pub s_zerofill : ℕ
s_zerofill = 0x1

abbrev pub s_mod_init_func_pointers : ℕ
s_mod_init_func_pointers = 0x9
