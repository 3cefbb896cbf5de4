-- ===== src/Macho/Command.antt =====
-- crates/loader/src/macho/image.rs: the load commands. The sums `cmd_off + 8` do not overflow, since
-- a command's offset is at most the length of the file.
use emulator_ios_for_android.Base.{
  ℕ, zero, suc, ◌+◌, ◌*◌, Bool, true, false, ◌||◌, not, Option, none, some, List, [], ◌∷◌, ◌++◌,
  length, drop, leb, ◌==◌, if◌then◌else◌,
}
use emulator_ios_for_android.Common.Result.{EmuResult, mach_o, ok, err, ok_or, ◌>>=◌}
use emulator_ios_for_android.Common.Addr.{checked_add}
use emulator_ios_for_android.Common.Protection.{from_vm_prot}
use emulator_ios_for_android.Common.Utf8.{Text, from_utf8_lossy}
use emulator_ios_for_android.Macho.Reader.{
  Reader, Read, at, skip, u32_le, u64_le, until_nul, fixed_str, read_bytes,
}
use emulator_ios_for_android.Macho.Consts.{
  lc_segment_64, lc_symtab, lc_load_dylib, lc_load_dylinker, lc_load_weak_dylib, lc_reexport_dylib,
  lc_uuid, lc_unixthread, lc_encryption_info_64, lc_dyld_info, lc_dyld_info_only,
  lc_function_starts, lc_main, lc_version_min_iphoneos, arm_thread_state64,
  arm_thread_state64_count,
}
use emulator_ios_for_android.Macho.Image.{Section, main, thread, MachOImage}

-- One `section_64` record.
unfoldable pub parse_section : Reader → Read Section
parse_section r = do
  (sect_name, r) ← fixed_str r 16
  (seg_name, r) ← fixed_str r 16
  (addr, r) ← u64_le r
  (size, r) ← u64_le r
  (offset, r) ← u32_le r
  (align, r) ← u32_le r
  (reloff, r) ← u32_le r
  (nreloc, r) ← u32_le r
  (flags, r) ← u32_le r
  (reserved1, r) ← u32_le r
  (reserved2, r) ← u32_le r
  (reserved3, r) ← u32_le r
  ok (
    record {
      seg_name = seg_name;
      name = sect_name;
      addr = addr;
      size = size;
      offset = offset;
      flags = flags;
    },
    r,
  )

-- `for _ in 0..nsects`.
unfoldable pub parse_sections : ℕ → Reader → Read (List Section)
unfolding parse_section
parse_sections zero r = ok ([], r)
parse_sections (suc n) r = do
  (s, r) ← parse_section r
  (rest, r) ← parse_sections n r
  ok (s ∷ rest, r)

-- The room for the sections, at most 2 ^ 32 of them, is taken to be there: the host aborts without it.
unfoldable pub parse_segment : MachOImage → List ℕ → ℕ → EmuResult MachOImage
unfolding parse_sections
parse_segment img bytes cmd_off = do
  r ← at bytes (cmd_off + 8)
  (name, r) ← fixed_str r 16
  (vmaddr, r) ← u64_le r
  (vmsize, r) ← u64_le r
  (fileoff, r) ← u64_le r
  (filesize, r) ← u64_le r
  (maxprot, r) ← u32_le r
  (initprot, r) ← u32_le r
  (nsects, r) ← u32_le r
  (flags, r) ← u32_le r
  (sections, r) ← parse_sections nsects r
  ok (record img {
    segments =
        img.segments
        ++ (record {
          name = name;
          vmaddr = vmaddr;
          vmsize = vmsize;
          fileoff = fileoff;
          filesize = filesize;
          initprot = from_vm_prot initprot;
          maxprot = from_vm_prot maxprot;
          sections = sections;
        }
            ∷ []);
  })

unfoldable pub read_lc_str : List ℕ → ℕ → ℕ → EmuResult Text
read_lc_str bytes cmd_off name_off = do
  start ← ok_or (checked_add cmd_off name_off) (mach_o "lc_str offset overflow")
  if leb (length bytes) start
      then err (mach_o "lc_str offset past end")
      else ok (from_utf8_lossy (until_nul (drop start bytes)))

unfoldable pub parse_dylib : MachOImage → List ℕ → ℕ → Bool → Bool → EmuResult MachOImage
unfolding read_lc_str
parse_dylib img bytes cmd_off weak reexport = do
  r ← at bytes (cmd_off + 8)
  (name_off, r) ← u32_le r
  path ← read_lc_str bytes cmd_off name_off
  ok (record img {
    dylibs = img.dylibs ++ (record { path = path; weak = weak; reexport = reexport } ∷ []);
  })

unfoldable pub parse_arm64_thread_pc : List ℕ → ℕ → EmuResult (Option ℕ)
parse_arm64_thread_pc bytes cmd_off = do
  r ← at bytes (cmd_off + 8)
  (flavor, r) ← u32_le r
  (count, r) ← u32_le r
  if not (flavor == arm_thread_state64) || not (count == arm_thread_state64_count)
      then ok none
      else do r ← skip r (8 * 32); (pc, r) ← u64_le r; ok (some pc)

-- The arms of `parse_command` that fill one field of the image.
unfoldable pub parse_dylinker : MachOImage → List ℕ → ℕ → EmuResult MachOImage
unfolding read_lc_str
parse_dylinker img bytes cmd_off = do
  r ← at bytes (cmd_off + 8)
  (name_off, r) ← u32_le r
  name ← read_lc_str bytes cmd_off name_off
  ok (record img { dylinker = some name })

unfoldable pub parse_main : MachOImage → List ℕ → ℕ → EmuResult MachOImage
parse_main img bytes cmd_off = do
  r ← at bytes (cmd_off + 8)
  (file_offset, r) ← u64_le r
  (stack_size, r) ← u64_le r
  ok (record img { entry = some (main file_offset stack_size) })

-- A thread's entry does not replace one that is there.
unfoldable pub set_thread : MachOImage → Option ℕ → MachOImage
set_thread img none = img
set_thread img (some pc) = elim img.entry [
  | none ↦ record img { entry = some (thread pc) }
  | some e ↦ img
]

unfoldable pub parse_unixthread : MachOImage → List ℕ → ℕ → EmuResult MachOImage
unfolding parse_arm64_thread_pc set_thread
parse_unixthread img bytes cmd_off = do
  pc ← parse_arm64_thread_pc bytes cmd_off
  ok (set_thread img pc)

unfoldable pub parse_symtab : MachOImage → List ℕ → ℕ → EmuResult MachOImage
parse_symtab img bytes cmd_off = do
  r ← at bytes (cmd_off + 8)
  (symoff, r) ← u32_le r
  (nsyms, r) ← u32_le r
  (stroff, r) ← u32_le r
  (strsize, r) ← u32_le r
  ok (record img {
    symtab = some (record { symoff = symoff; nsyms = nsyms; stroff = stroff; strsize = strsize });
  })

unfoldable pub parse_dyld_info : MachOImage → List ℕ → ℕ → EmuResult MachOImage
parse_dyld_info img bytes cmd_off = do
  r ← at bytes (cmd_off + 8)
  (rebase_off, r) ← u32_le r
  (rebase_size, r) ← u32_le r
  (bind_off, r) ← u32_le r
  (bind_size, r) ← u32_le r
  (lazy_bind_off, r) ← u32_le r
  (lazy_bind_size, r) ← u32_le r
  (export_off, r) ← u32_le r
  (export_size, r) ← u32_le r
  ok (record img {
    dyld_info = some (record {
      rebase_off = rebase_off;
      rebase_size = rebase_size;
      bind_off = bind_off;
      bind_size = bind_size;
      lazy_bind_off = lazy_bind_off;
      lazy_bind_size = lazy_bind_size;
      export_off = export_off;
      export_size = export_size;
    });
  })

unfoldable pub parse_encryption : MachOImage → List ℕ → ℕ → EmuResult MachOImage
parse_encryption img bytes cmd_off = do
  r ← at bytes (cmd_off + 8)
  (cryptoff, r) ← u32_le r
  (cryptsize, r) ← u32_le r
  (cryptid, r) ← u32_le r
  ok (record img {
    encryption = some (record { cryptoff = cryptoff; cryptsize = cryptsize; cryptid = cryptid });
  })

unfoldable pub parse_uuid : MachOImage → List ℕ → ℕ → EmuResult MachOImage
parse_uuid img bytes cmd_off = do
  r ← at bytes (cmd_off + 8)
  (raw, r) ← read_bytes r 16
  ok (record img { uuid = some raw })

unfoldable pub parse_function_starts : MachOImage → List ℕ → ℕ → EmuResult MachOImage
parse_function_starts img bytes cmd_off = do
  r ← at bytes (cmd_off + 8)
  (off, r) ← u32_le r
  (size, r) ← u32_le r
  ok (record img { function_starts = some (off, size) })

unfoldable pub parse_min_version : MachOImage → List ℕ → ℕ → EmuResult MachOImage
parse_min_version img bytes cmd_off = do
  r ← at bytes (cmd_off + 8)
  (version, r) ← u32_le r
  ok (record img { min_os_version = some version })

-- `parse_command`.
unfoldable pub parse_command : MachOImage → ℕ → List ℕ → ℕ → EmuResult MachOImage
parse_command img cmd bytes cmd_off =
    if cmd == lc_segment_64
    then parse_segment img bytes cmd_off
    else if cmd == lc_load_dylib
    then parse_dylib img bytes cmd_off false false
    else if cmd == lc_load_weak_dylib
    then parse_dylib img bytes cmd_off true false
    else if cmd == lc_reexport_dylib
    then parse_dylib img bytes cmd_off false true
    else if cmd == lc_load_dylinker
    then parse_dylinker img bytes cmd_off
    else if cmd == lc_main
    then parse_main img bytes cmd_off
    else if cmd == lc_unixthread
    then parse_unixthread img bytes cmd_off
    else if cmd == lc_symtab
    then parse_symtab img bytes cmd_off
    else if (cmd == lc_dyld_info) || (cmd == lc_dyld_info_only)
    then parse_dyld_info img bytes cmd_off
    else if cmd == lc_encryption_info_64
    then parse_encryption img bytes cmd_off
    else if cmd == lc_uuid
    then parse_uuid img bytes cmd_off
    else if cmd == lc_function_starts
    then parse_function_starts img bytes cmd_off
    else if cmd == lc_version_min_iphoneos
    then parse_min_version img bytes cmd_off
    else ok img
