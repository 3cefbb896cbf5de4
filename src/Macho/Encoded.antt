-- ===== src/Macho/Encoded.antt =====
-- crates/loader/src/macho/image.rs: load commands as a linker writes them, and what each means for
-- the image.
use emulator_ios_for_android.Base.{
  ℕ, ◌+◌, ◌*◌, ◌≡◌, true, false, some, List, [], ◌∷◌, ◌++◌, length, All, ◌==◌,
}
use emulator_ios_for_android.Common.Addr.{IsU64}
use emulator_ios_for_android.Common.Protection.{from_vm_prot}
use emulator_ios_for_android.Common.Utf8.{Text}
use emulator_ios_for_android.Dyld.LebRoundTrip.{IsName}
use emulator_ios_for_android.Macho.Consts.{
  lc_segment_64, lc_load_dylib, lc_load_weak_dylib, lc_reexport_dylib, lc_load_dylinker, lc_main,
  lc_unixthread, lc_symtab, lc_dyld_info, lc_dyld_info_only, lc_encryption_info_64, lc_uuid,
  lc_function_starts, lc_version_min_iphoneos, arm_thread_state64, arm_thread_state64_count,
}
use emulator_ios_for_android.Macho.Image.{
  Section, Segment, Dylib, main, Encryption, SymtabInfo, DyldInfo, MachOImage,
}
use emulator_ios_for_android.Macho.Command.{set_thread}
use emulator_ios_for_android.Macho.Bounds.{IsU32}
use emulator_ios_for_android.Macho.Fits.{FitsSection, FitsEncryption, FitsSymtab, FitsDyldInfo}
use emulator_ios_for_android.Macho.Written.{
  Field, u32_field, u64_field, name_field, raw_field, IsFieldName,
}

-- A `section_64` with the fields that the image leaves out.
pub record SectionCommand : Type 0 where
  pub section : Section
  pub align : ℕ
  pub reloff : ℕ
  pub nreloc : ℕ
  pub reserved1 : ℕ
  pub reserved2 : ℕ
  pub reserved3 : ℕ

-- A `segment_command_64`; its protections are those of the Mach kernel.
pub record SegmentCommand : Type 0 where
  pub name : Text
  pub vmaddr : ℕ
  pub vmsize : ℕ
  pub fileoff : ℕ
  pub filesize : ℕ
  pub maxprot : ℕ
  pub initprot : ℕ
  pub flags : ℕ
  pub sections : List SectionCommand

pub data DylibKind : Type 0 where
  plain weak reexport : DylibKind

pub data Command : Type 0 where
  segment : SegmentCommand → Command
  load_dylib : DylibKind → ℕ → ℕ → ℕ → Text → List ℕ → Command
  load_dylinker : Text → List ℕ → Command
  main_entry : ℕ → ℕ → Command
  thread_state : List ℕ → ℕ → List ℕ → Command
  symtab : SymtabInfo → Command
  dyld_info : DyldInfo → Command
  encryption : Encryption → Command
  uuid : List ℕ → Command
  function_starts : ℕ → ℕ → Command
  min_version : ℕ → List ℕ → Command
  unhandled : ℕ → List ℕ → Command

unfoldable pub section_fields : SectionCommand → List Field → List Field
section_fields s rest =
    name_field s.section.name
    ∷ name_field s.section.seg_name
    ∷ u64_field s.section.addr
    ∷ u64_field s.section.size
    ∷ u32_field s.section.offset
    ∷ u32_field s.align
    ∷ u32_field s.reloff
    ∷ u32_field s.nreloc
    ∷ u32_field s.section.flags
    ∷ u32_field s.reserved1
    ∷ u32_field s.reserved2
    ∷ u32_field s.reserved3
    ∷ rest

unfoldable pub sections_fields : List SectionCommand → List Field → List Field
unfolding section_fields
sections_fields [] rest = rest
sections_fields (s ∷ ss) rest = section_fields s (sections_fields ss rest)

-- A command without its number and its size.
unfoldable pub payload : Command → List Field → List Field
unfolding sections_fields
payload (segment s) rest =
    name_field s.name
    ∷ u64_field s.vmaddr
    ∷ u64_field s.vmsize
    ∷ u64_field s.fileoff
    ∷ u64_field s.filesize
    ∷ u32_field s.maxprot
    ∷ u32_field s.initprot
    ∷ u32_field (length s.sections)
    ∷ u32_field s.flags
    ∷ sections_fields s.sections rest
payload (load_dylib kind timestamp current compatible path pad) rest =
    u32_field 24
    ∷ u32_field timestamp
    ∷ u32_field current
    ∷ u32_field compatible
    ∷ raw_field (path ++ (0 ∷ pad))
    ∷ rest
payload (load_dylinker name pad) rest = u32_field 12 ∷ raw_field (name ++ (0 ∷ pad)) ∷ rest
payload (main_entry o s) rest = u64_field o ∷ u64_field s ∷ rest
payload (thread_state xs pc after) rest =
    u32_field arm_thread_state64
    ∷ u32_field arm_thread_state64_count
    ∷ raw_field xs
    ∷ u64_field pc
    ∷ raw_field after
    ∷ rest
payload (symtab s) rest =
    u32_field s.symoff ∷ u32_field s.nsyms ∷ u32_field s.stroff ∷ u32_field s.strsize ∷ rest
payload (dyld_info d) rest =
    u32_field d.rebase_off
    ∷ u32_field d.rebase_size
    ∷ u32_field d.bind_off
    ∷ u32_field d.bind_size
    ∷ u32_field d.lazy_bind_off
    ∷ u32_field d.lazy_bind_size
    ∷ u32_field d.export_off
    ∷ u32_field d.export_size
    ∷ rest
payload (encryption e) rest =
    u32_field e.cryptoff ∷ u32_field e.cryptsize ∷ u32_field e.cryptid ∷ rest
payload (uuid raw) rest = raw_field raw ∷ rest
payload (function_starts o s) rest = u32_field o ∷ u32_field s ∷ rest
payload (min_version v after) rest = u32_field v ∷ raw_field after ∷ rest
payload (unhandled cmd body) rest = raw_field body ∷ rest

unfoldable pub number : Command → ℕ
number (segment s) = lc_segment_64
number (load_dylib plain t c d path pad) = lc_load_dylib
number (load_dylib weak t c d path pad) = lc_load_weak_dylib
number (load_dylib reexport t c d path pad) = lc_reexport_dylib
number (load_dylinker name pad) = lc_load_dylinker
number (main_entry o s) = lc_main
number (thread_state xs pc after) = lc_unixthread
number (symtab s) = lc_symtab
number (dyld_info d) = lc_dyld_info_only
number (encryption e) = lc_encryption_info_64
number (uuid raw) = lc_uuid
number (function_starts o s) = lc_function_starts
number (min_version v after) = lc_version_min_iphoneos
number (unhandled cmd body) = cmd

unfoldable pub size : Command → ℕ
size (segment s) = 72 + 80 * length s.sections
size (load_dylib kind t c d path pad) = 24 + length (path ++ (0 ∷ pad))
size (load_dylinker name pad) = 12 + length (name ++ (0 ∷ pad))
size (main_entry o s) = 24
size (thread_state xs pc after) = 24 + length xs + length after
size (symtab s) = 24
size (dyld_info d) = 40
size (encryption e) = 20
size (uuid raw) = 8 + length raw
size (function_starts o s) = 16
size (min_version v after) = 12 + length after
size (unhandled cmd body) = 8 + length body

unfoldable pub command_fields : Command → List Field → List Field
unfolding payload number size
command_fields c rest = u32_field (number c) ∷ u32_field (size c) ∷ payload c rest

unfoldable pub commands_fields : List Command → List Field → List Field
unfolding command_fields
commands_fields [] rest = rest
commands_fields (c ∷ cs) rest = command_fields c (commands_fields cs rest)

unfoldable pub section_of : List SectionCommand → List Section
section_of [] = []
section_of (s ∷ ss) = s.section ∷ section_of ss

unfoldable pub segment_of : SegmentCommand → Segment
unfolding section_of
segment_of s = record {
  name = s.name;
  vmaddr = s.vmaddr;
  vmsize = s.vmsize;
  fileoff = s.fileoff;
  filesize = s.filesize;
  initprot = from_vm_prot s.initprot;
  maxprot = from_vm_prot s.maxprot;
  sections = section_of s.sections;
}

unfoldable pub dylib_of : DylibKind → Text → Dylib
dylib_of plain path = record { path = path; weak = false; reexport = false }
dylib_of weak path = record { path = path; weak = true; reexport = false }
dylib_of reexport path = record { path = path; weak = false; reexport = true }

-- What a command means.
unfoldable pub apply : Command → MachOImage → MachOImage
unfolding segment_of dylib_of set_thread
apply (segment s) img = record img { segments = img.segments ++ (segment_of s ∷ []) }
apply (load_dylib kind t c d path pad) img = record img {
  dylibs = img.dylibs ++ (dylib_of kind path ∷ []);
}
apply (load_dylinker name pad) img = record img { dylinker = some name }
apply (main_entry o s) img = record img { entry = some (main o s) }
apply (thread_state xs pc after) img = set_thread img (some pc)
apply (symtab s) img = record img { symtab = some s }
apply (dyld_info d) img = record img { dyld_info = some d }
apply (encryption e) img = record img { encryption = some e }
apply (uuid raw) img = record img { uuid = some raw }
apply (function_starts o s) img = record img { function_starts = some (o, s) }
apply (min_version v after) img = record img { min_os_version = some v }
apply (unhandled cmd body) img = img

-- The commands in order.
unfoldable pub apply_all : List Command → MachOImage → MachOImage
unfolding apply
apply_all [] img = img
apply_all (c ∷ cs) img = apply_all cs (apply c img)

abbrev pub FitsSectionCommand : SectionCommand → Type 0
FitsSectionCommand s =
    IsFieldName s.section.name
    × IsFieldName s.section.seg_name
    × FitsSection s.section
    × (IsU32 s.align × IsU32 s.reloff × IsU32 s.nreloc)
    × (IsU32 s.reserved1 × IsU32 s.reserved2 × IsU32 s.reserved3)

-- A number that `parse_command` has no arm for.
abbrev pub IsUnhandled : ℕ → Type 0
IsUnhandled cmd =
    All (λ handled. (cmd == handled) ≡ false)
      (lc_segment_64 ∷ lc_load_dylib ∷ lc_load_weak_dylib ∷ lc_reexport_dylib ∷ lc_load_dylinker
        ∷ lc_main ∷ lc_unixthread ∷ lc_symtab ∷ lc_dyld_info ∷ lc_dyld_info_only
        ∷ lc_encryption_info_64 ∷ lc_uuid ∷ lc_function_starts ∷ lc_version_min_iphoneos ∷ [])

abbrev pub FitsPayload : Command → Type 0
FitsPayload (segment s) =
    IsFieldName s.name
    × (IsU64 s.vmaddr × IsU64 s.vmsize × IsU64 s.fileoff × IsU64 s.filesize)
    × (IsU32 s.maxprot × IsU32 s.initprot × IsU32 s.flags)
    × All FitsSectionCommand s.sections
FitsPayload (load_dylib kind t c d path pad) = (IsU32 t × IsU32 c × IsU32 d) × IsName path
FitsPayload (load_dylinker name pad) = IsName name
FitsPayload (main_entry o s) = IsU64 o × IsU64 s
FitsPayload (thread_state xs pc after) = (length xs ≡ 256) × IsU64 pc
FitsPayload (symtab s) = FitsSymtab s
FitsPayload (dyld_info d) = FitsDyldInfo d
FitsPayload (encryption e) = FitsEncryption e
FitsPayload (uuid raw) = length raw ≡ 16
FitsPayload (function_starts o s) = IsU32 o × IsU32 s
FitsPayload (min_version v after) = IsU32 v
FitsPayload (unhandled cmd body) = IsU32 cmd × IsUnhandled cmd

-- A command whose fields are in range, the size of the command among them.
unfoldable pub FitsCommand : Command → Type 0
unfolding size
FitsCommand c = FitsPayload c × IsU32 (size c)
