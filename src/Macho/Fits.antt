-- ===== src/Macho/Fits.antt =====
-- crates/loader/src/macho/image.rs: the ranges of the image's fields.
use emulator_ios_for_android.Base.{◌<◌, ◌≢◌, Option, none, some, [], All}
use emulator_ios_for_android.Common.Addr.{IsU64}
use emulator_ios_for_android.Macho.Bounds.{IsU32, IsRun}
use emulator_ios_for_android.Macho.Image.{
  Section, Segment, EntryPoint, main, thread, Encryption, SymtabInfo, DyldInfo, MachOImage,
}

-- The types of the fields.
abbrev pub FitsSection : Section → Type 0
FitsSection s = IsU64 s.addr × IsU64 s.size × IsU32 s.offset × IsU32 s.flags

abbrev pub FitsSegment : Segment → Type 0
FitsSegment s =
    IsU64 s.vmaddr
    × IsU64 s.vmsize
    × IsU64 s.fileoff
    × IsU64 s.filesize
    × (s.initprot < 8)
    × (s.maxprot < 8)
    × All FitsSection s.sections

abbrev pub FitsEntry : EntryPoint → Type 0
FitsEntry (main o s) = IsU64 o × IsU64 s
FitsEntry (thread pc) = IsU64 pc

abbrev pub FitsEncryption : Encryption → Type 0
FitsEncryption e = IsU32 e.cryptoff × IsU32 e.cryptsize × IsU32 e.cryptid

abbrev pub FitsSymtab : SymtabInfo → Type 0
FitsSymtab s = IsU32 s.symoff × IsU32 s.nsyms × IsU32 s.stroff × IsU32 s.strsize

abbrev pub FitsDyldInfo : DyldInfo → Type 0
FitsDyldInfo d =
    IsU32 d.rebase_off
    × IsU32 d.rebase_size
    × IsU32 d.bind_off
    × IsU32 d.bind_size
    × IsU32 d.lazy_bind_off
    × IsU32 d.lazy_bind_size
    × IsU32 d.export_off
    × IsU32 d.export_size

abbrev pub Given : {A : Type 0} → (A → Type 0) → Option A → Type 0
Given P none = Unit
Given P (some a) = P a

unfoldable pub FitsImage : MachOImage → Type 0
FitsImage img =
    (IsU32 img.cpu_subtype × IsU32 img.filetype × IsU32 img.flags)
    × All FitsSegment img.segments
    × Given FitsEntry img.entry
    × Given FitsSymtab img.symtab
    × Given FitsDyldInfo img.dyld_info
    × Given FitsEncryption img.encryption
    × Given (IsRun 16) img.uuid
    × Given (λ (off, size). IsU32 off × IsU32 size) img.function_starts
    × Given IsU32 img.min_os_version

-- An image that `parse` gives: every field is in its type, and there is a segment.
unfoldable pub IsImage : MachOImage → Type 0
IsImage img = FitsImage img × (img.segments ≢ [])
