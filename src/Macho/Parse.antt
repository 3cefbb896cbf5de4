-- ===== src/Macho/Parse.antt =====
-- crates/loader/src/macho/image.rs: `MachOImage::parse`.
use emulator_ios_for_android.Base.{
  ℕ, zero, suc, ◌+◌, Bool, true, false, ◌||◌, ◌&&◌, not, Option, none, some, List, [], ◌∷◌, length,
  ltb, ◌==◌, if◌then◌else◌,
}
use emulator_ios_for_android.Common.Result.{EmuResult, mach_o, ok, err, ok_or, ◌>>=◌}
use emulator_ios_for_android.Common.Addr.{checked_add}
use emulator_ios_for_android.Macho.Reader.{Reader, Read, new, at, u32_le, u32_be, u64_be}
use emulator_ios_for_android.Macho.Consts.{
  mh_magic_64, mh_cigam_64, fat_magic, fat_magic_64, cpu_type_arm64, cpu_subtype_arm64e,
}
use emulator_ios_for_android.Macho.Image.{MachOImage}
use emulator_ios_for_android.Macho.Command.{parse_command}

unfoldable pub empty_image : ℕ → ℕ → ℕ → MachOImage
empty_image cpu_subtype filetype flags = record {
  cpu_subtype = cpu_subtype;
  filetype = filetype;
  flags = flags;
  segments = [];
  dylibs = [];
  dylinker = none;
  entry = none;
  symtab = none;
  dyld_info = none;
  encryption = none;
  uuid = none;
  function_starts = none;
  min_os_version = none;
}

-- `for i in 0..ncmds`.
unfoldable pub load_commands : ℕ → List ℕ → ℕ → MachOImage → EmuResult MachOImage
load_commands zero bytes cmd_off img = ok img
load_commands (suc n) bytes cmd_off img = do
  r ← at bytes cmd_off
  (cmd, r) ← u32_le r
  (cmdsize, r) ← u32_le r
  if ltb cmdsize 8 then err (mach_o "load command has bogus size") else do
    img ← parse_command img cmd bytes cmd_off
    cmd_off ← ok_or (checked_add cmd_off cmdsize) (mach_o "load-command offset overflow")
    load_commands n bytes cmd_off img

-- The check that ends `parse_thin`.
unfoldable pub with_segments : MachOImage → EmuResult MachOImage
with_segments img = elim img.segments [
  | [] ↦ err (mach_o "no LC_SEGMENT_64 commands")
  | s ∷ rest ↦ ok img
]

-- `parse_thin` behind the header's first two fields.
unfoldable pub parse_thin_body : List ℕ → ℕ → Reader → EmuResult MachOImage
unfolding load_commands with_segments empty_image
parse_thin_body bytes base r = do
  (cpu_subtype, r) ← u32_le r
  (filetype, r) ← u32_le r
  (ncmds, r) ← u32_le r
  (sizeofcmds, r) ← u32_le r
  (flags, r) ← u32_le r
  (reserved, r) ← u32_le r
  img ← load_commands ncmds bytes (base + 32) (empty_image cpu_subtype filetype flags)
  with_segments img

unfoldable pub parse_thin : List ℕ → ℕ → EmuResult MachOImage
unfolding parse_thin_body
parse_thin bytes base = do
  r ← at bytes base
  (magic, r) ← u32_le r
  if not (magic == mh_magic_64) then err (mach_o "slice magic is not 64-bit Mach-O") else do
    (cputype, r) ← u32_le r
    if not (cputype == cpu_type_arm64)
        then err (mach_o "cputype is not arm64")
        else parse_thin_body bytes base r

-- An entry of the universal header: its offset and size.
unfoldable pub fat_arch : Bool → Reader → Read (ℕ × ℕ)
fat_arch true r = do
  (o, r) ← u64_be r
  (s, r) ← u64_be r
  (align, r) ← u32_be r
  (reserved, r) ← u32_be r
  ok ((o, s), r)
fat_arch false r = do (o, r) ← u32_be r; (s, r) ← u32_be r; (align, r) ← u32_be r; ok ((o, s), r)

-- The best slice so far: its offset, size and CPU subtype.
unfoldable pub better_slice : Option (ℕ × ℕ × ℕ) → ℕ × ℕ × ℕ → Option (ℕ × ℕ × ℕ)
better_slice none found = some found
better_slice (some (o, s, st)) (offset, size, cpusubtype) =
    if (cpusubtype == cpu_subtype_arm64e) && not (st == cpu_subtype_arm64e)
    then some (offset, size, cpusubtype)
    else some (o, s, st)

-- `for _ in 0..nfat`.
unfoldable pub fat_slices : ℕ → Bool → Option (ℕ × ℕ × ℕ) → Reader → Read (Option (ℕ × ℕ × ℕ))
unfolding fat_arch better_slice
fat_slices zero is64 best r = ok (best, r)
fat_slices (suc n) is64 best r = do
  (cputype, r) ← u32_be r
  (cpusubtype, r) ← u32_be r
  ((offset, size), r) ← fat_arch is64 r
  let best' =
        if cputype == cpu_type_arm64 then better_slice best (offset, size, cpusubtype) else best in
      fat_slices n is64 best' r

unfoldable pub select_fat_slice : List ℕ → EmuResult (List ℕ × ℕ)
unfolding fat_slices
select_fat_slice bytes = do
  (magic, r) ← u32_be (new bytes)
  (nfat, r) ← u32_be r
  (best, r) ← fat_slices nfat (magic == fat_magic_64) none r
  (off, size, subtype) ← ok_or best (mach_o "universal binary has no arm64 slice")
  end ← ok_or (checked_add off size) (mach_o "fat slice overflow")
  if ltb (length bytes) end then err (mach_o "fat slice extends past file") else ok (bytes, off)

-- The `match` on the magic.
unfoldable pub choose_slice : ℕ → List ℕ → EmuResult (List ℕ × ℕ)
choose_slice magic bytes =
    if (magic == fat_magic) || (magic == fat_magic_64)
    then select_fat_slice bytes
    else if magic == mh_magic_64
    then ok (bytes, 0)
    else if magic == mh_cigam_64
    then err (mach_o "big-endian Mach-O is not supported")
    else err (mach_o "unknown magic")

unfoldable pub parse : List ℕ → EmuResult MachOImage
unfolding choose_slice
parse bytes = do
  (magic, r) ← u32_le (new bytes)
  (slice, off) ← choose_slice magic bytes
  parse_thin slice off
