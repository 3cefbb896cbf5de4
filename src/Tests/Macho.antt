-- ===== src/Tests/Macho.antt =====
-- crates/loader/src/macho on a small executable.
use emulator_ios_for_android.Base.{◌≡◌, ◌+◌, ◌<◌, length, refl, arith, [], ◌∷◌, ltb→lt, All, inl}
use emulator_ios_for_android.Common.Result.{mach_o, ok, err}
use emulator_ios_for_android.Common.Addr.{u64_mod}
use emulator_ios_for_android.Common.Endian.{to_le}
use emulator_ios_for_android.Dyld.LebRoundTrip.{IsName}
use emulator_ios_for_android.Macho.Image.{text_name}
use emulator_ios_for_android.Macho.Encoded.{
  SectionCommand, Command, plain, segment, load_dylib, load_dylinker, main_entry, unhandled,
  FitsCommand, size, commands_fields, command_fields, payload, number, sections_fields,
  section_fields, apply_all, apply,
}
use emulator_ios_for_android.Macho.Written.{written, field_bytes}
use emulator_ios_for_android.Macho.Parse.{parse}
use emulator_ios_for_android.Macho.RoundTrip.{
  MachOFile, IsFile, header_fields, encode, image_of, parse-encode, parse-universal,
}

parse-universal_example :
    parse (0xca ∷ 0xfe ∷ 0xba ∷ 0xbe ∷ 0 ∷ 0 ∷ 0 ∷ 1 ∷ []) ≡ err (mach_o "unknown magic")
parse-universal_example = parse-universal 0xbe (0 ∷ 0 ∷ 0 ∷ 1 ∷ []) (inl refl) (omega arith)

abbrev text_section : SectionCommand
text_section = record {
  section = record {
    seg_name = text_name;
    name = text_name;
    addr = 0x1_0000_4000;
    size = 0x20;
    offset = 0x4000;
    flags = 0x8000_0400;
  };
  align = 2;
  reloff = 0;
  nreloc = 0;
  reserved1 = 0;
  reserved2 = 0;
  reserved3 = 0;
}

abbrev small_segment : Command
small_segment = segment (record {
  name = text_name;
  vmaddr = 0x1_0000_0000;
  vmsize = 0x8000;
  fileoff = 0;
  filesize = 0x8000;
  maxprot = 5;
  initprot = 5;
  flags = 0;
  sections = text_section ∷ [];
})

abbrev pub small_file : MachOFile
small_file = record {
  cpu_subtype = 0;
  filetype = 2;
  sizeofcmds = 240;
  flags = 0x20_0085;
  reserved = 0;
  commands =
      small_segment
      ∷ load_dylinker text_name (0 ∷ [])
      ∷ main_entry 0x4000 0
      ∷ load_dylib plain 2 0x10000 0x10000 text_name (0 ∷ [])
      ∷ unhandled 0x2a (1 ∷ 2 ∷ [])
      ∷ [];
  contents = 7 ∷ 7 ∷ [];
}

text_name-IsName : IsName text_name
text_name-IsName = (
  (omega arith, omega arith),
  (
    (omega arith, omega arith),
    (
      (omega arith, omega arith),
      ((omega arith, omega arith), ((omega arith, omega arith), ((omega arith, omega arith), tt))),
    ),
  ),
)

small_segment-Fits : FitsCommand small_segment
unfolding FitsCommand size
small_segment-Fits = (
  (
    (text_name-IsName, omega arith),
    (omega arith, omega arith, omega arith, omega arith),
    (omega arith, omega arith, omega arith),
    (
      (
        (text_name-IsName, omega arith),
        (text_name-IsName, omega arith),
        (omega arith, omega arith, omega arith, omega arith),
        (omega arith, omega arith, omega arith),
        (omega arith, omega arith, omega arith),
      ),
      tt,
    ),
  ),
  omega arith,
)

small_file-commands : All FitsCommand small_file.commands
unfolding FitsCommand size
small_file-commands = (
  small_segment-Fits,
  (
    (text_name-IsName, omega arith),
    (
      ((omega arith, omega arith), omega arith),
      (
        (((omega arith, omega arith, omega arith), text_name-IsName), omega arith),
        (
          (
            (
              omega arith,
              (
                refl,
                (
                  refl,
                  (
                    refl,
                    (
                      refl,
                      (
                        refl,
                        (refl, (refl, (refl, (refl, (refl, (refl, (refl, (refl, (refl, tt))))))))),
                      ),
                    ),
                  ),
                ),
              ),
            ),
            omega arith,
          ),
          tt,
        ),
      ),
    ),
  ),
)

pub small_file-IsFile : IsFile small_file
unfolding encode header_fields commands_fields command_fields payload number size sections_fields
    section_fields written field_bytes to_le image_of apply_all apply FitsCommand
small_file-IsFile = record {
  subtype = omega arith;
  filetype = omega arith;
  sizeofcmds = omega arith;
  flags = omega arith;
  reserved = omega arith;
  count = omega arith;
  commands = small_file-commands;
  size = ltb→lt _ _ refl;
  segments = cc;
}

pub small_file-Roundable : length (encode small_file) + 0x3fff < u64_mod
unfolding encode header_fields commands_fields command_fields payload number size sections_fields
    section_fields written field_bytes to_le
small_file-Roundable = ltb→lt _ _ refl

parse-encode_example : parse (encode small_file) ≡ ok (image_of small_file)
parse-encode_example = parse-encode small_file small_file-IsFile
