-- ===== src/Macho/Image.antt =====
-- crates/loader/src/macho/image.rs: the parsed image and what is asked of it.
use emulator_ios_for_android.Base.{
  ℕ, Bool, false, not, Option, none, some, List, [], ◌∷◌, ◌==◌, if◌then◌else◌, bit_and,
}
use emulator_ios_for_android.Common.Protection.{Protection}
use emulator_ios_for_android.Common.Utf8.{Text}
use emulator_ios_for_android.Dyld.Linker.{same_name}
use emulator_ios_for_android.Macho.Consts.{
  mh_pie, section_type, s_zerofill, s_mod_init_func_pointers,
}

pub record Section : Type 0 where
  pub seg_name : Text
  pub name : Text
  pub addr : ℕ
  pub size : ℕ
  pub offset : ℕ
  pub flags : ℕ

pub record Segment : Type 0 where
  pub name : Text
  pub vmaddr : ℕ
  pub vmsize : ℕ
  pub fileoff : ℕ
  pub filesize : ℕ
  pub initprot : Protection
  pub maxprot : Protection
  pub sections : List Section

unfoldable pub is_zerofill : Section → Bool
is_zerofill s = bit_and s.flags section_type == s_zerofill

unfoldable pub is_mod_init : Section → Bool
is_mod_init s = bit_and s.flags section_type == s_mod_init_func_pointers

pub record Dylib : Type 0 where
  pub path : Text
  pub weak : Bool
  pub reexport : Bool

pub data EntryPoint : Type 0 where
  main : ℕ → ℕ → EntryPoint
  thread : ℕ → EntryPoint

pub record Encryption : Type 0 where
  pub cryptoff : ℕ
  pub cryptsize : ℕ
  pub cryptid : ℕ

pub record SymtabInfo : Type 0 where
  pub symoff : ℕ
  pub nsyms : ℕ
  pub stroff : ℕ
  pub strsize : ℕ

pub record DyldInfo : Type 0 where
  pub rebase_off : ℕ
  pub rebase_size : ℕ
  pub bind_off : ℕ
  pub bind_size : ℕ
  pub lazy_bind_off : ℕ
  pub lazy_bind_size : ℕ
  pub export_off : ℕ
  pub export_size : ℕ

pub record MachOImage : Type 0 where
  pub cpu_subtype : ℕ
  pub filetype : ℕ
  pub flags : ℕ
  pub segments : List Segment
  pub dylibs : List Dylib
  pub dylinker : Option Text
  pub entry : Option EntryPoint
  pub symtab : Option SymtabInfo
  pub dyld_info : Option DyldInfo
  pub encryption : Option Encryption
  pub uuid : Option (List ℕ)
  pub function_starts : Option (ℕ × ℕ)
  pub min_os_version : Option ℕ

unfoldable pub is_pie : MachOImage → Bool
is_pie img = not (bit_and img.flags mh_pie == 0)

-- "__TEXT".
abbrev pub text_name : Text
text_name = b'_' ∷ b'_' ∷ b'T' ∷ b'E' ∷ b'X' ∷ b'T' ∷ []

-- The address of the first segment of a name, or 0.
unfoldable pub vmaddr_of : Text → List Segment → ℕ
unfolding same_name
vmaddr_of name [] = 0
vmaddr_of name (s ∷ rest) = if same_name s.name name then s.vmaddr else vmaddr_of name rest

unfoldable pub text_vmaddr : MachOImage → ℕ
unfolding vmaddr_of
text_vmaddr img = vmaddr_of text_name img.segments

unfoldable pub is_encrypted : MachOImage → Bool
is_encrypted img = elim img.encryption [ none ↦ false | some e ↦ not (e.cryptid == 0) ]
