-- ===== src/Loader/Layout.antt =====
-- crates/core/src/loader.rs: the layout asked for, the process laid out, and what the steps share.
-- A slice with a start behind its end panics, which is the error `panicked` here.
use emulator_ios_for_android.Base.{
  ℕ, ◌+◌, ◌-◌, ◌%◌, ◌^◌, max, ◌&&◌, Option, none, some, List, [], ◌∷◌, length, take, drop,
  get_elem?, ltb, leb, if◌then◌else◌,
}
use emulator_ios_for_android.Common.Result.{EmuError, EmuResult, mach_o, internal, ok, err}
use emulator_ios_for_android.Common.Addr.{GuestAddr, u64_mod, wrapping_add}
use emulator_ios_for_android.Common.Align.{page_size, align_up}
use emulator_ios_for_android.Common.Utf8.{Text}
use emulator_ios_for_android.Dyld.Linker.{same_name}
use emulator_ios_for_android.Macho.Image.{Segment, main, thread, MachOImage, text_vmaddr}

pub record LayoutConfig : Type 0 where
  pub slide : ℕ
  pub stack_top : GuestAddr
  pub stack_size : ℕ
  pub trampoline_base : GuestAddr
  pub trampoline_stride : ℕ
  pub argv0 : Text

pub record ProcessImage : Type 0 where
  pub entry : GuestAddr
  pub sp : GuestAddr
  pub arg_regs : ℕ × ℕ × ℕ × ℕ
  pub trampolines : List (ℕ × Text)
  pub trampoline_base : GuestAddr
  pub trampoline_end : GuestAddr
  pub init_funcs : List GuestAddr
  pub symbol_stubs : List (Text × ℕ)
  pub lazy_binds : List (ℕ × (Text × GuestAddr))

abbrev pub panicked : EmuError
panicked = internal "panicked"

-- `bytes.get(off..end)`.
unfoldable pub get_range : List ℕ → ℕ → ℕ → Option (List ℕ)
get_range bytes off end =
    if leb off end && leb end (length bytes) then some (take (end - off) (drop off bytes)) else none

-- The sum of two `u32`.
unfoldable pub u32_add : ℕ → ℕ → ℕ
u32_add a b = (a + b) % 2 ^ 32

-- `seg_runtime.get(index).and_then(|o| *o)`.
unfoldable pub segment_base : List (Option GuestAddr) → ℕ → Option GuestAddr
segment_base bases index = elim (get_elem? bases index) [ none ↦ none | some base ↦ base ]

-- "__PAGEZERO".
abbrev pub pagezero : Text
pagezero = b'_' ∷ b'_' ∷ b'P' ∷ b'A' ∷ b'G' ∷ b'E' ∷ b'Z' ∷ b'E' ∷ b'R' ∷ b'O' ∷ []

-- `u64::saturating_add`.
unfoldable pub saturating_add : ℕ → ℕ → ℕ
saturating_add a b = if ltb (a + b) u64_mod then a + b else u64_mod - 1

-- The loop of `image_span`.
unfoldable pub highest : List Segment → ℕ → ℕ
unfolding same_name saturating_add
highest [] high = high
highest (s ∷ ss) high =
    let high' =
      if same_name s.name pagezero then high else max high (saturating_add s.vmaddr s.vmsize) in
    highest ss high'

unfoldable pub image_span : MachOImage → ℕ × ℕ
unfolding highest text_vmaddr
image_span img =
    let preferred_base = text_vmaddr img in
    (preferred_base, align_up (highest img.segments preferred_base - preferred_base) page_size)

unfoldable pub resolve_entry : MachOImage → ℕ → EmuResult GuestAddr
unfolding wrapping_add text_vmaddr
resolve_entry img slide = elim img.entry [
  | none ↦ err (mach_o "image has no entry point")
  | some (main file_offset stack_size) ↦
      ok (wrapping_add (wrapping_add (text_vmaddr img) slide) file_offset)
  | some (thread vmaddr) ↦ ok (wrapping_add vmaddr slide)
]
