-- ===== src/Tests/Loader.antt =====
-- crates/core/src/loader.rs and `Machine::load` on the small executable of Tests/Macho.
use emulator_ios_for_android.Base.{
  ℕ, ◌+◌, ◌%◌, ◌≡◌, refl, sym, arith, leb→le, none, some, List, [], ◌∷◌, length, All, replicate,
  length-replicate, ◌∙◌, ◌≤◌,
}
use mathlib.Core.Path.{subst}
use emulator_ios_for_android.Common.Result.{EmuResult, ok, ◌>>=◌, ok-injective}
use emulator_ios_for_android.Common.Outcome.{Outcome, AnyError}
use emulator_ios_for_android.Common.Addr.{wrapping_add}
use emulator_ios_for_android.Common.Protection.{prot_rw}
use emulator_ios_for_android.Memory.Region.{Region, stack}
use emulator_ios_for_android.Memory.Allocator.{new_allocator}
use emulator_ios_for_android.Memory.Guest.{GuestMemory, mmap_top}
use emulator_ios_for_android.Memory.Mapping.{IsValid}
use emulator_ios_for_android.Macho.Image.{Segment, main, MachOImage, text_name, text_vmaddr}
use emulator_ios_for_android.Macho.Parse.{parse, empty_image}
use emulator_ios_for_android.Macho.Encoded.{apply_all, apply, segment_of}
use emulator_ios_for_android.Macho.RoundTrip.{encode, image_of, parse-encode}
use emulator_ios_for_android.Vfs.Sandbox.{bundle_ios_path}
use emulator_ios_for_android.Vfs.HostPath.{file_name, last_component}
use emulator_ios_for_android.Vfs.Bytes.{split, onto_first, same}
use emulator_ios_for_android.Loader.Layout.{
  LayoutConfig, pagezero, highest, image_span, resolve_entry,
}
use emulator_ios_for_android.Loader.Stack.{str_addr, build_stack}
use emulator_ios_for_android.Loader.Keeps.{IsLoadable}
use emulator_ios_for_android.Loader.StackHolds.{IsStack, build_stack-IsStack}
use emulator_ios_for_android.Loader.Process.{build_process}
use emulator_ios_for_android.Loader.Machine.{Loaded, default_config, layout_config, load}
use emulator_ios_for_android.Loader.Builds.{
  IsLayout, IsBuilt, build_process-IsBuilt, IsReady, load-IsReady,
}
use emulator_ios_for_android.Loader.Slide.{EndsBelow, resolve_entry-slides, image_span-covers}
use emulator_ios_for_android.Tests.Macho.{small_file, small_file-IsFile, small_file-Roundable}
use emulator_ios_for_android.Tests.Vfs.{sandbox}

abbrev plain_segment : List ℕ → ℕ → ℕ → Segment
plain_segment name vmaddr vmsize = record {
  name = name;
  vmaddr = vmaddr;
  vmsize = vmsize;
  fileoff = 0;
  filesize = 4;
  initprot = 5;
  maxprot = 5;
  sections = [];
}

abbrev image : MachOImage
image = record {
  cpu_subtype = 0;
  filetype = 2;
  flags = 0;
  segments =
      plain_segment pagezero 0 0x1_0000_0000 ∷ plain_segment text_name 0x1_0000_0000 0x5000 ∷ [];
  dylibs = [];
  dylinker = none;
  entry = some (main 0x10 0);
  symtab = none;
  dyld_info = none;
  encryption = none;
  uuid = none;
  function_starts = none;
  min_os_version = none;
}

resolve_entry-slides_example :
    resolve_entry image (wrapping_add 0x4000 0x8000)
    ≡ (resolve_entry image 0x4000 >>= λ a. ok (wrapping_add a 0x8000))
resolve_entry-slides_example = resolve_entry-slides image 0x4000 0x8000 (omega arith) (omega arith)

image-highest : highest image.segments (text_vmaddr image) ≡ 0x1_0000_5000
unfolding highest text_vmaddr
image-highest = refl

image_span-covers_example :
    let (base, len) = image_span image in
    (base ≡ text_vmaddr image) × (len % 0x4000 ≡ 0) × All (EndsBelow (base + len)) image.segments
image_span-covers_example =
    image_span-covers image (omega arith, (omega arith, tt)) (omega (arith, image-highest))

abbrev layout : LayoutConfig
layout = record {
  slide = 0x4000;
  stack_top = 0x2_4000;
  stack_size = 0x4000;
  trampoline_base = 0x5_0000_0000;
  trampoline_stride = 16;
  argv0 = b'/' ∷ b'a' ∷ [];
}

layout-IsLayout : IsLayout layout
layout-IsLayout = record { stack_size = omega arith; stack_top = omega arith; room = omega arith }

abbrev mem : GuestMemory
mem = record { regions = []; mmap_cursor = mmap_top; heap_arena = new_allocator 0x8000 0x4000 }

mem-IsValid : IsValid mem
mem-IsValid = record { spread = tt; cursor_page = omega arith; cursor_fits = omega arith }

-- The image with a stream of one import `f`, for the word at 8 in the second segment.
abbrev linked_image : MachOImage
linked_image = record image {
  dyld_info = some (record {
    rebase_off = 0;
    rebase_size = 0;
    bind_off = 4;
    bind_size = 8;
    lazy_bind_off = 0;
    lazy_bind_size = 0;
    export_off = 0;
    export_size = 0;
  });
}

abbrev linked_bytes : List ℕ
linked_bytes = 1 ∷ 2 ∷ 3 ∷ 4 ∷ 0x11 ∷ 0x51 ∷ 0x40 ∷ b'f' ∷ 0 ∷ 0x71 ∷ 0x08 ∷ 0x90 ∷ []

build_process-IsBuilt_example :
    Outcome AnyError
      (IsBuilt linked_image linked_bytes layout)
      (build_process linked_image linked_bytes mem layout)
build_process-IsBuilt_example =
    build_process-IsBuilt linked_image linked_bytes mem layout
      ((omega arith, omega arith), ((omega arith, omega arith), tt)) (omega arith) layout-IsLayout
      mem-IsValid

abbrev stack_region : Region
stack_region = record {
  base = 0x2_0000;
  prot = prot_rw;
  kind = stack;
  name = [];
  bytes = replicate 0x4000 0;
}

abbrev stack_mem : GuestMemory
stack_mem = record mem { regions = (0x2_0000, stack_region) ∷ [] }

stack_mem-IsValid : IsValid stack_mem
stack_mem-IsValid = record {
  spread = (
    omega arith,
    (
      refl,
      omega (arith, length-replicate {A = ℕ} 0x4000 0),
      omega (arith, length-replicate {A = ℕ} 0x4000 0),
    ),
    tt,
  );
  cursor_page = omega arith;
  cursor_fits = omega arith;
}

build_stack-IsStack_example :
    Outcome AnyError
      (IsStack (str_addr 0x2_4000 (length layout.argv0)) layout.argv0)
      (build_stack stack_mem layout)
build_stack-IsStack_example =
    build_stack-IsStack stack_mem layout stack_mem-IsValid (omega arith) (omega arith)

small-IsLoadable :
    (img : MachOImage) → parse (encode small_file) ≡ ok img → All IsLoadable img.segments
unfolding image_of apply_all apply empty_image segment_of
small-IsLoadable img e =
    let same : image_of small_file ≡ img =
      ok-injective (sym (parse-encode small_file small_file-IsFile) ∙ e) in
    subst (λ i. All IsLoadable i.segments) same ((omega arith, omega arith), tt)

path_room : length (layout_config default_config sandbox).argv0 + 96 ≤ 0x1_c000_0000
unfolding layout_config bundle_ios_path file_name last_component split onto_first same
path_room = leb→le _ _ refl

default-IsLayout : IsLayout (layout_config default_config sandbox)
unfolding layout_config
default-IsLayout = record { stack_size = omega arith; stack_top = omega arith; room = path_room }

-- Hosts, files, directories and environments that are numbers.
abbrev host : ℕ
host = 0

abbrev Ready : EmuResult (Loaded ℕ ℕ ℕ ℕ) → Type 0
Ready r = Outcome AnyError (IsReady default_config sandbox) r

load-IsReady_example : Ready (load default_config (encode small_file) sandbox host host)
load-IsReady_example =
    load-IsReady default_config (encode small_file) sandbox host host small-IsLoadable
      small_file-Roundable default-IsLayout
