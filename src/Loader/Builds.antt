-- ===== src/Loader/Builds.antt =====
-- crates/core/src/loader.rs and `Machine::load`: what a process that is built is like.
use emulator_ios_for_android.Base.{
  sym, ℕ, ◌+◌, ◌-◌, ◌^◌, ◌≤◌, ◌≡◌, refl, arith, max, false, List, [], length, All,
}
use emulator_ios_for_android.Common.Result.{ok}
use emulator_ios_for_android.Common.Outcome.{
  Outcome, gives, fails, Outcome-bind, Outcome-if, AnyError, Outcome-of, Outcome-both,
  Outcome-weaken,
}
use emulator_ios_for_android.Common.Addr.{IsU64, wrapping_sub, wrapping_add-lt}
use emulator_ios_for_android.Common.Align.{page_size, align_up, align_up_pow}
use emulator_ios_for_android.Common.Protection.{prot_rw}
use emulator_ios_for_android.Common.Utf8.{Text}
use emulator_ios_for_android.Dyld.Linker.{new_resolver, used}
use emulator_ios_for_android.Dyld.LinkerLaws.{swapped}
use emulator_ios_for_android.Memory.Region.{heap, stack}
use emulator_ios_for_android.Memory.Allocator.{new_allocator}
use emulator_ios_for_android.Memory.Guest.{GuestMemory, new_memory, mmap_top, heap_name}
use emulator_ios_for_android.Memory.Mapping.{IsValid, IsRoundable}
use emulator_ios_for_android.Macho.Image.{MachOImage, is_encrypted}
use emulator_ios_for_android.Macho.Parse.{parse}
use emulator_ios_for_android.Vfs.Sandbox.{Sandbox}
use emulator_ios_for_android.Loader.Layout.{LayoutConfig, ProcessImage, resolve_entry}
use emulator_ios_for_android.Loader.Binds.{lazy_table}
use emulator_ios_for_android.Loader.Stubs.{tramp_bytes}
use emulator_ios_for_android.Loader.Stack.{str_addr, map_stack, stack_name}
use emulator_ios_for_android.Loader.Keeps.{
  IsLoadable, map_segments-Keeps, rebase_image-Keeps, publish_stubs-Keeps,
  restore_protections-Keeps, map_region-Keeps,
}
use emulator_ios_for_android.Loader.Paired.{new_resolver-IsPaired, bind_image-IsBound}
use emulator_ios_for_android.Loader.Tables.{Owns, Agree, owned-Agree}
use emulator_ios_for_android.Loader.Imports.{
  slid_bases, map_segments-slid, AreStubbed, bind_image-AreStubbed,
}
use emulator_ios_for_android.Loader.StackHolds.{IsStack, build_stack-IsStack}
use emulator_ios_for_android.Loader.Process.{build_process}
use emulator_ios_for_android.Loader.Machine.{
  MachineConfig, Loaded, layout_config, load, reset_to_entry,
}

-- What the layout needs: a stack size that can be rounded up to a page, a top that is a `u64`, and
-- room for the path.
pub record IsLayout (cfg : LayoutConfig) : Type 0 where
  pub stack_size : IsRoundable (max cfg.stack_size 1)
  pub stack_top : IsU64 cfg.stack_top
  pub room : length cfg.argv0 + 96 ≤ cfg.stack_top

-- A size that was rounded up, even with a wrap, can be rounded again.
align_up-Roundable : (n : ℕ) → IsRoundable (align_up n page_size)
align_up-Roundable n = omega (arith, align_up_pow 14 50 n refl, wrapping_add-lt n (2 ^ 14 - 1))

tramp_bytes-Roundable : (n : ℕ) → IsRoundable (tramp_bytes n)
unfolding tramp_bytes
tramp_bytes-Roundable n = align_up-Roundable (max n page_size)

map_stack-IsStack :
    (mem : GuestMemory) (cfg : LayoutConfig)
    → IsLayout cfg
    → IsValid mem
    → Outcome AnyError
        (IsStack (str_addr cfg.stack_top (length cfg.argv0)) cfg.argv0)
        (map_stack mem cfg)
unfolding map_stack
map_stack-IsStack mem cfg h v =
    Outcome-bind
      (map_region-Keeps mem v (wrapping_sub cfg.stack_top cfg.stack_size) cfg.stack_size prot_rw
        stack stack_name h.stack_size)
      λ mem v. build_stack-IsStack mem cfg v h.stack_top h.room

-- What a process is linked against: the two tables of trampolines agree, each import of a mapped
-- segment has a trampoline, and the lazy binder's table is read with the same bases.
abbrev pub IsLinkedUp : MachOImage → List ℕ → LayoutConfig → ProcessImage → Type 0
IsLinkedUp img bytes cfg p =
    Agree p.symbol_stubs p.trampolines
    × AreStubbed bytes (slid_bases cfg.slide img.segments) img p.symbol_stubs
    × (lazy_table bytes (slid_bases cfg.slide img.segments) img ≡ ok p.lazy_binds)

-- A process laid out from an image: its memory is valid and holds the initial stack, it is linked
-- up, and its entry point is the image's.
abbrev pub IsBuilt : MachOImage → List ℕ → LayoutConfig → ProcessImage × GuestMemory → Type 0
IsBuilt img bytes cfg (p, mem) =
    IsStack (str_addr cfg.stack_top (length cfg.argv0)) cfg.argv0 (p.sp, p.arg_regs, mem)
    × IsLinkedUp img bytes cfg p
    × (p.trampoline_base ≡ cfg.trampoline_base)
    × (resolve_entry img cfg.slide ≡ ok p.entry)
    × (is_encrypted img ≡ false)

-- The same, and the lists that stand for the tables are one list read both ways.
abbrev IsBuiltPaired : MachOImage → List ℕ → LayoutConfig → ProcessImage × GuestMemory → Type 0
IsBuiltPaired img bytes cfg (p, mem) =
    (p.trampolines ≡ swapped p.symbol_stubs) × IsBuilt img bytes cfg (p, mem)

linked_up :
    (stubs : List (Text × ℕ)) (trampolines : List (ℕ × Text))
    → trampolines ≡ swapped stubs
    → Owns stubs stubs
    → Agree stubs trampolines
linked_up stubs trampolines e h = rw e (owned-Agree stubs h)

build_process-IsBuiltPaired :
    (img : MachOImage) (bytes : List ℕ) (mem : GuestMemory) (cfg : LayoutConfig)
    → All IsLoadable img.segments
    → IsRoundable (length bytes)
    → IsLayout cfg
    → IsValid mem
    → Outcome AnyError (IsBuiltPaired img bytes cfg) (build_process img bytes mem cfg)
unfolding build_process
build_process-IsBuiltPaired img bytes mem cfg hs few h v =
    Outcome-if (is_encrypted img) (λ t. fails tt)
      λ decrypted.
        Outcome-bind
          (Outcome-both (map_segments-Keeps cfg.slide bytes few img.segments mem hs v)
            (map_segments-slid cfg.slide bytes img.segments mem))
          λ (bases, mem) (v, slid).
            Outcome-bind (rebase_image-Keeps cfg.slide bytes bases img mem v) λ mem v.
              Outcome-bind
                (Outcome-both
                  (bind_image-IsBound bytes bases img
                    (mem, new_resolver cfg.trampoline_base cfg.trampoline_stride)
                    (v, new_resolver-IsPaired cfg.trampoline_base cfg.trampoline_stride))
                  (bind_image-AreStubbed bytes bases img
                    (mem, new_resolver cfg.trampoline_base cfg.trampoline_stride)))
                λ (mem, r) ((v, both), stubbed).
                  Outcome-bind
                    (publish_stubs-Keeps cfg.trampoline_base (used r) mem
                      (tramp_bytes-Roundable (used r)) v)
                    λ (end, mem) (v, e).
                      Outcome-bind (restore_protections-Keeps img.segments bases mem v) λ mem v.
                        Outcome-bind (map_stack-IsStack mem cfg h v) λ (sp, regs, mem) k.
                          Outcome-bind
                            (Outcome-of {P = λ a. resolve_entry img cfg.slide ≡ ok a}
                              (resolve_entry img cfg.slide) (λ a e. e))
                            λ entry e.
                              Outcome-bind
                                (Outcome-of {P = λ t. lazy_table bytes bases img ≡ ok t}
                                  (lazy_table bytes bases img) (λ t e. e))
                                λ t lazily. gives (
                                  both.0,
                                  (
                                    k,
                                    (
                                      linked_up r.forward r.reverse both.0 both.1,
                                      rw (sym slid) stubbed,
                                      rw (sym slid) lazily,
                                    ),
                                    refl,
                                    e,
                                    decrypted,
                                  ),
                                )

-- From a valid memory, a file and segments whose sizes can be rounded up to a page and are not 0, a
-- stack whose size can be rounded up to a page, whose top is a `u64` and which has room for the
-- path, `build_process` fails or gives a process whose memory is valid and holds the initial
-- stack; in which the address of every symbol is a trampoline of the other table, whose symbol has
-- that address; in which every record of the two bind streams, if its segment is mapped at its slid
-- address, has a trampoline for its symbol; whose table for the lazy binder is that of the lazy
-- stream and the slid addresses; whose entry point is the image's slid one, and whose image was
-- not encrypted.
pub build_process-IsBuilt :
    (img : MachOImage) (bytes : List ℕ) (mem : GuestMemory) (cfg : LayoutConfig)
    → All IsLoadable img.segments
    → IsRoundable (length bytes)
    → IsLayout cfg
    → IsValid mem
    → Outcome AnyError (IsBuilt img bytes cfg) (build_process img bytes mem cfg)
build_process-IsBuilt img bytes mem cfg hs few h v =
    Outcome-weaken (build_process-IsBuiltPaired img bytes mem cfg hs few h v) λ a k. k.1

new_memory-IsValid : (base size : ℕ) → Outcome AnyError IsValid (new_memory base size)
unfolding new_memory
new_memory-IsValid base size =
    map_region-Keeps
      (record { regions = []; mmap_cursor = mmap_top; heap_arena = new_allocator base size })
      (record { spread = tt; cursor_page = omega arith; cursor_fits = omega arith }) base
      (align_up size page_size) prot_rw heap heap_name (omega (arith, align_up-Roundable size))

module _ {H F D W : Type 0} where
  -- A machine that is ready to run: its memory holds the initial stack, its registers are those
  -- of the entry point, and its tables of trampolines agree.
  abbrev pub IsReady : MachineConfig → Sandbox → Loaded H F D W → Type 0
  IsReady cfg vfs m =
      IsStack (str_addr cfg.stack_top (length (layout_config cfg vfs).argv0))
        (layout_config cfg vfs).argv0 (m.sp, m.arg_regs, m.process.ctx.mem)
      × (m.process.trampolines ≡ swapped m.process.symbol_stubs)
      × (reset_to_entry m ≡ m)

  -- When the segments of the file's image have sizes that can be rounded up to a page and are not 0,
  -- and the stack has room for the path, `load` fails or gives a machine whose memory is
  -- valid and holds the initial stack, whose two tables of trampolines have the same entries, and
  -- which resetting to the entry point leaves as it is.
  pub load-IsReady :
      (cfg : MachineConfig) (bytes : List ℕ) (vfs : Sandbox) (host : H) (world : W)
      → ((img : MachOImage) → parse bytes ≡ ok img → All IsLoadable img.segments)
      → IsRoundable (length bytes)
      → IsLayout (layout_config cfg vfs)
      → Outcome AnyError (IsReady cfg vfs) (load cfg bytes vfs host world)
  unfolding load reset_to_entry
  load-IsReady cfg bytes vfs host world hs few h =
      Outcome-bind (Outcome-of {P = λ img. All IsLoadable img.segments} (parse bytes) hs)
        λ img loadable. Outcome-bind (new_memory-IsValid cfg.heap_base cfg.heap_size) λ mem v.
          Outcome-bind
            (build_process-IsBuiltPaired img bytes mem (layout_config cfg vfs) loadable few h v)
            λ (p, mem) (pair, built). gives (built.0, pair, refl)
