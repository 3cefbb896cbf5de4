-- ===== src/Lib.antt =====
-- A model of the core of an emulator that runs iOS applications on Android (the Rust workspace
-- under crates/), with the theorems that make its parts correct.
--
-- The parser reads a Mach-O image, and the loader maps it into guest memory; the dynamic linker's
-- opcode streams say which words of it to relocate and which to point at imported symbols; each
-- imported symbol gets a trampoline. The guest then runs natively until it makes a system call or
-- branches to a trampoline, which the core services against guest memory, a descriptor table and a
-- sandbox that maps guest paths to host paths.
--
-- The files and what they model:
-- * Base and its children: numbers, lists, Boolean tests and bit operations that the other modules
--   share.
-- * Common/Result (crates/common/src/error.rs: EmuError, EmuResult and the `?` operator),
--   Common/Addr and Common/Protection (crates/common/src/guest.rs: GuestAddr, Protection),
--   Common/Align (crates/common/src/lib.rs: align_up, align_down), Common/Endian and Common/Utf8
--   (the standard library's byte order conversions and from_utf8_lossy).
-- * Memory/Region, Memory/Allocator, Memory/Guest, Memory/Typed (crates/memory/src/region.rs,
--   allocator.rs and lib.rs: Region, BumpAllocator, GuestMemory::new, map, map_with_data,
--   mmap_anon, protect, heap_alloc, read, write and the typed accessors). A region map is a list
--   of entries in ascending order, as the BTreeMap holds them (Memory/RegionMap). The other Memory
--   files hold the proofs: Memory/Bytes defines what byte a memory shows at an address,
--   Memory/Spread and Memory/Mapping the invariant that the regions ascend, do not overlap and end
--   inside the address space.
-- * Dyld/Leb, Dyld/Rebase, Dyld/Bind, Dyld/LazyBind (crates/loader/src/dyld/bind.rs and rebase.rs:
--   read_uleb, read_sleb, read_cstr, parse_rebase_info, parse_bind_info, parse_lazy_bind_info).
--   The cursor into a stream is the list of the bytes from it on. The loop of the three parsers is
--   Dyld/Loop. The proofs are in Dyld/Opcode, Dyld/LebRoundTrip, Dyld/RebaseLaws,
--   Dyld/RebaseRoundTrip, Dyld/BindLaws, Dyld/BindRoundTrip and Dyld/LazyRoundTrip.
-- * Dyld/Linker (crates/loader/src/dyld/linker.rs: StubResolver), with its proofs in
--   Dyld/LinkerLaws.
-- * Vfs/Translate (crates/vfs/src/translate.rs: normalize_ios_path), Vfs/Sandbox
--   (crates/vfs/src/sandbox.rs: prepare, translate, join_checked, strip_prefix_dir,
--   sanitize_component), over what they use of str and PathBuf in Vfs/Bytes, Vfs/Trim and
--   Vfs/HostPath. The proofs are in Vfs/Normalize, Vfs/Escape and Vfs/Containment.
-- * Kernel/Fd (crates/core/src/fd.rs: FdTable), Kernel/Cpu (crates/core/src/cpu.rs: CpuContext),
--   Kernel/Decode (crates/core/src/syscall/mod.rs: decode), Kernel/Mach
--   (crates/core/src/syscall/mach.rs: handle, vm_allocate), Kernel/Unix
--   (crates/core/src/syscall/unix.rs: handle and every handler), Kernel/StubBinder
--   (crates/core/src/machine.rs: dyld_stub_binder), Kernel/Run (machine.rs: run, service_syscall
--   and service_trampoline; the dispatcher of syscall/mod.rs; the scripted executor of cpu.rs).
--   The proofs about descriptors are in Kernel/FdLaws, those about the run loop in
--   Kernel/RunStops.
-- * Hle/Runtime (crates/hle/src/objc/runtime.rs: ObjcRuntime).
-- * Macho/Reader, Macho/Consts, Macho/Image, Macho/Command, Macho/Parse
--   (crates/loader/src/macho/reader.rs, consts.rs and image.rs: Reader, MachOImage::parse,
--   select_fat_slice, parse_thin, parse_command and its arms). A method on `&mut self` returns the
--   reader or the image that it leaves. Macho/Bounds, Macho/Fits, Macho/CommandOutcome and
--   Macho/ParseOutcome say what the parser gives on any file; Macho/Written, Macho/Encoded,
--   Macho/PayloadRead and Macho/RoundTrip write a file and read it back.
-- * Ipa/Value, Ipa/Binary, Ipa/Scan, Ipa/Xml (crates/ipa/src/plist.rs: PlistValue, BinaryPlist,
--   module xml, parse), with what they use of the standard library in Ipa/Text16 and the proofs in
--   Ipa/BinaryLaws, Ipa/Cursor and Ipa/XmlLaws. The conversion of a decimal to an f64 is a
--   parameter, and the cursor of the XML parser is the list of the bytes from it on.
-- * Ipa/Discovery, with its constants in Ipa/Keys (crates/ipa/src/discovery.rs: inspect_ipa,
--   find_bundle_dir, read_entry, metadata_from_plist, pick_icon_name, icon_candidates,
--   default_executable_name). The names of an archive and the answers of the zip library are a
--   record; opening a file is a parameter. The proofs are in Ipa/DiscoveryLaws.
-- * Loader/Layout, Loader/Segments, Loader/Binds, Loader/Stubs, Loader/Stack, Loader/Process
--   (crates/core/src/loader.rs: LayoutConfig, ProcessImage, build_process step by step,
--   image_span, resolve_entry, build_stack), Loader/Machine (crates/core/src/machine.rs:
--   Machine::load). The proofs are in Loader/Keeps, Loader/Paired, Loader/Tables, Loader/Imports,
--   Loader/StackHolds, Loader/Builds and Loader/Slide; Common/Outcome has the postconditions they
--   are chained with.
-- * Tests and its children: the theorems at concrete inputs.
--
-- Conventions. Bytes, words and addresses are natural numbers, and the wrap-around of a u64 or u32
-- is written out; sums and shifts are those of a release build, where overflow is not checked. A
-- signed 64-bit number is its bit pattern. A text is the list of its UTF-8 bytes. A message that
-- the code formats keeps its fixed words only, and logging is left out. Hash maps are association
-- lists with the newest entry in front; an entry behind one of the same key is one that the map
-- has overwritten. Where a count in a file drives the growth of a Vec, the panic above isize::MAX
-- bytes is an outcome (capacity_overflow, panicked); a host that has less memory than that, on
-- which the allocation aborts, is not modelled. What is compiled for the Android target only is
-- not modelled; host files, directory handles, the clock, the creation of directories, the
-- executor and the environment of library calls are parameters.
--
-- Fuel. The opcode loop runs on the length of its stream, which is enough since each round takes a
-- byte; running out would show as the error out_of_fuel, which the lemmas of Dyld/BindLaws and
-- Dyld/RebaseLaws exclude. The depth limit of binary property lists is their fuel. The XML parser
-- runs on the number of bytes left and one more, since a value takes at least one byte;
-- skip_prologue-stops shows the same of its prologue. The search for a free descriptor runs on one
-- more than the largest descriptor in use, which is never taken. Trimming runs on the length of
-- the text, which each step shortens. The run loop has no bound of its own, so its fuel is an
-- argument; on a script of events one more turn than there are events is enough.
--
-- Not modelled: the reservation of native memory for a process on Android; the framework shims;
-- the scan of a directory for IPA archives and their extraction; the JNI session, the Android
-- front end, the native backend and logging.
pub mod Base
pub mod Common
pub mod Memory
pub mod Dyld
pub mod Vfs
pub mod Kernel
pub mod Hle
pub mod Macho
pub mod Loader
pub mod Ipa
mod Tests
