-- ===== src/Loader/Keeps.antt =====
-- crates/core/src/loader.rs: every step of `build_process` keeps the invariant of guest memory.
use emulator_ios_for_android.Base.{
  ℕ, zero, suc, ◌+◌, ◌-◌, ◌/◌, ◌<◌, ◌≡◌, refl, arith, max, ◌&&◌, Option, none, some, List, [], ◌∷◌,
  length, drop, length-take, length-drop, ltb, leb, ◌==◌, All, inl, inr, Bool-cases,
}
use emulator_ios_for_android.Common.Result.{EmuError, EmuResult, ok, err, ok_or}
use emulator_ios_for_android.Common.Outcome.{
  Outcome, gives, fails, Outcome-bind, Outcome-if, AnyError, Outcome-of,
}
use emulator_ios_for_android.Common.Addr.{GuestAddr, IsU64, wrapping_add, wrapping_add-lt}
use emulator_ios_for_android.Common.Endian.{to_le}
use emulator_ios_for_android.Common.Protection.{Protection, prot_rw, prot_rx}
use emulator_ios_for_android.Common.Utf8.{Text}
use emulator_ios_for_android.Dyld.Linker.{same_name, used}
use emulator_ios_for_android.Dyld.Rebase.{RebaseLocation, rebase_type_pointer, parse_rebase_info}
use emulator_ios_for_android.Memory.Region.{RegionKind, segment}
use emulator_ios_for_android.Memory.Guest.{GuestMemory, map_region, map_with_data, protect, write}
use emulator_ios_for_android.Memory.Typed.{read_u64, write_u64, write_u32}
use emulator_ios_for_android.Memory.Mapping.{
  IsValid, IsRoundable, map_region-Maps, map_with_data-Maps,
}
use emulator_ios_for_android.Memory.Protect.{protect-Shows}
use emulator_ios_for_android.Memory.ReadWrite.{write-Shows}
use emulator_ios_for_android.Macho.Image.{Segment, DyldInfo, MachOImage}
use emulator_ios_for_android.Loader.Layout.{get_range, segment_base, pagezero}
use emulator_ios_for_android.Loader.Segments.{
  file_data, map_segments, rebase_location, rebase_all, rebase_stream, rebase_image,
  final_protection, restore_protections,
}
use emulator_ios_for_android.Loader.Binds.{try_write_u64}
use emulator_ios_for_android.Loader.Stubs.{tramp_bytes, fill_brk, publish_stubs, stubs_name}

-- A computation that gives a valid memory, if it gives one.
abbrev pub Keeps : EmuResult GuestMemory → Type 0
Keeps r = Outcome AnyError IsValid r

module _ (mem : GuestMemory) (v : IsValid mem) where
  pub write-Keeps : (addr : ℕ) (src : List ℕ) → IsU64 addr → Keeps (write mem addr src)
  write-Keeps addr src u =
      Outcome-of (write mem addr src) (λ m e. (write-Shows mem m addr src v u e).0)

  pub write_u64-Keeps : (addr value : ℕ) → IsU64 addr → Keeps (write_u64 mem addr value)
  unfolding write_u64
  write_u64-Keeps addr value u = write-Keeps addr (to_le 8 value) u

  protect-Keeps : (addr : ℕ) (prot : Protection) → Keeps (protect mem addr prot)
  protect-Keeps addr prot =
      Outcome-of (protect mem addr prot) (λ m e. (protect-Shows mem m addr prot v e).0)

  pub map_region-Keeps :
      (base size : ℕ) (prot : Protection) (kind : RegionKind) (name : Text)
      → IsRoundable (max size 1)
      → Keeps (map_region mem base size prot kind name)
  map_region-Keeps base size prot kind name h =
      Outcome-of (map_region mem base size prot kind name)
        (λ m e. (map_region-Maps mem m base size prot kind name v h e).0)

  map_with_data-Keeps :
      (base size : ℕ) (init : List ℕ) (prot : Protection) (kind : RegionKind) (name : Text)
      → 0 < size
      → IsRoundable size
      → IsRoundable (length init)
      → Keeps (map_with_data mem base size init prot kind name)
  map_with_data-Keeps base size init prot kind name pos h k =
      Outcome-of (map_with_data mem base size init prot kind name) (λ m e.
        (map_with_data-Maps mem m base size init prot kind name v (omega arith) (omega arith) e).0)

-- The size of a segment can be rounded up to a page and is not 0, unless it is the guard.
abbrev pub IsLoadable : Segment → Type 0
IsLoadable s = (0 < s.vmsize) × IsRoundable s.vmsize

module _ (slide : ℕ) (bytes : List ℕ) (few : IsRoundable (length bytes)) where
  get_range-Short :
      (off end : ℕ) (e : EmuError)
      → Outcome AnyError (λ d. IsRoundable (length d)) (ok_or (get_range bytes off end) e)
  unfolding get_range
  get_range-Short off end e = elim (Bool-cases (leb off end && leb end (length bytes))) [
    | inl t ↦ rw t (
        gives (omega (arith, few, length-take (end - off) (drop off bytes), length-drop off bytes)))
    | inr f ↦ rw f (fails tt)
  ]

  file_data-Short :
      (s : Segment) → Outcome AnyError (λ d. IsRoundable (length d)) (file_data s bytes)
  unfolding file_data
  file_data-Short s =
      Outcome-if (ltb 0 s.filesize && leb (wrapping_add s.fileoff s.filesize) (length bytes))
        (λ t. get_range-Short s.fileoff (wrapping_add s.fileoff s.filesize) _)
        (λ f. gives (omega arith))

  pub map_segments-Keeps :
      (ss : List Segment) (mem : GuestMemory)
      → All IsLoadable ss
      → IsValid mem
      → Outcome AnyError (λ (bases, m). IsValid m) (map_segments slide bytes ss mem)
  unfolding map_segments
  map_segments-Keeps [] mem h v = gives v
  map_segments-Keeps (s ∷ ss) mem h v = elim (Bool-cases (same_name s.name pagezero)) [
    | inl t ↦
        rw (t, map_segments) (Outcome-bind (map_segments-Keeps ss mem h.1 v) λ (b, m) k. gives k)
    | inr f ↦
        rw (f, map_segments)
          (Outcome-bind (file_data-Short s) λ init short.
            Outcome-bind
              (map_with_data-Keeps mem v (wrapping_add s.vmaddr slide) s.vmsize init prot_rw segment
                s.name h.0.0 h.0.1 short)
              λ mem v. Outcome-bind (map_segments-Keeps ss mem h.1 v) λ (b, m) k. gives k)
  ]

-- A write whose failure is ignored keeps the invariant too.
pub try_write_u64-Keeps :
    (addr value : ℕ) (mem : GuestMemory)
    → IsU64 addr
    → IsValid mem
    → IsValid (try_write_u64 addr value mem)
unfolding try_write_u64
try_write_u64-Keeps addr value mem u v =
    kept (write_u64 mem addr value) mem v (write_u64-Keeps mem v addr value u)
  where
    kept :
        (r : EmuResult GuestMemory) (mem : GuestMemory)
        → IsValid mem
        → Keeps r
        → IsValid (elim r [ ok m ↦ m | err e ↦ mem ])
    kept (ok m) mem v (gives h) = h
    kept (err e) mem v h = v

module _ (slide : ℕ) (bytes : List ℕ) (bases : List (Option GuestAddr)) where
  rebased :
      (r : EmuResult ℕ) (target : ℕ) (mem : GuestMemory)
      → IsU64 target
      → IsValid mem
      → Keeps (elim r [ ok x ↦ write_u64 mem target (wrapping_add x slide) | err e ↦ ok mem ])
  rebased (ok x) target mem u v = write_u64-Keeps mem v target (wrapping_add x slide) u
  rebased (err e) target mem u v = gives v

  rebase_location-Keeps :
      (l : RebaseLocation) (mem : GuestMemory)
      → IsValid mem
      → Keeps (rebase_location slide bytes bases l mem)
  unfolding rebase_location
  rebase_location-Keeps l mem v =
      Outcome-if (l.rtype == rebase_type_pointer) (λ t. at_base (segment_base bases l.seg_index))
        (λ f. gives v)
    where
      at_base :
          (o : Option GuestAddr)
          → Keeps (elim o [
            | none ↦ ok mem
            | some base ↦ elim (read_u64 mem (wrapping_add base l.seg_offset)) [
              | ok x ↦ write_u64 mem (wrapping_add base l.seg_offset) (wrapping_add x slide)
              | err e ↦ ok mem
            ]
          ])
      at_base none = gives v
      at_base (some base) =
          rebased (read_u64 mem (wrapping_add base l.seg_offset)) (wrapping_add base l.seg_offset)
            mem (wrapping_add-lt base l.seg_offset) v

  rebase_all-Keeps :
      (ls : List RebaseLocation) (mem : GuestMemory)
      → IsValid mem
      → Keeps (rebase_all slide bytes bases ls mem)
  unfolding rebase_all
  rebase_all-Keeps [] mem v = gives v
  rebase_all-Keeps (l ∷ ls) mem v =
      Outcome-bind (rebase_location-Keeps l mem v) λ mem v. rebase_all-Keeps ls mem v

  rebase_stream-Keeps :
      (info : DyldInfo) (mem : GuestMemory)
      → IsValid mem
      → Keeps (rebase_stream slide bytes bases info mem)
  unfolding rebase_stream
  rebase_stream-Keeps info mem v =
      Outcome-if (info.rebase_size == 0) (λ t. gives v)
        λ f. Outcome-bind (Outcome-of {P = λ s. Unit} _ (λ s e. tt)) λ stream u.
          Outcome-bind (Outcome-of {P = λ s. Unit} (parse_rebase_info stream) (λ s e. tt))
            λ ls u. rebase_all-Keeps ls mem v

  pub rebase_image-Keeps :
      (img : MachOImage) (mem : GuestMemory)
      → IsValid mem
      → Keeps (rebase_image slide bytes bases img mem)
  unfolding rebase_image
  rebase_image-Keeps img mem v =
      Outcome-if (slide == 0) (λ t. gives v) (λ f. with_info img.dyld_info)
    where
      with_info :
          (o : Option DyldInfo)
          → Keeps (elim o [ none ↦ ok mem | some info ↦ rebase_stream slide bytes bases info mem ])
      with_info none = gives v
      with_info (some info) = rebase_stream-Keeps info mem v

pub restore_protections-Keeps :
    (ss : List Segment) (bases : List (Option GuestAddr)) (mem : GuestMemory)
    → IsValid mem
    → Keeps (restore_protections ss bases mem)
unfolding restore_protections
restore_protections-Keeps [] bases mem v = gives v
restore_protections-Keeps (s ∷ ss) [] mem v = gives v
restore_protections-Keeps (s ∷ ss) (none ∷ bases) mem v = restore_protections-Keeps ss bases mem v
restore_protections-Keeps (s ∷ ss) (some base ∷ bases) mem v =
    Outcome-bind (protect-Keeps mem v base (final_protection s))
      λ mem v. restore_protections-Keeps ss bases mem v

fill_brk-Keeps :
    (n base off : ℕ) (mem : GuestMemory) → IsValid mem → Keeps (fill_brk n base off mem)
unfolding fill_brk write_u32
fill_brk-Keeps zero base off mem v = gives v
fill_brk-Keeps (suc n) base off mem v =
    Outcome-bind (write-Keeps mem v (wrapping_add base off) _ (wrapping_add-lt base off))
      λ mem v. fill_brk-Keeps n base (off + 4) mem v

pub publish_stubs-Keeps :
    (base used : ℕ) (mem : GuestMemory)
    → IsRoundable (tramp_bytes used)
    → IsValid mem
    → Outcome AnyError
        (λ (end, m). IsValid m × (end ≡ wrapping_add base (tramp_bytes used)))
        (publish_stubs base used mem)
unfolding publish_stubs
publish_stubs-Keeps base used mem h v =
    Outcome-bind
      (map_region-Keeps mem v base (tramp_bytes used) prot_rw segment stubs_name (omega arith))
      λ mem v.
        Outcome-bind (fill_brk-Keeps ((tramp_bytes used + 3) / 4) base 0 mem v)
          λ mem v. Outcome-bind (protect-Keeps mem v base prot_rx) λ mem v. gives (v, refl)
