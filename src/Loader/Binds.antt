-- ===== src/Loader/Binds.antt =====
-- crates/core/src/loader.rs, steps 2 and 8 of `build_process`: imports are bound to trampolines,
-- and the table for the lazy binder is made.
use emulator_ios_for_android.Base.{ℕ, Option, none, some, List, [], ◌∷◌, ◌==◌, if◌then◌else◌}
use emulator_ios_for_android.Common.Result.{EmuResult, dyld, ok, err, ok_or, ◌>>=◌}
use emulator_ios_for_android.Common.Addr.{GuestAddr, wrapping_add}
use emulator_ios_for_android.Common.Utf8.{Text}
use emulator_ios_for_android.Dyld.Linker.{StubResolver, resolve}
use emulator_ios_for_android.Dyld.Bind.{BindRecord, parse_bind_info}
use emulator_ios_for_android.Dyld.LazyBind.{LazyBind, parse_lazy_bind_info}
use emulator_ios_for_android.Memory.Guest.{GuestMemory}
use emulator_ios_for_android.Memory.Typed.{write_u64}
use emulator_ios_for_android.Macho.Image.{DyldInfo, MachOImage}
use emulator_ios_for_android.Loader.Layout.{get_range, u32_add, segment_base}

-- A write whose failure is only logged.
unfoldable pub try_write_u64 : GuestAddr → ℕ → GuestMemory → GuestMemory
unfolding write_u64
try_write_u64 addr v mem = elim (write_u64 mem addr v) [ ok mem' ↦ mem' | err e ↦ mem ]

module _ (bytes : List ℕ) (bases : List (Option GuestAddr)) where
  unfoldable pub bind_record : BindRecord → GuestMemory × StubResolver → GuestMemory × StubResolver
  unfolding segment_base wrapping_add resolve try_write_u64
  bind_record b (mem, r) = elim (segment_base bases b.seg_index) [
    | none ↦ (mem, r)
    | some base ↦
        let target = wrapping_add base b.seg_offset in
        let (found, r') = resolve b.symbol r in
        elim found [
          | some tramp ↦ (try_write_u64 target (wrapping_add tramp b.addend) mem, r')
          | none ↦ (if b.weak then try_write_u64 target 0 mem else mem, r')
        ]
  ]

  unfoldable pub bind_all :
      List BindRecord → GuestMemory × StubResolver → GuestMemory × StubResolver
  unfolding bind_record
  bind_all [] s = s
  bind_all (b ∷ bs) s = bind_all bs (bind_record b s)

  unfoldable pub bind_stream :
      ℕ → ℕ → GuestMemory × StubResolver → EmuResult (GuestMemory × StubResolver)
  unfolding bind_all get_range u32_add parse_bind_info
  bind_stream off size s =
      if size == 0
      then ok s
      else ok_or (get_range bytes off (u32_add off size)) (dyld "bind stream out of range")
        >>= λ stream. parse_bind_info stream >>= λ records. ok (bind_all records s)

  -- Step 2: the eager stream, then the lazy one.
  unfoldable pub bind_image :
      MachOImage → GuestMemory × StubResolver → EmuResult (GuestMemory × StubResolver)
  unfolding bind_stream
  bind_image img s = elim img.dyld_info [
    | none ↦ ok s
    | some info ↦ do
      s ← bind_stream info.bind_off info.bind_size s
      bind_stream info.lazy_bind_off info.lazy_bind_size s
  ]

  unfoldable pub lazy_entries :
      List LazyBind → List (ℕ × (Text × GuestAddr)) → List (ℕ × (Text × GuestAddr))
  unfolding segment_base wrapping_add
  lazy_entries [] table = table
  lazy_entries (l ∷ ls) table = lazy_entries ls (elim (segment_base bases l.seg_index) [
    | none ↦ table
    | some base ↦ (l.offset, (l.symbol, wrapping_add base l.seg_offset)) ∷ table
  ])

  unfoldable pub lazy_stream : DyldInfo → EmuResult (List (ℕ × (Text × GuestAddr)))
  unfolding lazy_entries get_range u32_add parse_lazy_bind_info
  lazy_stream info =
      if info.lazy_bind_size == 0
      then ok []
      else ok_or
          (get_range bytes info.lazy_bind_off (u32_add info.lazy_bind_off info.lazy_bind_size))
          (dyld "lazy bind stream out of range")
        >>= λ stream. parse_lazy_bind_info stream >>= λ binds. ok (lazy_entries binds [])

  -- Step 8.
  unfoldable pub lazy_table : MachOImage → EmuResult (List (ℕ × (Text × GuestAddr)))
  unfolding lazy_stream
  lazy_table img = elim img.dyld_info [ none ↦ ok [] | some info ↦ lazy_stream info ]
