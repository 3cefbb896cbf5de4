-- ===== src/Loader/Paired.antt =====
-- crates/core/src/loader.rs: binding keeps the invariant of guest memory, and the two tables of the
-- resolver hold the same pairs.
use emulator_ios_for_android.Base.{
  ℕ, ◌≡◌, refl, ap, Bool, true, false, Option, none, some, List, [], ◌∷◌, ◌==◌, if◌then◌else◌, inl,
  inr, Option-cases,
}
use emulator_ios_for_android.Common.Result.{EmuResult, dyld, ok, err, ok_or, ◌>>=◌}
use emulator_ios_for_android.Common.Outcome.{
  Outcome, gives, fails, Outcome-bind, Outcome-if, AnyError, Outcome-of,
}
use emulator_ios_for_android.Common.Addr.{GuestAddr, IsU64, wrapping_add, wrapping_add-lt}
use emulator_ios_for_android.Common.Utf8.{Text}
use emulator_ios_for_android.Dyld.Linker.{find_forward, StubResolver, new_resolver, resolve}
use emulator_ios_for_android.Dyld.LinkerLaws.{swapped}
use emulator_ios_for_android.Dyld.Bind.{BindRecord, parse_bind_info}
use emulator_ios_for_android.Memory.Guest.{GuestMemory}
use emulator_ios_for_android.Memory.Mapping.{IsValid}
use emulator_ios_for_android.Macho.Image.{DyldInfo, MachOImage}
use emulator_ios_for_android.Loader.Layout.{segment_base, get_range, u32_add}
use emulator_ios_for_android.Loader.Binds.{
  try_write_u64, bind_record, bind_all, bind_stream, bind_image,
}
use emulator_ios_for_android.Loader.Tables.{IsOwned, resolve-IsOwned}
use emulator_ios_for_android.Loader.Keeps.{try_write_u64-Keeps}

-- The table of the executor is the table of the symbols, the other way round, and no name has two
-- entries.
abbrev pub IsPaired : StubResolver → Type 0
IsPaired r = (r.reverse ≡ swapped r.forward) × IsOwned r

pub new_resolver-IsPaired : (base stride : ℕ) → IsPaired (new_resolver base stride)
unfolding new_resolver swapped
new_resolver-IsPaired base stride = (refl, tt)

resolve-IsPaired : (symbol : Text) (r : StubResolver) → IsPaired r → IsPaired (resolve symbol r).1
unfolding resolve swapped
resolve-IsPaired symbol r (h, k) = (
  elim (Option-cases (find_forward r.forward symbol)) [
    | inl e ↦ rw (e, resolve) (ap (λ t. (r.next, symbol) ∷ t) h)
    | inr (a, e) ↦ rw (e, resolve) h
  ],
  resolve-IsOwned symbol r k,
)

-- A valid memory and paired tables.
abbrev pub IsBound : GuestMemory × StubResolver → Type 0
IsBound (mem, r) = IsValid mem × IsPaired r

module _ (bytes : List ℕ) (bases : List (Option GuestAddr)) where
  resolved :
      (b : BindRecord) (target : ℕ) (mem : GuestMemory) (o : Option ℕ) (r : StubResolver)
      → IsU64 target
      → IsBound (mem, r)
      → IsBound (elim o [
        | some tramp ↦ (try_write_u64 target (wrapping_add tramp b.addend) mem, r)
        | none ↦ (if b.weak then try_write_u64 target 0 mem else mem, r)
      ])
  resolved b target mem (some tramp) r u h = (try_write_u64-Keeps target _ mem u h.0, h.1)
  resolved b target mem none r u h = (weakly b.weak, h.1)
    where
      weakly : (w : Bool) → IsValid (if w then try_write_u64 target 0 mem else mem)
      weakly true = try_write_u64-Keeps target 0 mem u h.0
      weakly false = h.0

  bind_record-IsBound :
      (b : BindRecord) (mem : GuestMemory) (r : StubResolver)
      → IsBound (mem, r)
      → IsBound (bind_record bytes bases b (mem, r))
  unfolding bind_record
  bind_record-IsBound b mem r h = elim (Option-cases (segment_base bases b.seg_index)) [
    | inl e ↦ rw (e, bind_record) h
    | inr (base, e) ↦
        rw (e, bind_record)
          (resolved b (wrapping_add base b.seg_offset) mem (resolve b.symbol r).0
            (resolve b.symbol r).1 (wrapping_add-lt base b.seg_offset)
            (h.0, resolve-IsPaired b.symbol r h.1))
  ]

  bind_all-IsBound :
      (bs : List BindRecord) (s : GuestMemory × StubResolver)
      → IsBound s
      → IsBound (bind_all bytes bases bs s)
  unfolding bind_all
  bind_all-IsBound [] s h = h
  bind_all-IsBound (b ∷ bs) s h = bind_all-IsBound bs _ (bind_record-IsBound b s.0 s.1 h)

  bound_records :
      (stream : List ℕ) (s : GuestMemory × StubResolver)
      → IsBound s
      → Outcome AnyError IsBound
          (parse_bind_info stream >>= λ records. ok (bind_all bytes bases records s))
  bound_records stream s h = done (parse_bind_info stream)
    where
      done :
          (r : EmuResult (List BindRecord))
          → Outcome AnyError IsBound (r >>= λ records. ok (bind_all bytes bases records s))
      done (ok bs) = gives (bind_all-IsBound bs s h)
      done (err e) = fails tt

  bind_stream-IsBound :
      (off size : ℕ) (s : GuestMemory × StubResolver)
      → IsBound s
      → Outcome AnyError IsBound (bind_stream bytes bases off size s)
  unfolding bind_stream
  bind_stream-IsBound off size s h =
      Outcome-if (size == 0) (λ t. gives h)
        λ f.
          Outcome-bind
            (Outcome-of {P = λ p. Unit}
              (ok_or (get_range bytes off (u32_add off size)) (dyld "bind stream out of range"))
              (λ p e. tt))
            λ stream u. bound_records stream s h

  pub bind_image-IsBound :
      (img : MachOImage) (s : GuestMemory × StubResolver)
      → IsBound s
      → Outcome AnyError IsBound (bind_image bytes bases img s)
  unfolding bind_image
  bind_image-IsBound img s h = with_info img.dyld_info
    where
      with_info :
          (o : Option DyldInfo)
          → Outcome AnyError IsBound (elim o [
            | none ↦ ok s
            | some info ↦ bind_stream bytes bases info.bind_off info.bind_size s >>= λ s.
                bind_stream bytes bases info.lazy_bind_off info.lazy_bind_size s
          ])
      with_info none = gives h
      with_info (some info) =
          Outcome-bind (bind_stream-IsBound info.bind_off info.bind_size s h)
            λ s h. bind_stream-IsBound info.lazy_bind_off info.lazy_bind_size s h
