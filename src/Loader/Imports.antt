-- ===== src/Loader/Imports.antt =====
-- crates/core/src/loader.rs, steps 1 and 2 of `build_process`: where the segments come to lie, and
-- that every import of a mapped segment has a trampoline.
use emulator_ios_for_android.Base.{
  ℕ, ◌≡◌, refl, ap, Bool, true, false, Option, none, some, List, [], ◌∷◌, ◌==◌, if◌then◌else◌, inl,
  inr, Option-cases, Bool-cases, All,
}
use emulator_ios_for_android.Common.Result.{EmuResult, dyld, ok, err, ok_or, ◌>>=◌}
use emulator_ios_for_android.Common.Outcome.{
  Outcome, gives, fails, Outcome-bind, AnyError, Outcome-of,
}
use emulator_ios_for_android.Common.Addr.{GuestAddr, wrapping_add}
use emulator_ios_for_android.Common.Utf8.{Text}
use emulator_ios_for_android.Dyld.Linker.{same_name, find_forward, StubResolver, resolve}
use emulator_ios_for_android.Dyld.LinkerLaws.{same_name_refl}
use emulator_ios_for_android.Dyld.Bind.{BindRecord, parse_bind_info}
use emulator_ios_for_android.Memory.Guest.{GuestMemory}
use emulator_ios_for_android.Macho.Image.{Segment, DyldInfo, MachOImage}
use emulator_ios_for_android.Loader.Layout.{segment_base, get_range, u32_add, pagezero}
use emulator_ios_for_android.Common.Protection.{prot_rw}
use emulator_ios_for_android.Memory.Region.{segment}
use emulator_ios_for_android.Memory.Guest.{map_with_data}
use emulator_ios_for_android.Loader.Segments.{map_segments, file_data}
use emulator_ios_for_android.Loader.Binds.{
  try_write_u64, bind_record, bind_all, bind_stream, bind_image,
}

-- Where the segments lie: at their address and the slide, `__PAGEZERO` nowhere.
unfoldable pub slid_bases : ℕ → List Segment → List (Option GuestAddr)
slid_bases slide [] = []
slid_bases slide (s ∷ ss) =
    (if same_name s.name pagezero then none else some (wrapping_add s.vmaddr slide))
    ∷ slid_bases slide ss

pub map_segments-slid :
    (slide : ℕ) (bytes : List ℕ) (ss : List Segment) (mem : GuestMemory)
    → Outcome AnyError (λ (bases, m). bases ≡ slid_bases slide ss) (map_segments slide bytes ss mem)
unfolding map_segments slid_bases
map_segments-slid slide bytes [] mem = gives refl
map_segments-slid slide bytes (s ∷ ss) mem = elim (Bool-cases (same_name s.name pagezero)) [
  | inl t ↦
      rw (t, map_segments, slid_bases)
        (Outcome-bind (map_segments-slid slide bytes ss mem)
          λ (b, m) e. gives (ap (λ bs. none ∷ bs) e))
  | inr f ↦
      rw (f, map_segments, slid_bases)
        (Outcome-bind (Outcome-of {P = λ i. Unit} (file_data s bytes) (λ i e. tt)) λ init u.
          Outcome-bind
            (Outcome-of {P = λ m. Unit}
              (map_with_data mem (wrapping_add s.vmaddr slide) s.vmsize init prot_rw segment s.name)
              (λ m e. tt))
            λ mem u.
              Outcome-bind (map_segments-slid slide bytes ss mem)
                λ (b, m) e. gives (ap (λ bs. some (wrapping_add s.vmaddr slide) ∷ bs) e))
]

abbrev pub is_found : Option ℕ → Bool
is_found none = false
is_found (some a) = true

-- The symbol has a trampoline.
abbrev pub HasStub : List (Text × ℕ) → Text → Type 0
HasStub stubs symbol = is_found (find_forward stubs symbol) ≡ true

-- The symbol has one if its segment is mapped.
abbrev pub StubAt : List (Text × ℕ) → Text → Option GuestAddr → Type 0
StubAt stubs symbol none = Unit
StubAt stubs symbol (some base) = HasStub stubs symbol

resolve-keeps :
    (symbol other : Text) (r : StubResolver)
    → HasStub r.forward other
    → HasStub (resolve symbol r).1.forward other
unfolding resolve find_forward
resolve-keeps symbol other r h = elim (Option-cases (find_forward r.forward symbol)) [
  | inr (a, e) ↦ rw (e, resolve) h
  | inl e ↦ rw (e, resolve) (newer (same_name symbol other))
]
  where
    newer : (b : Bool) → is_found (if b then some r.next else find_forward r.forward other) ≡ true
    newer true = refl
    newer false = h

resolve-HasStub : (symbol : Text) (r : StubResolver) → HasStub (resolve symbol r).1.forward symbol
unfolding resolve find_forward
resolve-HasStub symbol r = elim (Option-cases (find_forward r.forward symbol)) [
  | inr (a, e) ↦ rw (e, resolve) (rw e refl)
  | inl e ↦ rw (e, resolve) (rw (same_name_refl symbol) refl)
]

-- The records of a stream; none if it is empty or cannot be read.
unfoldable pub records_of : List ℕ → ℕ → ℕ → List BindRecord
unfolding get_range u32_add parse_bind_info
records_of bytes off size =
    if size == 0 then [] else elim (get_range bytes off (u32_add off size)) [
      | none ↦ []
      | some stream ↦ elim (parse_bind_info stream) [ ok records ↦ records | err e ↦ [] ]
    ]

module _ (bytes : List ℕ) (bases : List (Option GuestAddr)) where
  -- A record of a mapped segment has a trampoline for its symbol.
  abbrev pub IsStubbed : List (Text × ℕ) → BindRecord → Type 0
  IsStubbed stubs b = StubAt stubs b.symbol (segment_base bases b.seg_index)

  -- The records of both streams have.
  abbrev pub StreamsStubbed : List (Text × ℕ) → Option DyldInfo → Type 0
  StreamsStubbed stubs none = Unit
  StreamsStubbed stubs (some info) =
      All (IsStubbed stubs) (records_of bytes info.bind_off info.bind_size)
      × All (IsStubbed stubs) (records_of bytes info.lazy_bind_off info.lazy_bind_size)

  abbrev pub AreStubbed : MachOImage → List (Text × ℕ) → Type 0
  AreStubbed img stubs = StreamsStubbed stubs img.dyld_info

  written :
      (b : BindRecord) (symbol : Text) (target : ℕ) (mem : GuestMemory) (o : Option ℕ)
      (r : StubResolver)
      → HasStub r.forward symbol
      → HasStub
          (elim o as (λ _. GuestMemory × StubResolver) [
            | some tramp ↦ (try_write_u64 target (wrapping_add tramp b.addend) mem, r)
            | none ↦ (if b.weak then try_write_u64 target 0 mem else mem, r)
          ]).1.forward
          symbol
  written b symbol target mem (some tramp) r h = h
  written b symbol target mem none r h = h

  bind_record-keeps :
      (b : BindRecord) (symbol : Text) (mem : GuestMemory) (r : StubResolver)
      → HasStub r.forward symbol
      → HasStub (bind_record bytes bases b (mem, r)).1.forward symbol
  unfolding bind_record
  bind_record-keeps b symbol mem r h = elim (Option-cases (segment_base bases b.seg_index)) [
    | inl e ↦ rw (e, bind_record) h
    | inr (base, e) ↦
        rw (e, bind_record)
          (written b symbol (wrapping_add base b.seg_offset) mem (resolve b.symbol r).0
            (resolve b.symbol r).1 (resolve-keeps b.symbol symbol r h))
  ]

  bind_record-HasStub :
      (b : BindRecord) (o : Option GuestAddr) (mem : GuestMemory) (r : StubResolver)
      → segment_base bases b.seg_index ≡ o
      → StubAt (bind_record bytes bases b (mem, r)).1.forward b.symbol o
  unfolding bind_record
  bind_record-HasStub b none mem r e = tt
  bind_record-HasStub b (some base) mem r e =
      rw (e, bind_record)
        (written b b.symbol (wrapping_add base b.seg_offset) mem (resolve b.symbol r).0
          (resolve b.symbol r).1 (resolve-HasStub b.symbol r))

  bind_all-keeps :
      (bs : List BindRecord) (symbol : Text) (o : Option GuestAddr) (s : GuestMemory × StubResolver)
      → StubAt s.1.forward symbol o
      → StubAt (bind_all bytes bases bs s).1.forward symbol o
  unfolding bind_all
  bind_all-keeps bs symbol none s h = tt
  bind_all-keeps [] symbol (some base) s h = h
  bind_all-keeps (b ∷ bs) symbol (some base) s h =
      bind_all-keeps bs symbol (some base) _ (bind_record-keeps b symbol s.0 s.1 h)

  bind_all-AreStubbed :
      (bs : List BindRecord) (s : GuestMemory × StubResolver)
      → All (IsStubbed (bind_all bytes bases bs s).1.forward) bs
  unfolding bind_all
  bind_all-AreStubbed [] s = tt
  bind_all-AreStubbed (b ∷ bs) s = (
    bind_all-keeps bs b.symbol (segment_base bases b.seg_index) (bind_record bytes bases b s)
        (bind_record-HasStub b (segment_base bases b.seg_index) s.0 s.1 refl),
    bind_all-AreStubbed bs (bind_record bytes bases b s),
  )

  all_kept :
      (bs rs : List BindRecord) (s : GuestMemory × StubResolver)
      → All (IsStubbed s.1.forward) rs
      → All (IsStubbed (bind_all bytes bases bs s).1.forward) rs
  all_kept bs [] s h = tt
  all_kept bs (b ∷ rs) s (h, k) =
      (bind_all-keeps bs b.symbol (segment_base bases b.seg_index) s h, all_kept bs rs s k)

  -- What a stream does: its own records are bound, and those that were bound stay so.
  bind_stream-AreStubbed :
      (off size : ℕ) (rs : List BindRecord) (s : GuestMemory × StubResolver)
      → All (IsStubbed s.1.forward) rs
      → Outcome AnyError
          (λ (m, r).
            All (IsStubbed r.forward) rs × All (IsStubbed r.forward) (records_of bytes off size))
          (bind_stream bytes bases off size s)
  unfolding bind_stream records_of
  bind_stream-AreStubbed off size rs s h = elim (Bool-cases (size == 0)) [
    | inl e ↦ rw (e, bind_stream, records_of) (gives (h, tt))
    | inr e ↦ rw (e, bind_stream, records_of) (located (get_range bytes off (u32_add off size)))
  ]
    where
      parsed :
          (r : EmuResult (List BindRecord))
          → Outcome AnyError
              (λ (m, t).
                All (IsStubbed t.forward) rs
                × All
                    (IsStubbed t.forward)
                    (elim r as (λ _. List BindRecord) [ ok records ↦ records | err e ↦ [] ]))
              (r >>= λ records. ok (bind_all bytes bases records s))
      parsed (ok bs) = gives (all_kept bs rs s h, bind_all-AreStubbed bs s)
      parsed (err e) = fails tt

      located :
          (p : Option (List ℕ))
          → Outcome AnyError
              (λ (m, t).
                All (IsStubbed t.forward) rs
                × All (IsStubbed t.forward) (elim p as (λ _. List BindRecord) [
                  | none ↦ []
                  | some stream ↦ elim (parse_bind_info stream) as (λ _. List BindRecord) [
                    | ok records ↦ records
                    | err e ↦ []
                  ]
                ]))
              (ok_or p (dyld "bind stream out of range") >>= λ stream.
                parse_bind_info stream >>= λ records. ok (bind_all bytes bases records s))
      located none = fails tt
      located (some stream) = parsed (parse_bind_info stream)

  pub bind_image-AreStubbed :
      (img : MachOImage) (s : GuestMemory × StubResolver)
      → Outcome AnyError (λ (m, r). AreStubbed img r.forward) (bind_image bytes bases img s)
  unfolding bind_image
  bind_image-AreStubbed img s = with_info img.dyld_info
    where
      with_info :
          (o : Option DyldInfo)
          → Outcome AnyError
              (λ (m, r). StreamsStubbed r.forward o)
              (elim o [
                | none ↦ ok s
                | some info ↦ bind_stream bytes bases info.bind_off info.bind_size s >>= λ s.
                    bind_stream bytes bases info.lazy_bind_off info.lazy_bind_size s
              ])
      with_info none = gives tt
      with_info (some info) =
          Outcome-bind (bind_stream-AreStubbed info.bind_off info.bind_size [] s tt)
            λ s (u, h). bind_stream-AreStubbed info.lazy_bind_off info.lazy_bind_size _ s h
