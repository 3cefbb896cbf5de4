-- ===== src/Memory/Mapping.antt =====
-- Mapping new regions: `map`, `map_with_data`, `mmap_anon` and `new`.
use emulator_ios_for_android.Base.{
  ℕ, ◌+◌, ◌-◌, ◌%◌, ◌≤◌, ◌<◌, ◌≡◌, refl, arith, true, Option, some, List, length, ltb,
  if◌then◌else◌, inl, inr, Bool-cases, get_elem?, max, ◌++◌, replicate, length-replicate,
  length-append, get_elem?-replicate, get_elem?-append_left, get_elem?-append_right, ltb→lt, ltb→ge,
  ge→ltb, false, ap, sym, ◌∙◌,
}
use mathlib.Core.Path.{subst, subst₂}
use emulator_ios_for_android.Common.Utf8.{Text}
use emulator_ios_for_android.Common.Result.{ok, ◌>>=◌, EmuResult, >>=-eq-ok, ok-injective}
use emulator_ios_for_android.Common.Addr.{u64_mod}
use emulator_ios_for_android.Common.Protection.{Protection}
use emulator_ios_for_android.Common.Align.{
  page_size, align_up, align_up_least, align_down, align_down_pow,
}
use emulator_ios_for_android.Memory.Region.{Region, RegionKind, anonymous, new_zeroed, new_from}
use emulator_ios_for_android.Memory.RegionMap.{RegionMap, insert}
use emulator_ios_for_android.Memory.Guest.{
  GuestMemory, check_free, map_region, map_with_data, mmap_anon, mmap_name,
}
use emulator_ios_for_android.Memory.Spread.{IsSpread}
use emulator_ios_for_android.Memory.CheckFree.{check_free_iff}
use emulator_ios_for_android.Memory.Bytes.{byte_at, is_within, insert_free}

-- The invariant of guest memory: its regions are sorted, disjoint and inside the address space.
-- and the cursor of anonymous mappings stands on a page.
pub record IsValid (mem : GuestMemory) : Type 0 where
  pub spread : IsSpread 0 mem.regions
  pub cursor_page : mem.mmap_cursor % 0x4000 ≡ 0
  pub cursor_fits : mem.mmap_cursor < u64_mod

-- The sizes that rounding up to a page does not wrap.
abbrev pub IsRoundable : ℕ → Type 0
IsRoundable size = size + 0x3fff < u64_mod

pub page_ceil :
    (size : ℕ)
    → IsRoundable size
    → (size ≤ align_up size page_size) × (align_up size page_size % 0x4000 ≡ 0)
page_ceil size h = let (a, b, c) = align_up_least 14 50 size refl h in (b, a)

-- What a memory `mem'` shows after a span of `size` bytes from `base` on was set to `content`.
abbrev pub Shows : RegionMap → RegionMap → ℕ → ℕ → (ℕ → Option ℕ) → Type 0
Shows m m' base size content =
    (a : ℕ) → byte_at m' a ≡ (if is_within base size a then content (a - base) else byte_at m a)

-- What mapping `[base, base + size)` with `content` makes of a memory.
abbrev pub Maps : GuestMemory → ℕ → ℕ → (ℕ → Option ℕ) → GuestMemory → Type 0
Maps mem base size content mem' = IsValid mem' × Shows mem.regions mem'.regions base size content

module _ (mem : GuestMemory) (r : Region) (v : IsValid mem) where
  insert-Maps :
      0 < length r.bytes
      → check_free mem.regions r.base (length r.bytes) ≡ ok tt
      → Maps mem r.base
          (length r.bytes)
          (get_elem? r.bytes)
          (record mem { regions = insert r.base r mem.regions })
  insert-Maps pos free =
      let fits : r.base + length r.bytes < u64_mod =
        ((check_free_iff mem.regions r.base (length r.bytes) v.spread).0 free).0 in
      let (spread, view) = insert_free mem.regions r.base r v.spread (refl, pos, fits) free in
      (record { spread = spread; cursor_page = v.cursor_page; cursor_fits = v.cursor_fits }, view)

  insert_sized-Maps :
      (n : ℕ)
      → length r.bytes ≡ n
      → 0 < n
      → check_free mem.regions r.base n ≡ ok tt
      → Maps mem r.base n (get_elem? r.bytes) (record mem { regions = insert r.base r mem.regions })
  insert_sized-Maps n l =
      subst
        (λ k.
          0 < k
          → check_free mem.regions r.base k ≡ ok tt
          → Maps mem r.base k (get_elem? r.bytes)
              (record mem { regions = insert r.base r mem.regions }))
        l insert-Maps

within-index : (base size a : ℕ) → is_within base size a ≡ true → a - base < size
within-index base size a h = ground arith

zeros-index : (n i : ℕ) → i < n → get_elem? {A = ℕ} (replicate n 0) i ≡ some 0
zeros-index n i h = get_elem?-replicate n i 0 h

-- The content of a map can be given by any function that agrees inside it.
Maps-content :
    (mem mem' : GuestMemory) (base size : ℕ) (f g : ℕ → Option ℕ)
    → ((i : ℕ) → i < size → f i ≡ g i)
    → Maps mem base size f mem'
    → Maps mem base size g mem'
Maps-content mem mem' base size f g same h =
    (h.0, λ a. ground (arith, h.1 a, within-index base size a, same (a - base)))

-- `map` with a size that can be rounded: on success the rounded span was free, it now reads as
-- zeros, every other address is as before, and the invariant holds.
pub map_region-Maps :
    (mem mem' : GuestMemory) (base size : ℕ) (prot : Protection) (kind : RegionKind) (name : Text)
    → IsValid mem
    → IsRoundable (max size 1)
    → map_region mem base size prot kind name ≡ ok mem'
    → Maps mem base (align_up (max size 1) page_size) (λ i. some 0) mem'
unfolding map_region new_zeroed
map_region-Maps mem mem' base size prot kind name v h e =
    let n : ℕ = align_up (max size 1) page_size in
    let r : Region = new_zeroed base n prot kind name in
    let (_, free, result) =
      >>=-eq-ok (check_free mem.regions base n)
        (λ _. ok (record mem { regions = insert base r mem.regions })) e in
    let mapped : Maps mem base n (get_elem? (replicate n 0))
        (record mem { regions = insert base r mem.regions }) =
      insert_sized-Maps mem r v n (length-replicate n 0) (omega (arith, page_ceil (max size 1) h))
        free in
    subst (Maps mem base n (λ i. some 0)) (ok-injective result)
      (Maps-content mem _ base n (get_elem? (replicate n 0)) (λ i. some 0) (zeros-index n) mapped)

-- The content of a region that is initialised from `init`: the tail is zero.
abbrev pub padded : List ℕ → ℕ → Option ℕ
padded init i = if ltb i (length init) then get_elem? init i else some 0

padded-index :
    (init : List ℕ) (n i : ℕ)
    → i < n
    → get_elem? (init ++ replicate (n - length init) 0) i ≡ padded init i
padded-index init n i h = elim (Bool-cases (ltb i (length init))) [
  | inl before ↦ rw before (get_elem?-append_left init _ i (ltb→lt _ _ before))
  | inr after ↦
      let split : i ≡ length init + (i - length init) = omega (arith, ltb→ge _ _ after) in
      rw after (
        ap (get_elem? (init ++ replicate (n - length init) 0)) split
        ∙ get_elem?-append_right init _ (i - length init)
        ∙ zeros-index (n - length init) (i - length init) (omega (arith, ltb→ge _ _ after)))
]

-- `map_with_data` on a valid memory, where the greater of the size and the number of bytes is not 0
-- and can be rounded up to a page: on success the span, of that many bytes rounded up, reads as the
-- given bytes and then zeros.
pub map_with_data-Maps :
    (mem mem' : GuestMemory) (base size : ℕ) (init : List ℕ) (prot : Protection) (kind : RegionKind)
    (name : Text)
    → IsValid mem
    → 0 < max size (length init)
    → IsRoundable (max size (length init))
    → map_with_data mem base size init prot kind name ≡ ok mem'
    → Maps mem base (align_up (max size (length init)) page_size) (padded init) mem'
unfolding map_with_data new_from
map_with_data-Maps mem mem' base size init prot kind name v pos h e =
    let n : ℕ = align_up (max size (length init)) page_size in
    let r : Region = record {
      base = base;
      prot = prot;
      kind = kind;
      name = name;
      bytes = init ++ replicate (n - length init) 0;
    } in
    let fits : ltb n (length init) ≡ false =
      ge→ltb _ _ (omega (arith, page_ceil (max size (length init)) h)) in
    let sized : length r.bytes ≡ n =
      length-append init (replicate (n - length init) 0)
      ∙ omega (
        arith,
        length-replicate {A = ℕ} (n - length init) 0,
        page_ceil (max size (length init)) h,
      ) in
    let (_, free, rest) =
      >>=-eq-ok (check_free mem.regions base n)
        (λ _. new_from base n init prot kind name >>= λ r'.
          ok (record mem { regions = insert base r' mem.regions }))
        e in
    let result : ◌≡◌ {A = EmuResult GuestMemory}
        (ok (record mem { regions = insert base r mem.regions })) (ok mem') =
      rw fits at rest in
    subst (Maps mem base n (padded init)) (ok-injective result) (
      Maps-content mem _ base n (get_elem? r.bytes) (padded init) (padded-index init n) (
        insert_sized-Maps mem r v n sized (omega (arith, page_ceil (max size (length init)) h))
          free))

round_again : (n : ℕ) → n % 0x4000 ≡ 0 → 0 < n → n < u64_mod → align_up (max n 1) page_size ≡ n
round_again n page pos fits =
    let whole : max n 1 ≡ n = omega arith in
    rw whole (omega (arith, align_up_least 14 50 n refl (omega arith)))

align_down_whole : (n : ℕ) → n % 0x4000 ≡ 0 → n < u64_mod → align_down n page_size ≡ n
align_down_whole n page fits = align_down_pow 14 50 n refl fits ∙ omega arith

-- Moving the cursor to the base of a new mapping keeps what was mapped.
move_cursor :
    (mem m1 : GuestMemory) (base n : ℕ)
    → base % 0x4000 ≡ 0
    → base < u64_mod
    → Maps mem base n (λ i. some 0) m1
    → Maps mem base n (λ i. some 0) (record m1 { mmap_cursor = base })
move_cursor mem m1 base n page fits h =
    (record { spread = h.0.spread; cursor_page = page; cursor_fits = fits }, h.1)

module _ (mem : GuestMemory) (n : ℕ) (prot : Protection) (v : IsValid mem) (page : n % 0x4000 ≡ 0)
    (pos : 0 < n) (room : n ≤ mem.mmap_cursor) where
  mapped_below :
      (m1 : GuestMemory)
      → map_region mem (align_down (mem.mmap_cursor - n) page_size) n prot anonymous mmap_name
        ≡ ok m1
      → Maps mem
          (mem.mmap_cursor - n)
          n
          (λ i. some 0)
          (record m1 { mmap_cursor = align_down (mem.mmap_cursor - n) page_size })
  mapped_below m1 e =
      let cursor = v.cursor_page in
      let fits = v.cursor_fits in
      let top : ℕ = mem.mmap_cursor - n in
      let low : align_down top page_size ≡ top = align_down_whole top (omega arith) (omega arith) in
      let again : align_up (max n 1) page_size ≡ n = round_again n page pos (omega arith) in
      rw low (
        move_cursor mem m1 top n (omega arith) (omega arith) (
          rw again at
            (map_region-Maps mem m1 top n prot anonymous mmap_name v (omega arith) (rw low at e))))

-- The parts of a successful `mmap_anon`.
mmap_anon-parts :
    (mem mem' : GuestMemory) (size base : ℕ) (prot : Protection)
    → mmap_anon mem size prot ≡ ok (base, mem')
    → let n = align_up (max size 1) page_size in
      let low = align_down (mem.mmap_cursor - n) page_size in
      (n ≤ mem.mmap_cursor)
      × (low ≡ base)
      × ((m1 : GuestMemory) × (map_region mem low n prot anonymous mmap_name ≡ ok m1)
          × (record m1 { mmap_cursor = low } ≡ mem'))
unfolding mmap_anon
mmap_anon-parts mem mem' size base prot e =
    let n : ℕ = align_up (max size 1) page_size in
    let low : ℕ = align_down (mem.mmap_cursor - n) page_size in
    elim (Bool-cases (ltb mem.mmap_cursor n)) [
      | inl short ↦ absurd (ground arith)
      | inr room ↦
          let (m1, mapped, result) =
            >>=-eq-ok (map_region mem low n prot anonymous mmap_name)
              (λ m. ok (low, record m { mmap_cursor = low })) (rw room at e) in
          let pair : ◌≡◌ {A = ℕ × GuestMemory} (low, record m1 { mmap_cursor = low }) (base, mem') =
            ok-injective result in
          (ltb→ge _ _ room, ap (λ p. p.0) pair, (m1, mapped, ap (λ p. p.1) pair))
    ]

-- `mmap_anon` with a size that can be rounded: the new span ends at the old cursor, the cursor
-- moves down to its base, and the span reads as zeros.
pub mmap_anon-Maps :
    (mem mem' : GuestMemory) (size base : ℕ) (prot : Protection)
    → IsValid mem
    → IsRoundable (max size 1)
    → mmap_anon mem size prot ≡ ok (base, mem')
    → (base + align_up (max size 1) page_size ≡ mem.mmap_cursor)
      × (mem'.mmap_cursor ≡ base)
      × Maps mem base (align_up (max size 1) page_size) (λ i. some 0) mem'
mmap_anon-Maps mem mem' size base prot v h e =
    let n : ℕ = align_up (max size 1) page_size in
    let (room, at_low, (m1, mapped, result)) = mmap_anon-parts mem mem' size base prot e in
    let (large, page) = page_ceil (max size 1) h in
    let cursor = v.cursor_page in
    let fits = v.cursor_fits in
    let low : align_down (mem.mmap_cursor - n) page_size ≡ mem.mmap_cursor - n =
      align_down_whole (mem.mmap_cursor - n) (omega arith) (omega arith) in
    let at : mem.mmap_cursor - n ≡ base = sym low ∙ at_low in
    (
      omega arith,
      ap (λ m. m.mmap_cursor) (sym result) ∙ at_low,
      subst₂ (λ b m. Maps mem b n (λ i. some 0) m) at result
          (mapped_below mem n prot v page (omega arith) room m1 mapped),
    )
