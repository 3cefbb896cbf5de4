-- ===== src/Memory/ReadWrite.antt =====
-- `read` and `write` against the byte view: a read shows the bytes at its addresses, a write
-- changes those and no other.
use emulator_ios_for_android.Base.{
  ℕ, suc, ◌+◌, ◌-◌, ◌≤◌, ◌<◌, ◌≡◌, refl, arith, true, Option, some, List, [], ◌∷◌, length,
  if◌then◌else◌, Option-cases, inl, inr, get_elem?, ap, sym, ◌∙◌,
}
use mathlib.Core.Path.{subst}
use emulator_ios_for_android.Common.Result.{ok, >>=-eq-ok, ok-injective}
use emulator_ios_for_android.Common.Addr.{IsU64}
use emulator_ios_for_android.Common.Protection.{contains, prot_read, prot_write}
use emulator_ios_for_android.Memory.Splice.{
  part, splice, length-part, get_elem?-part, length-splice, part-splice, get_elem?-splice,
}
use emulator_ios_for_android.Memory.Region.{Region, overwrite, subslice}
use emulator_ios_for_android.Memory.RegionMap.{RegionMap, last_below, replace}
use emulator_ios_for_android.Memory.Guest.{GuestMemory, read, write, region_for}
use emulator_ios_for_android.Memory.Spread.{
  span_end, IsEntry, IsSpread, find_covering, covers, last_below-IsEntry,
}
use emulator_ios_for_android.Memory.Update.{found_key}
use emulator_ios_for_android.Memory.Bytes.{byte_at, replace_found}
use emulator_ios_for_android.Memory.Mapping.{IsValid, Shows}
use emulator_ios_for_android.Memory.Access.{subslice_inv, subslice-ok, overwrite_inv}

-- The region that an access goes to, and where it is in the map.
pub region_for-IsEntry :
    (m : RegionMap) (addr : ℕ) (e : ℕ × Region)
    → IsSpread 0 m
    → region_for m addr ≡ ok e
    → (e.0 ≤ addr) × IsEntry e × (last_below (suc addr) m ≡ some e)
unfolding region_for
region_for-IsEntry m addr e s h = elim (Option-cases (last_below (suc addr) m)) [
  | inl e0 ↦ absurd (ground arith)
  | inr (f, e1) ↦
      let same : f ≡ e = ok-injective (rw e1 at h) in
      subst (λ g. (g.0 ≤ addr) × IsEntry g × (last_below (suc addr) m ≡ some g)) same
        (
          omega (arith, last_below-IsEntry 0 (suc addr) m s e1),
          (last_below-IsEntry 0 (suc addr) m s e1).2,
          e1,
        )
]

last_below-key :
    (lo end : ℕ) (m : RegionMap) (e : ℕ × Region)
    → IsSpread lo m
    → last_below end m ≡ some e
    → find_covering m e.0 ≡ some e
unfolding last_below find_covering
last_below-key lo end [] e s h = cc
last_below-key lo end (f ∷ m) e s h = elim (Option-cases (last_below end m)) [
  | inl e0 ↦ ground arith
  | inr (g, e1) ↦ ground (
    arith,
    last_below-key (span_end f) end m g s.2 e1,
    last_below-IsEntry (span_end f) end m s.2 e1,
  )
]

-- A successful read: the region that it went to, and the part of its buffer.
read_inv :
    (mem : GuestMemory) (addr len : ℕ) (bs : List ℕ)
    → IsSpread 0 mem.regions
    → IsU64 addr
    → read mem addr len ≡ ok bs
    → (e : ℕ × Region) × (last_below (suc addr) mem.regions ≡ some e)
      × (e.0 ≤ addr)
      × (addr + len ≤ span_end e)
      × (contains e.1.prot prot_read ≡ true)
      × (part (addr - e.0) len e.1.bytes ≡ bs)
unfolding read
read_inv mem addr len bs s u h =
    let (e, found, sliced) = >>=-eq-ok (region_for mem.regions addr) _ h in
    let (le, v, last) = region_for-IsEntry mem.regions addr e s found in
    let (fits, granted, same) = subslice_inv e addr v le u len prot_read bs sliced in
    (e, last, le, fits, granted, same)

pub find_covering-same :
    (lo a b : ℕ) (m : RegionMap) (e : ℕ × Region)
    → IsSpread lo m
    → find_covering m b ≡ some e
    → e.0 ≤ a
    → a < span_end e
    → find_covering m a ≡ some e
unfolding find_covering
find_covering-same lo a b [] e s h le lt = cc
find_covering-same lo a b (f ∷ m) e s h le lt =
    ground (arith, found_key (span_end f) b m e s.2, find_covering-same (span_end f) a b m e s.2)

byte_at-last :
    (m : RegionMap) (addr a : ℕ) (e : ℕ × Region)
    → IsSpread 0 m
    → last_below (suc addr) m ≡ some e
    → e.0 ≤ a
    → a < span_end e
    → byte_at m a ≡ get_elem? e.1.bytes (a - e.0)
unfolding byte_at
byte_at-last m addr a e s last le lt =
    let key : find_covering m e.0 ≡ some e = last_below-key 0 (suc addr) m e s last in
    rw (find_covering-same 0 a e.0 m e s key le lt)

-- A read returns as many bytes as were asked for, and each is the byte mapped at its address.
pub read-byte_at :
    (mem : GuestMemory) (addr len : ℕ) (bs : List ℕ) (i : ℕ)
    → IsValid mem
    → IsU64 addr
    → read mem addr len ≡ ok bs
    → i < len
    → (length bs ≡ len) × (byte_at mem.regions (addr + i) ≡ get_elem? bs i)
read-byte_at mem addr len bs i v u h lt =
    let (e, last, le, fits, granted, same) = read_inv mem addr len bs v.spread u h in
    let inside : addr - e.0 + len ≤ length e.1.bytes = omega arith in
    (
      ap length (sym same) ∙ length-part (addr - e.0) len e.1.bytes inside,
      (let at : addr + i - e.0 ≡ addr - e.0 + i = omega arith in
          byte_at-last mem.regions addr (addr + i) e v.spread last (omega arith) (omega arith)
          ∙ ap (get_elem? e.1.bytes) at
          ∙ sym (get_elem?-part (addr - e.0) len i e.1.bytes lt)
          ∙ ap (λ xs. get_elem? xs i) same),
    )

abbrev written : ℕ → ℕ × Region → List ℕ → Region
written addr e src = record (e.1) { bytes = splice (addr - e.0) src e.1.bytes }

abbrev rewritten : RegionMap → ℕ → ℕ × Region → List ℕ → RegionMap
rewritten m addr e src = replace e.0 (written addr e src) m

module _ (m : RegionMap) (addr : ℕ) (e : ℕ × Region) (src : List ℕ) (s : IsSpread 0 m)
    (last : last_below (suc addr) m ≡ some e) (le : e.0 ≤ addr)
    (fits : addr + length src ≤ span_end e) where
  rewritten_span :
      IsEntry e
      → IsSpread 0 (rewritten m addr e src)
        × ((a : ℕ)
            → byte_at (rewritten m addr e src) a ≡ (
                if covers e a then get_elem? (written addr e src).bytes (a - e.0) else byte_at m a))
  rewritten_span v =
      replace_found m e.0 e (written addr e src) s (last_below-key 0 (suc addr) m e s last) refl
        (length-splice (addr - e.0) src e.1.bytes (omega arith))

  rewritten-Shows : IsEntry e → Shows m (rewritten m addr e src) addr (length src) (get_elem? src)
  rewritten-Shows v a =
      let index : a - e.0 - (addr - e.0) ≡ a - addr = omega arith in
      let inside : addr - e.0 + length src ≤ length e.1.bytes = omega arith in
      ground (
        arith,
        (rewritten_span v).1 a,
        get_elem?-splice (addr - e.0) src e.1.bytes (a - e.0) inside,
        ap (get_elem? src) index,
        byte_at-last m addr a e s last,
      )

-- A successful write: the region that it went to, and the memory that it leaves.
write_inv :
    (mem mem' : GuestMemory) (addr : ℕ) (src : List ℕ)
    → IsSpread 0 mem.regions
    → IsU64 addr
    → write mem addr src ≡ ok mem'
    → (e : ℕ × Region) × (last_below (suc addr) mem.regions ≡ some e)
      × (e.0 ≤ addr)
      × IsEntry e
      × (addr + length src ≤ span_end e)
      × (record mem { regions = rewritten mem.regions addr e src } ≡ mem')
unfolding write
write_inv mem mem' addr src s u h =
    let (e, found, rest) = >>=-eq-ok (region_for mem.regions addr) _ h in
    let (r', written, result) = >>=-eq-ok (overwrite e.1 addr src prot_write) _ rest in
    let (le, entry, last) = region_for-IsEntry mem.regions addr e s found in
    let (fits, granted, same) = overwrite_inv e addr entry le u src prot_write r' written in
    (
      e,
      last,
      le,
      entry,
      fits,
      ap (λ r. record mem { regions = replace e.0 r mem.regions }) same ∙ ok-injective result,
    )

-- A write sets exactly the bytes of its span, and keeps the invariant.
pub write-Shows :
    (mem mem' : GuestMemory) (addr : ℕ) (src : List ℕ)
    → IsValid mem
    → IsU64 addr
    → write mem addr src ≡ ok mem'
    → IsValid mem' × Shows mem.regions mem'.regions addr (length src) (get_elem? src)
write-Shows mem mem' addr src v u h =
    let (e, last, le, entry, fits, same) = write_inv mem mem' addr src v.spread u h in
    let spread = (rewritten_span mem.regions addr e src v.spread last le fits entry).0 in
    subst (λ m. IsValid m × Shows mem.regions m.regions addr (length src) (get_elem? src)) same
      (
        record { spread = spread; cursor_page = v.cursor_page; cursor_fits = v.cursor_fits },
        rewritten-Shows mem.regions addr e src v.spread last le fits entry,
      )

last_below-replace :
    (lo end : ℕ) (m : RegionMap) (e : ℕ × Region) (r' : Region)
    → IsSpread lo m
    → last_below end m ≡ some e
    → last_below end (replace e.0 r' m) ≡ some (e.0, r')
unfolding last_below replace
last_below-replace lo end [] e r' s h = cc
last_below-replace lo end (f ∷ m) e r' s h = elim (Option-cases (last_below end m)) [
  | inl e0 ↦ ground arith
  | inr (g, e1) ↦ ground (
    arith,
    last_below-IsEntry (span_end f) end m s.2 e1,
    last_below-replace (span_end f) end m g r' s.2 e1,
  )
]

some-same : {x y : ℕ × Region} (o : Option (ℕ × Region)) → o ≡ some x → o ≡ some y → x ≡ y
some-same o p q = cc

-- Where a span can be read, a write to it is read back.
pub read-write :
    (mem mem' : GuestMemory) (addr : ℕ) (src old : List ℕ)
    → IsValid mem
    → IsU64 addr
    → read mem addr (length src) ≡ ok old
    → write mem addr src ≡ ok mem'
    → read mem' addr (length src) ≡ ok src
unfolding read region_for
read-write mem mem' addr src old v u readable h =
    let (d, last', le', fits', granted, same') =
      read_inv mem addr (length src) old v.spread u readable in
    let (e, last, le, entry, fits, same) = write_inv mem mem' addr src v.spread u h in
    let w : ℕ × Region = (e.0, written addr e src) in
    let inside : addr - e.0 + length src ≤ length e.1.bytes = omega arith in
    let keeps : length w.1.bytes ≡ length e.1.bytes =
      length-splice (addr - e.0) src e.1.bytes inside in
    let may : contains e.1.prot prot_read ≡ true =
      subst (λ x. contains x.1.prot prot_read ≡ true) (some-same _ last' last) granted in
    let found : last_below (suc addr) (rewritten mem.regions addr e src) ≡ some w =
      last_below-replace 0 (suc addr) mem.regions e w.1 v.spread last in
    let got : subslice w.1 addr (length src) prot_read ≡ ok src =
      subslice-ok w addr (omega arith) le u (length src) prot_read (omega arith) may
      ∙ ap ok (part-splice (addr - e.0) src e.1.bytes inside) in
    subst (λ m. read m addr (length src) ≡ ok src) same (rw found got)
