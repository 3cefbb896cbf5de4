-- ===== src/Memory/Access.antt =====
-- Checked access to one region: which spans `range` admits, and what the slices hold.
use emulator_ios_for_android.Base.{
  ℕ, ◌+◌, ◌-◌, ◌≤◌, ◌≡◌, arith, true, List, length, ltb, leb, if◌then◌else◌, inl, inr, Bool-cases,
  le→leb, ◌∙◌,
}
use emulator_ios_for_android.Common.Result.{ok, err, memory, >>=-eq-ok, ok-injective, Result}
use emulator_ios_for_android.Common.Addr.{u64_mod, IsU64, checked_add, wrapping_sub}
use emulator_ios_for_android.Common.Protection.{Protection, contains}
use emulator_ios_for_android.Memory.Splice.{part, splice}
use emulator_ios_for_android.Memory.Region.{Region, range, subslice, overwrite}
use emulator_ios_for_android.Memory.Spread.{span_end, IsEntry}

refused : {E : Type 0} {A : Type 0} {x : E} (a : A) → ◌≡◌ {A = Result E A} (err x) (ok a) → ⊥
refused a h = cc

module _ (e : ℕ × Region) (addr : ℕ) (v : IsEntry e) (le : e.0 ≤ addr) (u : IsU64 addr) where
  offset : wrapping_sub addr e.1.base ≡ addr - e.0
  unfolding wrapping_sub
  offset = omega arith

  abbrev in_region : ℕ → ℕ
  in_region len = addr - e.0 + len

  range_lem :
      (len : ℕ)
      → range e.1 addr len ≡ (
          if leb (in_region len) (length e.1.bytes)
          then ok (addr - e.0, in_region len)
          else (if ltb (in_region len) u64_mod
              then err (memory addr "past region end")
              else err (memory addr "length overflow")))
  unfolding range checked_add
  range_lem len = rw offset (ground arith)

  range_inv :
      (len off end : ℕ)
      → range e.1 addr len ≡ ok (off, end)
      → (addr + len ≤ span_end e) × (off ≡ addr - e.0) × (end ≡ addr - e.0 + len)
  range_inv len off end h = ground (arith, range_lem len)

  range-ok :
      (len : ℕ) → addr + len ≤ span_end e → range e.1 addr len ≡ ok (addr - e.0, in_region len)
  range-ok len fits = range_lem len ∙ rw (le→leb (in_region len) (length e.1.bytes) (omega arith))

  span_width : (len : ℕ) → in_region len - (addr - e.0) ≡ len
  span_width len = omega arith

  -- A span is admitted if it ends inside the region and the region grants the access.
  pub subslice-ok :
      (len : ℕ) (need : Protection)
      → addr + len ≤ span_end e
      → contains e.1.prot need ≡ true
      → subslice e.1 addr len need ≡ ok (part (addr - e.0) len e.1.bytes)
  unfolding subslice
  subslice-ok len need fits granted = rw (range-ok len fits, granted, span_width len)

  pub subslice_inv :
      (len : ℕ) (need : Protection) (bs : List ℕ)
      → subslice e.1 addr len need ≡ ok bs
      → (addr + len ≤ span_end e)
        × (contains e.1.prot need ≡ true)
        × (part (addr - e.0) len e.1.bytes ≡ bs)
  unfolding subslice
  subslice_inv len need bs h =
      let ((off, end), spanned, rest) = >>=-eq-ok (range e.1 addr len) _ h in
      let (fits, at_off, at_end) = range_inv len off end spanned in
      elim (Bool-cases (contains e.1.prot need)) [
        | inl granted ↦
            (fits, granted, ok-injective (rw (granted, at_off, at_end, span_width len) at rest))
        | inr denied ↦ absurd (refused bs (rw denied at rest))
      ]

  pub overwrite_inv :
      (src : List ℕ) (need : Protection) (r' : Region)
      → overwrite e.1 addr src need ≡ ok r'
      → (addr + length src ≤ span_end e)
        × (contains e.1.prot need ≡ true)
        × (record (e.1) { bytes = splice (addr - e.0) src e.1.bytes } ≡ r')
  unfolding overwrite
  overwrite_inv src need r' h =
      let ((off, end), spanned, rest) = >>=-eq-ok (range e.1 addr (length src)) _ h in
      let (fits, at_off, at_end) = range_inv (length src) off end spanned in
      elim (Bool-cases (contains e.1.prot need)) [
        | inl granted ↦ (fits, granted, ok-injective (rw (granted, at_off, at_end) at rest))
        | inr denied ↦ absurd (refused r' (rw denied at rest))
      ]
