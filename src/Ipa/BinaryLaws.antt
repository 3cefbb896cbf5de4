-- ===== src/Ipa/BinaryLaws.antt =====
-- crates/ipa/src/plist.rs: binary property lists nest at most 129 deep, and a cycle is refused.
use emulator_ios_for_android.Base.{
  false, ℕ, zero, suc, ◌+◌, ◌-◌, ◌*◌, ◌/◌, ◌%◌, ◌^◌, ◌≤◌, ◌≡◌, refl, arith, max, ◌||◌, some, List,
  length, get_elem?, ltb, leb, ◌==◌, bit_and, drop,
}
use emulator_ios_for_android.Common.Result.{ok, err, ok_or, ◌>>=◌}
use emulator_ios_for_android.Common.Outcome.{Outcome, gives, fails, Outcome-bind, Outcome-if}
use emulator_ios_for_android.Common.Addr.{u64_mod, wrapping_add, checked_add}
use emulator_ios_for_android.Common.Utf8.{Text}
use emulator_ios_for_android.Ipa.Value.{
  PlistValue, bool, integer, real, string, bytes, array, dict, Values, nil, cons, Entries, end,
  entry, PlistError, truncated, bad_reference, bad_trailer, panicked, insert_entry,
}
use emulator_ios_for_android.Ipa.Binary.{
  PlistResult, BinaryPlist, slice, read_ref, count_and_offset, real_of, elements, max_values,
  key_of, fields, simple_object, counted, array_object, dict_object, decode_object, object_at,
  parse_objects, parse_binary, checked_mul, decode_offsets,
}

unfoldable mutual
  -- How many containers stand in one another.
  pub nesting : PlistValue → ℕ
  nesting (bool b) = 0
  nesting (integer i) = 0
  nesting (real x) = 0
  nesting (string s) = 0
  nesting (bytes b) = 0
  nesting (array vs) = suc (values_nesting vs)
  nesting (dict m) = suc (entries_nesting m)

  pub values_nesting : Values → ℕ
  values_nesting nil = 0
  values_nesting (cons v vs) = max (nesting v) (values_nesting vs)

  pub entries_nesting : Entries → ℕ
  entries_nesting end = 0
  entries_nesting (entry k v m) = max (nesting v) (entries_nesting m)

abbrev pub AnyFault : PlistError → Type 0
AnyFault e = Unit

any_of : {A : Type 0} (r : PlistResult A) → Outcome AnyFault (λ a. Unit) r
any_of (ok a) = gives tt
any_of (err e) = fails tt

insert_entry-nesting :
    (n : ℕ) (key : Text) (v : PlistValue) (m : Entries)
    → nesting v ≤ n
    → entries_nesting m ≤ n
    → entries_nesting (insert_entry key v m) ≤ n
unfolding insert_entry nesting
insert_entry-nesting n key v end h k = omega arith
insert_entry-nesting n key v (entry k' w rest) h k =
    ground (arith, insert_entry-nesting n key v rest)

module _ (p : BinaryPlist) (n : ℕ) (object : ℕ → PlistResult PlistValue)
    (shallow : (i : ℕ) → Outcome AnyFault (λ v. nesting v ≤ n) (object i)) where
  elements-Shallow :
      (count at : ℕ) → Outcome AnyFault (λ vs. values_nesting vs ≤ n) (elements p object count at)
  unfolding elements nesting
  elements-Shallow zero at = gives (omega arith)
  elements-Shallow (suc count) at = Outcome-bind (any_of (read_ref p at)) λ r u.
      Outcome-bind (shallow r) λ v h.
        Outcome-bind (elements-Shallow count (wrapping_add at p.ref_size))
          λ vs k. gives (omega arith)

  fields-Shallow :
      (count keys vals : ℕ) (m : Entries)
      → entries_nesting m ≤ n
      → Outcome AnyFault (λ m. entries_nesting m ≤ n) (fields p object count keys vals m)
  unfolding fields
  fields-Shallow zero keys vals m h = gives h
  fields-Shallow (suc count) keys vals m h = Outcome-bind (any_of (read_ref p keys)) λ kref u.
      Outcome-bind (any_of (read_ref p vals)) λ vref u. Outcome-bind (shallow kref) λ k hk.
        Outcome-bind (any_of (key_of p object k)) λ key u.
          Outcome-bind (shallow vref)
            λ v hv. fields-Shallow count _ _ _ (insert_entry-nesting n key v m hv h)

  counted-Shallow :
      (off marker : ℕ) (next : ℕ × ℕ → PlistResult PlistValue)
      → ((c : ℕ × ℕ) → Outcome AnyFault (λ v. nesting v ≤ suc n) (next c))
      → Outcome AnyFault (λ v. nesting v ≤ suc n) (counted p object off marker next)
  unfolding counted
  counted-Shallow off marker next h =
      Outcome-bind (any_of (count_and_offset p off (bit_and marker 0x0f))) λ c u. h c

  flat :
      {A : Type 0} (r : PlistResult A) (f : A → PlistValue)
      → ((a : A) → nesting (f a) ≡ 0)
      → Outcome AnyFault (λ v. nesting v ≤ suc n) (r >>= λ a. ok (f a))
  flat (ok a) f h = gives (omega (arith, h a))
  flat (err e) f h = fails tt

  simple-Shallow :
      (marker : ℕ) → Outcome AnyFault (λ v. nesting v ≤ suc n) (simple_object p object marker)
  unfolding simple_object nesting
  simple-Shallow marker =
      Outcome-if (bit_and marker 0x0f == 8) (λ e. gives (omega arith))
        λ e. Outcome-if (bit_and marker 0x0f == 9) (λ e. gives (omega arith)) λ e. fails tt

  real-Shallow :
      (marker : ℕ) (b : List ℕ) → Outcome AnyFault (λ v. nesting v ≤ suc n) (real_of p marker b)
  unfolding real_of nesting
  real-Shallow marker b =
      Outcome-if (length b == 4) (λ e. gives (omega arith))
        λ e. Outcome-if (length b == 8) (λ e. gives (omega arith)) λ e. fails tt

  array-Shallow : (c : ℕ × ℕ) → Outcome AnyFault (λ v. nesting v ≤ suc n) (array_object p object c)
  unfolding array_object nesting
  array-Shallow (count, at) =
      Outcome-if (ltb max_values count) (λ e. fails tt)
        λ e. Outcome-bind (elements-Shallow count at) λ vs h. gives (omega (arith, h))

  dict-Shallow : (c : ℕ × ℕ) → Outcome AnyFault (λ v. nesting v ≤ suc n) (dict_object p object c)
  unfolding dict_object nesting
  dict-Shallow (count, keys) =
      Outcome-bind (fields-Shallow count keys _ end (omega arith)) λ m h. gives (omega (arith, h))

  decode_object-Shallow :
      (off marker : ℕ)
      → Outcome AnyFault (λ v. nesting v ≤ suc n) (decode_object p object off marker)
  unfolding decode_object nesting
  decode_object-Shallow off marker =
      let ty : ℕ = marker / 16 in
      let m : ℕ = bit_and marker 0x0f in
      Outcome-if (ty == 0x0) (λ e. simple-Shallow marker)
        λ e.
          Outcome-if (ty == 0x1) (λ e. flat (slice p (off + 1) (2 ^ m)) _ (λ b. refl))
            λ e.
              Outcome-if (ty == 0x2)
                (λ e.
                  Outcome-bind (any_of (slice p (off + 1) (2 ^ m))) λ b u. real-Shallow marker b)
                λ e.
                  Outcome-if (ty == 0x3) (λ e. flat (slice p (off + 1) 8) _ (λ b. refl))
                    λ e.
                      Outcome-if (ty == 0x4)
                        (λ e.
                          counted-Shallow off marker _
                            (λ (c, at). flat (slice p at c) _ (λ b. refl)))
                        λ e.
                          Outcome-if (ty == 0x5)
                            (λ e.
                              counted-Shallow off marker _
                                (λ (c, at). flat (slice p at c) _ (λ b. refl)))
                            λ e.
                              Outcome-if (ty == 0x6)
                                (λ e.
                                  counted-Shallow off marker _
                                    (λ (c, at). flat (slice p at (c * 2 % u64_mod)) _ (λ b. refl)))
                                λ e.
                                  Outcome-if (ty == 0x8)
                                    (λ e. flat (slice p (off + 1) (m + 1)) _ (λ b. refl))
                                    λ e.
                                      Outcome-if (ty == 0xa)
                                        (λ e. counted-Shallow off marker _ array-Shallow)
                                        λ e.
                                          Outcome-if (ty == 0xd)
                                            (λ e. counted-Shallow off marker _ dict-Shallow)
                                            λ e. fails tt

object_at-Shallow :
    (p : BinaryPlist) (fuel index : ℕ)
    → Outcome AnyFault (λ v. nesting v ≤ fuel) (object_at p fuel index)
unfolding object_at
object_at-Shallow p zero index = fails tt
object_at-Shallow p (suc fuel) index =
    Outcome-bind (any_of (ok_or (get_elem? p.offsets index) bad_reference)) λ off u.
      Outcome-bind (any_of (ok_or (get_elem? p.buf off) truncated)) λ marker u.
        decode_object-Shallow p fuel (object_at p fuel) (object_at-Shallow p fuel) off marker

parse_objects-Shallow :
    (buf : List ℕ) (offset_size ref_size num_objects top table_offset : ℕ)
    → Outcome AnyFault
        (λ v. nesting v ≤ 129)
        (parse_objects buf offset_size ref_size num_objects top table_offset)
unfolding parse_objects
parse_objects-Shallow buf offset_size ref_size num_objects top table_offset =
    Outcome-if ((offset_size == 0) || ltb 8 offset_size || (ref_size == 0) || ltb 8 ref_size)
      (λ e. fails tt)
      λ e. Outcome-bind (any_of (ok_or (checked_mul num_objects offset_size) bad_trailer)) λ size u.
        Outcome-bind (any_of (ok_or (checked_add table_offset size) bad_trailer)) λ table_end u.
          Outcome-if (ltb (length buf) table_end || leb num_objects top) (λ e. fails tt)
            λ e.
              Outcome-bind (any_of (decode_offsets buf offset_size num_objects table_offset))
                λ offsets u.
                  object_at-Shallow (record { buf = buf; ref_size = ref_size; offsets = offsets })
                    129 top

-- Whatever the bytes are, a value that is read nests at most 129 containers in one another; the reader
-- may also give an error or panic.
pub parse_binary-Shallow :
    (buf : List ℕ) → Outcome AnyFault (λ v. nesting v ≤ 129) (parse_binary buf)
unfolding parse_binary
parse_binary-Shallow buf =
    Outcome-if (ltb (length buf) (8 + 32)) (λ e. fails tt)
      λ e. Outcome-bind (any_of (ok_or (get_elem? (drop (length buf - 32) buf) 6) panicked)) λ a u.
        Outcome-bind (any_of (ok_or (get_elem? (drop (length buf - 32) buf) 7) panicked))
          λ b u. parse_objects-Shallow buf a b _ _ _

-- An array, of a count that a `Vec` holds, whose first element is in a set of objects again.
pub record LeadsOn (p : BinaryPlist) (P : ℕ → Type 0) (index : ℕ) : Type 0 where
  pub off : ℕ
  pub marker : ℕ
  pub count : ℕ
  pub at : ℕ
  pub next : ℕ
  pub place : get_elem? p.offsets index ≡ some off
  pub mark : get_elem? p.buf off ≡ some marker
  pub kind : marker / 16 ≡ 0xa
  pub elems : count_and_offset p off (bit_and marker 0x0f) ≡ ok (suc count, at)
  pub few : ltb max_values (suc count) ≡ false
  pub first : read_ref p at ≡ ok next
  pub again : P next

decode_array :
    (p : BinaryPlist) (object : ℕ → PlistResult PlistValue) (off marker : ℕ)
    → marker / 16 ≡ 0xa
    → decode_object p object off marker ≡ counted p object off marker (array_object p object)
unfolding decode_object
decode_array p object off marker e = rw e refl

-- In a set of arrays of which each has an object of the set as its first element, and no more elements
-- than a `Vec` holds, every object is refused as a bad reference, at every depth; so in a cycle
-- through first elements, however long.
pub object_at-cycle :
    (p : BinaryPlist) (P : ℕ → Type 0)
    → ((i : ℕ) → P i → LeadsOn p P i)
    → (fuel index : ℕ) → P index
    → object_at p fuel index ≡ err bad_reference
unfolding object_at counted array_object elements
object_at-cycle p P on zero index h = refl
object_at-cycle p P on (suc fuel) index h =
    let l = on index h in
    rw
      (
        l.place,
        l.mark,
        decode_array p (object_at p fuel) l.off l.marker l.kind,
        l.elems,
        l.few,
        l.first,
        object_at-cycle p P on fuel l.next l.again,
      )
      refl
