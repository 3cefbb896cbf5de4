-- ===== src/Ipa/Binary.antt =====
-- crates/ipa/src/plist.rs: binary property lists. `depth > 128` is a fuel of 129 less the depth.
use emulator_ios_for_android.Base.{
  ℕ, zero, suc, ◌+◌, ◌-◌, ◌*◌, ◌/◌, ◌%◌, ◌^◌, true, false, ◌||◌, ◌&&◌, not, Option, none, some,
  List, [], ◌∷◌, length, take, drop, get_elem?, ltb, leb, ◌==◌, if◌then◌else◌, bit_and, bit_or,
}
use emulator_ios_for_android.Common.Result.{Result, ok, err, ok_or, ◌>>=◌}
use emulator_ios_for_android.Common.Addr.{u64_mod, wrapping_add, checked_add}
use emulator_ios_for_android.Common.Endian.{from_be}
use emulator_ios_for_android.Common.Utf8.{Text, from_utf8_lossy}
use emulator_ios_for_android.Ipa.Value.{
  PlistValue, bool, integer, real, string, bytes, array, dict, Values, nil, cons, Entries, end,
  PlistError, truncated, bad_trailer, bad_reference, panicked, unsupported_type, insert_entry,
}
use emulator_ios_for_android.Ipa.Text16.{from_utf16_lossy, f32_to_f64}

abbrev pub PlistResult {ℓ} : Type ℓ → Type ℓ
PlistResult A = Result PlistError A

pub record BinaryPlist : Type 0 where
  pub buf : List ℕ
  pub ref_size : ℕ
  pub offsets : List ℕ

-- `b.iter().fold(0u64, |acc, &x| (acc << 8) | x as u64)`.
unfoldable pub be_uint_from : ℕ → List ℕ → ℕ
be_uint_from acc [] = acc
be_uint_from acc (x ∷ xs) = be_uint_from (bit_or (acc * 256 % u64_mod) x) xs

unfoldable pub be_uint : List ℕ → ℕ
unfolding be_uint_from
be_uint b = be_uint_from 0 b

unfoldable pub be_u64 : List ℕ → ℕ
unfolding from_be
be_u64 b = from_be (take 8 b)

unfoldable pub be_int : List ℕ → ℕ
unfolding be_u64 be_uint
be_int b = if length b == 8 then be_u64 b else be_uint b

-- `&buf[from..to]`.
unfoldable pub index_range : List ℕ → ℕ → ℕ → PlistResult (List ℕ)
index_range buf from to =
    if leb from to && leb to (length buf)
    then ok (take (to - from) (drop from buf))
    else err panicked

-- `chunks_exact(2)`, each as a big-endian `u16`.
unfoldable pub units_of : List ℕ → List ℕ
units_of [] = []
units_of (a ∷ []) = []
units_of (a ∷ (b ∷ rest)) = (a * 256 + b) ∷ units_of rest

-- `Vec::with_capacity` panics above `isize::MAX` bytes; a `PlistValue` has 32 on a 64-bit target.
abbrev pub max_values : ℕ
max_values = 2 ^ 58 - 1

module _ (p : BinaryPlist) where
  unfoldable pub slice : ℕ → ℕ → PlistResult (List ℕ)
  unfolding checked_add
  slice off len = do
    to ← ok_or (checked_add off len) truncated
    if leb off to && leb to (length p.buf)
        then ok (take (to - off) (drop off p.buf))
        else err truncated

  unfoldable pub read_ref : ℕ → PlistResult ℕ
  unfolding wrapping_add index_range be_uint
  read_ref at =
      if ltb (length p.buf) (wrapping_add at p.ref_size)
      then err truncated
      else index_range p.buf at (wrapping_add at p.ref_size) >>= λ b. ok (be_uint b)

  unfoldable pub count_and_offset : ℕ → ℕ → PlistResult (ℕ × ℕ)
  unfolding slice be_uint
  count_and_offset off n =
      if not (n == 0x0f)
      then ok (n, off + 1)
      else ok_or (get_elem? p.buf (off + 1)) truncated >>= λ size_marker.
          if not (size_marker / 16 == 1)
          then err bad_trailer
          else slice (off + 2) (2 ^ bit_and size_marker 0x0f) >>= λ b.
              ok (be_uint b, off + 2 + 2 ^ bit_and size_marker 0x0f)

  -- `Real`: only four and eight bytes are known.
  unfoldable pub real_of : ℕ → List ℕ → PlistResult PlistValue
  unfolding from_be f32_to_f64
  real_of marker b =
      if length b == 4
      then ok (real (f32_to_f64 (from_be b)))
      else if length b == 8
      then ok (real (from_be b))
      else err (unsupported_type marker)

  module _ (object : ℕ → PlistResult PlistValue) where
    -- The loops over the references of an array and of a dictionary.
    unfoldable pub elements : ℕ → ℕ → PlistResult Values
    unfolding read_ref wrapping_add
    elements zero at = ok nil
    elements (suc count) at = do
      r ← read_ref at
      v ← object r
      vs ← elements count (wrapping_add at p.ref_size)
      ok (cons v vs)

    unfoldable pub key_of : PlistValue → PlistResult Text
    key_of (string s) = ok s
    key_of v = err bad_reference

    unfoldable pub fields : ℕ → ℕ → ℕ → Entries → PlistResult Entries
    unfolding read_ref wrapping_add key_of insert_entry
    fields zero keys vals map = ok map
    fields (suc count) keys vals map = do
      kref ← read_ref keys
      vref ← read_ref vals
      k ← object kref
      key ← key_of k
      v ← object vref
      fields count (wrapping_add keys p.ref_size) (wrapping_add vals p.ref_size)
          (insert_entry key v map)

    -- The arms of the `match` on the type of an object.
    unfoldable pub simple_object : ℕ → PlistResult PlistValue
    simple_object marker =
        if bit_and marker 0x0f == 8
        then ok (bool false)
        else if bit_and marker 0x0f == 9
        then ok (bool true)
        else err (unsupported_type marker)

    unfoldable pub counted : ℕ → ℕ → (ℕ × ℕ → PlistResult PlistValue) → PlistResult PlistValue
    unfolding count_and_offset
    counted off marker next = count_and_offset off (bit_and marker 0x0f) >>= next

    unfoldable pub array_object : ℕ × ℕ → PlistResult PlistValue
    unfolding elements
    array_object (count, at) =
        if ltb max_values count then err panicked else elements count at >>= λ vs. ok (array vs)

    unfoldable pub dict_object : ℕ × ℕ → PlistResult PlistValue
    unfolding fields wrapping_add
    dict_object (count, keys) =
        fields count keys (wrapping_add keys (count * p.ref_size % u64_mod)) end >>= λ m.
        ok (dict m)

    unfoldable pub decode_object : ℕ → ℕ → PlistResult PlistValue
    unfolding slice real_of simple_object counted array_object dict_object be_int from_utf8_lossy
        from_utf16_lossy units_of
    decode_object off marker =
        let ty = marker / 16 in
        let n = bit_and marker 0x0f in
        if ty == 0x0
        then simple_object marker
        else if ty == 0x1
        then (slice (off + 1) (2 ^ n) >>= λ b. ok (integer (be_int b)))
        else if ty == 0x2
        then (slice (off + 1) (2 ^ n) >>= λ b. real_of marker b)
        else if ty == 0x3
        then (slice (off + 1) 8 >>= λ b. ok (real (from_be b)))
        else if ty == 0x4
        then counted off marker (λ (count, at). slice at count >>= λ b. ok (bytes b))
        else if ty == 0x5
        then counted off marker
            (λ (count, at). slice at count >>= λ b. ok (string (from_utf8_lossy b)))
        else if ty == 0x6
        then counted off marker (λ (count, at).
          slice at (count * 2 % u64_mod) >>= λ b. ok (string (from_utf16_lossy (units_of b))))
        else if ty == 0x8
        then (slice (off + 1) (n + 1) >>= λ b. ok (integer (be_int b)))
        else if ty == 0xa
        then counted off marker array_object
        else if ty == 0xd
        then counted off marker dict_object
        else err (unsupported_type marker)

  unfoldable pub object_at : ℕ → ℕ → PlistResult PlistValue
  unfolding decode_object
  object_at zero index = err bad_reference
  object_at (suc fuel) index = do
    off ← ok_or (get_elem? p.offsets index) bad_reference
    marker ← ok_or (get_elem? p.buf off) truncated
    decode_object (object_at fuel) off marker

-- The offset table.
unfoldable pub decode_offsets : List ℕ → ℕ → ℕ → ℕ → PlistResult (List ℕ)
unfolding index_range be_uint
decode_offsets buf offset_size zero start = ok []
decode_offsets buf offset_size (suc n) start = do
  b ← index_range buf start (start + offset_size)
  rest ← decode_offsets buf offset_size n (start + offset_size)
  ok (be_uint b ∷ rest)

unfoldable pub checked_mul : ℕ → ℕ → Option ℕ
checked_mul a b = if ltb (a * b) u64_mod then some (a * b) else none

-- `BinaryPlist::parse` behind the fields of the trailer.
unfoldable pub parse_objects : List ℕ → ℕ → ℕ → ℕ → ℕ → ℕ → PlistResult PlistValue
unfolding checked_mul checked_add decode_offsets object_at
parse_objects buf offset_size ref_size num_objects top_object table_offset =
    if (offset_size == 0) || ltb 8 offset_size || (ref_size == 0) || ltb 8 ref_size
    then err bad_trailer
    else do
      table_size ← ok_or (checked_mul num_objects offset_size) bad_trailer
      table_end ← ok_or (checked_add table_offset table_size) bad_trailer
      if ltb (length buf) table_end || leb num_objects top_object then err bad_trailer else do
        offsets ← decode_offsets buf offset_size num_objects table_offset
        object_at (record { buf = buf; ref_size = ref_size; offsets = offsets }) 129 top_object

unfoldable pub parse_binary : List ℕ → PlistResult PlistValue
unfolding be_u64 parse_objects
parse_binary buf = if ltb (length buf) (8 + 32) then err truncated else do
  let trailer = drop (length buf - 32) buf
  offset_size ← ok_or (get_elem? trailer 6) panicked
  ref_size ← ok_or (get_elem? trailer 7) panicked
  parse_objects buf offset_size ref_size (be_u64 (drop 8 trailer)) (be_u64 (drop 16 trailer))
      (be_u64 (drop 24 trailer))
