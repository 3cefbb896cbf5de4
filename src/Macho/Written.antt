-- ===== src/Macho/Written.antt =====
-- crates/loader/src/macho/reader.rs: what is written at the cursor is read, and the cursor moves
-- behind it.
use emulator_ios_for_android.Base.{
  ℕ, zero, suc, ◌+◌, ◌-◌, ◌≤◌, ◌≡◌, refl, true, false, sym, ap, ◌∙◌, arith, List, [], ◌∷◌, ◌++◌,
  length, take, drop, replicate, ltb, ge→ltb, lt→ltb, ◌==◌, length-append, length-replicate,
}
use emulator_ios_for_android.Common.Result.{EmuResult, ok, ◌>>=◌}
use emulator_ios_for_android.Common.Addr.{IsU64, u64_mod, checked_add}
use emulator_ios_for_android.Common.Endian.{to_le, from_le-to_le, length-to_le}
use emulator_ios_for_android.Common.Utf8.{Text, from_utf8_lossy-ascii}
use emulator_ios_for_android.Dyld.LebRoundTrip.{IsName, name-IsAscii}
use emulator_ios_for_android.Macho.Reader.{
  Reader, at, take_bytes, u32_le, u64_le, until_nul, fixed_str,
}
use emulator_ios_for_android.Macho.Bounds.{IsU32}

-- A part of a file: a number, a name in sixteen bytes, or bytes.
pub data Field : Type 0 where
  u32_field u64_field : ℕ → Field
  name_field : Text → Field
  raw_field : List ℕ → Field

unfoldable pub field_bytes : Field → List ℕ
field_bytes (u32_field v) = to_le 4 v
field_bytes (u64_field v) = to_le 8 v
field_bytes (name_field name) = name ++ replicate (16 - length name) 0
field_bytes (raw_field bytes) = bytes

unfoldable pub written : List Field → List ℕ
unfolding field_bytes
written [] = []
written (f ∷ fs) = field_bytes f ++ written fs

-- Behind an offset of a file the fields stand, up to its end.
pub record At (file : List ℕ) (off : ℕ) (fields : List Field) : Type 0 where
  pub ends : off + length (written fields) ≡ length file
  pub stands : drop off file ≡ written fields

abbrev pub cursor : List ℕ → ℕ → Reader
cursor file off = record { bytes = file; pos = off }

take-append : (xs ys : List ℕ) → take (length xs) (xs ++ ys) ≡ xs
take-append [] ys = refl
take-append (x ∷ xs) ys = ap (λ t. x ∷ t) (take-append xs ys)

drop-append : (xs ys : List ℕ) → drop (length xs) (xs ++ ys) ≡ ys
drop-append [] ys = refl
drop-append (x ∷ xs) ys = drop-append xs ys

drop_nil : (n : ℕ) → ◌≡◌ {A = List ℕ} (drop n []) []
drop_nil zero = refl
drop_nil (suc n) = refl

drop-drop : (m n : ℕ) (xs : List ℕ) → drop (m + n) xs ≡ drop n (drop m xs)
drop-drop zero n xs = let e : 0 + n ≡ n = omega arith in rw e refl
drop-drop (suc m) n [] = let e : suc m + n ≡ suc (m + n) = omega arith in rw e (sym (drop_nil n))
drop-drop (suc m) n (x ∷ xs) =
    let e : suc m + n ≡ suc (m + n) = omega arith in ap (λ k. drop k (x ∷ xs)) e ∙ drop-drop m n xs

pub At-all : (fields : List Field) → At (written fields) 0 fields
At-all fields = record { ends = omega arith; stands = refl }

At-skip :
    {file : List ℕ} {off : ℕ} {field : Field} {rest : List Field} (n : ℕ)
    → length (field_bytes field) ≡ n
    → At file off (field ∷ rest)
    → At file (off + n) rest
unfolding written
At-skip {file} {off} {field} {rest} n e a = record {
  ends = omega (arith, a.ends, length-append (field_bytes field) (written rest));
  stands =
      drop-drop off n file ∙ rw (a.stands, ← e) (drop-append (field_bytes field) (written rest));
}

abbrev pub IsFieldName : Text → Type 0
IsFieldName name = IsName name × (length name ≤ 16)

name_width : (name : Text) → length name ≤ 16 → length (field_bytes (name_field name)) ≡ 16
unfolding field_bytes
name_width name h =
    let zeros : List ℕ = replicate (16 - length name) 0 in
    omega (arith, h, length-append name zeros, length-replicate {A = ℕ} (16 - length name) 0)

module _ {file : List ℕ} {off : ℕ} {rest : List Field} where
  pub At-u32 : {v : ℕ} → At file off (u32_field v ∷ rest) → At file (off + 4) rest
  unfolding field_bytes
  At-u32 {v = v} a = At-skip 4 (length-to_le 4 v) a

  pub At-u64 : {v : ℕ} → At file off (u64_field v ∷ rest) → At file (off + 8) rest
  unfolding field_bytes
  At-u64 {v = v} a = At-skip 8 (length-to_le 8 v) a

  pub At-name :
      {name : Text}
      → length name ≤ 16
      → At file off (name_field name ∷ rest)
      → At file (off + 16) rest
  At-name {name = name} h a = At-skip 16 (name_width name h) a

  pub At-raw :
      {bytes : List ℕ} → At file off (raw_field bytes ∷ rest) → At file (off + length bytes) rest
  unfolding field_bytes
  At-raw {bytes = bytes} a = At-skip (length bytes) refl a

-- The same place, at an equal offset.
pub At-cast :
    {file : List ℕ} {off off' : ℕ} {rest : List Field}
    → off ≡ off'
    → At file off rest
    → At file off' rest
At-cast e a = rw (← e) a

until_nul-padded : (s : List ℕ) (n : ℕ) → IsName s → until_nul (s ++ replicate n 0) ≡ s
unfolding until_nul
until_nul-padded [] zero h = refl
until_nul-padded [] (suc n) h = refl
until_nul-padded (b ∷ s) n h =
    let more : (b == 0) ≡ false = ground (arith, h.0) in rw (more, until_nul-padded s n h.1) refl

pub until_nul-name : (s pad rest : List ℕ) → IsName s → until_nul ((s ++ (0 ∷ pad)) ++ rest) ≡ s
unfolding until_nul
until_nul-name [] pad rest h = refl
until_nul-name (b ∷ s) pad rest h =
    let more : (b == 0) ≡ false = ground (arith, h.0) in
    rw (more, until_nul-name s pad rest h.1) refl

-- A file is shorter than the address space.
module _ {file : List ℕ} (small : IsU64 (length file)) where
  pub at-At : {off : ℕ} {rest : List Field} → At file off rest → at file off ≡ ok (cursor file off)
  unfolding at
  at-At {off} {rest} a =
      let e : ltb (length file) off ≡ false = ge→ltb _ _ (omega (arith, a.ends)) in rw e refl

  pub take_bytes-At :
      {off : ℕ} {field : Field} {rest : List Field} (n : ℕ)
      → length (field_bytes field) ≡ n
      → At file off (field ∷ rest)
      → take_bytes (cursor file off) n ≡ ok (field_bytes field, cursor file (off + n))
  unfolding take_bytes checked_add written
  take_bytes-At {off = off} {field = field} {rest = rest} n e a =
      let inside : off + n ≤ length file =
        omega (arith, a.ends, length-append (field_bytes field) (written rest)) in
      let fits : ltb (off + n) u64_mod ≡ true = lt→ltb _ _ (omega arith) in
      let there : ltb (length file) (off + n) ≡ false = ge→ltb _ _ inside in
      rw (fits, there, a.stands, ← e, take-append (field_bytes field) (written rest)) refl

module _ {file : List ℕ} (small : IsU64 (length file)) {B : Type 0} {off : ℕ} {rest : List Field}
    {out : EmuResult B} where
  -- To read what is written: the rest of the run goes on behind it.
  pub after_u32 :
      {v : ℕ} (k : ℕ × Reader → EmuResult B)
      → IsU32 v
      → At file off (u32_field v ∷ rest)
      → (At file (off + 4) rest → k (v, cursor file (off + 4)) ≡ out)
      → (u32_le (cursor file off) >>= k) ≡ out
  unfolding u32_le field_bytes
  after_u32 {v = v} k h a next =
      rw (take_bytes-At small 4 (length-to_le 4 v) a, from_le-to_le 4 v h) (next (At-u32 a))

  pub after_u64 :
      {v : ℕ} (k : ℕ × Reader → EmuResult B)
      → IsU64 v
      → At file off (u64_field v ∷ rest)
      → (At file (off + 8) rest → k (v, cursor file (off + 8)) ≡ out)
      → (u64_le (cursor file off) >>= k) ≡ out
  unfolding u64_le field_bytes
  after_u64 {v = v} k h a next =
      rw (take_bytes-At small 8 (length-to_le 8 v) a, from_le-to_le 8 v h) (next (At-u64 a))

  pub after_name :
      {name : Text} (k : Text × Reader → EmuResult B)
      → IsFieldName name
      → At file off (name_field name ∷ rest)
      → (At file (off + 16) rest → k (name, cursor file (off + 16)) ≡ out)
      → (fixed_str (cursor file off) 16 >>= k) ≡ out
  unfolding fixed_str field_bytes
  after_name {name = name} k h a next =
      rw
        (
          take_bytes-At small 16 (name_width name h.1) a,
          until_nul-padded name (16 - length name) h.0,
          from_utf8_lossy-ascii name (name-IsAscii name h.0),
        )
        (next (At-name h.1 a))

  pub after_at :
      (k : Reader → EmuResult B)
      → At file off rest
      → (At file off rest → k (cursor file off) ≡ out)
      → (at file off >>= k) ≡ out
  after_at k a next = rw (at-At small a) (next a)
