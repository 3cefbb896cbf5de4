-- ===== src/Dyld/BindRoundTrip.antt =====
-- crates/loader/src/dyld/bind.rs: a bind stream written for a list of records is read back.
use emulator_ios_for_android.Base.{
  ℕ, zero, suc, ◌+◌, ◌*◌, ◌≤◌, ◌<◌, ◌≡◌, refl, arith, Bool, true, false, List, [], ◌∷◌, ◌++◌,
  length, All, sym, ◌∙◌, ap, length-append,
}
use emulator_ios_for_android.Common.Result.{EmuResult, ok, ◌>>=◌}
use emulator_ios_for_android.Common.Addr.{IsU64}
use emulator_ios_for_android.Dyld.LebRoundTrip.{
  encode_uleb, read_uleb-encode, IsName, read_cstr-name,
}
use emulator_ios_for_android.Dyld.Loop.{opcode_loop, opcode_loop-done}
use emulator_ios_for_android.Dyld.RebaseRoundTrip.{opcode_of, immediate_of}
use emulator_ios_for_android.Dyld.Bind.{
  BindKind, pointer, other, from_type, BindRecord, BindState, start, ptr, set_current, emit,
  add_addr, bind_step, parse_bind_info,
}

unfoldable pub type_code : BindKind → ℕ
type_code pointer = 1
type_code (other v) = v

unfoldable pub weak_code : Bool → ℕ
weak_code false = 0
weak_code true = 1

-- The opcodes of one record: its ordinal, type, symbol, segment and offset, and DO_BIND.
unfoldable pub encode_bind : BindRecord → List ℕ → List ℕ
unfolding type_code weak_code
encode_bind e rest =
    0x20
    ∷ (encode_uleb e.lib_ordinal
        ++ ((0x50 + type_code e.kind)
            ∷ ((0x40 + weak_code e.weak)
                ∷ (e.symbol
                    ++ (0x00
                        ∷ ((0x70 + e.seg_index) ∷ (encode_uleb e.seg_offset ++ (0x90 ∷ rest))))))))

unfoldable pub encode_bind_info : List BindRecord → List ℕ
unfolding encode_bind
encode_bind_info [] = []
encode_bind_info (e ∷ es) = encode_bind e (encode_bind_info es)

-- A kind that a type of four bits stands for.
unfoldable pub IsKind : BindKind → Type 0
IsKind pointer = Unit
IsKind (other v) = (v < 16) × (v ≡ 1 → ⊥)

-- The record fits the code's widths, its name can be held by the stream, and its addend is 0.
abbrev pub IsEncodable : BindRecord → Type 0
IsEncodable e =
    (e.seg_index < 16)
    × IsU64 e.seg_offset
    × IsName e.symbol
    × IsU64 e.lib_ordinal
    × IsKind e.kind
    × (e.addend ≡ 0)

step_ordinal :
    (v : ℕ) (rest : List ℕ) (s : BindState)
    → IsU64 v
    → bind_step 0x20 (encode_uleb v ++ rest) s
      ≡ ok (set_current (λ c. record c { lib_ordinal = v }) s, rest)
unfolding bind_step
step_ordinal v rest s u = rw (read_uleb-encode v rest u) refl

step_type_imm :
    (v : ℕ) (rest : List ℕ) (s : BindState)
    → v < 16
    → bind_step (0x50 + v) rest s ≡ ok (set_current (λ c. record c { kind = from_type v }) s, rest)
unfolding bind_step
step_type_imm v rest s h = rw (opcode_of 5 v h (omega arith), immediate_of 5 v h) refl

from_type_other : (v : ℕ) → (v ≡ 1 → ⊥) → from_type v ≡ other v
unfolding from_type
from_type_other v h = ground arith

step_type :
    (k : BindKind) (rest : List ℕ) (s : BindState)
    → IsKind k
    → bind_step (0x50 + type_code k) rest s ≡ ok (set_current (λ c. record c { kind = k }) s, rest)
unfolding type_code IsKind from_type
step_type pointer rest s h = step_type_imm 1 rest s (omega arith)
step_type (other v) rest s (h, k) = rw (sym (from_type_other v k)) (step_type_imm v rest s h)

step_symbol :
    (weak : Bool) (name rest : List ℕ) (s : BindState)
    → IsName name
    → bind_step (0x40 + weak_code weak) (name ++ (0 ∷ rest)) s
      ≡ ok (set_current (λ c. record c { symbol = name; weak = weak }) s, rest)
unfolding bind_step weak_code
step_symbol false name rest s h = rw (read_cstr-name name rest h) refl
step_symbol true name rest s h = rw (read_cstr-name name rest h) refl

step_segment :
    (i o : ℕ) (rest : List ℕ) (s : BindState)
    → i < 16
    → IsU64 o
    → bind_step (0x70 + i) (encode_uleb o ++ rest) s
      ≡ ok (set_current (λ c. record c { seg_index = i; seg_offset = o }) s, rest)
unfolding bind_step
step_segment i o rest s h u =
    rw (opcode_of 7 i h (omega arith), immediate_of 7 i h, read_uleb-encode o rest u) refl

step_bind :
    (rest : List ℕ) (s : BindState) → bind_step 0x90 rest s ≡ ok (add_addr ptr (emit s), rest)
unfolding bind_step
step_bind rest s = refl

-- What the loop has done behind a record.
abbrev bound : BindRecord → BindState → BindState
bound e s = add_addr ptr (emit (record s { current = record e { addend = s.current.addend } }))

opcode_loop-bind :
    (fuel : ℕ) (e : BindRecord) (rest : List ℕ) (s : BindState)
    → IsEncodable e
    → opcode_loop bind_step (suc (suc (suc (suc (suc fuel))))) (encode_bind e rest) s
      ≡ opcode_loop bind_step fuel rest (bound e s)
unfolding opcode_loop encode_bind set_current
opcode_loop-bind fuel e rest s (i, o, n, u, k, z) =
    let behind_segment = 0x90 ∷ rest in
    let behind_name = (0x70 + e.seg_index) ∷ (encode_uleb e.seg_offset ++ behind_segment) in
    let behind_type = (0x40 + weak_code e.weak) ∷ (e.symbol ++ (0x00 ∷ behind_name)) in
    let s1 : BindState = set_current (λ c. record c { lib_ordinal = e.lib_ordinal }) s in
    let s2 : BindState = set_current (λ c. record c { kind = e.kind }) s1 in
    let s3 : BindState = set_current (λ c. record c { symbol = e.symbol; weak = e.weak }) s2 in
    let s4 : BindState =
      set_current (λ c. record c { seg_index = e.seg_index; seg_offset = e.seg_offset }) s3 in
    rw
      (
        step_ordinal e.lib_ordinal ((0x50 + type_code e.kind) ∷ behind_type) s u,
        step_type e.kind behind_type s1 k,
        step_symbol e.weak e.symbol behind_name s2 n,
        step_segment e.seg_index e.seg_offset behind_segment s3 i o,
        step_bind rest s4,
      )
      refl

append_nil : (xs : List BindRecord) → xs ++ [] ≡ xs
append_nil [] = refl
append_nil (x ∷ xs) = ap (λ t. x ∷ t) (append_nil xs)

append_one : (xs ys : List BindRecord) (x : BindRecord) → (xs ++ (x ∷ [])) ++ ys ≡ xs ++ (x ∷ ys)
append_one [] ys x = refl
append_one (w ∷ xs) ys x = ap (λ t. w ∷ t) (append_one xs ys x)

longer : (e : BindRecord) (rest : List ℕ) → length rest + 5 ≤ length (encode_bind e rest)
unfolding encode_bind
longer e rest =
    let behind_segment = 0x90 ∷ rest in
    let behind_name = (0x70 + e.seg_index) ∷ (encode_uleb e.seg_offset ++ behind_segment) in
    let behind_type = (0x40 + weak_code e.weak) ∷ (e.symbol ++ (0x00 ∷ behind_name)) in
    omega (
      arith,
      length-append (encode_uleb e.lib_ordinal) ((0x50 + type_code e.kind) ∷ behind_type),
      length-append e.symbol (0x00 ∷ behind_name),
      length-append (encode_uleb e.seg_offset) behind_segment,
    )

opcode_loop-encode :
    (fuel : ℕ) (es : List BindRecord) (s : BindState)
    → All IsEncodable es
    → s.current.addend ≡ 0
    → length es * 5 ≤ fuel
    → (opcode_loop bind_step fuel (encode_bind_info es) s >>= λ t. ok t.records)
      ≡ ok (s.records ++ es)
unfolding encode_bind_info add_addr set_current emit
opcode_loop-encode fuel [] s h z le =
    ap (λ (r : EmuResult BindState). r >>= λ t. ok t.records) (opcode_loop-done bind_step fuel s)
    ∙ ap (λ t. ok t) (sym (append_nil s.records))
opcode_loop-encode zero (e ∷ es) s h z le = absurd (omega arith)
opcode_loop-encode (suc zero) (e ∷ es) s h z le = absurd (omega arith)
opcode_loop-encode (suc (suc zero)) (e ∷ es) s h z le = absurd (omega arith)
opcode_loop-encode (suc (suc (suc zero))) (e ∷ es) s h z le = absurd (omega arith)
opcode_loop-encode (suc (suc (suc (suc zero)))) (e ∷ es) s h z le = absurd (omega arith)
opcode_loop-encode (suc (suc (suc (suc (suc fuel))))) (e ∷ es) s (he, h) z le =
    let rest = encode_bind_info es in
    let entry : ℕ → BindRecord = λ a. record e { addend = a } in
    let no_addend : e.addend ≡ 0 = he.5 in
    ap (λ (r : EmuResult BindState). r >>= λ t. ok t.records) (opcode_loop-bind fuel e rest s he)
    ∙ opcode_loop-encode fuel es (bound e s) h z (omega arith)
    ∙ ap (λ t. ok t) (append_one s.records es (entry s.current.addend))
    ∙ ap (λ a. ok (s.records ++ (entry a ∷ es))) (z ∙ sym no_addend)

long_enough : (es : List BindRecord) → length es * 5 ≤ length (encode_bind_info es)
unfolding encode_bind_info
long_enough [] = omega arith
long_enough (e ∷ es) = omega (arith, long_enough es, longer e (encode_bind_info es))

-- The bind stream of records that fit the code's widths, whose names are ASCII without NUL, whose
-- types have four bits and whose addends are 0 is parsed to these records.
pub parse_bind_info-encode :
    (es : List BindRecord) → All IsEncodable es → parse_bind_info (encode_bind_info es) ≡ ok es
unfolding parse_bind_info
parse_bind_info-encode es h =
    opcode_loop-encode (length (encode_bind_info es)) es start h refl (long_enough es)
