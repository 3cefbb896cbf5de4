-- ===== src/Dyld/Bind.antt =====
-- crates/loader/src/dyld/bind.rs: the bind opcodes. `lib_ordinal` and `addend` are `i64`, held as
-- their 64-bit patterns.
use emulator_ios_for_android.Base.{
  ℕ, zero, suc, ◌+◌, ◌-◌, ◌*◌, ◌^◌, ltb, Bool, false, not, List, [], ◌∷◌, ◌++◌, length, ◌==◌,
  if◌then◌else◌, bit_and,
}
use emulator_ios_for_android.Common.Result.{EmuResult, dyld, capacity_overflow, ok, err, ◌>>=◌}
use emulator_ios_for_android.Common.Addr.{u64_mod, wrapping_add}
use emulator_ios_for_android.Common.Utf8.{Text}
use emulator_ios_for_android.Dyld.Leb.{Parsed, read_uleb, read_sleb, read_cstr}
use emulator_ios_for_android.Dyld.Loop.{opcode_loop}

pub data BindKind : Type 0 where
  pointer : BindKind
  other : ℕ → BindKind

-- `BindKind::from`.
unfoldable pub from_type : ℕ → BindKind
from_type v = if v == 1 then pointer else other v

abbrev pub ptr : ℕ
ptr = 8

pub record BindRecord : Type 0 where
  pub seg_index : ℕ
  pub seg_offset : ℕ
  pub symbol : Text
  pub lib_ordinal : ℕ
  pub addend : ℕ
  pub kind : BindKind
  pub weak : Bool

-- The variables of the loop: those that a record is made of, and the records so far.
pub record BindState : Type 0 where
  pub current : BindRecord
  pub records : List BindRecord

abbrev pub start : BindState
start = record {
  current = record {
    seg_index = 0;
    seg_offset = 0;
    symbol = [];
    lib_ordinal = 0;
    addend = 0;
    kind = pointer;
    weak = false;
  };
  records = [];
}

unfoldable pub set_current : (BindRecord → BindRecord) → BindState → BindState
set_current f s = record s { current = f s.current }

-- `emit`, and then the offset moves on by `step`.
unfoldable pub emit : BindState → BindState
emit s = record s { records = s.records ++ (s.current ∷ []) }

unfoldable pub add_addr : ℕ → BindState → BindState
unfolding set_current wrapping_add
add_addr delta s = set_current (λ c. record c { seg_offset = wrapping_add c.seg_offset delta }) s

-- `for _ in 0..count`.
unfoldable pub repeat_emit : ℕ → ℕ → BindState → BindState
repeat_emit zero skip s = s
repeat_emit (suc count) skip s = repeat_emit count skip (add_addr skip (add_addr ptr (emit s)))

-- What a `Vec` can hold: `isize::MAX` bytes, 64 for a record on a 64-bit target.
abbrev pub max_records : ℕ
max_records = 2 ^ 57 - 1

-- The loop, with the panic of `Vec::push`.
unfoldable pub emit_times : ℕ → ℕ → BindState → EmuResult BindState
unfolding repeat_emit
emit_times count skip s =
    if ltb max_records (length s.records + count)
    then err capacity_overflow
    else ok (repeat_emit count skip s)

-- The ordinal of SET_DYLIB_SPECIAL_IMM, sign-extended from four bits.
unfoldable pub special_ordinal : ℕ → ℕ
special_ordinal imm = if imm == 0 then 0 else u64_mod - 16 + imm

-- One round of the loop: the byte taken, and the stream behind it.
unfoldable pub bind_step : ℕ → List ℕ → BindState → Parsed BindState
unfolding set_current
bind_step byte rest s =
    let opcode = bit_and byte 0xf0 in
    let imm = bit_and byte 0x0f in
    if opcode == 0x00
    then ok (s, rest)
    else if opcode == 0x10
    then ok (set_current (λ c. record c { lib_ordinal = imm }) s, rest)
    else if opcode == 0x20
    then (do
      (ordinal, rest') ← read_uleb rest
      ok (set_current (λ c. record c { lib_ordinal = ordinal }) s, rest'))
    else if opcode == 0x30
    then ok (set_current (λ c. record c { lib_ordinal = special_ordinal imm }) s, rest)
    else if opcode == 0x40
    then (do
      (name, rest') ← read_cstr rest
      ok (set_current (λ c. record c { symbol = name; weak = not (bit_and imm 1 == 0) }) s, rest'))
    else if opcode == 0x50
    then ok (set_current (λ c. record c { kind = from_type imm }) s, rest)
    else if opcode == 0x60
    then (do
      (addend, rest') ← read_sleb rest
      ok (set_current (λ c. record c { addend = addend }) s, rest'))
    else if opcode == 0x70
    then (do
      (off, rest') ← read_uleb rest
      ok (set_current (λ c. record c { seg_index = imm; seg_offset = off }) s, rest'))
    else if opcode == 0x80
    then (do (delta, rest') ← read_uleb rest; ok (add_addr delta s, rest'))
    else if opcode == 0x90
    then ok (add_addr ptr (emit s), rest)
    else if opcode == 0xa0
    then (do (delta, rest') ← read_uleb rest; ok (add_addr delta (add_addr ptr (emit s)), rest'))
    else if opcode == 0xb0
    then ok (add_addr (imm * ptr) (add_addr ptr (emit s)), rest)
    else if opcode == 0xc0
    then (do
      (count, rest') ← read_uleb rest
      (skip, rest'') ← read_uleb rest'
      s' ← emit_times count skip s
      ok (s', rest''))
    else err (dyld "unknown bind opcode")

unfoldable pub parse_bind_info : List ℕ → EmuResult (List BindRecord)
parse_bind_info stream = do s ← opcode_loop bind_step (length stream) stream start; ok s.records
