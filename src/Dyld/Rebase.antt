-- ===== src/Dyld/Rebase.antt =====
-- crates/loader/src/dyld/rebase.rs: the rebase opcodes.
use emulator_ios_for_android.Base.{
  ℕ, zero, suc, ◌*◌, ◌+◌, ◌-◌, ◌/◌, ◌^◌, ltb, List, [], ◌∷◌, ◌++◌, length, ◌==◌, if◌then◌else◌,
  bit_and,
}
use emulator_ios_for_android.Common.Result.{EmuResult, dyld, capacity_overflow, ok, err, ◌>>=◌}
use emulator_ios_for_android.Common.Addr.{wrapping_add}
use emulator_ios_for_android.Dyld.Leb.{Parsed, uleb_loop}
use emulator_ios_for_android.Dyld.Loop.{opcode_loop}

-- `read_uleb` of rebase.rs.
unfoldable pub rebase_uleb : List ℕ → Parsed ℕ
rebase_uleb buf = uleb_loop "rebase uleb truncated" buf 0 0

abbrev pub rebase_type_pointer : ℕ
rebase_type_pointer = 1

-- `PTR`, the width of a pointer.
abbrev pub ptr : ℕ
ptr = 8

pub record RebaseLocation : Type 0 where
  pub seg_index : ℕ
  pub seg_offset : ℕ
  pub rtype : ℕ

-- The variables of the loop.
pub record RebaseState : Type 0 where
  pub seg_index : ℕ
  pub seg_offset : ℕ
  pub rtype : ℕ
  pub out : List RebaseLocation

abbrev pub start : RebaseState
start = record { seg_index = 0; seg_offset = 0; rtype = rebase_type_pointer; out = [] }

unfoldable pub location : RebaseState → RebaseLocation
location s = record { seg_index = s.seg_index; seg_offset = s.seg_offset; rtype = s.rtype }

-- `out.push(…)`, and then the offset moves on by `step` with wrap-around.
unfoldable pub push_and_step : ℕ → RebaseState → RebaseState
unfolding location wrapping_add
push_and_step step s = record s {
  seg_offset = wrapping_add s.seg_offset step;
  out = s.out ++ (location s ∷ []);
}

unfoldable pub add_addr : ℕ → RebaseState → RebaseState
unfolding wrapping_add
add_addr delta s = record s { seg_offset = wrapping_add s.seg_offset delta }

-- `for _ in 0..count`.
unfoldable pub repeat_push : ℕ → ℕ → RebaseState → RebaseState
repeat_push zero step s = s
repeat_push (suc count) step s = repeat_push count step (push_and_step step s)

-- What a `Vec` can hold: `isize::MAX` bytes, 24 for a location on a 64-bit target.
abbrev pub max_locations : ℕ
max_locations = (2 ^ 63 - 1) / 24

-- The loop, with the panic of `Vec::push`.
unfoldable pub push_times : ℕ → ℕ → RebaseState → EmuResult RebaseState
unfolding repeat_push
push_times count step s =
    if ltb max_locations (length s.out + count)
    then err capacity_overflow
    else ok (repeat_push count step s)

-- One round of the loop: the byte taken, and the stream behind it.
unfoldable pub rebase_step : ℕ → List ℕ → RebaseState → Parsed RebaseState
rebase_step byte rest s =
    let opcode = bit_and byte 0xf0 in
    let imm = bit_and byte 0x0f in
    if opcode == 0x00
    then ok (s, rest)
    else if opcode == 0x10
    then ok (record s { rtype = imm }, rest)
    else if opcode == 0x20
    then (do
      (off, rest') ← rebase_uleb rest
      ok (record s { seg_index = imm; seg_offset = off }, rest'))
    else if opcode == 0x30
    then (do (delta, rest') ← rebase_uleb rest; ok (add_addr delta s, rest'))
    else if opcode == 0x40
    then ok (add_addr (imm * ptr) s, rest)
    else if opcode == 0x50
    then ok (repeat_push imm ptr s, rest)
    else if opcode == 0x60
    then (do (count, rest') ← rebase_uleb rest; s' ← push_times count ptr s; ok (s', rest'))
    else if opcode == 0x70
    then (do (delta, rest') ← rebase_uleb rest; ok (add_addr delta (push_and_step ptr s), rest'))
    else if opcode == 0x80
    then (do
      (count, rest') ← rebase_uleb rest
      (skip, rest'') ← rebase_uleb rest'
      s' ← push_times count (wrapping_add ptr skip) s
      ok (s', rest''))
    else err (dyld "unknown rebase opcode")

unfoldable pub parse_rebase_info : List ℕ → EmuResult (List RebaseLocation)
parse_rebase_info stream = do s ← opcode_loop rebase_step (length stream) stream start; ok s.out
