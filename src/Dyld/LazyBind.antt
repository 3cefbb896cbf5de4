-- ===== src/Dyld/LazyBind.antt =====
-- `parse_lazy_bind_info` of crates/loader/src/dyld/bind.rs, whose entries carry the offset of
-- their first opcode.
use emulator_ios_for_android.Base.{
  ℕ, ◌-◌, List, [], ◌∷◌, ◌++◌, length, ◌==◌, if◌then◌else◌, bit_and,
}
use emulator_ios_for_android.Common.Result.{EmuResult, ok, ◌>>=◌}
use emulator_ios_for_android.Common.Addr.{wrapping_add}
use emulator_ios_for_android.Common.Utf8.{Text}
use emulator_ios_for_android.Dyld.Leb.{Parsed, read_uleb, read_sleb, read_cstr}
use emulator_ios_for_android.Dyld.Loop.{opcode_loop}

pub record LazyBind : Type 0 where
  pub offset : ℕ
  pub seg_index : ℕ
  pub seg_offset : ℕ
  pub symbol : Text

-- The variables of the loop. `current.offset` is `seq_start`.
pub record LazyState : Type 0 where
  pub current : LazyBind
  pub out : List LazyBind

abbrev pub start : LazyState
start = record {
  current = record { offset = 0; seg_index = 0; seg_offset = 0; symbol = [] };
  out = [];
}

unfoldable pub set_current : (LazyBind → LazyBind) → LazyState → LazyState
set_current f s = record s { current = f s.current }

unfoldable pub push : LazyState → LazyState
push s = record s { out = s.out ++ (s.current ∷ []) }

-- One round of the loop over a stream of `total` bytes: the cursor `p` is `total` less the bytes
-- that are left.
unfoldable pub lazy_step : ℕ → ℕ → List ℕ → LazyState → Parsed LazyState
unfolding set_current wrapping_add
lazy_step total byte rest s =
    let opcode = bit_and byte 0xf0 in
    let imm = bit_and byte 0x0f in
    if opcode == 0x00
    then ok (set_current (λ c. record c { offset = total - length rest }) s, rest)
    else if opcode == 0x20
    then (do (ordinal, rest') ← read_uleb rest; ok (s, rest'))
    else if opcode == 0x40
    then (do
      (name, rest') ← read_cstr rest
      ok (set_current (λ c. record c { symbol = name }) s, rest'))
    else if opcode == 0x60
    then (do (addend, rest') ← read_sleb rest; ok (s, rest'))
    else if opcode == 0x70
    then (do
      (off, rest') ← read_uleb rest
      ok (set_current (λ c. record c { seg_index = imm; seg_offset = off }) s, rest'))
    else if opcode == 0x80
    then (do
      (delta, rest') ← read_uleb rest
      ok (set_current (λ c. record c { seg_offset = wrapping_add c.seg_offset delta }) s, rest'))
    else if opcode == 0x90
    then ok (push s, rest)
    else ok (s, rest)

unfoldable pub parse_lazy_bind_info : List ℕ → EmuResult (List LazyBind)
parse_lazy_bind_info stream = do
  s ← opcode_loop (lazy_step (length stream)) (length stream) stream start
  ok s.out
