-- ===== src/Dyld/RebaseRoundTrip.antt =====
-- crates/loader/src/dyld/rebase.rs: the stream written for a list of locations is read back.
use emulator_ios_for_android.Base.{
  ℕ, zero, suc, ◌+◌, ◌*◌, ◌≤◌, ◌<◌, ◌≡◌, refl, arith, List, [], ◌∷◌, ◌++◌, length, bit_and, All,
  sym, ◌∙◌, ap, length-append,
}
use emulator_ios_for_android.Common.Result.{EmuResult, ok, ◌>>=◌}
use emulator_ios_for_android.Common.Addr.{IsU64}
use emulator_ios_for_android.Dyld.Opcode.{opcode_half, immediate_half}
use emulator_ios_for_android.Dyld.LebRoundTrip.{encode_uleb, uleb_loop-encode_uleb}
use emulator_ios_for_android.Dyld.Loop.{opcode_loop, opcode_loop-done}
use emulator_ios_for_android.Dyld.Rebase.{
  RebaseLocation, RebaseState, ptr, start, location, push_and_step, repeat_push, rebase_uleb,
  rebase_step, parse_rebase_info,
}
use emulator_ios_for_android.Dyld.RebaseLaws.{InBounds}

-- The opcodes for one location: its type, its segment and offset, and one rebase.
unfoldable pub encode_location : RebaseLocation → List ℕ → List ℕ
encode_location l rest =
    (0x10 + l.rtype) ∷ (0x20 + l.seg_index) ∷ (encode_uleb l.seg_offset ++ (0x51 ∷ rest))

unfoldable pub encode_rebase_info : List RebaseLocation → List ℕ
unfolding encode_location
encode_rebase_info [] = []
encode_rebase_info (l ∷ ls) = encode_location l (encode_rebase_info ls)

-- The two halves of a byte written as an opcode and an immediate.
pub opcode_of : (k t : ℕ) → t < 16 → k < 16 → bit_and (k * 16 + t) 0xf0 ≡ k * 16
opcode_of k t h j = omega (arith, opcode_half (k * 16 + t) (omega arith))

pub immediate_of : (k t : ℕ) → t < 16 → bit_and (k * 16 + t) 0x0f ≡ t
immediate_of k t h = omega (arith, immediate_half (k * 16 + t))

step_type :
    (t : ℕ) (rest : List ℕ) (s : RebaseState)
    → t < 16
    → rebase_step (0x10 + t) rest s ≡ ok (record s { rtype = t }, rest)
unfolding rebase_step
step_type t rest s h = rw (opcode_of 1 t h (omega arith), immediate_of 1 t h) refl

step_segment :
    (i o : ℕ) (rest : List ℕ) (s : RebaseState)
    → i < 16
    → IsU64 o
    → rebase_step (0x20 + i) (encode_uleb o ++ rest) s
      ≡ ok (record s { seg_index = i; seg_offset = o }, rest)
unfolding rebase_step rebase_uleb
step_segment i o rest s h u =
    rw
      (
        opcode_of 2 i h (omega arith),
        immediate_of 2 i h,
        uleb_loop-encode_uleb "rebase uleb truncated" o rest u,
      )
      refl

step_once :
    (rest : List ℕ) (s : RebaseState) → rebase_step 0x51 rest s ≡ ok (push_and_step ptr s, rest)
unfolding rebase_step repeat_push
step_once rest s = refl

rebase_loop-location :
    (fuel : ℕ) (l : RebaseLocation) (rest : List ℕ) (s : RebaseState)
    → InBounds l
    → opcode_loop rebase_step (suc (suc (suc fuel))) (encode_location l rest) s
      ≡ opcode_loop rebase_step fuel rest (
          push_and_step ptr
            (record s { seg_index = l.seg_index; seg_offset = l.seg_offset; rtype = l.rtype }))
unfolding opcode_loop encode_location rebase_step push_and_step repeat_push
rebase_loop-location fuel l rest s (i, o, t) =
    rw
      (
        step_type l.rtype ((0x20 + l.seg_index) ∷ (encode_uleb l.seg_offset ++ (0x51 ∷ rest))) s t,
        step_segment l.seg_index l.seg_offset (0x51 ∷ rest) (record s { rtype = l.rtype }) i o,
      )
      refl

append_nil : (xs : List RebaseLocation) → xs ++ [] ≡ xs
append_nil [] = refl
append_nil (x ∷ xs) = ap (λ t. x ∷ t) (append_nil xs)

append_one :
    (xs ys : List RebaseLocation) (x : RebaseLocation) → (xs ++ (x ∷ [])) ++ ys ≡ xs ++ (x ∷ ys)
append_one [] ys x = refl
append_one (w ∷ xs) ys x = ap (λ t. w ∷ t) (append_one xs ys x)

rebase_loop-encode :
    (fuel : ℕ) (ls : List RebaseLocation) (s : RebaseState)
    → All InBounds ls
    → length ls * 3 ≤ fuel
    → (opcode_loop rebase_step fuel (encode_rebase_info ls) s >>= λ t. ok t.out) ≡ ok (s.out ++ ls)
unfolding encode_rebase_info push_and_step location
rebase_loop-encode fuel [] s h le =
    ap (λ (r : EmuResult RebaseState). r >>= λ t. ok t.out) (opcode_loop-done rebase_step fuel s)
    ∙ ap (λ t. ok t) (sym (append_nil s.out))
rebase_loop-encode zero (l ∷ ls) s h le = absurd (omega arith)
rebase_loop-encode (suc zero) (l ∷ ls) s h le = absurd (omega arith)
rebase_loop-encode (suc (suc zero)) (l ∷ ls) s h le = absurd (omega arith)
rebase_loop-encode (suc (suc (suc fuel))) (l ∷ ls) s (hl, h) le =
    let s' =
      push_and_step ptr
        (record s { seg_index = l.seg_index; seg_offset = l.seg_offset; rtype = l.rtype }) in
    ap (λ (r : EmuResult RebaseState). r >>= λ t. ok t.out)
      (rebase_loop-location fuel l (encode_rebase_info ls) s hl)
    ∙ rebase_loop-encode fuel ls s' h (omega arith)
    ∙ ap (λ t. ok t) (append_one s.out ls l)

long_enough : (ls : List RebaseLocation) → length ls * 3 ≤ length (encode_rebase_info ls)
unfolding encode_rebase_info encode_location
long_enough [] = omega arith
long_enough (l ∷ ls) =
    omega (
      arith,
      long_enough ls,
      length-append (encode_uleb l.seg_offset) (0x51 ∷ encode_rebase_info ls),
    )

-- The stream written for locations within the code's widths is parsed to these locations, in
-- order.
pub parse_rebase_info-encode :
    (ls : List RebaseLocation) → All InBounds ls → parse_rebase_info (encode_rebase_info ls) ≡ ok ls
unfolding parse_rebase_info
parse_rebase_info-encode ls h =
    rebase_loop-encode (length (encode_rebase_info ls)) ls start h (long_enough ls)
