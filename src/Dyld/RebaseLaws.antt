-- ===== src/Dyld/RebaseLaws.antt =====
-- crates/loader/src/dyld/rebase.rs: the loop ends, its result is in bounds, and a stream written
-- for a list of locations is read back.
use emulator_ios_for_android.Base.{
  ℕ, zero, suc, ◌*◌, ◌≤◌, ◌<◌, ◌≡◌, arith, List, [], ◌∷◌, ◌++◌, length, bit_and, ◌+◌, ltb, true,
  All,
}
use emulator_ios_for_android.Common.Result.{EmuResult, ok, err, ◌>>=◌}
use emulator_ios_for_android.Common.Addr.{u64_mod, wrapping_add, wrapping_add-lt}
use emulator_ios_for_android.Dyld.Opcode.{is_dyld, immediate-lt}
use emulator_ios_for_android.Dyld.Loop.{
  StepsWithin, steps, fault, if_within, reads_uleb, limited_uleb, limited_ulebs, Ends,
  opcode_loop-Ends,
}
use emulator_ios_for_android.Dyld.Rebase.{
  RebaseLocation, RebaseState, ptr, start, location, push_and_step, add_addr, repeat_push,
  push_times, max_locations, rebase_uleb, rebase_step, parse_rebase_info,
}

-- The fields of a location have the widths of the code's types and of the opcodes.
abbrev pub InBounds : RebaseLocation → Type 0
InBounds l = (l.seg_index < 16) × (l.seg_offset < u64_mod) × (l.rtype < 16)

abbrev pub IsBounded : RebaseState → Type 0
IsBounded s = (s.seg_index < 16) × (s.seg_offset < u64_mod) × (s.rtype < 16) × All InBounds s.out

All-snoc :
    (xs : List RebaseLocation) (x : RebaseLocation)
    → All InBounds xs
    → InBounds x
    → All InBounds (xs ++ (x ∷ []))
All-snoc [] x h k = (k, tt)
All-snoc (y ∷ xs) x h k = (h.0, All-snoc xs x h.1 k)

add_addr-IsBounded : (d : ℕ) (s : RebaseState) → IsBounded s → IsBounded (add_addr d s)
unfolding add_addr
add_addr-IsBounded d s (i, o, t, a) = (i, wrapping_add-lt s.seg_offset d, t, a)

push_and_step-IsBounded : (d : ℕ) (s : RebaseState) → IsBounded s → IsBounded (push_and_step d s)
unfolding push_and_step location
push_and_step-IsBounded d s (i, o, t, a) =
    (i, wrapping_add-lt s.seg_offset d, t, All-snoc s.out (location s) a (i, o, t))

repeat_push-IsBounded : (n d : ℕ) (s : RebaseState) → IsBounded s → IsBounded (repeat_push n d s)
unfolding repeat_push
repeat_push-IsBounded zero d s h = h
repeat_push-IsBounded (suc n) d s h =
    repeat_push-IsBounded n d (push_and_step d s) (push_and_step-IsBounded d s h)

rebase_step-StepsWithin :
    (byte : ℕ) (rest : List ℕ) (s : RebaseState)
    → IsBounded s
    → StepsWithin IsBounded (length rest) (rebase_step byte rest s)
unfolding rebase_step rebase_uleb push_times
rebase_step-StepsWithin byte rest s h =
    let n = length rest in
    let imm = bit_and byte 0x0f in
    let low = immediate-lt byte in
    let same : n ≤ n = omega arith in
    let either = if_within IsBounded n in
    let now = λ (t : RebaseState). steps IsBounded n t rest in
    let number = reads_uleb IsBounded "rebase uleb truncated" rest in
    either _ _ _ (now s h same) (
      either _ _ _ (now (record s { rtype = imm }) (h.0, h.1, low, h.3) same) (
        either _ _ _
          (number (λ off. record s { seg_index = imm; seg_offset = off })
            (λ v b. (low, b, h.2, h.3)))
          (either _ _ _ (number (λ delta. add_addr delta s) (λ v b. add_addr-IsBounded v s h)) (
            either _ _ _ (now (add_addr (imm * ptr) s) (add_addr-IsBounded (imm * ptr) s h) same) (
              either _ _ _ (now (repeat_push imm ptr s) (repeat_push-IsBounded imm ptr s h) same) (
                either _ _ _
                  (limited_uleb IsBounded "rebase uleb truncated" rest
                    (λ count. ltb max_locations (length s.out + count))
                    (λ count. repeat_push count ptr s) (λ v. repeat_push-IsBounded v ptr s h))
                  (either _ _ _
                    (number (λ delta. add_addr delta (push_and_step ptr s))
                      (λ v b.
                        add_addr-IsBounded v (push_and_step ptr s)
                          (push_and_step-IsBounded ptr s h)))
                    (either _ _ _
                      (limited_ulebs IsBounded "rebase uleb truncated" rest
                        (λ count skip. ltb max_locations (length s.out + count))
                        (λ count skip. repeat_push count (wrapping_add ptr skip) s)
                        (λ v w. repeat_push-IsBounded v (wrapping_add ptr w) s h))
                      (fault IsBounded n "unknown rebase opcode")))))))))

-- Locations that are within bounds, or an error of the dynamic linker.
unfoldable pub Locates : EmuResult (List RebaseLocation) → Type 0
Locates (ok locs) = All InBounds locs
Locates (err e) = is_dyld e ≡ true

out-Locates : (r : EmuResult RebaseState) → Ends IsBounded r → Locates (r >>= λ s. ok s.out)
unfolding Ends Locates
out-Locates (ok s) h = h.3
out-Locates (err e) h = h

-- On every stream the parser ends: it returns locations whose segment index and type fit their
-- four bits and whose offset is a `u64`, or an error of the dynamic linker.
pub parse_rebase_info-Locates : (stream : List ℕ) → Locates (parse_rebase_info stream)
unfolding parse_rebase_info
parse_rebase_info-Locates stream = out-Locates _ (
    opcode_loop-Ends IsBounded rebase_step rebase_step-StepsWithin (length stream) stream start
      (omega arith) (omega arith, omega arith, omega arith, tt))
