-- ===== src/Dyld/BindLaws.antt =====
-- crates/loader/src/dyld/bind.rs: the bind parser ends on every stream, and its records are in
-- bounds.
use emulator_ios_for_android.Base.{
  ℕ, zero, suc, ◌+◌, ◌*◌, ◌%◌, ◌^◌, ◌≤◌, ◌<◌, ◌≡◌, refl, arith, List, [], ◌∷◌, ◌++◌, length,
  bit_and, bit_or, ltb, true, All,
}
use emulator_ios_for_android.Common.Result.{EmuResult, ok, err, ◌>>=◌}
use emulator_ios_for_android.Common.Addr.{u64_mod, wrapping_add-lt}
use emulator_ios_for_android.Common.Utf8.{Text}
use emulator_ios_for_android.Dyld.Leb.{
  read_uleb, read_sleb, read_cstr, sleb_loop, cstr_loop, Parsed, shl64,
}
use emulator_ios_for_android.Dyld.Opcode.{Reads, is_dyld, immediate-lt}
use emulator_ios_for_android.Dyld.Loop.{
  StepsWithin, steps, fault, if_within, one_read, reads_uleb, limited_ulebs, Ends, opcode_loop-Ends,
}
use emulator_ios_for_android.Dyld.Bind.{
  BindKind, pointer, other, from_type, ptr, BindRecord, BindState, start, set_current, emit,
  add_addr, repeat_emit, emit_times, max_records, special_ordinal, bind_step, parse_bind_info,
}

pub sleb_loop-Reads :
    (buf : List ℕ) (result shift : ℕ) → Reads (length buf) (sleb_loop buf result shift)
unfolding sleb_loop
sleb_loop-Reads [] result shift = refl
sleb_loop-Reads (b ∷ bs) result shift = ground (
  arith,
  sleb_loop-Reads bs (bit_or result (shl64 (bit_and b 0x7f) shift)) ((shift + 7) % 2 ^ 32),
)

pub read_sleb-Reads : (buf : List ℕ) → Reads (length buf) (read_sleb buf)
unfolding read_sleb
read_sleb-Reads buf = sleb_loop-Reads buf 0 0

grow :
    (n : ℕ) (b : ℕ) (r : Parsed (List ℕ))
    → Reads n r
    → Reads (suc n) (r >>= λ (s, rest'). ok (b ∷ s, rest'))
grow n b (ok (s, rest)) h = omega (arith, h)
grow n b (err e) h = h

cstr_loop-Reads : (buf : List ℕ) → Reads (length buf) (cstr_loop buf)
unfolding cstr_loop
cstr_loop-Reads [] = refl
cstr_loop-Reads (b ∷ bs) = ground (arith, grow (length bs) b (cstr_loop bs) (cstr_loop-Reads bs))

decoded :
    (n : ℕ) (f : List ℕ → Text) (r : Parsed (List ℕ))
    → Reads n r
    → Reads n (r >>= λ (s, rest'). ok (f s, rest'))
decoded n f (ok (s, rest)) h = h
decoded n f (err e) h = h

pub read_cstr-Reads : (buf : List ℕ) → Reads (length buf) (read_cstr buf)
unfolding read_cstr
read_cstr-Reads buf = decoded (length buf) _ (cstr_loop buf) (cstr_loop-Reads buf)

-- The types of the code's fields: the segment index is four bits, the offset a `u64`, and a
-- kind that is not a pointer is not 1.
unfoldable pub KindFits : BindKind → Type 0
KindFits pointer = Unit
KindFits (other v) = (v ≡ 1 → ⊥) × (v < 16)

abbrev pub InBounds : BindRecord → Type 0
InBounds r =
    (r.seg_index < 16) × (r.seg_offset < u64_mod) × (r.lib_ordinal < u64_mod) × KindFits r.kind

abbrev pub IsBounded : BindState → Type 0
IsBounded s = InBounds s.current × All InBounds s.records

from_type-KindFits : (v : ℕ) → v < 16 → KindFits (from_type v)
unfolding KindFits from_type
from_type-KindFits v h = ground arith

special_ordinal-lt : (v : ℕ) → v < 16 → special_ordinal v < u64_mod
unfolding special_ordinal
special_ordinal-lt v h = ground arith

All-snoc :
    (xs : List BindRecord) (x : BindRecord)
    → All InBounds xs
    → InBounds x
    → All InBounds (xs ++ (x ∷ []))
All-snoc [] x h k = (k, tt)
All-snoc (y ∷ xs) x h k = (h.0, All-snoc xs x h.1 k)

add_addr-IsBounded : (d : ℕ) (s : BindState) → IsBounded s → IsBounded (add_addr d s)
unfolding add_addr set_current
add_addr-IsBounded d s ((i, o, l, k), a) = ((i, wrapping_add-lt s.current.seg_offset d, l, k), a)

emit-IsBounded : (s : BindState) → IsBounded s → IsBounded (emit s)
unfolding emit
emit-IsBounded s (c, a) = (c, All-snoc s.records s.current a c)

repeat_emit-IsBounded : (n d : ℕ) (s : BindState) → IsBounded s → IsBounded (repeat_emit n d s)
unfolding repeat_emit
repeat_emit-IsBounded zero d s h = h
repeat_emit-IsBounded (suc n) d s h =
    repeat_emit-IsBounded n d (add_addr d (add_addr ptr (emit s))) (
      add_addr-IsBounded d (add_addr ptr (emit s))
        (add_addr-IsBounded ptr (emit s) (emit-IsBounded s h)))

emit_one-IsBounded : (s : BindState) → IsBounded s → IsBounded (add_addr ptr (emit s))
emit_one-IsBounded s h = add_addr-IsBounded ptr (emit s) (emit-IsBounded s h)

bind_step-StepsWithin :
    (byte : ℕ) (rest : List ℕ) (s : BindState)
    → IsBounded s
    → StepsWithin IsBounded (length rest) (bind_step byte rest s)
unfolding bind_step read_uleb set_current emit_times
bind_step-StepsWithin byte rest s ((i, o, l, k), a) =
    let h : IsBounded s = ((i, o, l, k), a) in
    let n = length rest in
    let imm = bit_and byte 0x0f in
    let low = immediate-lt byte in
    let same : n ≤ n = omega arith in
    let either = if_within IsBounded n in
    let now = λ (t : BindState) (g : IsBounded t). steps IsBounded n t rest g same in
    let number = reads_uleb IsBounded "uleb truncated" rest in
    let with = λ (f : BindRecord → BindRecord). record s { current = f s.current } in
    either _ _ _ (now s h) (
      either _ _ _
        (now (with (λ c. record c { lib_ordinal = imm })) ((i, o, omega (arith, low), k), a))
        (either _ _ _
          (number (λ v. with (λ c. record c { lib_ordinal = v })) (λ v b. ((i, o, b, k), a)))
          (either _ _ _
            (now (with (λ c. record c { lib_ordinal = special_ordinal imm }))
              ((i, o, special_ordinal-lt imm low, k), a))
            (either _ _ _
              (one_read IsBounded n (read_cstr rest) _ (read_cstr-Reads rest)
                (λ v. ((i, o, l, k), a)))
              (either _ _ _
                (now (with (λ c. record c { kind = from_type imm }))
                  ((i, o, l, from_type-KindFits imm low), a))
                (either _ _ _
                  (one_read IsBounded n (read_sleb rest) _ (read_sleb-Reads rest)
                    (λ v. ((i, o, l, k), a)))
                  (either _ _ _
                    (number (λ v. with (λ c. record c { seg_index = imm; seg_offset = v }))
                      (λ v b. ((low, b, l, k), a)))
                    (either _ _ _
                      (number (λ delta. add_addr delta s) (λ v b. add_addr-IsBounded v s h))
                      (either _ _ _ (now (add_addr ptr (emit s)) (emit_one-IsBounded s h)) (
                        either _ _ _
                          (number (λ delta. add_addr delta (add_addr ptr (emit s)))
                            (λ v b.
                              add_addr-IsBounded v (add_addr ptr (emit s))
                                (emit_one-IsBounded s h)))
                          (either _ _ _
                            (now (add_addr (imm * ptr) (add_addr ptr (emit s))) (
                              add_addr-IsBounded (imm * ptr) (add_addr ptr (emit s))
                                (emit_one-IsBounded s h)))
                            (either _ _ _
                              (limited_ulebs IsBounded "uleb truncated" rest
                                (λ count skip. ltb max_records (length s.records + count))
                                (λ count skip. repeat_emit count skip s)
                                (λ v w. repeat_emit-IsBounded v w s h))
                              (fault IsBounded n "unknown bind opcode")))))))))))))

-- Records that are within bounds, or an error of the dynamic linker.
unfoldable pub Binds : EmuResult (List BindRecord) → Type 0
Binds (ok records) = All InBounds records
Binds (err e) = is_dyld e ≡ true

records-Binds : (r : EmuResult BindState) → Ends IsBounded r → Binds (r >>= λ s. ok s.records)
unfolding Ends Binds
records-Binds (ok s) h = h.1
records-Binds (err e) h = h

-- On every stream the fuel is enough: the parser gives records whose segment index fits four bits,
-- whose offset and ordinal fit 64 bits and whose kind is `other` only for a type that is not a
-- pointer, or an error of the dynamic linker, or it panics with more records than a `Vec` holds.
pub parse_bind_info-Binds : (stream : List ℕ) → Binds (parse_bind_info stream)
unfolding parse_bind_info KindFits
parse_bind_info-Binds stream = records-Binds _ (
    opcode_loop-Ends IsBounded bind_step bind_step-StepsWithin (length stream) stream start
      (omega arith) ((omega arith, omega arith, omega arith, tt), tt))
