-- ===== src/Dyld/LazyRoundTrip.antt =====
-- crates/loader/src/dyld/bind.rs: the lazy bind stream of a linker, and the offset that keys each
-- entry for `dyld_stub_binder`.
use emulator_ios_for_android.Base.{
  ℕ, zero, suc, ◌+◌, ◌-◌, ◌*◌, ◌≤◌, ◌<◌, ◌≡◌, refl, arith, List, [], ◌∷◌, ◌++◌, length, All, sym,
  ◌∙◌, ap, length-append,
}
use emulator_ios_for_android.Common.Result.{EmuResult, ok, ◌>>=◌}
use emulator_ios_for_android.Common.Addr.{IsU64}
use emulator_ios_for_android.Dyld.LebRoundTrip.{
  encode_uleb, read_uleb-encode, IsName, read_cstr-name,
}
use emulator_ios_for_android.Dyld.Loop.{opcode_loop, opcode_loop-done}
use emulator_ios_for_android.Dyld.RebaseRoundTrip.{opcode_of, immediate_of}
use emulator_ios_for_android.Dyld.LazyBind.{
  LazyBind, LazyState, start, set_current, push, lazy_step, parse_lazy_bind_info,
}

-- The sequence of one symbol: segment and offset, ordinal 1, the name, DO_BIND and DONE.
unfoldable pub encode_lazy : LazyBind → List ℕ → List ℕ
encode_lazy e rest =
    (0x70 + e.seg_index)
    ∷ (encode_uleb e.seg_offset ++ (0x11 ∷ (0x40 ∷ (e.symbol ++ (0x00 ∷ (0x90 ∷ (0x00 ∷ rest)))))))

unfoldable pub encode_lazy_info : List LazyBind → List ℕ
unfolding encode_lazy
encode_lazy_info [] = []
encode_lazy_info (e ∷ es) = encode_lazy e (encode_lazy_info es)

-- The entry fits the code's widths, and its name can be held by the stream.
abbrev pub IsEncodable : LazyBind → Type 0
IsEncodable e = (e.seg_index < 16) × IsU64 e.seg_offset × IsName e.symbol

-- Each entry's offset is where its sequence begins in a stream of `total` bytes that ends with
-- the entries.
abbrev pub IsPlaced : ℕ → List LazyBind → Type 0
IsPlaced total [] = Unit
IsPlaced total (e ∷ es) =
    (e.offset + length (encode_lazy_info (e ∷ es)) ≡ total) × IsPlaced total es

step_segment :
    (total i o : ℕ) (rest : List ℕ) (s : LazyState)
    → i < 16
    → IsU64 o
    → lazy_step total (0x70 + i) (encode_uleb o ++ rest) s
      ≡ ok (set_current (λ c. record c { seg_index = i; seg_offset = o }) s, rest)
unfolding lazy_step set_current
step_segment total i o rest s h u =
    rw (opcode_of 7 i h (omega arith), immediate_of 7 i h, read_uleb-encode o rest u) refl

step_symbol :
    (total : ℕ) (name rest : List ℕ) (s : LazyState)
    → IsName name
    → lazy_step total 0x40 (name ++ (0 ∷ rest)) s
      ≡ ok (set_current (λ c. record c { symbol = name }) s, rest)
unfolding lazy_step set_current
step_symbol total name rest s h = rw (read_cstr-name name rest h) refl

opcode_loop-lazy :
    (total fuel : ℕ) (e : LazyBind) (rest : List ℕ) (s : LazyState)
    → IsEncodable e
    → opcode_loop (lazy_step total) (suc (suc (suc (suc (suc fuel))))) (encode_lazy e rest) s
      ≡ opcode_loop (lazy_step total) fuel rest (record {
        current = record {
          offset = total - length rest;
          seg_index = e.seg_index;
          seg_offset = e.seg_offset;
          symbol = e.symbol;
        };
        out =
            s.out
            ++ (record {
              offset = s.current.offset;
              seg_index = e.seg_index;
              seg_offset = e.seg_offset;
              symbol = e.symbol;
            }
                ∷ []);
      })
unfolding opcode_loop encode_lazy lazy_step set_current push
opcode_loop-lazy total fuel e rest s (i, o, n) =
    rw
      (
        step_segment total e.seg_index e.seg_offset
            (0x11 ∷ (0x40 ∷ (e.symbol ++ (0x00 ∷ (0x90 ∷ (0x00 ∷ rest)))))) s i o,
        read_cstr-name e.symbol (0x90 ∷ (0x00 ∷ rest)) n,
      )
      refl

append_nil : (xs : List LazyBind) → xs ++ [] ≡ xs
append_nil [] = refl
append_nil (x ∷ xs) = ap (λ t. x ∷ t) (append_nil xs)

append_one : (xs ys : List LazyBind) (x : LazyBind) → (xs ++ (x ∷ [])) ++ ys ≡ xs ++ (x ∷ ys)
append_one [] ys x = refl
append_one (w ∷ xs) ys x = ap (λ t. w ∷ t) (append_one xs ys x)

longer : (e : LazyBind) (rest : List ℕ) → length rest + 5 ≤ length (encode_lazy e rest)
unfolding encode_lazy
longer e rest = omega (
  arith,
  length-append (encode_uleb e.seg_offset)
      (0x11 ∷ (0x40 ∷ (e.symbol ++ (0x00 ∷ (0x90 ∷ (0x00 ∷ rest)))))),
  length-append e.symbol (0x00 ∷ (0x90 ∷ (0x00 ∷ rest))),
)

opcode_loop-encode :
    (total fuel : ℕ) (es : List LazyBind) (s : LazyState)
    → All IsEncodable es
    → IsPlaced total es
    → length es * 5 ≤ fuel
    → s.current.offset + length (encode_lazy_info es) ≡ total
    → (opcode_loop (lazy_step total) fuel (encode_lazy_info es) s >>= λ t. ok t.out)
      ≡ ok (s.out ++ es)
unfolding encode_lazy_info
opcode_loop-encode total fuel [] s h p le at =
    ap (λ (r : EmuResult LazyState). r >>= λ t. ok t.out)
      (opcode_loop-done (lazy_step total) fuel s)
    ∙ ap (λ t. ok t) (sym (append_nil s.out))
opcode_loop-encode total zero (e ∷ es) s h p le at = absurd (omega arith)
opcode_loop-encode total (suc zero) (e ∷ es) s h p le at = absurd (omega arith)
opcode_loop-encode total (suc (suc zero)) (e ∷ es) s h p le at = absurd (omega arith)
opcode_loop-encode total (suc (suc (suc zero))) (e ∷ es) s h p le at = absurd (omega arith)
opcode_loop-encode total (suc (suc (suc (suc zero)))) (e ∷ es) s h p le at = absurd (omega arith)
opcode_loop-encode total (suc (suc (suc (suc (suc fuel))))) (e ∷ es) s (he, h) (pe, p) le at =
    let rest = encode_lazy_info es in
    let entry : ℕ → LazyBind = λ k. record e { offset = k } in
    let same : s.current.offset ≡ e.offset = omega (arith, at, pe) in
    let s' : LazyState = record {
      current = entry (total - length rest);
      out = s.out ++ (entry s.current.offset ∷ []);
    } in
    let on : total - length rest + length rest ≡ total = omega (arith, longer e rest, pe) in
    ap (λ (r : EmuResult LazyState). r >>= λ t. ok t.out) (opcode_loop-lazy total fuel e rest s he)
    ∙ opcode_loop-encode total fuel es s' h p (omega arith) on
    ∙ ap (λ t. ok t) (append_one s.out es (entry s.current.offset))
    ∙ ap (λ k. ok (s.out ++ (entry k ∷ es))) same

long_enough : (es : List LazyBind) → length es * 5 ≤ length (encode_lazy_info es)
unfolding encode_lazy_info
long_enough [] = omega arith
long_enough (e ∷ es) = omega (arith, long_enough es, longer e (encode_lazy_info es))

-- The lazy stream of entries that fit the code's widths and whose offsets are the positions of
-- their sequences is parsed to these entries: each key is the offset at which its sequence begins.
pub parse_lazy_bind_info-encode :
    (es : List LazyBind)
    → All IsEncodable es
    → IsPlaced (length (encode_lazy_info es)) es
    → parse_lazy_bind_info (encode_lazy_info es) ≡ ok es
unfolding parse_lazy_bind_info
parse_lazy_bind_info-encode es h p =
    let stream = encode_lazy_info es in
    opcode_loop-encode (length stream) (length stream) es start h p (long_enough es) (omega arith)
