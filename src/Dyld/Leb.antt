-- ===== src/Dyld/Leb.antt =====
-- `read_uleb`, `read_sleb` and `read_cstr` of crates/loader/src/dyld/bind.rs (rebase.rs has the
-- same `read_uleb` with another message). The cursor `p` into the stream is the list of the bytes
-- from `p` on. An `i64` is its 64-bit pattern. A shift by 64 or more takes the low six bits of the
-- count, as in a build without overflow checks.
use emulator_ios_for_android.Base.{
  ℕ, ◌+◌, ◌-◌, ◌*◌, ◌%◌, ◌^◌, ◌<◌, ◌≡◌, arith, ◌&&◌, not, String, List, [], ◌∷◌, length, ltb, ◌==◌,
  if◌then◌else◌, bit_and, bit_or, Bool-cases, inl, inr,
}
use emulator_ios_for_android.Common.Result.{EmuResult, dyld, ok, err, ◌>>=◌, >>=-eq-ok}
use emulator_ios_for_android.Common.Addr.{u64_mod}
use emulator_ios_for_android.Common.Utf8.{Text, from_utf8_lossy}

-- A value read, and the bytes behind it.
abbrev pub Parsed {ℓ} : Type ℓ → Type ℓ
Parsed A = EmuResult (A × List ℕ)

-- `x << shift` on a `u64`.
unfoldable pub shl64 : ℕ → ℕ → ℕ
shl64 x shift = x * 2 ^ (shift % 64) % u64_mod

-- `result |= ((b & 0x7f) as u64) << shift`, where the shift is below 64.
unfoldable pub uleb_group : ℕ → ℕ → ℕ → ℕ
unfolding shl64
uleb_group b result shift =
    if ltb shift 64 then bit_or result (shl64 (bit_and b 0x7f) shift) else result

unfoldable pub uleb_loop : String → List ℕ → ℕ → ℕ → Parsed ℕ
uleb_loop message [] result shift = err (dyld message)
uleb_loop message (b ∷ rest) result shift =
    let result' = uleb_group b result shift in
    let more = uleb_loop message rest result' ((shift + 7) % 2 ^ 32) in
    if bit_and b 0x80 == 0 then ok (result', rest) else more

unfoldable pub read_uleb : List ℕ → Parsed ℕ
read_uleb buf = uleb_loop "uleb truncated" buf 0 0

-- The sign extension that ends `read_sleb`.
unfoldable pub sleb_sign : ℕ → ℕ → ℕ → ℕ
sleb_sign byte result shift =
    if ltb shift 64 && not (bit_and byte 0x40 == 0)
    then bit_or result (u64_mod - 2 ^ shift)
    else result

unfoldable pub sleb_loop : List ℕ → ℕ → ℕ → Parsed ℕ
unfolding shl64
sleb_loop [] result shift = err (dyld "sleb truncated")
sleb_loop (b ∷ rest) result shift =
    let result' = bit_or result (shl64 (bit_and b 0x7f) shift) in
    let shift' = (shift + 7) % 2 ^ 32 in
    let more = sleb_loop rest result' shift' in
    if bit_and b 0x80 == 0 then ok (sleb_sign b result' shift', rest) else more

unfoldable pub read_sleb : List ℕ → Parsed ℕ
read_sleb buf = sleb_loop buf 0 0

-- The bytes of a string up to its NUL, which is consumed.
unfoldable pub cstr_loop : List ℕ → Parsed (List ℕ)
cstr_loop [] = err (dyld "bind symbol string not terminated")
cstr_loop (b ∷ rest) =
    let more = cstr_loop rest in
    if b == 0 then ok ([], rest) else (more >>= λ (s, rest'). ok (b ∷ s, rest'))

unfoldable pub read_cstr : List ℕ → Parsed Text
unfolding cstr_loop
read_cstr buf = do (s, rest) ← cstr_loop buf; ok (from_utf8_lossy s, rest)

-- Each reader takes a byte at least.
pub uleb_loop-shorter :
    (message : String) (buf : List ℕ) (result shift v : ℕ) (rest : List ℕ)
    → uleb_loop message buf result shift ≡ ok (v, rest)
    → length rest < length buf
unfolding uleb_loop
uleb_loop-shorter message [] result shift v rest h = cc
uleb_loop-shorter message (b ∷ bs) result shift v rest h =
    ground (
      arith,
      uleb_loop-shorter message bs (uleb_group b result shift) ((shift + 7) % 2 ^ 32) v rest,
    )

pub sleb_loop-shorter :
    (buf : List ℕ) (result shift v : ℕ) (rest : List ℕ)
    → sleb_loop buf result shift ≡ ok (v, rest)
    → length rest < length buf
unfolding sleb_loop
sleb_loop-shorter [] result shift v rest h = cc
sleb_loop-shorter (b ∷ bs) result shift v rest h = ground (
  arith,
  sleb_loop-shorter bs (bit_or result (shl64 (bit_and b 0x7f) shift)) ((shift + 7) % 2 ^ 32) v rest,
)

pub cstr_loop-shorter :
    (buf s rest : List ℕ) → cstr_loop buf ≡ ok (s, rest) → length rest < length buf
unfolding cstr_loop
cstr_loop-shorter [] s rest h = cc
cstr_loop-shorter (b ∷ bs) s rest h = elim (Bool-cases (b == 0)) [
  | inl end ↦ ground arith
  | inr more ↦
      let ((s', rest'), got, result) = >>=-eq-ok (cstr_loop bs) _ (rw more at h) in
      ground (arith, cstr_loop-shorter bs s' rest' got)
]

pub read_uleb-shorter :
    (buf : List ℕ) (v : ℕ) (rest : List ℕ) → read_uleb buf ≡ ok (v, rest) → length rest < length buf
unfolding read_uleb
read_uleb-shorter buf v rest h = uleb_loop-shorter "uleb truncated" buf 0 0 v rest h

pub read_sleb-shorter :
    (buf : List ℕ) (v : ℕ) (rest : List ℕ) → read_sleb buf ≡ ok (v, rest) → length rest < length buf
unfolding read_sleb
read_sleb-shorter buf v rest h = sleb_loop-shorter buf 0 0 v rest h

pub read_cstr-shorter :
    (buf : List ℕ) (s : Text) (rest : List ℕ)
    → read_cstr buf ≡ ok (s, rest)
    → length rest < length buf
unfolding read_cstr
read_cstr-shorter buf s rest h =
    let ((s', rest'), got, result) = >>=-eq-ok (cstr_loop buf) _ h in
    ground (arith, cstr_loop-shorter buf s' rest' got)
