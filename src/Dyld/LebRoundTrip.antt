-- ===== src/Dyld/LebRoundTrip.antt =====
-- The LEB128 readers against an encoder that writes the groups of seven bits.
use emulator_ios_for_android.Base.{
  ℕ, zero, suc, ◌+◌, ◌*◌, ◌/◌, ◌%◌, ◌^◌, ◌≤◌, ◌<◌, ◌≡◌, refl, arith, false, String, List, [], ◌∷◌,
  ◌++◌, ltb, ◌==◌, if◌then◌else◌, bit_and, Bool-cases, inl, inr, ap, ◌∙◌, ltb→lt, ltb→ge, lt→ltb,
  All,
}
use native.Mathlib.Numerals.{towards_suc}
use native.Mathlib.Nat.{pow-suc, div-add-mod, mod-eq_of_lt}
use emulator_ios_for_android.Base.Bits.{bit_and_low, bit_and_high, bit_or_fields}
use emulator_ios_for_android.Common.Result.{ok}
use emulator_ios_for_android.Common.Addr.{u64_mod, IsU64}
use emulator_ios_for_android.Common.Utf8.{IsAscii, from_utf8_lossy-ascii}
use emulator_ios_for_android.Dyld.Leb.{uleb_group, uleb_loop, read_uleb, cstr_loop, read_cstr}

-- The ULEB128 form of a number below 128 ^ (k + 1).
unfoldable pub encode_uleb_in : ℕ → ℕ → List ℕ
encode_uleb_in zero v = v ∷ []
encode_uleb_in (suc k) v =
    let rest = encode_uleb_in k (v / 128) in if ltb v 128 then v ∷ [] else (v % 128 + 128) ∷ rest

-- The ULEB128 form of a `u64`.
unfoldable pub encode_uleb : ℕ → List ℕ
unfolding encode_uleb_in
encode_uleb v = encode_uleb_in 9 v

pub low_seven : (b : ℕ) → bit_and b 0x7f ≡ b % 128
low_seven b = bit_and_low 7 b

pub top_bit : (b : ℕ) → b < 256 → bit_and b 0x80 ≡ b / 128 * 128
top_bit b h = bit_and_high 7 1 b h

-- A group that fits is added above the bits read so far.
pub uleb_group-add :
    (b result shift : ℕ)
    → shift < 64
    → result < 2 ^ shift
    → b % 128 * 2 ^ shift < u64_mod
    → uleb_group b result shift ≡ result + b % 128 * 2 ^ shift
unfolding uleb_group
uleb_group-add b result shift h small fits =
    let wide : shift % 64 ≡ shift = omega arith in
    rw (lt→ltb shift 64 h, wide, low_seven b, mod-eq_of_lt fits)
      (bit_or_fields shift result (b % 128) small)

next_shift : (s : ℕ) → 2 ^ (s + 7) ≡ 128 * 2 ^ s
next_shift s = simp towards_suc (omega arith)

split_groups : (v s : ℕ) → v * 2 ^ s ≡ v % 128 * 2 ^ s + v / 128 * 2 ^ (s + 7)
split_groups v s = omega (
  arith,
  ap (λ (t : ℕ). t * 2 ^ s) (div-add-mod v 128),
  ap (λ (t : ℕ). v / 128 * t) (next_shift s),
)

next_small : (g result s : ℕ) → g < 128 → result < 2 ^ s → result + g * 2 ^ s < 2 ^ (s + 7)
next_small g result s h small = rw (next_shift s) (grind arith)

uleb_loop-last :
    (message : String) (b result shift : ℕ) (rest : List ℕ)
    → b < 128
    → shift < 64
    → result < 2 ^ shift
    → result + b * 2 ^ shift < u64_mod
    → uleb_loop message (b ∷ rest) result shift ≡ ok (result + b * 2 ^ shift, rest)
unfolding uleb_loop
uleb_loop-last message b result shift rest hb hs small fits =
    let group : b % 128 ≡ b = omega arith in
    ground (arith, top_bit b, ap (λ (t : ℕ). t * 2 ^ shift) group, uleb_group-add b result shift)

uleb_loop-more :
    (message : String) (g result shift : ℕ) (rest : List ℕ)
    → g < 128
    → shift < 64
    → result < 2 ^ shift
    → result + g * 2 ^ shift < u64_mod
    → uleb_loop message ((g + 128) ∷ rest) result shift
      ≡ uleb_loop message rest (result + g * 2 ^ shift) (shift + 7)
unfolding uleb_loop
uleb_loop-more message g result shift rest hb hs small fits =
    let group : (g + 128) % 128 ≡ g = omega arith in
    let next : (shift + 7) % 2 ^ 32 ≡ shift + 7 = omega arith in
    let sum : uleb_group (g + 128) result shift ≡ result + g * 2 ^ shift =
      ground (arith, ap (λ (t : ℕ). t * 2 ^ shift) group, uleb_group-add (g + 128) result shift) in
    let more : (bit_and (g + 128) 0x80 == 0) ≡ false =
      rw (top_bit (g + 128) (omega arith)) (ground arith) in
    rw (sum, more, next)

uleb_loop-encode :
    (message : String) (k v result shift : ℕ) (rest : List ℕ)
    → v < 128 ^ suc k
    → shift + 7 * k < 64
    → result < 2 ^ shift
    → result + v * 2 ^ shift < u64_mod
    → uleb_loop message (encode_uleb_in k v ++ rest) result shift
      ≡ ok (result + v * 2 ^ shift, rest)
unfolding encode_uleb_in
uleb_loop-encode message zero v result shift rest hv hs small fits =
    uleb_loop-last message v result shift rest (omega arith) (omega arith) small fits
uleb_loop-encode message (suc k) v result shift rest hv hs small fits =
    elim (Bool-cases (ltb v 128)) [
      | inl short ↦
          rw short (
            uleb_loop-last message v result shift rest (ltb→lt v 128 short) (omega arith) small
              fits)
      | inr long ↦
          let ge : 128 ≤ v = ltb→ge v 128 long in
          let parts = split_groups v shift in
          let room : v % 128 * 2 ^ shift < u64_mod = omega arith in
          let total : result + v % 128 * 2 ^ shift + v / 128 * 2 ^ (shift + 7)
              ≡ result + v * 2 ^ shift =
            omega arith in
          let deeper =
            uleb_loop-encode message k (v / 128) (result + v % 128 * 2 ^ shift) (shift + 7) rest
              (omega (arith, pow-suc 128 (suc k))) (omega arith)
              (next_small (v % 128) result shift (omega arith) small) (omega arith) in
          rw long (
            uleb_loop-more message (v % 128) result shift (encode_uleb_in k (v / 128) ++ rest)
              (omega arith) (omega arith) small (omega arith)
            ∙ deeper
            ∙ ap (λ t. ok (t, rest)) total)
    ]

pub uleb_loop-encode_uleb :
    (message : String) (v : ℕ) (rest : List ℕ)
    → IsU64 v
    → uleb_loop message (encode_uleb v ++ rest) 0 0 ≡ ok (v, rest)
unfolding encode_uleb
uleb_loop-encode_uleb message v rest h =
    let same : 0 + v * 2 ^ 0 ≡ v = omega arith in
    uleb_loop-encode message 9 v 0 0 rest (omega arith) (omega arith) (omega arith) (omega arith)
    ∙ ap (λ t. ok (t, rest)) same

-- A `u64` that was encoded is read back, with the bytes that follow it.
pub read_uleb-encode :
    (v : ℕ) (rest : List ℕ) → IsU64 v → read_uleb (encode_uleb v ++ rest) ≡ ok (v, rest)
unfolding read_uleb
read_uleb-encode v rest h = uleb_loop-encode_uleb "uleb truncated" v rest h

-- A symbol name that the bind streams can hold: ASCII without NUL.
abbrev pub IsName : List ℕ → Type 0
IsName s = All (λ b. (0 < b) × IsAscii b) s

cstr_loop-name : (s rest : List ℕ) → IsName s → cstr_loop (s ++ (0 ∷ rest)) ≡ ok (s, rest)
unfolding cstr_loop
cstr_loop-name [] rest h = refl
cstr_loop-name (b ∷ s) rest h =
    let more : (b == 0) ≡ false = ground arith in rw (more, cstr_loop-name s rest h.1)

pub name-IsAscii : (s : List ℕ) → IsName s → All IsAscii s
name-IsAscii [] h = tt
name-IsAscii (b ∷ s) h = (h.0.1, name-IsAscii s h.1)

-- A name with its NUL is read back.
pub read_cstr-name : (s rest : List ℕ) → IsName s → read_cstr (s ++ (0 ∷ rest)) ≡ ok (s, rest)
unfolding read_cstr
read_cstr-name s rest h = rw (cstr_loop-name s rest h, from_utf8_lossy-ascii s (name-IsAscii s h))
