-- ===== src/Ipa/Text16.antt =====
-- `String::from_utf16_lossy`, and the conversion of an `f32` to an `f64`, on bit patterns. The payload
-- of a NaN is kept, which Rust leaves open.
use emulator_ios_for_android.Base.{
  ℕ, zero, suc, ◌+◌, ◌-◌, ◌*◌, ◌/◌, ◌%◌, ◌^◌, List, [], ◌∷◌, ◌++◌, Option, none, some, Bool, ◌&&◌,
  ltb, leb, ◌==◌, if◌then◌else◌,
}
use emulator_ios_for_android.Common.Utf8.{Text}

-- A code point in UTF-8.
unfoldable pub encode_char : ℕ → Text
encode_char c =
    if ltb c 0x80
    then c ∷ []
    else if ltb c 0x800
    then (0xc0 + c / 64) ∷ (0x80 + c % 64) ∷ []
    else if ltb c 0x10000
    then (0xe0 + c / 4096) ∷ (0x80 + c / 64 % 64) ∷ (0x80 + c % 64) ∷ []
    else (0xf0 + c / 262144) ∷ (0x80 + c / 4096 % 64) ∷ (0x80 + c / 64 % 64) ∷ (0x80 + c % 64) ∷ []

abbrev replacement : Text
replacement = 0xef ∷ 0xbf ∷ 0xbd ∷ []

unfoldable pub is_high : ℕ → Bool
is_high u = leb 0xd800 u && ltb u 0xdc00

unfoldable pub is_low : ℕ → Bool
is_low u = leb 0xdc00 u && ltb u 0xe000

-- `high` is a leading surrogate that waits for the unit behind it.
unfoldable pub utf16_from : Option ℕ → List ℕ → Text
unfolding is_high is_low encode_char
utf16_from none [] = []
utf16_from (some high) [] = replacement
utf16_from none (u ∷ us) =
    let waiting = utf16_from (some u) us in
    let plain = utf16_from none us in
    if is_high u then waiting else if is_low u then replacement ++ plain else encode_char u ++ plain
utf16_from (some high) (u ∷ us) =
    let waiting = utf16_from (some u) us in
    let plain = utf16_from none us in
    if is_low u
    then encode_char (0x10000 + (high - 0xd800) * 0x400 + (u - 0xdc00)) ++ plain
    else if is_high u
    then replacement ++ waiting
    else replacement ++ (encode_char u ++ plain)

unfoldable pub from_utf16_lossy : List ℕ → Text
unfolding utf16_from
from_utf16_lossy units = utf16_from none units

-- The place of the highest bit of a number below `2 ^ n`.
highest_bit : ℕ → ℕ → ℕ
highest_bit zero m = 0
highest_bit (suc n) m = let lower = highest_bit n m in if leb (2 ^ n) m then n else lower

unfoldable pub f32_to_f64 : ℕ → ℕ
unfolding highest_bit
f32_to_f64 bits =
    let sign = bits / 2 ^ 31 * 2 ^ 63 in
    let exponent = bits / 2 ^ 23 % 256 in
    let fraction = bits % 2 ^ 23 in
    if exponent == 255
    then sign + 2047 * 2 ^ 52 + fraction * 2 ^ 29
    else if exponent == 0
    then (if fraction == 0
        then sign
        else let k = highest_bit 23 fraction in
          sign + (k + 874) * 2 ^ 52 + (fraction - 2 ^ k) * 2 ^ (52 - k))
    else sign + (exponent + 896) * 2 ^ 52 + fraction * 2 ^ 29
