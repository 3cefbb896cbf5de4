-- ===== src/Ipa/Scan.antt =====
-- crates/ipa/src/plist.rs, module `xml`: the cursor of the parser, which is the list of the bytes from
-- it on, and the text between tags.
use emulator_ios_for_android.Base.{
  ℕ, zero, suc, ◌+◌, ◌-◌, ◌*◌, ◌%◌, ◌^◌, ◌≤◌, ◌≡◌, arith, Bool, true, false, ◌||◌, ◌&&◌, Option,
  none, some, List, [], ◌∷◌, ◌++◌, length, drop, ltb, leb, ◌==◌, if◌then◌else◌,
}
use emulator_ios_for_android.Common.Addr.{u64_mod}
use emulator_ios_for_android.Common.Utf8.{Text, from_utf8_lossy}
use emulator_ios_for_android.Dyld.Linker.{same_name}

-- `u8::is_ascii_whitespace`.
unfoldable pub is_blank : ℕ → Bool
is_blank b = (b == 32) || (b == 9) || (b == 10) || (b == 12) || (b == 13)

unfoldable pub skip_ws : List ℕ → List ℕ
unfolding is_blank
skip_ws [] = []
skip_ws (b ∷ bs) = let rest = skip_ws bs in if is_blank b then rest else b ∷ bs

unfoldable pub starts_with : List ℕ → List ℕ → Bool
starts_with s [] = true
starts_with [] (t ∷ ts) = false
starts_with (b ∷ bs) (t ∷ ts) = (b == t) && starts_with bs ts

-- `find`: what stands before the first occurrence, and what behind it.
unfoldable pub find : List ℕ → List ℕ → Option (List ℕ × List ℕ)
unfolding starts_with
find [] needle = none
find (b ∷ bs) needle =
    let later = find bs needle in
    if starts_with (b ∷ bs) needle
    then some ([], drop (length needle) (b ∷ bs))
    else elim later [ none ↦ none | some (before, behind) ↦ some (b ∷ before, behind) ]

unfoldable pub advance_past : List ℕ → List ℕ → List ℕ
unfolding find
advance_past s needle = elim (find s needle) [ none ↦ [] | some (before, behind) ↦ behind ]

-- The replacement of each occurrence of a needle; the bytes of one that was found are passed over.
unfoldable pub replace_from : List ℕ → Text → ℕ → Text → Text
unfolding starts_with
replace_from needle by passed [] = []
replace_from needle by (suc passed) (b ∷ bs) = replace_from needle by passed bs
replace_from needle by zero (b ∷ bs) =
    let found = replace_from needle by (length needle - 1) bs in
    let kept = replace_from needle by 0 bs in
    if starts_with (b ∷ bs) needle then by ++ found else b ∷ kept

-- `&lt;`, `&gt;`, `&quot;`, `&apos;` and `&amp;`.
abbrev escapes : List (List ℕ × Text)
escapes =
    (b'&' ∷ b'l' ∷ b't' ∷ b';' ∷ [], b'<' ∷ [])
    ∷ (b'&' ∷ b'g' ∷ b't' ∷ b';' ∷ [], b'>' ∷ [])
    ∷ (b'&' ∷ b'q' ∷ b'u' ∷ b'o' ∷ b't' ∷ b';' ∷ [], 34 ∷ [])
    ∷ (b'&' ∷ b'a' ∷ b'p' ∷ b'o' ∷ b's' ∷ b';' ∷ [], 39 ∷ [])
    ∷ (b'&' ∷ b'a' ∷ b'm' ∷ b'p' ∷ b';' ∷ [], b'&' ∷ [])
    ∷ []

unfoldable pub replace_all : List (List ℕ × Text) → Text → Text
unfolding replace_from
replace_all [] s = s
replace_all ((needle, by) ∷ rest) s = replace_all rest (replace_from needle by 0 s)

unfoldable pub unescape : Text → Text
unfolding replace_all
unescape s = replace_all escapes s

-- `str::from_utf8`: text that the lossy decoding leaves as it is.
unfoldable pub is_utf8 : List ℕ → Bool
unfolding same_name from_utf8_lossy
is_utf8 s = same_name (from_utf8_lossy s) s

-- `str::parse::<i64>`, as a bit pattern.
unfoldable pub digits_value : ℕ → Text → Option ℕ
digits_value acc [] = some acc
digits_value acc (d ∷ ds) =
    let rest = digits_value (acc * 10 + (d - 48)) ds in if leb 48 d && ltb d 58 then rest else none

unfoldable pub natural : Text → Option ℕ
unfolding digits_value
natural [] = none
natural (d ∷ ds) = digits_value 0 (d ∷ ds)

unfoldable pub within : ℕ → Option ℕ → Option ℕ
within limit none = none
within limit (some v) = if ltb limit v then none else some v

unfoldable pub parse_i64 : Text → Option ℕ
unfolding natural within
parse_i64 [] = none
parse_i64 (c ∷ cs) =
    if c == 43
    then within (2 ^ 63 - 1) (natural cs)
    else if c == 45
    then elim (within (2 ^ 63) (natural cs)) [
      | none ↦ none
      | some v ↦ some ((u64_mod - v) % u64_mod)
    ]
    else within (2 ^ 63 - 1) (natural (c ∷ cs))

-- Each step of the cursor leaves no more bytes than there were.
pub skip_ws-le : (s : List ℕ) → length (skip_ws s) ≤ length s
unfolding skip_ws
skip_ws-le [] = omega arith
skip_ws-le (b ∷ bs) = ground (arith, skip_ws-le bs)

pub starts_with-le : (s t : List ℕ) → starts_with s t ≡ true → length t ≤ length s
unfolding starts_with
starts_with-le s [] h = omega arith
starts_with-le [] (t ∷ ts) h = cc
starts_with-le (b ∷ bs) (t ∷ ts) h = ground (arith, starts_with-le bs ts)
