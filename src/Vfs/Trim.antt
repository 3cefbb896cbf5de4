-- ===== src/Vfs/Trim.antt =====
-- `str::trim` on the UTF-8 bytes of a text: the White_Space characters at both ends are dropped.
use emulator_ios_for_android.Base.{
  ℕ, zero, suc, Bool, ◌||◌, ◌&&◌, [], ◌∷◌, Option, none, some, ◌==◌, leb, if◌then◌else◌, length,
}
use emulator_ios_for_android.Common.Utf8.{Text}

-- White space of one byte, of two and of three.
unfoldable pub is_space1 : ℕ → Bool
is_space1 a = (leb 9 a && leb a 13) || (a == 32)

unfoldable pub is_space2 : ℕ → ℕ → Bool
is_space2 a b = (a == 0xc2) && ((b == 0x85) || (b == 0xa0))

unfoldable pub is_space3 : ℕ → ℕ → ℕ → Bool
is_space3 a b c =
    ((a == 0xe1) && (b == 0x9a) && (c == 0x80))
    || ((a == 0xe2)
        && (b == 0x80)
        && ((leb 0x80 c && leb c 0x8a) || (c == 0xa8) || (c == 0xa9) || (c == 0xaf)))
    || ((a == 0xe2) && (b == 0x81) && (c == 0x9f))
    || ((a == 0xe3) && (b == 0x80) && (c == 0x80))

-- The text behind a leading white space, if there is one.
unfoldable pub leading : Text → Option Text
leading [] = none
leading (a ∷ []) = if is_space1 a then some [] else none
leading (a ∷ (b ∷ [])) =
    if is_space1 a then some (b ∷ []) else if is_space2 a b then some [] else none
leading (a ∷ (b ∷ (c ∷ more))) =
    if is_space1 a
    then some (b ∷ (c ∷ more))
    else if is_space2 a b
    then some (c ∷ more)
    else if is_space3 a b c
    then some more
    else none

-- The same at the end, on the reversed bytes.
unfoldable pub trailing : Text → Option Text
trailing [] = none
trailing (a ∷ []) = if is_space1 a then some [] else none
trailing (a ∷ (b ∷ [])) =
    if is_space1 a then some (b ∷ []) else if is_space2 b a then some [] else none
trailing (a ∷ (b ∷ (c ∷ more))) =
    if is_space1 a
    then some (b ∷ (c ∷ more))
    else if is_space2 b a
    then some (c ∷ more)
    else if is_space3 c b a
    then some more
    else none

-- Repeats a shortening step; the length of the text is enough fuel.
unfoldable pub strip_while : (Text → Option Text) → ℕ → Text → Text
strip_while f zero t = t
strip_while f (suc fuel) t = elim (f t) [ none ↦ t | some rest ↦ strip_while f fuel rest ]

unfoldable pub reverse_onto : Text → Text → Text
reverse_onto [] acc = acc
reverse_onto (b ∷ bs) acc = reverse_onto bs (b ∷ acc)

unfoldable pub trim : Text → Text
trim t =
    let front = strip_while leading (length t) t in
    reverse_onto (strip_while trailing (length front) (reverse_onto front [])) []
