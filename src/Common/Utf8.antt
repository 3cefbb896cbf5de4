-- ===== src/Common/Utf8.antt =====
-- `String::from_utf8_lossy` on bytes: each maximal prefix of an ill-formed sequence becomes
-- U+FFFD. Texts are lists of bytes throughout.
use emulator_ios_for_android.Base.{
  ℕ, ◌<◌, ◌≡◌, refl, arith, ◌&&◌, Option, none, some, List, [], ◌∷◌, ◌++◌, ltb, leb, ◌==◌,
  if◌then◌else◌, All,
}

-- A text, as its UTF-8 bytes.
abbrev pub Text : Type 0
Text = List ℕ

-- Inclusive ranges that the following bytes must lie in.
abbrev Ranges : Type 0
Ranges = List (ℕ × ℕ)

abbrev tail_range : ℕ × ℕ
tail_range = (0x80, 0xbf)

abbrev replacement : Text
replacement = 0xef ∷ 0xbf ∷ 0xbd ∷ []

-- What a sequence that begins with a byte goes on with; `none` for a byte that begins none.
followers : ℕ → Option Ranges
followers b =
    if ltb b 0x80
    then some []
    else if ltb b 0xc2
    then none
    else if ltb b 0xe0
    then some (tail_range ∷ [])
    else if b == 0xe0
    then some ((0xa0, 0xbf) ∷ tail_range ∷ [])
    else if b == 0xed
    then some ((0x80, 0x9f) ∷ tail_range ∷ [])
    else if ltb b 0xf0
    then some (tail_range ∷ tail_range ∷ [])
    else if b == 0xf0
    then some ((0x90, 0xbf) ∷ tail_range ∷ tail_range ∷ [])
    else if ltb b 0xf4
    then some (tail_range ∷ tail_range ∷ tail_range ∷ [])
    else if b == 0xf4
    then some ((0x80, 0x8f) ∷ tail_range ∷ tail_range ∷ [])
    else none

-- The decoder's state: the bytes of an unfinished sequence, and what must follow them.
abbrev Pending : Type 0
Pending = Text × Ranges

-- What a byte adds to the output when no sequence is open.
begin : ℕ → Text × Pending
begin b = elim (followers b) [
  | none ↦ (replacement, ([], []))
  | some [] ↦ (b ∷ [], ([], []))
  | some (r ∷ rs) ↦ ([], (b ∷ [], r ∷ rs))
]

after : Text → Text × Pending → Text × Pending
after front (out, next) = (front ++ out, next)

advance : Pending → ℕ → Text × Pending
unfolding begin after
advance (seen, []) b = begin b
advance (seen, (lo, hi) ∷ []) b =
    if leb lo b && leb b hi then (seen ++ (b ∷ []), ([], [])) else after replacement (begin b)
advance (seen, (lo, hi) ∷ (r ∷ rs)) b =
    if leb lo b && leb b hi then ([], (seen ++ (b ∷ []), r ∷ rs)) else after replacement (begin b)

finish : Pending → Text
finish (seen, []) = []
finish (seen, r ∷ rs) = replacement

lossy_from : Pending → List ℕ → Text
lossy_from p [] = finish p
lossy_from p (b ∷ bs) = let (out, next) = advance p b in out ++ lossy_from next bs

unfoldable pub from_utf8_lossy : List ℕ → Text
unfolding lossy_from advance begin followers finish after
from_utf8_lossy bytes = lossy_from ([], []) bytes

abbrev pub IsAscii : ℕ → Type 0
IsAscii b = b < 0x80

lossy_from-ascii : (bs : List ℕ) → All IsAscii bs → lossy_from ([], []) bs ≡ bs
unfolding lossy_from advance begin followers finish after
lossy_from-ascii [] h = refl
lossy_from-ascii (b ∷ bs) h = ground (arith, lossy_from-ascii bs h.1)

-- ASCII bytes are decoded to themselves.
pub from_utf8_lossy-ascii : (bs : List ℕ) → All IsAscii bs → from_utf8_lossy bs ≡ bs
unfolding from_utf8_lossy
from_utf8_lossy-ascii bs h = lossy_from-ascii bs h
