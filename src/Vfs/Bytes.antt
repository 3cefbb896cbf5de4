-- ===== src/Vfs/Bytes.antt =====
-- What crates/vfs uses of `str`, on the bytes of a text: `split('/')`, `contains`, `==` and
-- `strip_prefix`. A separator is one byte, which no other character's encoding contains.
use emulator_ios_for_android.Base.{
  ℕ, Bool, true, false, ◌&&◌, ◌||◌, List, [], ◌∷◌, Option, none, some, ◌==◌, if◌then◌else◌,
}
use emulator_ios_for_android.Common.Utf8.{Text}

abbrev pub slash : ℕ
slash = b'/'

unfoldable pub same : Text → Text → Bool
same [] [] = true
same [] (b ∷ bs) = false
same (a ∷ more) [] = false
same (a ∷ more) (b ∷ bs) = (a == b) && same more bs

unfoldable pub contains : ℕ → Text → Bool
contains c [] = false
contains c (b ∷ bs) = (b == c) || contains c bs

-- A byte in front of the first piece.
unfoldable pub onto_first : ℕ → List Text → List Text
onto_first b [] = (b ∷ []) ∷ []
onto_first b (piece ∷ pieces) = (b ∷ piece) ∷ pieces

-- `path.split('/')`: one piece more than there are separators.
unfoldable pub split : Text → List Text
split [] = [] ∷ []
split (b ∷ bs) = let pieces = split bs in if b == slash then [] ∷ pieces else onto_first b pieces

-- `path.strip_prefix(prefix)`.
unfoldable pub strip_prefix : Text → Text → Option Text
strip_prefix path [] = some path
strip_prefix [] (c ∷ prefix) = none
strip_prefix (b ∷ path) (c ∷ prefix) = if b == c then strip_prefix path prefix else none

abbrev pub dot : Text
dot = b'.' ∷ []

abbrev pub dot_dot : Text
dot_dot = b'.' ∷ b'.' ∷ []
