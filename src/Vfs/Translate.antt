-- ===== src/Vfs/Translate.antt =====
-- crates/vfs/src/translate.rs: the lexical normalisation of a guest path.
use emulator_ios_for_android.Base.{◌||◌, List, [], ◌∷◌, ◌++◌, Option, none, some, if◌then◌else◌}
use emulator_ios_for_android.Common.Result.{Result, ok, err, ◌>>=◌, ok_or}
use emulator_ios_for_android.Common.Utf8.{Text}
use emulator_ios_for_android.Vfs.Bytes.{same, contains, split, dot, dot_dot}

pub data TranslationError : Type 0 where
  escape malformed : TranslationError

-- `Vec::pop`: the list without its last element.
unfoldable pub pop : List Text → Option (List Text)
pop [] = none
pop (c ∷ []) = some []
pop (c ∷ (d ∷ more)) = elim (pop (d ∷ more)) [ none ↦ none | some rest ↦ some (c ∷ rest) ]

-- One turn of the loop over the components.
unfoldable pub take_component : List Text → Text → Result TranslationError (List Text)
take_component out comp =
    if same comp [] || same comp dot
    then ok out
    else if same comp dot_dot
    then ok_or (pop out) escape
    else if contains 0 comp
    then err malformed
    else ok (out ++ (comp ∷ []))

unfoldable pub take_components : List Text → List Text → Result TranslationError (List Text)
take_components out [] = ok out
take_components out (comp ∷ comps) = do out' ← take_component out comp; take_components out' comps

unfoldable pub normalize_ios_path : Text → Result TranslationError (List Text)
normalize_ios_path [] = err malformed
normalize_ios_path (b ∷ bs) = take_components [] (split (b ∷ bs))
