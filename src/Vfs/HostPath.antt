-- ===== src/Vfs/HostPath.antt =====
-- What crates/vfs uses of the host's `PathBuf`, on the bytes of a Unix path: `push`, `join` and
-- `file_name`.
use emulator_ios_for_android.Base.{
  Bool, true, false, ◌||◌, List, [], ◌∷◌, ◌++◌, Option, none, some, ◌==◌, if◌then◌else◌,
}
use emulator_ios_for_android.Common.Utf8.{Text}
use emulator_ios_for_android.Vfs.Bytes.{slash, same, split, dot, dot_dot}

-- Whether a separator is wanted behind the path: it is not empty and does not end in one.
unfoldable pub needs_separator : Text → Bool
needs_separator [] = false
needs_separator (b ∷ []) = if b == slash then false else true
needs_separator (b ∷ (c ∷ more)) = needs_separator (c ∷ more)

unfoldable pub is_absolute : Text → Bool
is_absolute [] = false
is_absolute (b ∷ bs) = b == slash

-- `PathBuf::push`: an absolute path replaces the whole.
unfoldable pub push : Text → Text → Text
push host c =
    if is_absolute c then c else if needs_separator host then host ++ (slash ∷ c) else host ++ c

-- `for c in comps { host.push(c) }`.
unfoldable pub push_all : Text → List Text → Text
push_all host [] = host
push_all host (c ∷ cs) = push_all (push host c) cs

-- The last component that is neither empty nor `.`.
unfoldable pub last_component : List Text → Option Text
last_component [] = none
last_component (c ∷ cs) = elim (last_component cs) [
  | some last ↦ some last
  | none ↦ if same c [] || same c dot then none else some c
]

-- `Path::file_name`: none when the path ends in `..`.
unfoldable pub file_name : Text → Option Text
file_name path = elim (last_component (split path)) [
  | none ↦ none
  | some c ↦ if same c dot_dot then none else some c
]
