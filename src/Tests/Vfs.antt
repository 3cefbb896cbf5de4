-- ===== src/Tests/Vfs.antt =====
-- crates/vfs on small paths.
use emulator_ios_for_android.Base.{◌≡◌, refl, false, [], ◌∷◌}
use emulator_ios_for_android.Common.Result.{ok}
use emulator_ios_for_android.Common.Utf8.{Text}
use emulator_ios_for_android.Vfs.Bytes.{contains, same, split, slash}
use emulator_ios_for_android.Vfs.Translate.{normalize_ios_path}
use emulator_ios_for_android.Vfs.Normalize.{
  Yields, IsClean, join_slash, normalize_ios_path-Yields, normalize_ios_path-join_slash,
}
use emulator_ios_for_android.Vfs.Escape.{climbs, is_escape, normalize_ios_path-climbs}
use emulator_ios_for_android.Vfs.HostPath.{needs_separator}
use emulator_ios_for_android.Vfs.Sandbox.{Sandbox, system_trees, translate}
use emulator_ios_for_android.Vfs.Containment.{Stays, IsDirectory, translate-Stays}
use emulator_ios_for_android.Vfs.Translate.{take_components, take_component, pop}
use emulator_ios_for_android.Vfs.Bytes.{split, onto_first, same, contains}
use emulator_ios_for_android.Common.Result.{ok}

-- `a/../..`
abbrev climbing : Text
climbing = b'a' ∷ slash ∷ b'.' ∷ b'.' ∷ slash ∷ b'.' ∷ b'.' ∷ []

no_nul : contains 0 climbing ≡ false
unfolding contains
no_nul = refl

normalize_ios_path-climbs_example :
    is_escape (normalize_ios_path climbing) ≡ climbs 0 (split climbing)
normalize_ios_path-climbs_example = normalize_ios_path-climbs climbing no_nul

-- `/a/../b/./c`
abbrev winding : Text
winding = b'/' ∷ b'a' ∷ b'/' ∷ b'.' ∷ b'.' ∷ b'/' ∷ b'b' ∷ b'/' ∷ b'.' ∷ b'/' ∷ b'c' ∷ []

winding_normalized : normalize_ios_path winding ≡ ok ((b'b' ∷ []) ∷ (b'c' ∷ []) ∷ [])
unfolding normalize_ios_path take_components split take_component same onto_first contains pop
winding_normalized = refl

normalize_ios_path-Yields_example : Yields (normalize_ios_path winding)
normalize_ios_path-Yields_example = normalize_ios_path-Yields winding

abbrev name : Text
name = b'x' ∷ b'.' ∷ b'd' ∷ []

name-IsClean : IsClean name
unfolding same contains
name-IsClean = (refl, refl, refl, refl)

normalize_ios_path-join_slash_example :
    normalize_ios_path (join_slash (name ∷ name ∷ [])) ≡ ok (name ∷ name ∷ [])
normalize_ios_path-join_slash_example =
    normalize_ios_path-join_slash name (name ∷ []) (name-IsClean, (name-IsClean, tt))

-- A sandbox at `/c`, mounted at `/m`.
abbrev root : Text
root = slash ∷ b'c' ∷ []

abbrev pub sandbox : Sandbox
sandbox = record {
  host_root = root;
  ios_prefix = slash ∷ b'm' ∷ [];
  uuid = b'u' ∷ [];
  layout = record {
    bundle_dir = root;
    documents = root;
    library = root;
    caches = root;
    preferences = root;
    tmp = root;
  };
  system_root = slash ∷ b's' ∷ [];
}

root-IsDirectory : IsDirectory root
unfolding needs_separator
root-IsDirectory = refl

translate-Stays_example : Stays sandbox system_trees (translate sandbox climbing)
translate-Stays_example = translate-Stays sandbox climbing root-IsDirectory
