-- ===== src/Vfs/Sandbox.antt =====
-- crates/vfs/src/sandbox.rs: an app's container, and the host path of a guest path. Creating a
-- directory is the host's: a parameter over the host's state `H`.
use emulator_ios_for_android.Base.{
  ℕ, Bool, true, false, ◌||◌, List, [], ◌∷◌, ◌++◌, map, Option, none, some, ◌==◌, if◌then◌else◌,
}
use emulator_ios_for_android.Common.Result.{EmuError, vfs, EmuResult, ok, err, ◌>>=◌}
use emulator_ios_for_android.Common.Utf8.{Text}
use emulator_ios_for_android.Vfs.Bytes.{slash, same, strip_prefix, dot, dot_dot}
use emulator_ios_for_android.Vfs.Translate.{TranslationError, escape, malformed, normalize_ios_path}
use emulator_ios_for_android.Vfs.HostPath.{push, push_all, file_name, is_absolute}
use emulator_ios_for_android.Vfs.Trim.{trim}

pub record SandboxLayout : Type 0 where
  pub bundle_dir : Text
  pub documents : Text
  pub library : Text
  pub caches : Text
  pub preferences : Text
  pub tmp : Text

pub record Sandbox : Type 0 where
  pub host_root : Text
  pub ios_prefix : Text
  pub uuid : Text
  pub layout : SandboxLayout
  pub system_root : Text

-- `/`, `\` and NUL are not kept in a name.
unfoldable pub clean_byte : ℕ → ℕ
clean_byte b = if (b == slash) || (b == b'\\') || (b == 0) then b'_' else b

abbrev pub app : Text
app = b'A' ∷ b'p' ∷ b'p' ∷ []

unfoldable pub sanitize_component : Text → Text
unfolding clean_byte
sanitize_component name =
    let cleaned = map clean_byte name in
    if same cleaned [] || same cleaned dot || same cleaned dot_dot then app else cleaned

-- `.app`
abbrev pub dot_app : Text
dot_app = b'.' ∷ b'a' ∷ b'p' ∷ b'p' ∷ []

-- `/var/mobile/Applications/`
abbrev pub applications_prefix : Text
applications_prefix =
    b'/' ∷ b'v' ∷ b'a' ∷ b'r' ∷ b'/' ∷ b'm' ∷ b'o' ∷ b'b' ∷ b'i' ∷ b'l' ∷ b'e' ∷ b'/' ∷ b'A' ∷ b'p'
    ∷ b'p' ∷ b'l' ∷ b'i' ∷ b'c' ∷ b'a' ∷ b't' ∷ b'i' ∷ b'o' ∷ b'n' ∷ b's' ∷ b'/' ∷ []

abbrev pub applications : Text
applications =
    b'A' ∷ b'p' ∷ b'p' ∷ b'l' ∷ b'i' ∷ b'c' ∷ b'a' ∷ b't' ∷ b'i' ∷ b'o' ∷ b'n' ∷ b's' ∷ []

abbrev pub documents_name : Text
documents_name = b'D' ∷ b'o' ∷ b'c' ∷ b'u' ∷ b'm' ∷ b'e' ∷ b'n' ∷ b't' ∷ b's' ∷ []

abbrev pub library_name : Text
library_name = b'L' ∷ b'i' ∷ b'b' ∷ b'r' ∷ b'a' ∷ b'r' ∷ b'y' ∷ []

abbrev pub caches_name : Text
caches_name = b'C' ∷ b'a' ∷ b'c' ∷ b'h' ∷ b'e' ∷ b's' ∷ []

abbrev pub preferences_name : Text
preferences_name = b'P' ∷ b'r' ∷ b'e' ∷ b'f' ∷ b'e' ∷ b'r' ∷ b'e' ∷ b'n' ∷ b'c' ∷ b'e' ∷ b's' ∷ []

abbrev pub tmp_name : Text
tmp_name = b't' ∷ b'm' ∷ b'p' ∷ []

-- The directories of a container.
unfoldable pub layout_of : Text → Text → SandboxLayout
unfolding sanitize_component push
layout_of host_root app_name = record {
  bundle_dir = push host_root (sanitize_component app_name ++ dot_app);
  documents = push host_root documents_name;
  library = push host_root library_name;
  caches = push (push host_root library_name) caches_name;
  preferences = push (push host_root library_name) preferences_name;
  tmp = push host_root tmp_name;
}

module _ {H : Type 0} (create_dir_all : Text → H → EmuResult H) where
  unfoldable pub create_all : List Text → H → EmuResult H
  create_all [] h = ok h
  create_all (dir ∷ dirs) h = do h' ← create_dir_all dir h; create_all dirs h'

  unfoldable pub prepare : Text → Text → Text → Text → H → EmuResult (Sandbox × H)
  unfolding layout_of push
  prepare containers_root system_root app_name uuid h =
      let host_root = push (push containers_root applications) uuid in
      let layout = layout_of host_root app_name in
      do
        h' ←
            create_all
              (layout.bundle_dir ∷ layout.documents ∷ layout.caches ∷ layout.preferences
                ∷ layout.tmp ∷ [])
              h
        ok (
          record {
            host_root = host_root;
            ios_prefix = applications_prefix ++ uuid;
            uuid = uuid;
            layout = layout;
            system_root = system_root;
          },
          h',
        )

unfoldable pub bundle_ios_path : Sandbox → Text
unfolding file_name
bundle_ios_path sb =
    let name : Text = elim (file_name sb.layout.bundle_dir) [
      | none ↦ app ++ dot_app
      | some n ↦ n
    ] in
    sb.ios_prefix ++ (slash ∷ name)

unfoldable pub strip_prefix_dir : Text → Text → Option Text
unfolding strip_prefix
strip_prefix_dir path prefix = elim (strip_prefix path prefix) [
  | none ↦ none
  | some [] ↦ some []
  | some (b ∷ rest) ↦ if b == slash then some rest else none
]

unfoldable pub translation_fault : TranslationError → EmuError
translation_fault escape = vfs "sandbox escape"
translation_fault malformed = vfs "bad path"

-- `join_checked`, which does not read its sandbox.
unfoldable pub join_checked : Text → Text → EmuResult Text
unfolding normalize_ios_path translation_fault push_all
join_checked base rest = elim (normalize_ios_path rest) [
  | err e ↦ err (translation_fault e)
  | ok comps ↦ ok (push_all base comps)
]

-- `trim_start_matches('/')`.
unfoldable pub trim_slashes : Text → Text
trim_slashes [] = []
trim_slashes (b ∷ bs) = let rest = trim_slashes bs in if b == slash then rest else b ∷ bs

-- `/System`, `/usr`, `/Library`, `/private/var/db` and `/Applications`.
abbrev pub system_trees : List Text
system_trees =
    (b'/' ∷ b'S' ∷ b'y' ∷ b's' ∷ b't' ∷ b'e' ∷ b'm' ∷ [])
    ∷ (b'/' ∷ b'u' ∷ b's' ∷ b'r' ∷ [])
    ∷ (slash ∷ library_name)
    ∷ (b'/' ∷ b'p' ∷ b'r' ∷ b'i' ∷ b'v' ∷ b'a' ∷ b't' ∷ b'e' ∷ b'/' ∷ b'v' ∷ b'a' ∷ b'r' ∷ b'/'
        ∷ b'd' ∷ b'b' ∷ [])
    ∷ (slash ∷ applications)
    ∷ []

-- The loop over the read-only trees.
unfoldable pub translate_system : Text → Text → List Text → EmuResult (Text × Bool)
unfolding strip_prefix_dir join_checked trim_slashes push
translate_system system_root absolute [] = err (vfs "path outside sandbox")
translate_system system_root absolute (ro ∷ trees) = elim (strip_prefix_dir absolute ro) [
  | some rest ↦ (do host ← join_checked (push system_root (trim_slashes ro)) rest; ok (host, true))
  | none ↦ translate_system system_root absolute trees
]

unfoldable pub absolute_path : Sandbox → Text → Text
unfolding is_absolute bundle_ios_path
absolute_path sb path = if is_absolute path then path else bundle_ios_path sb ++ (slash ∷ path)

-- The host path, and whether it is read-only.
unfoldable pub translate : Sandbox → Text → EmuResult (Text × Bool)
unfolding trim absolute_path strip_prefix_dir join_checked translate_system
translate sb ios_path =
    let absolute = absolute_path sb (trim ios_path) in
    elim (strip_prefix_dir absolute sb.ios_prefix) [
      | some rest ↦ (do host ← join_checked sb.host_root rest; ok (host, false))
      | none ↦ translate_system sb.system_root absolute system_trees
    ]
