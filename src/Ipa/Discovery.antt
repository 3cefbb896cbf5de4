-- ===== src/Ipa/Discovery.antt =====
-- crates/ipa/src/discovery.rs: the main bundle of an archive, and what its Info.plist says. A zip
-- archive is what the zip library shows of it; opening the file and reading a decimal are parameters.
use emulator_ios_for_android.Base.{
  ℕ, zero, suc, ◌+◌, String, Bool, true, false, ◌&&◌, Option, none, some, List, [], ◌∷◌, ◌++◌,
  length, ltb, ◌==◌, if◌then◌else◌,
}
use emulator_ios_for_android.Common.Result.{
  Result, EmuResult, ok, err, archive, plist, io, ok_or, ◌>>=◌,
}
use emulator_ios_for_android.Common.Utf8.{Text}
use emulator_ios_for_android.Vfs.Bytes.{slash, split}
use emulator_ios_for_android.Dyld.Linker.{same_name}
use emulator_ios_for_android.Ipa.Value.{
  PlistValue, PlistError, Values, nil, cons, truncated, bad_trailer, bad_reference, not_a_plist,
  panicked, out_of_fuel, unsupported_type, xml, as_str, as_array, get,
}
use emulator_ios_for_android.Ipa.Scan.{starts_with}
use emulator_ios_for_android.Ipa.Xml.{parse_plist}
use emulator_ios_for_android.Ipa.Keys.{
  payload_slash, app_suffix, app, info_plist, display_name, bundle_name, bundle_identifier_key,
  minimum_os, minimum_system, executable_key, icons, primary_icon, icon_files, icon_file, png,
  twice, thrice,
}

-- `Option::and_then`.
abbrev pub and_then : {A B : Type 0} → Option A → (A → Option B) → Option B
and_then none f = none
and_then (some a) f = f a

-- `Result::map_err`.
abbrev pub map_err : {E F A : Type 0} → Result E A → (E → F) → Result F A
map_err (ok a) f = ok a
map_err (err e) f = err (f e)

-- What the zip library says of a name.
pub data ZipEntry : Type 0 where
  file : EmuResult (List ℕ) → ZipEntry
  file_not_found broken : ZipEntry

pub record ZipArchive : Type 0 where
  file_names : List Text
  by_name : Text → ZipEntry

pub record AppMetadata : Type 0 where
  name : Text
  bundle_identifier : Text
  minimum_os_version : Text
  executable : Text
  icon_png : Option (List ℕ)

pub record IpaBundle : Type 0 where
  ipa_path : Text
  bundle_dir : Text
  executable_path : Text
  metadata : AppMetadata

-- `str::strip_suffix`.
unfoldable pub strip_suffix : Text → Text → Option Text
unfolding same_name
strip_suffix [] suffix = if same_name [] suffix then some [] else none
strip_suffix (b ∷ bs) suffix =
    let later = strip_suffix bs suffix in
    if same_name (b ∷ bs) suffix
    then some []
    else elim later [ none ↦ none | some stem ↦ some (b ∷ stem) ]

unfoldable pub ends_with : Text → Text → Bool
unfolding strip_suffix
ends_with s suffix = elim (strip_suffix s suffix) [ none ↦ false | some stem ↦ true ]

-- `matches('/').count()`.
unfoldable pub depth : Text → ℕ
depth [] = 0
depth (b ∷ bs) = let rest = depth bs in if b == slash then rest + 1 else rest

-- The bundle whose Info.plist a name is.
unfoldable pub bundle_of : Text → Option Text
unfolding strip_suffix ends_with starts_with
bundle_of name = elim (strip_suffix name (slash ∷ info_plist)) [
  | none ↦ none
  | some dir ↦ if ends_with dir app_suffix && starts_with dir payload_slash then some dir else none
]

unfoldable pub consider : Option Text → Option Text → Option Text
unfolding depth
consider best none = best
consider none (some dir) = some dir
consider (some b) (some dir) = if ltb (depth dir) (depth b) then some dir else some b

unfoldable pub best_dir : Option Text → List Text → Option Text
unfolding consider bundle_of
best_dir best [] = best
best_dir best (name ∷ names) = best_dir (consider best (bundle_of name)) names

unfoldable pub find_bundle_dir : List Text → EmuResult Text
unfolding best_dir
find_bundle_dir names = ok_or (best_dir none names) (archive "no Payload/*.app/Info.plist found")

unfoldable pub read_entry : ZipArchive → Text → EmuResult (Option (List ℕ))
read_entry zip name = elim (zip.by_name name) [
  | file contents ↦ contents >>= λ buf. ok (some buf)
  | file_not_found ↦ ok none
  | broken ↦ err (archive "read entry")
]

unfoldable pub text_at : PlistValue → Text → Text
unfolding get as_str
text_at v key = elim (get v key) [
  | none ↦ []
  | some found ↦ elim (as_str found) [ none ↦ [] | some s ↦ s ]
]

unfoldable pub or_else : Text → Text → Text
or_else [] fallback = fallback
or_else (b ∷ bs) fallback = b ∷ bs

unfoldable pub metadata_from_plist : PlistValue → AppMetadata
unfolding text_at or_else
metadata_from_plist v = record {
  name = or_else (text_at v display_name) (text_at v bundle_name);
  bundle_identifier = text_at v bundle_identifier_key;
  minimum_os_version = or_else (text_at v minimum_os) (text_at v minimum_system);
  executable = text_at v executable_key;
  icon_png = none;
}

-- `slice::last`.
unfoldable pub last : Values → Option PlistValue
last nil = none
last (cons v nil) = some v
last (cons v (cons w vs)) = last (cons w vs)

-- The name of the last icon of a list, under a key.
unfoldable pub last_name : Option PlistValue → Option Text
unfolding as_array last as_str
last_name files = and_then files λ f. and_then (as_array f) λ vs. and_then (last vs) λ v. as_str v

unfoldable pub pick_icon_name : PlistValue → Option Text
unfolding get last_name as_str
pick_icon_name v =
    elim (last_name
      (and_then (get v icons) λ i. and_then (get i primary_icon) λ p. get p icon_files)) [
        | some primary ↦ some primary
        | none ↦ elim (last_name (get v icon_files)) [
          | some name ↦ some name
          | none ↦ and_then (get v icon_file) λ f. as_str f
        ]
      ]

-- `trim_end_matches`, on fuel.
unfoldable pub trim_end : ℕ → Text → Text → Text
unfolding strip_suffix
trim_end zero s suffix = s
trim_end (suc fuel) s suffix = elim (strip_suffix s suffix) [
  | none ↦ s
  | some stem ↦ trim_end fuel stem suffix
]

unfoldable pub icon_candidates : Text → List Text
unfolding trim_end
icon_candidates base =
    let stem = trim_end (length base) base png in
    (stem ++ twice) ∷ (stem ++ png) ∷ (stem ++ thrice) ∷ base ∷ []

unfoldable pub last_piece : List Text → Text
last_piece [] = []
last_piece (piece ∷ []) = piece
last_piece (piece ∷ (next ∷ more)) = last_piece (next ∷ more)

unfoldable pub default_executable_name : Text → Text
unfolding last_piece split strip_suffix
default_executable_name bundle_dir =
    elim (strip_suffix (last_piece (split bundle_dir)) app_suffix) [ none ↦ app | some stem ↦ stem ]

-- The first candidate that can be read; one that cannot is passed over.
unfoldable pub first_icon : ZipArchive → Text → List Text → Option (List ℕ)
unfolding read_entry
first_icon zip bundle_dir [] = none
first_icon zip bundle_dir (candidate ∷ more) =
    elim (read_entry zip (bundle_dir ++ (slash ∷ candidate))) [
      | ok (some bytes) ↦ some bytes
      | ok none ↦ first_icon zip bundle_dir more
      | err e ↦ first_icon zip bundle_dir more
    ]

-- `PlistError`'s `to_string`.
unfoldable pub display : PlistError → String
display truncated = "truncated plist"
display bad_trailer = "bad binary plist trailer"
display bad_reference = "object reference out of range"
display (unsupported_type t) = "unsupported object marker"
display (xml m) = "xml plist"
display not_a_plist = "not a recognised plist"
display panicked = "panicked"
display out_of_fuel = "out of fuel"

-- The executable is named by the bundle where the list does not name it.
unfoldable pub with_executable : Text → AppMetadata → AppMetadata
unfolding or_else default_executable_name
with_executable bundle_dir m = record m {
  executable = or_else m.executable (default_executable_name bundle_dir);
}

unfoldable pub icon_of : ZipArchive → Text → PlistValue → Option (List ℕ)
unfolding pick_icon_name first_icon icon_candidates
icon_of zip bundle_dir v = elim (pick_icon_name v) [
  | none ↦ none
  | some name ↦ first_icon zip bundle_dir (icon_candidates name)
]

-- `File::open` gives an error of the host or a file, and the zip library an archive if it can.
module _ {F : Type 0} (parse_f64 : Text → Option ℕ) (open_file : Text → Result String F)
    (new : F → Option ZipArchive) where
  unfoldable pub inspect_ipa : Text → EmuResult IpaBundle
  unfolding find_bundle_dir read_entry parse_plist display metadata_from_plist with_executable
      icon_of
  inspect_ipa ipa_path = map_err (open_file ipa_path) io >>= λ f.
      ok_or (new f) (archive "zip open") >>= λ zip. find_bundle_dir zip.file_names >>= λ bundle_dir.
      read_entry zip (bundle_dir ++ (slash ∷ info_plist)) >>= λ info.
      ok_or info (archive "missing Info.plist") >>= λ info_bytes.
      map_err (parse_plist parse_f64 info_bytes) (λ e. plist (display e)) >>= λ v.
      let m = with_executable bundle_dir (metadata_from_plist v) in
      ok record {
        ipa_path = ipa_path;
        bundle_dir = bundle_dir;
        executable_path = bundle_dir ++ (slash ∷ m.executable);
        metadata = record m { icon_png = icon_of zip bundle_dir v };
      }
