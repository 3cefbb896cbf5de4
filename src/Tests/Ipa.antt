-- ===== src/Tests/Ipa.antt =====
-- crates/ipa/src/plist.rs on small property lists.
use emulator_ios_for_android.Base.{ℕ, ◌≤◌, ◌≡◌, refl, List, [], ◌∷◌, ◌++◌, true, none}
use emulator_ios_for_android.Common.Result.{err, ok}
use emulator_ios_for_android.Common.Outcome.{Outcome}
use emulator_ios_for_android.Common.Addr.{wrapping_add}
use emulator_ios_for_android.Ipa.Value.{bad_reference, array, bool, nil, cons}
use emulator_ios_for_android.Ipa.Binary.{
  BinaryPlist, read_ref, count_and_offset, object_at, parse_binary, index_range, be_uint,
  be_uint_from,
}
use emulator_ios_for_android.Ipa.BinaryLaws.{
  AnyFault, nesting, parse_binary-Shallow, LeadsOn, object_at-cycle,
}
use emulator_ios_for_android.Common.Utf8.{from_utf8_lossy}
use emulator_ios_for_android.Ipa.Scan.{is_blank, skip_ws, starts_with, find, advance_past, is_utf8}
use emulator_ios_for_android.Ipa.Xml.{
  open_tag, close_tag, empty_tag, plist_name, array_name, true_name, skip_prologue, prologue_step,
  expect_open, leaf, value, dict_loop, array_loop, parse_xml, contains, looks_like_xml, parse_plist,
}
use emulator_ios_for_android.Ipa.XmlLaws.{IsXml, parse_xml-ends}
use emulator_ios_for_android.Common.Utf8.{Text}
use emulator_ios_for_android.Ipa.Keys.{payload_slash, app_suffix, app, info_plist}
use emulator_ios_for_android.Ipa.Discovery.{
  strip_suffix, ends_with, depth, bundle_of, consider, best_dir, find_bundle_dir,
  default_executable_name, last_piece,
}
use emulator_ios_for_android.Ipa.DiscoveryLaws.{IsShallowest, find_bundle_dir-IsShallowest}
use emulator_ios_for_android.Vfs.Bytes.{split, onto_first}
use emulator_ios_for_android.Dyld.Linker.{same_name}

-- Object 0 is an array of itself.
abbrev cyclic : BinaryPlist
cyclic = record { buf = 0xa1 ∷ 0 ∷ []; ref_size = 1; offsets = 0 ∷ [] }

cyclic_count : count_and_offset cyclic 0 1 ≡ ok (1, 1)
unfolding count_and_offset
cyclic_count = refl

cyclic_ref : read_ref cyclic 1 ≡ ok 0
unfolding read_ref index_range be_uint be_uint_from wrapping_add
cyclic_ref = refl

cyclic_first : (i : ℕ) → i ≡ 0 → LeadsOn cyclic (λ i. i ≡ 0) i
cyclic_first i e = rw e record {
  off = 0;
  marker = 0xa1;
  count = 0;
  at = 1;
  next = 0;
  place = refl;
  mark = refl;
  kind = refl;
  elems = cyclic_count;
  few = refl;
  first = cyclic_ref;
  again = refl;
}

object_at-cycle_example : object_at cyclic 129 0 ≡ err bad_reference
object_at-cycle_example = object_at-cycle cyclic (λ i. i ≡ 0) cyclic_first 129 0 refl

-- An array of `true`: two objects at 8 and 10, their offsets at 11, and the trailer.
abbrev truth_list : List ℕ
truth_list =
    b'b' ∷ b'p' ∷ b'l' ∷ b'i' ∷ b's' ∷ b't' ∷ b'0' ∷ b'0' ∷ 0xa1 ∷ 1 ∷ 9 ∷ 8 ∷ 10 ∷ 0 ∷ 0 ∷ 0 ∷ 0
    ∷ 0 ∷ 0 ∷ 1 ∷ 1 ∷ 0 ∷ 0 ∷ 0 ∷ 0 ∷ 0 ∷ 0 ∷ 0 ∷ 2 ∷ 0 ∷ 0 ∷ 0 ∷ 0 ∷ 0 ∷ 0 ∷ 0 ∷ 0 ∷ 0 ∷ 0 ∷ 0 ∷ 0
    ∷ 0 ∷ 0 ∷ 0 ∷ 11 ∷ []

parse_binary-Shallow_example : Outcome AnyFault (λ v. nesting v ≤ 129) (parse_binary truth_list)
parse_binary-Shallow_example = parse_binary-Shallow truth_list

-- `<plist><array><true/></array></plist>`.
abbrev xml_truth_list : List ℕ
xml_truth_list =
    open_tag plist_name
    ++ (open_tag array_name
        ++ (empty_tag true_name ++ (close_tag array_name ++ close_tag plist_name)))

xml_truth : parse_plist (λ t. none) xml_truth_list ≡ ok (array (cons (bool true) nil))
unfolding parse_plist starts_with looks_like_xml contains find from_utf8_lossy parse_xml is_utf8
    skip_prologue prologue_step skip_ws is_blank expect_open advance_past value array_loop dict_loop
    leaf
xml_truth = refl

parse_xml-ends_example : Outcome IsXml (λ v. Unit) (parse_xml (λ t. none) xml_truth_list)
parse_xml-ends_example = parse_xml-ends (λ t. none) xml_truth_list

-- "Payload/App.app", and a plug-in inside it.
abbrev main_bundle : Text
main_bundle = payload_slash ++ (app ++ app_suffix)

abbrev plugin_bundle : Text
plugin_bundle = main_bundle ++ (b'/' ∷ (app ++ app_suffix))

abbrev archive_names : List Text
archive_names =
    main_bundle ∷ (plugin_bundle ++ (b'/' ∷ info_plist)) ∷ (main_bundle ++ (b'/' ∷ info_plist)) ∷ []

main_bundle_found : find_bundle_dir archive_names ≡ ok main_bundle
unfolding find_bundle_dir best_dir consider depth bundle_of strip_suffix ends_with starts_with
    same_name
main_bundle_found = refl

default_executable : default_executable_name main_bundle ≡ app
unfolding default_executable_name last_piece split onto_first strip_suffix same_name
default_executable = refl

find_bundle_dir-IsShallowest_example : IsShallowest archive_names (find_bundle_dir archive_names)
find_bundle_dir-IsShallowest_example = find_bundle_dir-IsShallowest archive_names
