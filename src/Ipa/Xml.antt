-- ===== src/Ipa/Xml.antt =====
-- crates/ipa/src/plist.rs: XML property lists, and `parse`. The conversion of a decimal to an `f64`
-- is the standard library's and a parameter. The parser runs on fuel.
use emulator_ios_for_android.Base.{
  ℕ, zero, suc, ◌+◌, Bool, true, false, ◌||◌, Option, none, some, List, [], ◌∷◌, ◌++◌, length, take,
  drop, if◌then◌else◌,
}
use emulator_ios_for_android.Common.Result.{ok, err, ◌>>=◌}
use emulator_ios_for_android.Common.Utf8.{Text, from_utf8_lossy}
use emulator_ios_for_android.Vfs.Trim.{trim}
use emulator_ios_for_android.Ipa.Value.{
  PlistValue, bool, integer, real, string, bytes, array, dict, Values, nil, cons, Entries, end,
  not_a_plist, out_of_fuel, xml, insert_entry,
}
use emulator_ios_for_android.Ipa.Binary.{PlistResult, parse_binary}
use emulator_ios_for_android.Ipa.Scan.{
  skip_ws, starts_with, find, advance_past, unescape, is_utf8, parse_i64,
}

abbrev pub XmlResult {ℓ} : Type ℓ → Type ℓ
XmlResult A = PlistResult (A × List ℕ)

-- `<name>`, `</name>` and `<name/>`.
abbrev pub open_tag : Text → Text
open_tag name = b'<' ∷ (name ++ (b'>' ∷ []))

abbrev pub close_tag : Text → Text
close_tag name = b'<' ∷ (b'/' ∷ (name ++ (b'>' ∷ [])))

abbrev pub empty_tag : Text → Text
empty_tag name = b'<' ∷ (name ++ (b'/' ∷ (b'>' ∷ [])))

abbrev pub dict_name : Text
dict_name = b'd' ∷ b'i' ∷ b'c' ∷ b't' ∷ []

abbrev pub array_name : Text
array_name = b'a' ∷ b'r' ∷ b'r' ∷ b'a' ∷ b'y' ∷ []

abbrev pub string_name : Text
string_name = b's' ∷ b't' ∷ b'r' ∷ b'i' ∷ b'n' ∷ b'g' ∷ []

abbrev pub integer_name : Text
integer_name = b'i' ∷ b'n' ∷ b't' ∷ b'e' ∷ b'g' ∷ b'e' ∷ b'r' ∷ []

abbrev pub real_name : Text
real_name = b'r' ∷ b'e' ∷ b'a' ∷ b'l' ∷ []

abbrev pub true_name : Text
true_name = b't' ∷ b'r' ∷ b'u' ∷ b'e' ∷ []

abbrev pub false_name : Text
false_name = b'f' ∷ b'a' ∷ b'l' ∷ b's' ∷ b'e' ∷ []

abbrev pub data_name : Text
data_name = b'd' ∷ b'a' ∷ b't' ∷ b'a' ∷ []

abbrev pub key_name : Text
key_name = b'k' ∷ b'e' ∷ b'y' ∷ []

abbrev pub plist_name : Text
plist_name = b'p' ∷ b'l' ∷ b'i' ∷ b's' ∷ b't' ∷ []

-- "<?xml".
abbrev pub xml_mark : Text
xml_mark = b'<' ∷ b'?' ∷ b'x' ∷ b'm' ∷ b'l' ∷ []

-- What the loop of `skip_prologue` passes over, where it does not stop.
unfoldable pub prologue_step : List ℕ → Option (List ℕ)
unfolding starts_with advance_past
prologue_step r =
    if starts_with r (b'<' ∷ b'?' ∷ [])
    then some (advance_past r (b'?' ∷ b'>' ∷ []))
    else if starts_with r (b'<' ∷ b'!' ∷ b'-' ∷ b'-' ∷ [])
    then some (advance_past r (b'-' ∷ b'-' ∷ b'>' ∷ []))
    else if starts_with r (b'<' ∷ b'!' ∷ [])
    then some (advance_past r (b'>' ∷ []))
    else none

unfoldable pub skip_prologue : ℕ → List ℕ → List ℕ
unfolding skip_ws prologue_step
skip_prologue zero s = skip_ws s
skip_prologue (suc fuel) s = elim (prologue_step (skip_ws s)) [
  | none ↦ skip_ws s
  | some rest ↦ skip_prologue fuel rest
]

-- `expect_open("plist")`.
unfoldable pub expect_open : Text → List ℕ → PlistResult (List ℕ)
unfolding skip_ws starts_with advance_past
expect_open name s =
    let r = skip_ws s in
    if starts_with r (b'<' ∷ name)
    then ok (advance_past r (b'>' ∷ []))
    else err (xml "expected <plist>")

unfoldable pub text_element : Text → List ℕ → XmlResult Text
unfolding find unescape is_utf8
text_element name s = elim (find (drop (length (open_tag name)) s) (close_tag name)) [
  | none ↦ err (xml "unterminated element")
  | some (raw, rest) ↦ ok (unescape (if is_utf8 raw then raw else []), rest)
]

unfoldable pub or_zero : Option ℕ → ℕ
or_zero none = 0
or_zero (some v) = v

unfoldable pub contains : Text → Text → Bool
unfolding find
contains s needle = elim (find s needle) [ none ↦ false | some found ↦ true ]

unfoldable pub looks_like_xml : List ℕ → Bool
unfolding from_utf8_lossy contains
looks_like_xml s =
    let head = from_utf8_lossy (take 256 s) in
    contains head (b'<' ∷ plist_name) || contains head xml_mark

-- "bplist00".
abbrev pub binary_mark : Text
binary_mark = b'b' ∷ (plist_name ++ (b'0' ∷ (b'0' ∷ [])))

module _ (parse_f64 : Text → Option ℕ) where
  -- The arms of `value` that do not recur.
  unfoldable pub leaf : List ℕ → XmlResult PlistValue
  unfolding text_element starts_with or_zero parse_i64 trim
  leaf r =
      if starts_with r (open_tag string_name)
      then (text_element string_name r >>= λ (t, rest). ok (string t, rest))
      else if starts_with r (open_tag integer_name)
      then (text_element integer_name r >>= λ (t, rest).
          ok (integer (or_zero (parse_i64 (trim t))), rest))
      else if starts_with r (open_tag real_name)
      then (text_element real_name r >>= λ (t, rest).
          ok (real (or_zero (parse_f64 (trim t))), rest))
      else if starts_with r (empty_tag true_name)
      then ok (bool true, drop (length (empty_tag true_name)) r)
      else if starts_with r (empty_tag false_name)
      then ok (bool false, drop (length (empty_tag false_name)) r)
      else if starts_with r (open_tag data_name)
      then (text_element data_name r >>= λ (t, rest). ok (bytes (trim t), rest))
      else err (xml "unexpected element")

  unfoldable mutual
    unfolding skip_ws starts_with leaf text_element insert_entry

    pub value : ℕ → List ℕ → XmlResult PlistValue
    value zero s = err out_of_fuel
    value (suc fuel) s =
        let r = skip_ws s in
        elim (starts_with r (open_tag dict_name)) [
          | true ↦ dict_loop fuel end (drop (length (open_tag dict_name)) r)
          | false ↦ elim (starts_with r (open_tag array_name)) [
            | true ↦ array_loop fuel (drop (length (open_tag array_name)) r) >>= λ (vs, rest).
                ok (array vs, rest)
            | false ↦ leaf r
          ]
        ]

    -- The loop of `parse_dict`.
    pub dict_loop : ℕ → Entries → List ℕ → XmlResult PlistValue
    dict_loop zero map s = err out_of_fuel
    dict_loop (suc fuel) map s =
        let r = skip_ws s in
        elim (starts_with r (close_tag dict_name)) [
          | true ↦ ok (dict map, drop (length (close_tag dict_name)) r)
          | false ↦ elim (starts_with r (open_tag key_name)) [
            | false ↦ err (xml "expected <key> in dict")
            | true ↦ text_element key_name r >>= λ (key, rest).
                value fuel rest >>= λ (v, rest). dict_loop fuel (insert_entry key v map) rest
          ]
        ]

    -- The loop of `parse_array`.
    pub array_loop : ℕ → List ℕ → XmlResult Values
    array_loop zero s = err out_of_fuel
    array_loop (suc fuel) s =
        let r = skip_ws s in
        elim (starts_with r (close_tag array_name)) [
          | true ↦ ok (nil, drop (length (close_tag array_name)) r)
          | false ↦ value fuel r >>= λ (v, rest).
              array_loop fuel rest >>= λ (vs, rest). ok (cons v vs, rest)
        ]

  -- `xml::parse`.
  unfoldable pub parse_xml : List ℕ → PlistResult PlistValue
  unfolding is_utf8 skip_prologue expect_open value
  parse_xml s =
      if is_utf8 s
      then (expect_open plist_name (skip_prologue (length s) s) >>= λ rest.
          value (length rest + 1) rest >>= λ (v, rest). ok v)
      else err (xml "not utf-8")

  unfoldable pub parse_plist : List ℕ → PlistResult PlistValue
  unfolding starts_with parse_binary looks_like_xml parse_xml
  parse_plist s =
      if starts_with s binary_mark
      then parse_binary s
      else if looks_like_xml s
      then parse_xml s
      else err not_a_plist
