-- ===== src/Ipa/Value.antt =====
-- crates/ipa/src/plist.rs: a decoded property list. A `Real` is the bit pattern of an `f64`, an
-- `Integer` that of an `i64`; the map of a dictionary is its entries in the order of their keys.
use emulator_ios_for_android.Base.{
  ℕ, String, Bool, true, false, Option, none, some, List, [], ◌∷◌, ltb, ◌==◌, if◌then◌else◌,
}
use emulator_ios_for_android.Common.Utf8.{Text}
use emulator_ios_for_android.Dyld.Linker.{same_name}

mutual
  pub data PlistValue : Type 0 where
    bool : Bool → PlistValue
    integer real : ℕ → PlistValue
    string : Text → PlistValue
    bytes : List ℕ → PlistValue
    array : Values → PlistValue
    dict : Entries → PlistValue

  pub data Values : Type 0 where
    nil : Values
    cons : PlistValue → Values → Values

  pub data Entries : Type 0 where
    end : Entries
    entry : Text → PlistValue → Entries → Entries

-- `panicked` is not an error of the code, which panics there, nor is `out_of_fuel`, which it cannot
-- run into.
pub data PlistError : Type 0 where
  truncated bad_trailer bad_reference not_a_plist panicked out_of_fuel : PlistError
  unsupported_type : ℕ → PlistError
  xml : String → PlistError

unfoldable pub as_str : PlistValue → Option Text
as_str (string s) = some s
as_str v = none

unfoldable pub as_i64 : PlistValue → Option ℕ
as_i64 (integer i) = some i
as_i64 v = none

unfoldable pub as_array : PlistValue → Option Values
as_array (array vs) = some vs
as_array v = none

unfoldable pub find_entry : Entries → Text → Option PlistValue
unfolding same_name
find_entry end key = none
find_entry (entry k v rest) key = if same_name k key then some v else find_entry rest key

unfoldable pub get : PlistValue → Text → Option PlistValue
unfolding find_entry
get (dict m) key = find_entry m key
get v key = none

-- The order of strings: byte by byte.
unfoldable pub text_lt : Text → Text → Bool
text_lt s [] = false
text_lt [] (b ∷ bs) = true
text_lt (a ∷ more) (b ∷ bs) = let rest = text_lt more bs in if a == b then rest else ltb a b

-- `BTreeMap::insert`: an entry under the same key gets the new value.
unfoldable pub insert_entry : Text → PlistValue → Entries → Entries
unfolding same_name text_lt
insert_entry key v end = entry key v end
insert_entry key v (entry k w rest) =
    let further = entry k w (insert_entry key v rest) in
    if same_name key k
    then entry k v rest
    else if text_lt key k
    then entry key v (entry k w rest)
    else further
