-- ===== src/Tests/Dyld.antt =====
-- crates/loader/src/dyld on small streams.
use emulator_ios_for_android.Base.{
  ℕ, ◌≡◌, refl, arith, List, [], ◌∷◌, ◌++◌, length, some, if◌then◌else◌,
}
use emulator_ios_for_android.Common.Result.{ok}
use emulator_ios_for_android.Common.Addr.{wrapping_add}
use emulator_ios_for_android.Common.Utf8.{Text}
use emulator_ios_for_android.Dyld.Leb.{read_uleb}
use emulator_ios_for_android.Dyld.LebRoundTrip.{
  IsName, encode_uleb_in, encode_uleb, read_uleb-encode,
}
use emulator_ios_for_android.Dyld.Rebase.{RebaseLocation, parse_rebase_info}
use emulator_ios_for_android.Dyld.RebaseRoundTrip.{encode_rebase_info, parse_rebase_info-encode}
use emulator_ios_for_android.Dyld.Bind.{parse_bind_info}
use emulator_ios_for_android.Dyld.LazyBind.{LazyBind, parse_lazy_bind_info}
use emulator_ios_for_android.Dyld.LazyRoundTrip.{
  encode_lazy, encode_lazy_info, IsPlaced, parse_lazy_bind_info-encode,
}
use emulator_ios_for_android.Dyld.Linker.{
  same_name, find_forward, find_reverse, StubResolver, new_resolver, resolve,
}
use emulator_ios_for_android.Dyld.LinkerLaws.{
  IsLinked, new_resolver-IsLinked, resolve-IsLinked, resolve-stable,
}
use emulator_ios_for_android.Dyld.Bind.{BindRecord, pointer, other}
use emulator_ios_for_android.Dyld.BindRoundTrip.{IsKind, encode_bind_info, parse_bind_info-encode}
use emulator_ios_for_android.Base.{true, false}

read_uleb-encode_example : read_uleb (encode_uleb 300 ++ (9 ∷ [])) ≡ ok (300, 9 ∷ [])
read_uleb-encode_example = read_uleb-encode 300 (9 ∷ []) (omega arith)

abbrev open_name : Text
open_name = b'o' ∷ b'p' ∷ b'e' ∷ b'n' ∷ []

open_name-IsName : IsName open_name
open_name-IsName = (
  (omega arith, omega arith),
  ((omega arith, omega arith), ((omega arith, omega arith), ((omega arith, omega arith), tt))),
)

abbrev free_name : Text
free_name = b'f' ∷ b'r' ∷ b'e' ∷ b'e' ∷ []

abbrev two_locations : List RebaseLocation
two_locations =
    record { seg_index = 2; seg_offset = 0x10; rtype = 1 }
    ∷ record { seg_index = 3; seg_offset = 0x1000; rtype = 1 }
    ∷ []

parse_rebase_info-encode_example :
    parse_rebase_info (encode_rebase_info two_locations) ≡ ok two_locations
parse_rebase_info-encode_example =
    parse_rebase_info-encode two_locations
      ((omega arith, omega arith, omega arith), ((omega arith, omega arith, omega arith), tt))

abbrev entries : List LazyBind
entries =
    record { offset = 0; seg_index = 2; seg_offset = 0x10; symbol = open_name }
    ∷ record { offset = 11; seg_index = 2; seg_offset = 0x18; symbol = open_name }
    ∷ []

entries-IsPlaced : IsPlaced (length (encode_lazy_info entries)) entries
unfolding encode_lazy_info encode_lazy encode_uleb encode_uleb_in
entries-IsPlaced = (omega arith, (omega arith, tt))

parse_lazy_bind_info-encode_example : parse_lazy_bind_info (encode_lazy_info entries) ≡ ok entries
parse_lazy_bind_info-encode_example =
    parse_lazy_bind_info-encode entries
      (
        (omega arith, omega arith, open_name-IsName),
        ((omega arith, omega arith, open_name-IsName), tt),
      )
      entries-IsPlaced

abbrev stubs : StubResolver
stubs = record {
  base = 0x5_0000_0000;
  stride = 16;
  next = 0x5_0000_0000;
  forward = [];
  reverse = [];
}

abbrev one_stub : StubResolver
one_stub = record stubs {
  next = 0x5_0000_0010;
  forward = (open_name, 0x5_0000_0000) ∷ [];
  reverse = (0x5_0000_0000, open_name) ∷ [];
}

fresh : new_resolver 0x5_0000_0000 16 ≡ stubs
unfolding new_resolver
fresh = refl

stubs-IsLinked : IsLinked stubs
stubs-IsLinked = rw (← fresh) (new_resolver-IsLinked 0x5_0000_0000 16 (omega arith) (omega arith))

resolved : (resolve open_name stubs).1 ≡ one_stub
unfolding resolve find_forward wrapping_add
resolved = refl

resolve-IsLinked_example : IsLinked (resolve open_name stubs).1
resolve-IsLinked_example = resolve-IsLinked open_name stubs stubs-IsLinked (omega arith)

one_stub-IsLinked : IsLinked one_stub
one_stub-IsLinked = rw (← resolved) (resolve-IsLinked open_name stubs stubs-IsLinked (omega arith))

resolve-stable_example :
    (a : ℕ) × ((resolve free_name one_stub).0 ≡ some a)
    × (find_reverse (resolve free_name one_stub).1.reverse a ≡ some free_name)
    × (resolve free_name (resolve free_name one_stub).1 ≡ (some a, (resolve free_name one_stub).1))
    × (find_forward (resolve free_name one_stub).1.forward open_name ≡ (
        if same_name free_name open_name then some a else find_forward one_stub.forward open_name))
resolve-stable_example = resolve-stable free_name one_stub open_name one_stub-IsLinked (omega arith)

found : find_forward one_stub.forward open_name ≡ some 0x5_0000_0000
unfolding find_forward same_name
found = refl

abbrev two_records : List BindRecord
two_records =
    record {
      seg_index = 2;
      seg_offset = 0x10;
      symbol = open_name;
      lib_ordinal = 200;
      addend = 0;
      kind = pointer;
      weak = false;
    }
    ∷ record {
      seg_index = 3;
      seg_offset = 0x1000;
      symbol = open_name;
      lib_ordinal = 1;
      addend = 0;
      kind = other 2;
      weak = true;
    }
    ∷ []

parse_bind_info-encode_example : parse_bind_info (encode_bind_info two_records) ≡ ok two_records
unfolding IsKind
parse_bind_info-encode_example = parse_bind_info-encode two_records (
  (omega arith, omega arith, open_name-IsName, omega arith, tt, refl),
  ((omega arith, omega arith, open_name-IsName, omega arith, (omega arith, omega arith), refl), tt),
)
