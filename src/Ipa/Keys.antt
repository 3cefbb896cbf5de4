-- ===== src/Ipa/Keys.antt =====
-- crates/ipa/src/discovery.rs: the names that the code looks up.
use emulator_ios_for_android.Base.{[], ◌∷◌}
use emulator_ios_for_android.Common.Utf8.{Text}

abbrev pub payload_slash : Text
payload_slash = b'P' ∷ b'a' ∷ b'y' ∷ b'l' ∷ b'o' ∷ b'a' ∷ b'd' ∷ b'/' ∷ []

abbrev pub app_suffix : Text
app_suffix = b'.' ∷ b'a' ∷ b'p' ∷ b'p' ∷ []

abbrev pub app : Text
app = b'A' ∷ b'p' ∷ b'p' ∷ []

abbrev pub info_plist : Text
info_plist = b'I' ∷ b'n' ∷ b'f' ∷ b'o' ∷ b'.' ∷ b'p' ∷ b'l' ∷ b'i' ∷ b's' ∷ b't' ∷ []

abbrev pub display_name : Text
display_name =
    b'C' ∷ b'F' ∷ b'B' ∷ b'u' ∷ b'n' ∷ b'd' ∷ b'l' ∷ b'e' ∷ b'D' ∷ b'i' ∷ b's' ∷ b'p' ∷ b'l' ∷ b'a'
    ∷ b'y' ∷ b'N' ∷ b'a' ∷ b'm' ∷ b'e' ∷ []

abbrev pub bundle_name : Text
bundle_name = b'C' ∷ b'F' ∷ b'B' ∷ b'u' ∷ b'n' ∷ b'd' ∷ b'l' ∷ b'e' ∷ b'N' ∷ b'a' ∷ b'm' ∷ b'e' ∷ []

abbrev pub bundle_identifier_key : Text
bundle_identifier_key =
    b'C' ∷ b'F' ∷ b'B' ∷ b'u' ∷ b'n' ∷ b'd' ∷ b'l' ∷ b'e' ∷ b'I' ∷ b'd' ∷ b'e' ∷ b'n' ∷ b't' ∷ b'i'
    ∷ b'f' ∷ b'i' ∷ b'e' ∷ b'r' ∷ []

abbrev pub minimum_os : Text
minimum_os =
    b'M' ∷ b'i' ∷ b'n' ∷ b'i' ∷ b'm' ∷ b'u' ∷ b'm' ∷ b'O' ∷ b'S' ∷ b'V' ∷ b'e' ∷ b'r' ∷ b's' ∷ b'i'
    ∷ b'o' ∷ b'n' ∷ []

abbrev pub minimum_system : Text
minimum_system =
    b'L' ∷ b'S' ∷ b'M' ∷ b'i' ∷ b'n' ∷ b'i' ∷ b'm' ∷ b'u' ∷ b'm' ∷ b'S' ∷ b'y' ∷ b's' ∷ b't' ∷ b'e'
    ∷ b'm' ∷ b'V' ∷ b'e' ∷ b'r' ∷ b's' ∷ b'i' ∷ b'o' ∷ b'n' ∷ []

abbrev pub executable_key : Text
executable_key =
    b'C' ∷ b'F' ∷ b'B' ∷ b'u' ∷ b'n' ∷ b'd' ∷ b'l' ∷ b'e' ∷ b'E' ∷ b'x' ∷ b'e' ∷ b'c' ∷ b'u' ∷ b't'
    ∷ b'a' ∷ b'b' ∷ b'l' ∷ b'e' ∷ []

abbrev pub icons : Text
icons =
    b'C' ∷ b'F' ∷ b'B' ∷ b'u' ∷ b'n' ∷ b'd' ∷ b'l' ∷ b'e' ∷ b'I' ∷ b'c' ∷ b'o' ∷ b'n' ∷ b's' ∷ []

abbrev pub primary_icon : Text
primary_icon =
    b'C' ∷ b'F' ∷ b'B' ∷ b'u' ∷ b'n' ∷ b'd' ∷ b'l' ∷ b'e' ∷ b'P' ∷ b'r' ∷ b'i' ∷ b'm' ∷ b'a' ∷ b'r'
    ∷ b'y' ∷ b'I' ∷ b'c' ∷ b'o' ∷ b'n' ∷ []

abbrev pub icon_files : Text
icon_files =
    b'C' ∷ b'F' ∷ b'B' ∷ b'u' ∷ b'n' ∷ b'd' ∷ b'l' ∷ b'e' ∷ b'I' ∷ b'c' ∷ b'o' ∷ b'n' ∷ b'F' ∷ b'i'
    ∷ b'l' ∷ b'e' ∷ b's' ∷ []

abbrev pub icon_file : Text
icon_file =
    b'C' ∷ b'F' ∷ b'B' ∷ b'u' ∷ b'n' ∷ b'd' ∷ b'l' ∷ b'e' ∷ b'I' ∷ b'c' ∷ b'o' ∷ b'n' ∷ b'F' ∷ b'i'
    ∷ b'l' ∷ b'e' ∷ []

abbrev pub png : Text
png = b'.' ∷ b'p' ∷ b'n' ∷ b'g' ∷ []

abbrev pub twice : Text
twice = b'@' ∷ b'2' ∷ b'x' ∷ b'.' ∷ b'p' ∷ b'n' ∷ b'g' ∷ []

abbrev pub thrice : Text
thrice = b'@' ∷ b'3' ∷ b'x' ∷ b'.' ∷ b'p' ∷ b'n' ∷ b'g' ∷ []
