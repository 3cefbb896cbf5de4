-- ===== src/Ipa/XmlLaws.antt =====
-- crates/ipa/src/plist.rs, module `xml`: the parser comes to an end, since every value takes at least
-- one byte.
use emulator_ios_for_android.Base.{
  ℕ, zero, suc, ◌+◌, ◌≤◌, ◌<◌, ◌≡◌, refl, arith, String, true, Option, none, some, List, [], ◌∷◌,
  length, drop, length-drop, if◌then◌else◌,
}
use emulator_ios_for_android.Common.Result.{ok, err, ◌>>=◌}
use emulator_ios_for_android.Common.Outcome.{
  Outcome, gives, fails, Outcome-bind, Outcome-if, Outcome-weaken, Outcome-elim,
}
use emulator_ios_for_android.Common.Utf8.{Text}
use emulator_ios_for_android.Ipa.Value.{PlistError, Entries, end, xml, insert_entry}
use emulator_ios_for_android.Ipa.Scan.{
  unescape, is_utf8, skip_ws, starts_with, find, skip_ws-le, starts_with-le,
}
use emulator_ios_for_android.Ipa.Cursor.{either-way, find-le, advance_past-less}
use emulator_ios_for_android.Ipa.Xml.{
  open_tag, close_tag, empty_tag, string_name, integer_name, real_name, true_name, false_name,
  data_name, dict_name, array_name, plist_name, key_name, text_element, leaf, value, dict_loop,
  array_loop, parse_xml, expect_open, skip_prologue, prologue_step,
}

-- An error of the XML parser itself.
pub data IsXml : PlistError → Type 0 where
  is_xml : {m : String} → IsXml (xml m)

-- A computation that leaves fewer than `n` bytes.
abbrev pub Leaves : ℕ → {A : Type 0} → A × List ℕ → Type 0
Leaves n out = length out.1 < n

pub prologue_step-less : (r rest : List ℕ) → prologue_step r ≡ some rest → length rest < length r
unfolding prologue_step
prologue_step-less r rest h =
    either-way (starts_with r (b'<' ∷ b'?' ∷ []))
      (λ c e.
        ground (arith, starts_with-le r (b'<' ∷ b'?' ∷ []), advance_past-less r b'?' (b'>' ∷ [])))
      (λ c.
        either-way (starts_with r (b'<' ∷ b'!' ∷ b'-' ∷ b'-' ∷ []))
          (λ c e. ground (
            arith,
            starts_with-le r (b'<' ∷ b'!' ∷ b'-' ∷ b'-' ∷ []),
            advance_past-less r b'-' (b'-' ∷ b'>' ∷ []),
          ))
          (λ c.
            either-way (starts_with r (b'<' ∷ b'!' ∷ []))
              (λ c e.
                ground (arith, starts_with-le r (b'<' ∷ b'!' ∷ []), advance_past-less r b'>' []))
              (λ c e. cc)))
      h

-- The loop stops where nothing more is to be passed over.
pub skip_prologue-stops :
    (fuel : ℕ) (s : List ℕ) → length s ≤ fuel → prologue_step (skip_prologue fuel s) ≡ none
unfolding skip_prologue
skip_prologue-stops zero [] h = refl
skip_prologue-stops zero (b ∷ bs) h = absurd (omega arith)
skip_prologue-stops (suc fuel) s h =
    stops (λ rest. skip_prologue-stops fuel rest) (prologue_step (skip_ws s)) refl
  where
    stops :
        ((rest : List ℕ) → length rest ≤ fuel → prologue_step (skip_prologue fuel rest) ≡ none)
        → (o : Option (List ℕ)) → prologue_step (skip_ws s) ≡ o
        → prologue_step (elim o [ none ↦ skip_ws s | some rest ↦ skip_prologue fuel rest ]) ≡ none
    stops again none e = e
    stops again (some rest) e =
        again rest (omega (arith, prologue_step-less (skip_ws s) rest e, skip_ws-le s))

element-Outcome :
    (n : ℕ) (o : Option (List ℕ × List ℕ))
    → ((before behind : List ℕ) → o ≡ some (before, behind) → length behind < n)
    → Outcome IsXml (Leaves n) (elim o [
      | none ↦ err (xml "unterminated element")
      | some (raw, rest) ↦ ok (unescape (if is_utf8 raw then raw else []), rest)
    ])
element-Outcome n none h = fails is_xml
element-Outcome n (some (raw, rest)) h = gives (h raw rest refl)

-- The element's opening tag has been seen.
pub text_element-Outcome :
    (name : Text) (s : List ℕ)
    → starts_with s (open_tag name) ≡ true
    → Outcome IsXml (Leaves (length s)) (text_element name s)
unfolding text_element
text_element-Outcome name s h =
    element-Outcome (length s) _
      (λ before behind
          (e : find (drop (length (open_tag name)) s) (close_tag name) ≡ some (before, behind)).
        omega (
          arith,
          find-le (drop (length (open_tag name)) s) (close_tag name) before behind e,
          length-drop (length (open_tag name)) s,
          starts_with-le s (open_tag name) h,
        ))

-- Passing over a tag that has been seen leaves less.
pub drop-tag :
    (s tag : List ℕ)
    → starts_with s tag ≡ true
    → length (drop (length tag) s) + length tag ≡ length s
drop-tag s tag e = omega (arith, length-drop (length tag) s, starts_with-le s tag e)

-- A text element whose text is converted.
pub converted-Outcome :
    {A : Type 0} (name : Text) (s : List ℕ) (f : Text → A)
    → starts_with s (open_tag name) ≡ true
    → Outcome IsXml (Leaves (length s)) (text_element name s >>= λ (t, rest). ok (f t, rest))
converted-Outcome name s f e = Outcome-bind (text_element-Outcome name s e) λ (t, rest) h. gives h

module _ (parse_f64 : Text → Option ℕ) where
  leaf-Outcome : (r : List ℕ) → Outcome IsXml (Leaves (length r)) (leaf parse_f64 r)
  unfolding leaf
  leaf-Outcome r =
      Outcome-if (starts_with r (open_tag string_name)) (converted-Outcome string_name r _) λ e.
        Outcome-if (starts_with r (open_tag integer_name)) (converted-Outcome integer_name r _) λ e.
          Outcome-if (starts_with r (open_tag real_name)) (converted-Outcome real_name r _) λ e.
            Outcome-if (starts_with r (empty_tag true_name))
              (λ e. gives (omega (arith, drop-tag r (empty_tag true_name) e)))
              λ e.
                Outcome-if (starts_with r (empty_tag false_name))
                  (λ e. gives (omega (arith, drop-tag r (empty_tag false_name) e)))
                  λ e.
                    Outcome-if (starts_with r (open_tag data_name))
                      (converted-Outcome data_name r _) λ e. fails is_xml

  mutual
    unfolding value dict_loop array_loop

    value-Outcome :
        (fuel : ℕ) (s : List ℕ)
        → length s < fuel
        → Outcome IsXml (Leaves (length s)) (value parse_f64 fuel s)
    value-Outcome zero s h = absurd (omega arith)
    value-Outcome (suc fuel) s h =
        let r : List ℕ = skip_ws s in
        let short : length r ≤ length s = skip_ws-le s in
        Outcome-elim (starts_with r (open_tag dict_name))
          (λ e.
            let left = drop-tag r (open_tag dict_name) e in
            Outcome-weaken (dict_loop-Outcome fuel end _ (omega arith)) λ out less. omega arith)
          λ e.
            Outcome-elim (starts_with r (open_tag array_name))
              (λ e.
                let left = drop-tag r (open_tag array_name) e in
                Outcome-bind (array_loop-Outcome fuel _ (omega arith))
                  λ (vs, rest) less. gives (omega arith))
              λ e. Outcome-weaken (leaf-Outcome r) λ out less. omega arith

    dict_loop-Outcome :
        (fuel : ℕ) (map : Entries) (s : List ℕ)
        → length s + 1 < fuel
        → Outcome IsXml (Leaves (length s)) (dict_loop parse_f64 fuel map s)
    dict_loop-Outcome zero map s h = absurd (omega arith)
    dict_loop-Outcome (suc fuel) map s h =
        let r : List ℕ = skip_ws s in
        let short : length r ≤ length s = skip_ws-le s in
        Outcome-elim (starts_with r (close_tag dict_name))
          (λ e. gives (omega (arith, drop-tag r (close_tag dict_name) e)))
          λ e.
            Outcome-elim (starts_with r (open_tag key_name))
              (λ e. Outcome-bind (text_element-Outcome key_name r e) λ (key, rest) less.
                Outcome-bind (value-Outcome fuel rest (omega arith)) λ (v, rest') less'.
                  Outcome-weaken
                    (dict_loop-Outcome fuel (insert_entry key v map) rest' (omega arith))
                    λ out less''. omega arith)
              λ e. fails is_xml

    array_loop-Outcome :
        (fuel : ℕ) (s : List ℕ)
        → length s + 1 < fuel
        → Outcome IsXml (Leaves (length s)) (array_loop parse_f64 fuel s)
    array_loop-Outcome zero s h = absurd (omega arith)
    array_loop-Outcome (suc fuel) s h =
        let r : List ℕ = skip_ws s in
        let short : length r ≤ length s = skip_ws-le s in
        Outcome-elim (starts_with r (close_tag array_name))
          (λ e. gives (omega (arith, drop-tag r (close_tag array_name) e)))
          λ e. Outcome-bind (value-Outcome fuel r (omega arith)) λ (v, rest) less.
            Outcome-bind (array_loop-Outcome fuel rest (omega arith))
              λ (vs, rest') less'. gives (omega arith)

  open-Outcome : (name : Text) (s : List ℕ) → Outcome IsXml (λ rest. Unit) (expect_open name s)
  unfolding expect_open
  open-Outcome name s =
      Outcome-if (starts_with (skip_ws s) (b'<' ∷ name)) (λ e. gives tt) λ e. fails is_xml

  -- Whatever the bytes are, and with whichever reading of decimals, the XML parser comes to an end
  -- within its fuel: it gives a value or an error of kind `Xml`.
  pub parse_xml-ends : (s : List ℕ) → Outcome IsXml (λ v. Unit) (parse_xml parse_f64 s)
  unfolding parse_xml
  parse_xml-ends s =
      Outcome-if (is_utf8 s)
        (λ e.
          Outcome-bind {k = λ rest. value parse_f64 (length rest + 1) rest >>= λ (v, after). ok v}
            (open-Outcome plist_name (skip_prologue (length s) s))
            λ rest u.
              Outcome-bind {k = λ (v, after). ok v}
                (value-Outcome (length rest + 1) rest (omega arith)) λ (v, after) less. gives tt)
        λ e. fails is_xml
