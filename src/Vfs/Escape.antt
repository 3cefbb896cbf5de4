-- ===== src/Vfs/Escape.antt =====
-- crates/vfs/src/translate.rs: the paths that are refused because they climb above the root.
use emulator_ios_for_android.Base.{
  ℕ, suc, ◌-◌, ◌≡◌, refl, arith, Bool, true, false, ◌||◌, List, [], ◌∷◌, ◌++◌, length, Option, none,
  some, ◌==◌, if◌then◌else◌, Bool-cases, inl, inr, ap, ◌∙◌, All, length-append,
}
use emulator_ios_for_android.Common.Result.{Result, err, ◌>>=◌, ok_or}
use emulator_ios_for_android.Common.Utf8.{Text}
use emulator_ios_for_android.Vfs.Bytes.{slash, same, contains, onto_first, split, dot, dot_dot}
use emulator_ios_for_android.Vfs.Translate.{
  TranslationError, escape, pop, take_component, take_components, normalize_ios_path,
}

-- Whether the walk along the components, from `depth` directories below the root, ever leaves it.
unfoldable pub climbs : ℕ → List Text → Bool
climbs depth [] = false
climbs depth (c ∷ cs) =
    let here = climbs depth cs in
    let down = climbs (suc depth) cs in
    let up = climbs (depth - 1) cs in
    if same c [] || same c dot
    then here
    else if same c dot_dot
    then (if depth == 0 then true else up)
    else down

abbrev pub is_escape : Result TranslationError (List Text) → Bool
is_escape (err escape) = true
is_escape _ = false

abbrev NoNul : Text → Type 0
NoNul c = contains 0 c ≡ false

onto_first-NoNul :
    (b : ℕ) (ps : List Text) → (b == 0) ≡ false → All NoNul ps → All NoNul (onto_first b ps)
unfolding onto_first contains
onto_first-NoNul b [] h a = (rw h refl, tt)
onto_first-NoNul b (p ∷ ps) h a = (rw h a.0, a.1)

split-NoNul : (p : Text) → NoNul p → All NoNul (split p)
unfolding split contains
split-NoNul [] h = (refl, tt)
split-NoNul (b ∷ bs) h = elim (Bool-cases (b == 0)) [
  | inl nul ↦ let bad = rw nul at h in cc
  | inr byte ↦
      let deeper = split-NoNul bs (rw byte at h) in
      elim (Bool-cases (b == slash)) [
        | inl sep ↦ rw sep (refl, deeper)
        | inr other ↦ rw other (onto_first-NoNul b (split bs) byte deeper)
      ]
]

-- How a stack of components pops.
abbrev Pops : List Text → Option (List Text) → Type 0
Pops out none = length out ≡ 0
Pops out (some rest) = length out ≡ suc (length rest)

Pops-cons :
    (c : Text) (out : List Text) (o : Option (List Text))
    → (length out ≡ 0 → ⊥)
    → Pops out o
    → Pops (c ∷ out) (elim o [ none ↦ none | some rest ↦ some (c ∷ rest) ])
Pops-cons c out none full h = absurd (full h)
Pops-cons c out (some rest) full h = omega (arith, h)

pop-Pops : (out : List Text) → Pops out (pop out)
unfolding pop
pop-Pops [] = refl
pop-Pops (c ∷ []) = refl
pop-Pops (c ∷ (d ∷ more)) =
    Pops-cons c (d ∷ more) (pop (d ∷ more)) (λ e. absurd (omega (arith, e))) (pop-Pops (d ∷ more))

module _ (comps : List Text)
    (walk : (out : List Text)
      → is_escape (take_components out comps) ≡ climbs (length out) comps) where
  up_one :
      (out : List Text) (o : Option (List Text))
      → Pops out o
      → is_escape (ok_or o escape >>= λ out'. take_components out' comps)
        ≡ (if length out == 0 then true else climbs (length out - 1) comps)
  up_one out none h = rw h refl
  up_one out (some rest) h =
      let depth : length out - 1 ≡ length rest = omega (arith, h) in
      let below : (length out == 0) ≡ false = ground (arith, h) in rw (below, depth) (walk rest)

take_components-climbs :
    (out comps : List Text)
    → All NoNul comps
    → is_escape (take_components out comps) ≡ climbs (length out) comps
unfolding take_components take_component climbs
take_components-climbs out [] n = refl
take_components-climbs out (c ∷ cs) n =
    let walk = λ (o : List Text). take_components-climbs o cs n.1 in
    elim (Bool-cases (same c [] || same c dot)) [
      | inl skip ↦ rw skip (walk out)
      | inr name ↦ elim (Bool-cases (same c dot_dot)) [
        | inl up ↦ rw (name, up) (up_one cs walk out (pop out) (pop-Pops out))
        | inr down ↦
            let deeper : length (out ++ (c ∷ [])) ≡ suc (length out) =
              omega (arith, length-append out (c ∷ [])) in
            rw (name, down, n.0) (walk (out ++ (c ∷ [])) ∙ ap (λ (d : ℕ). climbs d cs) deeper)
      ]
    ]

-- A path without NUL is refused as an escape exactly when, read from the left, its `..` at some
-- point outnumber the names before them.
pub normalize_ios_path-climbs :
    (path : Text)
    → contains 0 path ≡ false
    → is_escape (normalize_ios_path path) ≡ climbs 0 (split path)
unfolding normalize_ios_path climbs split same
normalize_ios_path-climbs [] n = refl
normalize_ios_path-climbs (b ∷ bs) n =
    take_components-climbs [] (split (b ∷ bs)) (split-NoNul (b ∷ bs) n)
