-- ===== src/Vfs/Normalize.antt =====
-- crates/vfs/src/translate.rs: what comes out of the normalisation, and when it refuses.
use emulator_ios_for_android.Base.{
  ℕ, ◌≡◌, refl, false, ◌||◌, List, [], ◌∷◌, ◌++◌, Option, none, some, ◌==◌, Bool-cases, inl, inr,
  ap, sym, ◌∙◌, All,
}
use emulator_ios_for_android.Common.Result.{Result, ok, err, ◌>>=◌, ok_or}
use emulator_ios_for_android.Common.Utf8.{Text}
use emulator_ios_for_android.Vfs.Bytes.{slash, same, contains, onto_first, split, dot, dot_dot}
use emulator_ios_for_android.Vfs.Translate.{
  TranslationError, escape, pop, take_component, take_components, normalize_ios_path,
}

abbrev pub NoSlash : Text → Type 0
NoSlash c = contains slash c ≡ false

-- A component that names an entry of its directory: not empty, `.` or `..`, and without a
-- separator or a NUL.
abbrev pub IsClean : Text → Type 0
IsClean c =
    ((same c [] || same c dot) ≡ false)
    × (same c dot_dot ≡ false)
    × (contains 0 c ≡ false)
    × NoSlash c

onto_first-NoSlash :
    (b : ℕ) (ps : List Text) → (b == slash) ≡ false → All NoSlash ps → All NoSlash (onto_first b ps)
unfolding onto_first contains
onto_first-NoSlash b [] h a = (rw h refl, tt)
onto_first-NoSlash b (p ∷ ps) h a = (rw h a.0, a.1)

pub split-NoSlash : (p : Text) → All NoSlash (split p)
unfolding split contains
split-NoSlash [] = (refl, tt)
split-NoSlash (b ∷ bs) = elim (Bool-cases (b == slash)) [
  | inl sep ↦ rw sep (refl, split-NoSlash bs)
  | inr byte ↦ rw byte (onto_first-NoSlash b (split bs) byte (split-NoSlash bs))
]

abbrev IsCleanOption : Option (List Text) → Type 0
IsCleanOption none = Unit
IsCleanOption (some out) = All IsClean out

cons-clean :
    (c : Text) (o : Option (List Text))
    → IsClean c
    → IsCleanOption o
    → IsCleanOption (elim o [ none ↦ none | some rest ↦ some (c ∷ rest) ])
cons-clean c none h a = tt
cons-clean c (some rest) h a = (h, a)

pop-clean : (out : List Text) → All IsClean out → IsCleanOption (pop out)
unfolding pop
pop-clean [] a = tt
pop-clean (c ∷ []) a = tt
pop-clean (c ∷ (d ∷ more)) a = cons-clean c (pop (d ∷ more)) a.0 (pop-clean (d ∷ more) a.1)

All-snoc : (xs : List Text) (x : Text) → All IsClean xs → IsClean x → All IsClean (xs ++ (x ∷ []))
All-snoc [] x h k = (k, tt)
All-snoc (y ∷ xs) x h k = (h.0, All-snoc xs x h.1 k)

-- What the normalisation yields: clean components only.
abbrev pub Yields : Result TranslationError (List Text) → Type 0
Yields (ok out) = All IsClean out
Yields (err e) = Unit

popped : (o : Option (List Text)) → IsCleanOption o → Yields (ok_or o escape)
popped none h = tt
popped (some out) h = h

take_component-Yields :
    (out : List Text) (comp : Text)
    → All IsClean out
    → NoSlash comp
    → Yields (take_component out comp)
unfolding take_component
take_component-Yields out comp a n = elim (Bool-cases (same comp [] || same comp dot)) [
  | inl skip ↦ rw skip a
  | inr name ↦ elim (Bool-cases (same comp dot_dot)) [
    | inl up ↦ rw (name, up) (popped (pop out) (pop-clean out a))
    | inr down ↦ elim (Bool-cases (contains 0 comp)) [
      | inl nul ↦ rw (name, down, nul) tt
      | inr clean ↦ rw (name, down, clean) (All-snoc out comp a (name, down, clean, n))
    ]
  ]
]

then-Yields :
    (r : Result TranslationError (List Text)) (f : List Text → Result TranslationError (List Text))
    → Yields r
    → ((out : List Text) → All IsClean out → Yields (f out))
    → Yields (r >>= f)
then-Yields (ok out) f h k = k out h
then-Yields (err e) f h k = tt

take_components-Yields :
    (out comps : List Text)
    → All IsClean out
    → All NoSlash comps
    → Yields (take_components out comps)
unfolding take_components
take_components-Yields out [] a n = a
take_components-Yields out (comp ∷ comps) a n =
    then-Yields (take_component out comp) (λ out'. take_components out' comps)
      (take_component-Yields out comp a n.0) (λ out' a'. take_components-Yields out' comps a' n.1)

-- Whatever the guest asks for, normalisation gives an error, or components of which each is clean: not
-- empty, neither `.` nor `..`, and without a separator.
pub normalize_ios_path-Yields : (path : Text) → Yields (normalize_ios_path path)
unfolding normalize_ios_path
normalize_ios_path-Yields [] = tt
normalize_ios_path-Yields (b ∷ bs) =
    take_components-Yields [] (split (b ∷ bs)) tt (split-NoSlash (b ∷ bs))

-- The path of a list of components.
unfoldable pub join_slash : List Text → Text
join_slash [] = []
join_slash (c ∷ []) = c
join_slash (c ∷ (d ∷ more)) = c ++ (slash ∷ join_slash (d ∷ more))

split-last : (c : Text) → NoSlash c → split c ≡ c ∷ []
unfolding split onto_first contains
split-last [] n = refl
split-last (b ∷ c) n = elim (Bool-cases (b == slash)) [
  | inl sep ↦ let bad = rw sep at n in cc
  | inr byte ↦ rw (byte, split-last c (rw byte at n)) refl
]

split-component : (c rest : Text) → NoSlash c → split (c ++ (slash ∷ rest)) ≡ c ∷ split rest
unfolding split onto_first contains
split-component [] rest n = refl
split-component (b ∷ c) rest n = elim (Bool-cases (b == slash)) [
  | inl sep ↦ let bad = rw sep at n in cc
  | inr byte ↦ rw (byte, split-component c rest (rw byte at n)) refl
]

split-join_slash :
    (c : Text) (cs : List Text) → All IsClean (c ∷ cs) → split (join_slash (c ∷ cs)) ≡ c ∷ cs
unfolding join_slash
split-join_slash c [] h = split-last c h.0.3
split-join_slash c (d ∷ cs) h =
    split-component c (join_slash (d ∷ cs)) h.0.3 ∙ ap (λ t. c ∷ t) (split-join_slash d cs h.1)

append_nil : (xs : List Text) → xs ++ [] ≡ xs
append_nil [] = refl
append_nil (x ∷ xs) = ap (λ t. x ∷ t) (append_nil xs)

append_one : (xs ys : List Text) (x : Text) → (xs ++ (x ∷ [])) ++ ys ≡ xs ++ (x ∷ ys)
append_one [] ys x = refl
append_one (w ∷ xs) ys x = ap (λ t. w ∷ t) (append_one xs ys x)

take_component-push :
    (out : List Text) (c : Text) → IsClean c → take_component out c ≡ ok (out ++ (c ∷ []))
unfolding take_component
take_component-push out c (name, down, clean, n) = rw (name, down, clean) refl

take_components-push :
    (out cs : List Text) → All IsClean cs → take_components out cs ≡ ok (out ++ cs)
unfolding take_components
take_components-push out [] h = ap (λ t. ok t) (sym (append_nil out))
take_components-push out (c ∷ cs) h =
    rw (take_component-push out c h.0)
      (take_components-push (out ++ (c ∷ [])) cs h.1 ∙ ap (λ t. ok t) (append_one out cs c))

normalize_split :
    (path : Text)
    → (same path [] ≡ false)
    → normalize_ios_path path ≡ take_components [] (split path)
unfolding normalize_ios_path same
normalize_split [] h = cc
normalize_split (b ∷ bs) h = refl

join_slash-full :
    (c : Text) (cs : List Text)
    → (same c [] || same c dot) ≡ false
    → same (join_slash (c ∷ cs)) [] ≡ false
unfolding join_slash same
join_slash-full [] [] h = cc
join_slash-full [] (d ∷ cs) h = cc
join_slash-full (b ∷ c) [] h = refl
join_slash-full (b ∷ c) (d ∷ cs) h = refl

-- The path that joins clean components, at least one, is normalised to these components.
pub normalize_ios_path-join_slash :
    (c : Text) (cs : List Text)
    → All IsClean (c ∷ cs)
    → normalize_ios_path (join_slash (c ∷ cs)) ≡ ok (c ∷ cs)
normalize_ios_path-join_slash c cs h =
    normalize_split (join_slash (c ∷ cs)) (join_slash-full c cs h.0.0)
    ∙ ap (λ (t : List Text). take_components [] t) (split-join_slash c cs h)
    ∙ take_components-push [] (c ∷ cs) h
