-- ===== src/Vfs/Containment.antt =====
-- crates/vfs/src/sandbox.rs: no host path leaves the directory that it was routed to.
use emulator_ios_for_android.Base.{
  ℕ, ◌≡◌, refl, Bool, true, false, List, [], ◌∷◌, ◌++◌, ◌==◌, Bool-cases, Option-cases, inl, inr,
  ap, sym, ◌∙◌, All, ◌⊎◌,
}
use emulator_ios_for_android.Common.Result.{EmuError, vfs, EmuResult, Result, ok, err, ◌>>=◌}
use emulator_ios_for_android.Common.Utf8.{Text}
use emulator_ios_for_android.Vfs.Bytes.{slash, same, contains}
use emulator_ios_for_android.Vfs.Translate.{TranslationError, escape, malformed, normalize_ios_path}
use emulator_ios_for_android.Vfs.HostPath.{push, push_all, needs_separator, is_absolute}
use emulator_ios_for_android.Vfs.Normalize.{IsClean, NoSlash, Yields, normalize_ios_path-Yields}
use emulator_ios_for_android.Vfs.Trim.{trim}
use emulator_ios_for_android.Vfs.Sandbox.{
  Sandbox, strip_prefix_dir, join_checked, translation_fault, trim_slashes, system_trees,
  translate_system, absolute_path, translate,
}

-- The text `/c₁/c₂/…` of components below a directory.
unfoldable pub below : List Text → Text
below [] = []
below (c ∷ cs) = slash ∷ (c ++ below cs)

-- A directory as the host writes it: not empty, and no separator at its end.
abbrev pub IsDirectory : Text → Type 0
IsDirectory base = needs_separator base ≡ true

append_assoc : (xs ys zs : Text) → (xs ++ ys) ++ zs ≡ xs ++ (ys ++ zs)
append_assoc [] ys zs = refl
append_assoc (x ∷ xs) ys zs = ap (λ t. x ∷ t) (append_assoc xs ys zs)

append_nil : (xs : Text) → xs ++ [] ≡ xs
append_nil [] = refl
append_nil (x ∷ xs) = ap (λ t. x ∷ t) (append_nil xs)

clean-relative : (c : Text) → IsClean c → is_absolute c ≡ false
unfolding is_absolute contains same
clean-relative [] h = refl
clean-relative (b ∷ c) (name, up, nul, n) = elim (Bool-cases (b == slash)) [
  | inl sep ↦ let bad = rw sep at n in cc
  | inr byte ↦ byte
]

needs_separator-append :
    (xs : Text) (y : ℕ) (ys : Text) → needs_separator (xs ++ (y ∷ ys)) ≡ needs_separator (y ∷ ys)
unfolding needs_separator
needs_separator-append [] y ys = refl
needs_separator-append (x ∷ []) y ys = refl
needs_separator-append (x ∷ (w ∷ xs)) y ys = needs_separator-append (w ∷ xs) y ys

NoSlash-IsDirectory : (b : ℕ) (c : Text) → NoSlash (b ∷ c) → IsDirectory (b ∷ c)
unfolding needs_separator contains
NoSlash-IsDirectory b [] n = elim (Bool-cases (b == slash)) [
  | inl sep ↦ let bad = rw sep at n in cc
  | inr byte ↦ rw byte refl
]
NoSlash-IsDirectory b (d ∷ c) n = elim (Bool-cases (b == slash)) [
  | inl sep ↦ let bad = rw sep at n in cc
  | inr byte ↦ NoSlash-IsDirectory d c (rw byte at n)
]

push-clean : (base c : Text) → IsDirectory base → IsClean c → push base c ≡ base ++ (slash ∷ c)
unfolding push
push-clean base c d h = rw (clean-relative c h, d) refl

slash_then : (b : ℕ) (c : Text) → NoSlash (b ∷ c) → needs_separator (slash ∷ (b ∷ c)) ≡ true
unfolding needs_separator
slash_then b c n = NoSlash-IsDirectory b c n

pushed-IsDirectory : (base c : Text) → IsClean c → IsDirectory (base ++ (slash ∷ c))
unfolding same
pushed-IsDirectory base [] h = let bad = h.0 in cc
pushed-IsDirectory base (b ∷ c) (name, up, nul, n) =
    rw (needs_separator-append base slash (b ∷ c)) (slash_then b c n)

push_all-below :
    (base : Text) (cs : List Text)
    → IsDirectory base
    → All IsClean cs
    → push_all base cs ≡ base ++ below cs
unfolding push_all below
push_all-below base [] d h = sym (append_nil base)
push_all-below base (c ∷ cs) d h = rw (push-clean base c d h.0) (
    push_all-below (base ++ (slash ∷ c)) cs (pushed-IsDirectory base c h.0) h.1
    ∙ append_assoc base (slash ∷ c) (below cs))

-- The host path names an entry below `base`, or `base` itself.
unfoldable pub IsWithin : Text → Text → Type 0
IsWithin base host = (cs : List Text) × All IsClean cs × (host ≡ base ++ below cs)

abbrev pub is_vfs : EmuError → Bool
is_vfs (vfs m) = true
is_vfs _ = false

-- A host path below one of the system trees.
unfoldable pub IsWithinSystem : Text → List Text → Text → Type 0
IsWithinSystem system_root [] host = ⊥
IsWithinSystem system_root (tree ∷ trees) host =
    IsWithin (push system_root (trim_slashes tree)) host ⊎ IsWithinSystem system_root trees host

-- Where a translation may end: below a base, or refused.
unfoldable pub Joins : Text → EmuResult Text → Type 0
Joins base (ok host) = IsWithin base host
Joins base (err e) = is_vfs e ≡ true

joined :
    (base : Text)
    → IsDirectory base
    → (r : Result TranslationError (List Text)) → Yields r
    → Joins base
        (elim r [ err e ↦ err (translation_fault e) | ok comps ↦ ok (push_all base comps) ])
unfolding Joins IsWithin translation_fault
joined base d (ok comps) y = (comps, y, push_all-below base comps d y)
joined base d (err escape) y = refl
joined base d (err malformed) y = refl

pub join_checked-Joins : (base rest : Text) → IsDirectory base → Joins base (join_checked base rest)
unfolding join_checked
join_checked-Joins base rest d =
    joined base d (normalize_ios_path rest) (normalize_ios_path-Yields rest)

-- Writable paths lie below the container, read-only ones below a system tree.
unfoldable pub Stays : Sandbox → List Text → EmuResult (Text × Bool) → Type 0
Stays sb trees (ok (host, false)) = IsWithin sb.host_root host
Stays sb trees (ok (host, true)) = IsWithinSystem sb.system_root trees host
Stays sb trees (err e) = is_vfs e ≡ true

writable :
    (sb : Sandbox) (trees : List Text) (r : EmuResult Text)
    → Joins sb.host_root r
    → Stays sb trees (r >>= λ host. ok (host, false))
unfolding Joins Stays
writable sb trees (ok host) h = h
writable sb trees (err e) h = h

read_only :
    (sb : Sandbox) (tree : Text) (trees : List Text) (r : EmuResult Text)
    → Joins (push sb.system_root (trim_slashes tree)) r
    → Stays sb (tree ∷ trees) (r >>= λ host. ok (host, true))
unfolding Joins Stays IsWithinSystem
read_only sb tree trees (ok host) h = inl h
read_only sb tree trees (err e) h = h

later :
    (sb : Sandbox) (tree : Text) (trees : List Text) (r : EmuResult (Text × Bool))
    → Stays sb trees r
    → Stays sb (tree ∷ trees) r
unfolding Stays IsWithinSystem
later sb tree trees (ok (host, false)) h = h
later sb tree trees (ok (host, true)) h = inr h
later sb tree trees (err e) h = h

-- A tree of the system image is a directory below the image's root.
abbrev IsTree : Text → Text → Type 0
IsTree system_root tree = IsDirectory (push system_root (trim_slashes tree))

translate_system-Stays :
    (sb : Sandbox) (absolute : Text) (trees : List Text)
    → All (IsTree sb.system_root) trees
    → Stays sb trees (translate_system sb.system_root absolute trees)
unfolding translate_system Stays
translate_system-Stays sb absolute [] d = refl
translate_system-Stays sb absolute (tree ∷ trees) (d, ds) =
    elim (Option-cases (strip_prefix_dir absolute tree)) [
      | inl e ↦
          rw (translate_system, e)
            (later sb tree trees _ (translate_system-Stays sb absolute trees ds))
      | inr (rest, e) ↦
          rw (translate_system, e)
            (read_only sb tree trees _
              (join_checked-Joins (push sb.system_root (trim_slashes tree)) rest d))
    ]

push-IsDirectory :
    (root : Text) (b : ℕ) (c : Text)
    → is_absolute (b ∷ c) ≡ false
    → IsDirectory (b ∷ c)
    → IsDirectory (push root (b ∷ c))
unfolding push needs_separator
push-IsDirectory root b c a d = elim (Bool-cases (needs_separator root)) [
  | inl sep ↦ rw (a, sep) (needs_separator-append root slash (b ∷ c) ∙ d)
  | inr bare ↦ rw (a, bare) (needs_separator-append root b c ∙ d)
]

trees-IsTree : (root : Text) → All (IsTree root) system_trees
unfolding trim_slashes is_absolute needs_separator
trees-IsTree root = (
  push-IsDirectory root _ _ refl refl,
  (
    push-IsDirectory root _ _ refl refl,
    (
      push-IsDirectory root _ _ refl refl,
      (push-IsDirectory root _ _ refl refl, (push-IsDirectory root _ _ refl refl, tt)),
    ),
  ),
)

-- Whatever path the guest names, the translation of a sandbox whose root is a directory gives a
-- writable path below the container, a read-only path below a tree of the system image, or an
-- error of the file system.
pub translate-Stays :
    (sb : Sandbox) (ios_path : Text)
    → IsDirectory sb.host_root
    → Stays sb system_trees (translate sb ios_path)
unfolding translate
translate-Stays sb ios_path d =
    elim (Option-cases (strip_prefix_dir (absolute_path sb (trim ios_path)) sb.ios_prefix)) [
      | inl e ↦
          rw (translate, e)
            (translate_system-Stays sb (absolute_path sb (trim ios_path)) system_trees
              (trees-IsTree sb.system_root))
      | inr (rest, e) ↦
          rw (translate, e) (writable sb system_trees _ (join_checked-Joins sb.host_root rest d))
    ]
