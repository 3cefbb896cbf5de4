-- ===== src/Ipa/DiscoveryLaws.antt =====
-- crates/ipa/src/discovery.rs: which bundle of an archive is chosen.
use emulator_ios_for_android.Base.{
  ℕ, ◌≤◌, ◌≡◌, refl, arith, Bool, true, false, Option, none, some, List, [], ◌∷◌, ltb, All, ◌⊎◌,
  inl, inr, if◌then◌else◌,
}
use emulator_ios_for_android.Common.Result.{EmuResult, ok, err, archive, ok_or}
use emulator_ios_for_android.Common.Utf8.{Text}
use emulator_ios_for_android.Ipa.Cursor.{either-way}
use emulator_ios_for_android.Ipa.Discovery.{depth, bundle_of, consider, best_dir, find_bundle_dir}

-- One of the names is that of the bundle's Info.plist.
pub data Offers (dir : Text) : List Text → Type 0 where
  here : {name : Text} {names : List Text} → bundle_of name ≡ some dir → Offers dir (name ∷ names)
  there : {name : Text} {names : List Text} → Offers dir names → Offers dir (name ∷ names)

-- A bundle, if there is one, that is no shallower than `k`.
abbrev pub AtLeast : ℕ → Option Text → Type 0
AtLeast k none = Unit
AtLeast k (some dir) = k ≤ depth dir

-- A bundle of the archive than which none is shallower, or an error if there is none.
pub data IsShallowest (names : List Text) : EmuResult Text → Type 0 where
  shallowest :
      {dir : Text}
      → Offers dir names
      → All (λ name. AtLeast (depth dir) (bundle_of name)) names
      → IsShallowest names (ok dir)
  missing :
      All (λ name. bundle_of name ≡ none) names
      → IsShallowest names (err (archive "no Payload/*.app/Info.plist found"))

-- What the loop gives that starts with a best bundle so far.
data Best (so_far : Option Text) (names : List Text) : Option Text → Type 0 where
  nothing : so_far ≡ none → All (λ name. bundle_of name ≡ none) names → Best so_far names none
  best :
      {dir : Text}
      → (so_far ≡ some dir) ⊎ Offers dir names
      → AtLeast (depth dir) so_far
      → All (λ name. AtLeast (depth dir) (bundle_of name)) names
      → Best so_far names (some dir)

consider-from :
    (so_far found : Option Text) (dir : Text)
    → consider so_far found ≡ some dir
    → (so_far ≡ some dir) ⊎ (found ≡ some dir)
unfolding consider
consider-from so_far none dir e = inl e
consider-from none (some d) dir e = inr e
consider-from (some b) (some d) dir e =
    either-way (ltb (depth d) (depth b)) (λ c h. inr h) (λ c h. inl h) e

consider-none :
    (so_far found : Option Text) → consider so_far found ≡ none → (so_far ≡ none) × (found ≡ none)
unfolding consider
consider-none so_far none e = (e, refl)
consider-none none (some d) e = cc
consider-none (some b) (some d) e = either-way (ltb (depth d) (depth b)) (λ c h. cc) (λ c h. cc) e

if-least :
    (c : Bool) (k : ℕ) (b d : Text)
    → ltb (depth d) (depth b) ≡ c
    → AtLeast k (if c then some d else some b)
    → AtLeast k (some b) × AtLeast k (some d)
if-least true k b d e h = ground arith
if-least false k b d e h = ground arith

consider-least :
    (k : ℕ) (so_far found : Option Text)
    → AtLeast k (consider so_far found)
    → AtLeast k so_far × AtLeast k found
unfolding consider
consider-least k so_far none h = (h, tt)
consider-least k none (some d) h = (tt, h)
consider-least k (some b) (some d) h = if-least _ k b d refl h

step-Best :
    (so_far : Option Text) (name : Text) (names : List Text) (r : Option Text)
    → Best (consider so_far (bundle_of name)) names r
    → Best so_far (name ∷ names) r
step-Best so_far name names none (nothing e none_of) =
    let both = consider-none so_far (bundle_of name) e in nothing both.0 (both.1, none_of)
step-Best so_far name names (some dir) (best from least all_least) =
    let both = consider-least (depth dir) so_far (bundle_of name) least in
    best (origin from) both.0 (both.1, all_least)
  where
    origin :
        (consider so_far (bundle_of name) ≡ some dir) ⊎ Offers dir names
        → (so_far ≡ some dir) ⊎ Offers dir (name ∷ names)
    origin (inr offers) = inr (there offers)
    origin (inl e) = elim (consider-from so_far (bundle_of name) dir e) [
      | inl same ↦ inl same
      | inr own ↦ inr (here own)
    ]

best_dir-Best :
    (so_far : Option Text) (names : List Text) → Best so_far names (best_dir so_far names)
unfolding best_dir
best_dir-Best none [] = nothing refl tt
best_dir-Best (some b) [] = best (inl refl) (omega arith) tt
best_dir-Best so_far (name ∷ names) =
    step-Best so_far name names _ (best_dir-Best (consider so_far (bundle_of name)) names)

-- A bundle is a directory `*.app` at any depth below `Payload/` with an Info.plist. Of the names of an
-- archive, find_bundle_dir takes a bundle that one of them offers and than which none is
-- shallower, and it fails only if none of them is the Info.plist of a bundle.
pub find_bundle_dir-IsShallowest : (names : List Text) → IsShallowest names (find_bundle_dir names)
unfolding find_bundle_dir
find_bundle_dir-IsShallowest names = chosen (best_dir none names) (best_dir-Best none names)
  where
    chosen :
        (r : Option Text)
        → Best none names r
        → IsShallowest names (ok_or r (archive "no Payload/*.app/Info.plist found"))
    chosen none (nothing e none_of) = missing none_of
    chosen (some dir) (best (inr offers) least all_least) = shallowest offers all_least
    chosen (some dir) (best (inl e) least all_least) = cc
