-- ===== src/Ipa/Cursor.antt =====
-- crates/ipa/src/plist.rs, module `xml`: how much `find` and `advance_past` leave.
use emulator_ios_for_android.Base.{
  ℕ, ◌+◌, ◌≤◌, ◌<◌, ◌≡◌, refl, arith, Bool, true, false, Option, none, some, List, [], ◌∷◌, length,
  length-drop, if◌then◌else◌,
}
use emulator_ios_for_android.Ipa.Scan.{starts_with, find, advance_past, starts_with-le}

later-le :
    (b k n : ℕ) (later : Option (List ℕ × List ℕ))
    → ((before behind : List ℕ) → later ≡ some (before, behind) → length behind + k ≤ n)
    → (before behind : List ℕ)
    → ◌≡◌ {A = Option (List ℕ × List ℕ)}
        (elim later [ none ↦ none | some (before, behind) ↦ some (b ∷ before, behind) ])
        (some (before, behind))
    → length behind + k ≤ n
later-le b k n none h before behind e = cc
later-le b k n (some (x, y)) h before behind e = ground (arith, h x y refl)

pub either-way :
    {A : Type 0} {Q : Type 0} (c : Bool) {x y z : A}
    → (c ≡ true → x ≡ z → Q)
    → (c ≡ false → y ≡ z → Q)
    → (if c then x else y) ≡ z
    → Q
either-way true h k e = h refl e
either-way false h k e = k refl e

pub find-le :
    (s needle before behind : List ℕ)
    → find s needle ≡ some (before, behind)
    → length behind + length needle ≤ length s
unfolding find
find-le [] needle before behind h = cc
find-le (b ∷ bs) needle before behind h =
    let inside : length behind + length needle ≤ length (b ∷ bs) =
      either-way (starts_with (b ∷ bs) needle)
        (λ hit e.
          ground (arith, length-drop (length needle) (b ∷ bs), starts_with-le (b ∷ bs) needle hit))
        (λ miss e. omega (
          arith,
          later-le b (length needle) (length bs) (find bs needle) (find-le bs needle) before behind
              e,
        ))
        h in
    inside

pub advance_past-less :
    (s : List ℕ) (b : ℕ) (needle : List ℕ)
    → 0 < length s
    → length (advance_past s (b ∷ needle)) < length s
unfolding advance_past
advance_past-less s b needle h = rest-less (find s (b ∷ needle)) (find-le s (b ∷ needle))
  where
    rest-less :
        (o : Option (List ℕ × List ℕ))
        → ((before behind : List ℕ)
            → o ≡ some (before, behind)
            → length behind + length (b ∷ needle) ≤ length s)
        → length (elim o [ none ↦ [] | some (before, behind) ↦ behind ]) < length s
    rest-less none k = h
    rest-less (some (before, behind)) k = omega (arith, k before behind refl)
