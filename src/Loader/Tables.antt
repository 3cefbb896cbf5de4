-- ===== src/Loader/Tables.antt =====
-- crates/core/src/loader.rs: the table of the symbols and the table of the trampolines, looked up as
-- the hash maps are: an entry behind a newer one of the same key does not count.
use mathlib.Core.Path.{subst}
use emulator_ios_for_android.Base.{
  sym, ◌∙◌, arith, ℕ, ◌≡◌, refl, Bool, true, false, Option, none, some, List, [], ◌∷◌, inl, inr,
  Option-cases, Bool-cases, All, ◌==◌,
}
use emulator_ios_for_android.Common.Utf8.{Text}
use emulator_ios_for_android.Dyld.Linker.{
  same_name, find_forward, find_reverse, StubResolver, resolve,
}
use emulator_ios_for_android.Dyld.LinkerLaws.{swapped, same_name_refl, same_name→≡}

-- Looking up the name of an entry gives its address.
abbrev pub Owns : List (Text × ℕ) → List (Text × ℕ) → Type 0
Owns stubs entries = All (λ (s, a). find_forward stubs s ≡ some a) entries

-- No name has two entries.
abbrev pub IsOwned : StubResolver → Type 0
IsOwned r = Owns r.forward r.forward

some≢none : (a : ℕ) → ◌≡◌ {A = Option ℕ} (some a) none → ⊥
some≢none a e = cc

Owns-more :
    (symbol : Text) (next : ℕ) (stubs entries : List (Text × ℕ))
    → find_forward stubs symbol ≡ none
    → Owns stubs entries
    → Owns ((symbol, next) ∷ stubs) entries
unfolding find_forward
Owns-more symbol next stubs [] fresh h = tt
Owns-more symbol next stubs ((s, a) ∷ more) fresh (h, k) =
    let rest = Owns-more symbol next stubs more fresh k in
    elim (Bool-cases (same_name symbol s)) [
      | inr differ ↦ (rw differ h, rest)
      | inl same ↦
          let e : symbol ≡ s = same_name→≡ symbol s same in
          let unknown : find_forward stubs s ≡ none =
            subst (λ n. find_forward stubs n ≡ none) e fresh in
          absurd (some≢none a (sym h ∙ unknown))
    ]

pub resolve-IsOwned : (symbol : Text) (r : StubResolver) → IsOwned r → IsOwned (resolve symbol r).1
unfolding resolve find_forward
resolve-IsOwned symbol r h = elim (Option-cases (find_forward r.forward symbol)) [
  | inr (a, e) ↦ rw (e, resolve) h
  | inl e ↦
      rw (e, resolve)
        (rw (same_name_refl symbol) refl, Owns-more symbol r.next r.forward r.forward e h)
]

abbrev pub is_named : Option Text → Bool
is_named none = false
is_named (some s) = true

-- The addresses of the symbols are those that the table of trampolines has a symbol for, and that
-- symbol has the address.
abbrev pub Agree : List (Text × ℕ) → List (ℕ × Text) → Type 0
Agree stubs trampolines =
    All (λ (s, a). (find_forward stubs s ≡ some a) × (is_named (find_reverse trampolines a) ≡ true))
      stubs
    × All (λ (a, s). find_forward stubs s ≡ some a) trampolines

back :
    (stubs entries : List (Text × ℕ))
    → Owns stubs entries
    → All (λ (a, s). find_forward stubs s ≡ some a) (swapped entries)
unfolding swapped
back stubs [] h = tt
back stubs ((s, a) ∷ more) (h, k) = (h, back stubs more k)

named_more :
    (b a : ℕ) (s : Text) (t : List (ℕ × Text))
    → is_named (find_reverse t a) ≡ true
    → is_named (find_reverse ((b, s) ∷ t) a) ≡ true
unfolding find_reverse
named_more b a s t h = elim (Bool-cases (b == a)) [ inl e ↦ rw e refl | inr e ↦ rw e h ]

at_front : (a : ℕ) (s : Text) (t : List (ℕ × Text)) → is_named (find_reverse ((a, s) ∷ t) a) ≡ true
unfolding find_reverse
at_front a s t = ground arith

-- Every entry of a suffix is named in the whole, for the entries in front do not hide an address.
abbrev Extends : List (ℕ × Text) → List (ℕ × Text) → Type 0
Extends t u = (a : ℕ) → is_named (find_reverse t a) ≡ true → is_named (find_reverse u a) ≡ true

forth :
    (stubs entries : List (Text × ℕ)) (u : List (ℕ × Text))
    → Owns stubs entries
    → Extends (swapped entries) u
    → All (λ (s, a). (find_forward stubs s ≡ some a) × (is_named (find_reverse u a) ≡ true)) entries
unfolding swapped find_reverse
forth stubs [] u h ext = tt
forth stubs ((s, a) ∷ more) u (h, k) ext = (
  (h, ext a (at_front a s (swapped more))),
  forth stubs more u k (λ b e. ext b (named_more a b s (swapped more) e)),
)

pub owned-Agree : (stubs : List (Text × ℕ)) → Owns stubs stubs → Agree stubs (swapped stubs)
owned-Agree stubs h = (forth stubs stubs (swapped stubs) h (λ a e. e), back stubs stubs h)
