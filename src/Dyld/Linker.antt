-- ===== src/Dyld/Linker.antt =====
-- crates/loader/src/dyld/linker.rs: the trampoline that each imported symbol is bound to. The two
-- hash maps are association lists with the newest entry in front: an insert under a key that is there
-- hides the old entry, which counts as overwritten. Sums are those of a build without overflow checks.
use emulator_ios_for_android.Base.{
  ℕ, Bool, true, false, List, [], ◌∷◌, Option, none, some, ◌==◌, if◌then◌else◌, ◌&&◌,
}
use emulator_ios_for_android.Common.Addr.{wrapping_add, wrapping_sub}
use emulator_ios_for_android.Common.Utf8.{Text}

-- Equality of two names, byte by byte.
unfoldable pub same_name : Text → Text → Bool
same_name [] [] = true
same_name [] (b ∷ bs) = false
same_name (a ∷ more) [] = false
same_name (a ∷ more) (b ∷ bs) = (a == b) && same_name more bs

unfoldable pub find_forward : List (Text × ℕ) → Text → Option ℕ
find_forward [] symbol = none
find_forward ((name, addr) ∷ rest) symbol =
    if same_name name symbol then some addr else find_forward rest symbol

unfoldable pub find_reverse : List (ℕ × Text) → ℕ → Option Text
find_reverse [] key = none
find_reverse ((addr, name) ∷ rest) key = if addr == key then some name else find_reverse rest key

pub record StubResolver : Type 0 where
  pub base : ℕ
  pub stride : ℕ
  pub next : ℕ
  pub forward : List (Text × ℕ)
  pub reverse : List (ℕ × Text)

unfoldable pub new_resolver : ℕ → ℕ → StubResolver
new_resolver base stride = record {
  base = base;
  stride = stride;
  next = base;
  forward = [];
  reverse = [];
}

unfoldable pub used : StubResolver → ℕ
unfolding wrapping_sub
used r = wrapping_sub r.next r.base

-- `resolve`: the address known for the symbol, or a new one.
unfoldable pub resolve : Text → StubResolver → Option ℕ × StubResolver
unfolding find_forward wrapping_add
resolve symbol r = elim (find_forward r.forward symbol) [
  | some addr ↦ (some addr, r)
  | none ↦ (
    some r.next,
    record r {
      next = wrapping_add r.next r.stride;
      forward = (symbol, r.next) ∷ r.forward;
      reverse = (r.next, symbol) ∷ r.reverse;
    },
  )
]
