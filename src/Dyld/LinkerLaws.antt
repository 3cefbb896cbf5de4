-- ===== src/Dyld/LinkerLaws.antt =====
-- crates/loader/src/dyld/linker.rs: trampolines are unique and stable, and the table of the
-- executor undoes the resolution.
use emulator_ios_for_android.Base.{
  ℕ, ◌+◌, ◌*◌, ◌<◌, ◌≡◌, refl, arith, true, false, List, [], ◌∷◌, length, none, some, ◌==◌,
  if◌then◌else◌, ==_iff, Bool-cases, Option-cases, inl, inr, ap,
}
use emulator_ios_for_android.Common.Addr.{u64_mod, wrapping_add, wrapping_sub, wrapping_add_small}
use emulator_ios_for_android.Common.Utf8.{Text}
use emulator_ios_for_android.Dyld.Linker.{
  same_name, find_forward, find_reverse, StubResolver, new_resolver, used, resolve,
}

pub same_name_refl : (a : Text) → same_name a a ≡ true
unfolding same_name
same_name_refl [] = refl
same_name_refl (x ∷ a) = ground (arith, same_name_refl a)

pub same_name→≡ : (a b : Text) → same_name a b ≡ true → a ≡ b
unfolding same_name
same_name→≡ [] [] h = refl
same_name→≡ [] (y ∷ b) h = cc
same_name→≡ (x ∷ a) [] h = cc
same_name→≡ (x ∷ a) (y ∷ b) h = ground (arith, same_name→≡ a b)

unfoldable pub swapped : List (Text × ℕ) → List (ℕ × Text)
swapped [] = []
swapped ((s, a) ∷ rest) = (a, s) ∷ swapped rest

-- The entries of the forward map, newest first: each address is `stride` above the one before,
-- and no name occurs twice.
abbrev Assigned : ℕ → ℕ → List (Text × ℕ) → Type 0
Assigned base stride [] = Unit
Assigned base stride ((s, a) ∷ rest) =
    (a ≡ base + length rest * stride) × (find_forward rest s ≡ none) × Assigned base stride rest

-- What holds of a resolver between calls.
unfoldable pub IsLinked : StubResolver → Type 0
unfolding swapped
IsLinked r =
    (0 < r.stride)
    × (r.next ≡ r.base + length r.forward * r.stride)
    × (r.next < u64_mod)
    × (r.reverse ≡ swapped r.forward)
    × Assigned r.base r.stride r.forward

found-below :
    (base stride : ℕ) (f : List (Text × ℕ)) (s : Text) (a : ℕ)
    → 0 < stride
    → Assigned base stride f
    → find_forward f s ≡ some a
    → a < base + length f * stride
unfolding find_forward
found-below base stride [] s a p h e = cc
found-below base stride ((t, b) ∷ f) s a p h e = elim (Bool-cases (same_name t s)) [
  | inl same ↦ let here = rw same at e in let addr : a ≡ b = cc in omega (arith, addr, h.0)
  | inr differ ↦ omega (arith, found-below base stride f s a p h.2 (rw differ at e))
]

found-reverse :
    (base stride : ℕ) (f : List (Text × ℕ)) (s : Text) (a : ℕ)
    → 0 < stride
    → Assigned base stride f
    → find_forward f s ≡ some a
    → find_reverse (swapped f) a ≡ some s
unfolding find_forward find_reverse swapped
found-reverse base stride [] s a p h e = cc
found-reverse base stride ((t, b) ∷ f) s a p h e = elim (Bool-cases (same_name t s)) [
  | inl same ↦
      let here = rw same at e in
      let addr : b ≡ a = cc in
      let name = same_name→≡ t s same in
      let hit : (b == a) ≡ true = (==_iff b a).1 addr in rw hit (ap (λ x. some x) name)
  | inr differ ↦
      let deeper = rw differ at e in
      let below = found-below base stride f s a p h.2 deeper in
      let other : (b == a) ≡ false = ground (arith, h.0) in
      rw other (found-reverse base stride f s a p h.2 deeper)
]

-- In a linked resolver, two names with the same trampoline are the same.
pub found-injective :
    (r : StubResolver) (s t : Text) (a : ℕ)
    → IsLinked r
    → find_forward r.forward s ≡ some a
    → find_forward r.forward t ≡ some a
    → s ≡ t
unfolding IsLinked
found-injective r s t a h p q =
    let l = found-reverse r.base r.stride r.forward s a h.0 h.4 p in
    let m = found-reverse r.base r.stride r.forward t a h.0 h.4 q in cc

resolve-known :
    (symbol : Text) (r : StubResolver) (a : ℕ)
    → find_forward r.forward symbol ≡ some a
    → resolve symbol r ≡ (some a, r)
unfolding resolve
resolve-known symbol r a e = rw (resolve, e) refl

extended : Text → StubResolver → StubResolver
unfolding wrapping_add
extended symbol r = record r {
  next = wrapping_add r.next r.stride;
  forward = (symbol, r.next) ∷ r.forward;
  reverse = (r.next, symbol) ∷ r.reverse;
}

resolve-new :
    (symbol : Text) (r : StubResolver)
    → find_forward r.forward symbol ≡ none
    → resolve symbol r ≡ (some r.next, extended symbol r)
unfolding resolve extended
resolve-new symbol r e = rw (resolve, e) refl

extended-IsLinked :
    (symbol : Text) (r : StubResolver)
    → IsLinked r
    → r.next + r.stride < u64_mod
    → find_forward r.forward symbol ≡ none
    → IsLinked (extended symbol r)
unfolding IsLinked extended swapped
extended-IsLinked symbol r (p, n, b, v, g) room e =
    let sum = wrapping_add_small r.next r.stride room in
    (p, omega (arith, sum, n), omega (arith, sum), ap (λ t. (r.next, symbol) ∷ t) v, (n, e, g))

-- Resolving leaves a resolver linked, while the address space has room for one more stride.
pub resolve-IsLinked :
    (symbol : Text) (r : StubResolver)
    → IsLinked r
    → r.next + r.stride < u64_mod
    → IsLinked (resolve symbol r).1
resolve-IsLinked symbol r h room = elim (Option-cases (find_forward r.forward symbol)) [
  | inl e ↦ rw (resolve-new symbol r e) (extended-IsLinked symbol r h room e)
  | inr (a, e) ↦ rw (resolve-known symbol r a e) h
]

-- A new resolver is linked.
pub new_resolver-IsLinked :
    (base stride : ℕ) → base < u64_mod → 0 < stride → IsLinked (new_resolver base stride)
unfolding IsLinked new_resolver swapped
new_resolver-IsLinked base stride h p = (p, omega arith, h, refl, tt)

-- The table of a linked resolver takes each trampoline back to its symbol.
pub table_entry :
    (r : StubResolver) (s : Text) (a : ℕ)
    → IsLinked r
    → find_forward r.forward s ≡ some a
    → find_reverse r.reverse a ≡ some s
unfolding IsLinked
table_entry r s a (p, n, b, v, g) e = rw v (found-reverse r.base r.stride r.forward s a p g e)

-- The bytes handed out are a stride for each symbol.
pub used-IsLinked : (r : StubResolver) → IsLinked r → used r ≡ length r.forward * r.stride
unfolding IsLinked used wrapping_sub
used-IsLinked r (p, n, b, v, g) = omega (arith, n, b)

extended-find :
    (symbol : Text) (r : StubResolver) (t : Text)
    → find_forward (extended symbol r).forward t
      ≡ (if same_name symbol t then some r.next else find_forward r.forward t)
unfolding extended find_forward
extended-find symbol r t = refl

known-find :
    (symbol : Text) (r : StubResolver) (a : ℕ) (t : Text)
    → find_forward r.forward symbol ≡ some a
    → find_forward r.forward t ≡ (if same_name symbol t then some a else find_forward r.forward t)
known-find symbol r a t e = elim (Bool-cases (same_name symbol t)) [
  | inl same ↦ rw (same, ← same_name→≡ symbol t same) e
  | inr differ ↦ rw differ refl
]

finds_new :
    (symbol : Text) (r : StubResolver)
    → find_forward (extended symbol r).forward symbol ≡ some r.next
unfolding extended find_forward
finds_new symbol r = rw (same_name_refl symbol) refl

-- In a linked resolver with room for one more stride, every symbol resolves to an address: the
-- table takes that address back to the symbol, resolving the symbol again gives the same address
-- and changes nothing, and every other name `t` keeps its address or its lack of one.
pub resolve-stable :
    (symbol : Text) (r : StubResolver) (t : Text)
    → IsLinked r
    → r.next + r.stride < u64_mod
    → (a : ℕ) × ((resolve symbol r).0 ≡ some a)
      × (find_reverse (resolve symbol r).1.reverse a ≡ some symbol)
      × (resolve symbol (resolve symbol r).1 ≡ (some a, (resolve symbol r).1))
      × (find_forward (resolve symbol r).1.forward t
          ≡ (if same_name symbol t then some a else find_forward r.forward t))
resolve-stable symbol r t h room = elim (Option-cases (find_forward r.forward symbol)) [
  | inl e ↦
      let linked = extended-IsLinked symbol r h room e in
      rw (resolve-new symbol r e) (
        r.next,
        refl,
        table_entry (extended symbol r) symbol r.next linked (finds_new symbol r),
        resolve-known symbol (extended symbol r) r.next (finds_new symbol r),
        extended-find symbol r t,
      )
  | inr (a, e) ↦
      rw (resolve-known symbol r a e)
        (a, refl, table_entry r symbol a h e, resolve-known symbol r a e, known-find symbol r a t e)
]
