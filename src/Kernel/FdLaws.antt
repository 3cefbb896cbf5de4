-- ===== src/Kernel/FdLaws.antt =====
-- crates/core/src/fd.rs: the lowest free descriptor is handed out, and closing frees one.
use emulator_ios_for_android.Base.{
  ℕ, zero, suc, ◌+◌, ◌≤◌, ◌<◌, ◌≡◌, refl, arith, true, false, ◌||◌, List, [], ◌∷◌, none, some, ◌==◌,
  leb, if◌then◌else◌, Bool-cases, inl, inr, ==_iff,
}
use emulator_ios_for_android.Kernel.Fd.{
  FdObject, FdTable, get, contains_key, remove, bound, first_free, insert, contains, close,
}

module _ {F D : Type 0} where
  above-bound :
      (slots : List (ℕ × FdObject F D)) (fd : ℕ) → bound slots ≤ fd → contains_key slots fd ≡ false
  unfolding bound contains_key
  above-bound [] fd h = refl
  above-bound ((k, obj) ∷ slots) fd h =
      let other : (k == fd) ≡ false = ground arith in rw other (above-bound slots fd (omega arith))

  -- What the search promises: a free descriptor, with none free between `from` and it.
  abbrev IsLowest : List (ℕ × FdObject F D) → ℕ → ℕ → Type 0
  IsLowest slots from fd =
      (from ≤ fd)
      × (contains_key slots fd ≡ false)
      × ((k : ℕ) → from ≤ k → k < fd → contains_key slots k ≡ true)

  first_free-IsLowest :
      (fuel from : ℕ) (slots : List (ℕ × FdObject F D))
      → bound slots ≤ from + fuel
      → IsLowest slots from (first_free fuel from slots)
  unfolding first_free
  first_free-IsLowest zero from slots h =
      (omega arith, above-bound slots from (omega arith), λ k a b. absurd (omega arith))
  first_free-IsLowest (suc fuel) from slots h = elim (Bool-cases (contains_key slots from)) [
    | inl taken ↦
        let (above, free, full) = first_free-IsLowest fuel (suc from) slots (omega arith) in
        rw taken (
          omega (arith, above),
          free,
          λ k a b. elim (Bool-cases (k == from)) [
            | inl same ↦ let e : k ≡ from = (==_iff k from).0 same in rw e taken
            | inr other ↦ full k (ground arith) b
          ],
        )
    | inr open_ ↦ rw open_ (omega arith, open_, λ k a b. absurd (omega arith))
  ]

  -- A new object takes the lowest free descriptor from 3 on: it was free, and every `k` from 3 on
  -- was in use or is not below it. The object is found there, and every other descriptor refers
  -- to what it did.
  pub insert-lowest :
      (obj : FdObject F D) (t : FdTable F D) (k : ℕ)
      → 3 ≤ k
      → (contains t (insert obj t).0 ≡ false)
        × (3 ≤ (insert obj t).0)
        × ((contains t k || leb (insert obj t).0 k) ≡ true)
        × (get (insert obj t).1.slots k
            ≡ (if (insert obj t).0 == k then some obj else get t.slots k))
  unfolding insert get contains
  insert-lowest obj t k h =
      let fd = first_free (bound t.slots) 3 t.slots in
      let (above, free, full) = first_free-IsLowest (bound t.slots) 3 t.slots (omega arith) in
      (free, above, ground (arith, full k h), refl)

  remove-gone :
      (slots : List (ℕ × FdObject F D)) (fd : ℕ) → contains_key (remove slots fd) fd ≡ false
  unfolding remove contains_key
  remove-gone [] fd = refl
  remove-gone ((k, obj) ∷ slots) fd = elim (Bool-cases (k == fd)) [
    | inl hit ↦ rw hit (remove-gone slots fd)
    | inr miss ↦ rw (miss, miss) (remove-gone slots fd)
  ]

  remove-get :
      (slots : List (ℕ × FdObject F D)) (fd k : ℕ)
      → get (remove slots fd) k ≡ (if fd == k then none else get slots k)
  unfolding remove get
  remove-get [] fd k = ground arith
  remove-get ((j, obj) ∷ slots) fd k = elim (Bool-cases (j == fd)) [
    | inl hit ↦
        let e : j ≡ fd = (==_iff j fd).0 hit in
        rw (hit, remove-get slots fd k, e)
          (elim (Bool-cases (fd == k)) [ inl here ↦ rw here refl | inr there ↦ rw there refl ])
    | inr keep ↦ elim (Bool-cases (j == k)) [
      | inl here ↦ let miss : (fd == k) ≡ false = ground arith in rw (keep, get, here, miss) refl
      | inr there ↦ rw (keep, get, there) (remove-get slots fd k)
    ]
  ]

  -- Closing a descriptor other than the standard streams reports whether it was open, leaves it
  -- closed, and leaves what every other descriptor refers to as it was.
  pub close-get :
      (fd : ℕ) (t : FdTable F D) (k : ℕ)
      → 2 < fd
      → ((close fd t).0 ≡ contains t fd)
        × (contains (close fd t).1 fd ≡ false)
        × (get (close fd t).1.slots k ≡ (if fd == k then none else get t.slots k))
  unfolding close contains
  close-get fd t k high =
      let above : leb fd 2 ≡ false = ground arith in
      rw above (refl, remove-gone t.slots fd, remove-get t.slots fd k)
