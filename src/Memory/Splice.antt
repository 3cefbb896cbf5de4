-- ===== src/Memory/Splice.antt =====
-- A part of a buffer read or overwritten, index by index.
use emulator_ios_for_android.Base.{
  ℕ, ◌+◌, ◌-◌, ◌≤◌, ◌<◌, ◌≡◌, refl, arith, ◌&&◌, List, [], ◌∷◌, length, ltb, leb, if◌then◌else◌,
  get_elem?, ◌++◌, take, drop, length-append, length-take, length-drop, get_elem?-take,
  get_elem?-drop, get_elem?-append_left, get_elem?-append_right, ap, ◌∙◌,
}

-- The part of a list from `off` on, `len` long.
abbrev pub part {ℓ} : {A : Type ℓ} → ℕ → ℕ → List A → List A
part off len xs = take len (drop off xs)

-- The list with `src` written over it from `off` on.
abbrev pub splice {ℓ} : {A : Type ℓ} → ℕ → List A → List A → List A
splice off src xs = take off xs ++ (src ++ drop (off + length src) xs)

module _ {A : Type 0} where
  pub length-part :
      (off len : ℕ) (xs : List A) → off + len ≤ length xs → length (part off len xs) ≡ len
  length-part off len xs h = omega (arith, length-take len (drop off xs), length-drop off xs)

  pub get_elem?-part :
      (off len i : ℕ) (xs : List A)
      → i < len
      → get_elem? (part off len xs) i ≡ get_elem? xs (off + i)
  get_elem?-part off len i xs h = get_elem?-take len i (drop off xs) h ∙ get_elem?-drop off i xs

  pub length-splice :
      (off : ℕ) (src xs : List A)
      → off + length src ≤ length xs
      → length (splice off src xs) ≡ length xs
  length-splice off src xs h = omega (
    arith,
    length-append (take off xs) (src ++ drop (off + length src) xs),
    length-append src (drop (off + length src) xs),
    length-take off xs,
    length-drop (off + length src) xs,
  )

  take-append_self : (xs ys : List A) → take (length xs) (xs ++ ys) ≡ xs
  take-append_self [] ys = refl
  take-append_self (x ∷ xs) ys = ap (λ zs. x ∷ zs) (take-append_self xs ys)

  drop-append_self : (xs ys : List A) → drop (length xs) (xs ++ ys) ≡ ys
  drop-append_self [] ys = refl
  drop-append_self (x ∷ xs) ys = drop-append_self xs ys

  -- What was written is read back.
  pub part-splice :
      (off : ℕ) (src xs : List A)
      → off + length src ≤ length xs
      → part off (length src) (splice off src xs) ≡ src
  part-splice off src xs h =
      let front : length (take off xs) ≡ off = omega (arith, length-take off xs) in
      let back = src ++ drop (off + length src) xs in
      let dropped : drop off (take off xs ++ back) ≡ back =
        rw front at (drop-append_self (take off xs) back) in
      ap (take (length src)) dropped ∙ take-append_self src (drop (off + length src) xs)

  module _ (off : ℕ) (src xs : List A) (i : ℕ) (fits : off + length src ≤ length xs) where
    abbrev back : List A
    back = src ++ drop (off + length src) xs

    front_length : length (take off xs) ≡ off
    front_length = omega (arith, length-take off xs)

    splice_before : i < off → get_elem? (splice off src xs) i ≡ get_elem? xs i
    splice_before lt =
        get_elem?-append_left (take off xs) back i (omega (arith, front_length))
        ∙ get_elem?-take off i xs lt

    splice_from : off ≤ i → get_elem? (splice off src xs) i ≡ get_elem? back (i - off)
    splice_from le =
        let at : i ≡ length (take off xs) + (i - off) = omega (arith, front_length) in
        ap (get_elem? (splice off src xs)) at ∙ get_elem?-append_right (take off xs) back (i - off)

    splice_after : off + length src ≤ i → get_elem? (splice off src xs) i ≡ get_elem? xs i
    splice_after le =
        let at : i - off ≡ length src + (i - off - length src) = omega arith in
        let to : off + length src + (i - off - length src) ≡ i = omega arith in
        splice_from (omega arith)
        ∙ ap (get_elem? back) at
        ∙ get_elem?-append_right src (drop (off + length src) xs) (i - off - length src)
        ∙ get_elem?-drop (off + length src) (i - off - length src) xs
        ∙ ap (get_elem? xs) to

    splice_inside :
        off ≤ i → i < off + length src → get_elem? (splice off src xs) i ≡ get_elem? src (i - off)
    splice_inside le lt =
        splice_from le
        ∙ get_elem?-append_left src (drop (off + length src) xs) (i - off) (omega arith)

    -- Inside the written span stand the new elements, outside it the old ones.
    pub get_elem?-splice : get_elem? (splice off src xs) i ≡ (
        if leb off i && ltb i (off + length src) then get_elem? src (i - off) else get_elem? xs i)
    get_elem?-splice = ground (arith, splice_before, splice_inside, splice_after)
