-- ===== src/Loader/Slide.antt =====
-- crates/core/src/loader.rs: the entry point moves with the slide, and the span that is reserved
-- covers every segment.
use emulator_ios_for_android.Base.{
  ℕ, ◌+◌, ◌-◌, ◌%◌, ◌≤◌, ◌<◌, ◌≡◌, refl, ap, arith, max, false, Option, none, some, List, [], ◌∷◌,
  All, lt→ltb, if◌then◌else◌, inl, inr, Bool-cases,
}
use emulator_ios_for_android.Common.Result.{EmuResult, mach_o, ok, err, ◌>>=◌}
use emulator_ios_for_android.Common.Addr.{GuestAddr, IsU64, u64_mod, wrapping_add}
use emulator_ios_for_android.Common.Align.{page_size, align_up}
use emulator_ios_for_android.Memory.Mapping.{IsRoundable, page_ceil}
use emulator_ios_for_android.Dyld.Linker.{same_name}
use emulator_ios_for_android.Macho.Image.{
  Segment, EntryPoint, main, thread, MachOImage, text_vmaddr,
}
use emulator_ios_for_android.Loader.Layout.{
  pagezero, saturating_add, highest, image_span, resolve_entry,
}

slid_entry :
    (o : Option EntryPoint) (text slide more : ℕ)
    → IsU64 slide
    → IsU64 more
    → let at : ℕ → EmuResult GuestAddr = λ s. elim o [
      | none ↦ err (mach_o "image has no entry point")
      | some (main file_offset stack_size) ↦ ok (wrapping_add (wrapping_add text s) file_offset)
      | some (thread vmaddr) ↦ ok (wrapping_add vmaddr s)
    ] in
      at (wrapping_add slide more) ≡ (at slide >>= λ a. ok (wrapping_add a more))
unfolding wrapping_add
slid_entry none text slide more h k = refl
slid_entry (some (main o s)) text slide more h k = ap ok (omega arith)
slid_entry (some (thread a)) text slide more h k = ap ok (omega arith)

-- Sliding an image further by some distance moves its entry point by that distance, modulo the
-- address space, however the entry point is given; an image without one has none at any slide.
pub resolve_entry-slides :
    (img : MachOImage) (slide more : ℕ)
    → IsU64 slide
    → IsU64 more
    → resolve_entry img (wrapping_add slide more)
      ≡ (resolve_entry img slide >>= λ a. ok (wrapping_add a more))
unfolding resolve_entry
resolve_entry-slides img slide more h k = slid_entry img.entry (text_vmaddr img) slide more h k

-- A segment that is not the guard ends at or below a bound.
abbrev pub EndsBelow : ℕ → Segment → Type 0
EndsBelow high s = same_name s.name pagezero ≡ false → s.vmaddr + s.vmsize ≤ high

highest-ge : (ss : List Segment) (high : ℕ) → high ≤ highest ss high
unfolding highest
highest-ge [] high = omega arith
highest-ge (s ∷ ss) high = elim (Bool-cases (same_name s.name pagezero)) [
  | inl t ↦ rw (t, highest) (highest-ge ss high)
  | inr f ↦
      rw (f, highest) (omega (arith, highest-ge ss (max high (saturating_add s.vmaddr s.vmsize))))
]

saturating_add-eq : (a b : ℕ) → a + b < u64_mod → saturating_add a b ≡ a + b
unfolding saturating_add
saturating_add-eq a b h = rw (lt→ltb _ _ h) refl

highest-EndsBelow :
    (ss : List Segment) (high : ℕ)
    → All (λ s. s.vmaddr + s.vmsize < u64_mod) ss
    → All (EndsBelow (highest ss high)) ss
unfolding highest
highest-EndsBelow [] high h = tt
highest-EndsBelow (s ∷ ss) high h = (
  (λ f.
      rw (f, highest, saturating_add-eq s.vmaddr s.vmsize h.0)
        (omega (arith, highest-ge ss (max high (s.vmaddr + s.vmsize))))),
  highest-EndsBelow ss
      (if same_name s.name pagezero then high else max high (saturating_add s.vmaddr s.vmsize)) h.1,
)

EndsBelow-weaken :
    (ss : List Segment) (low high : ℕ)
    → low ≤ high
    → All (EndsBelow low) ss
    → All (EndsBelow high) ss
EndsBelow-weaken [] low high le h = tt
EndsBelow-weaken (s ∷ ss) low high le h =
    ((λ f. omega (arith, h.0 f)), EndsBelow-weaken ss low high le h.1)

-- When no segment ends past the address space and the highest end is not within a page of it, the
-- span starts at the address of `__TEXT`, is a whole number of pages, and its end lies at or above
-- the end of every segment but the guard.
pub image_span-covers :
    (img : MachOImage)
    → All (λ s. s.vmaddr + s.vmsize < u64_mod) img.segments
    → IsRoundable (highest img.segments (text_vmaddr img))
    → let (base, len) = image_span img in
      (base ≡ text_vmaddr img) × (len % 0x4000 ≡ 0) × All (EndsBelow (base + len)) img.segments
unfolding image_span
image_span-covers img fits h =
    let base = text_vmaddr img in
    let high = highest img.segments base in
    let (large, page) = page_ceil (high - base) (omega arith) in
    (
      refl,
      page,
      EndsBelow-weaken img.segments high (base + align_up (high - base) page_size)
          (omega (arith, highest-ge img.segments base, large))
          (highest-EndsBelow img.segments base fits),
    )
