-- ===== src/Macho/ParseOutcome.antt =====
-- crates/loader/src/macho/image.rs: what the parser gives on any file at all.
use emulator_ios_for_android.Base.{
  ℕ, zero, suc, ◌+◌, ◌≤◌, ◌≡◌, refl, String, arith, Bool, true, false, ◌||◌, not, Option, none,
  some, List, [], ◌∷◌, length, ltb, ltb→ge, ◌==◌, All,
}
use emulator_ios_for_android.Common.Result.{mach_o, ok, err, ok_or}
use emulator_ios_for_android.Common.Outcome.{Outcome, gives, fails, Outcome-bind, Outcome-if}
use emulator_ios_for_android.Common.Addr.{IsByte}
use emulator_ios_for_android.Macho.Reader.{Reader, new}
use emulator_ios_for_android.Macho.Consts.{
  mh_magic_64, mh_cigam_64, fat_magic, cpu_type_arm64, fat_magic_64,
}
use emulator_ios_for_android.Macho.Bounds.{
  IsMachO, is_mach_o, IsU32, IsReader, Both, new-IsReader, at-Outcome, checked-Outcome,
  u32_le-Outcome, u32_be-Outcome, u64_be-Outcome,
}
use emulator_ios_for_android.Macho.Image.{Segment, MachOImage}
use emulator_ios_for_android.Macho.Parse.{
  empty_image, load_commands, with_segments, parse_thin_body, parse_thin, fat_arch, fat_slices,
  select_fat_slice, choose_slice, parse,
}
use emulator_ios_for_android.Macho.Fits.{FitsImage, IsImage}
use emulator_ios_for_android.Macho.CommandOutcome.{parse_command-Outcome}

module _ (bytes : List ℕ) (h : All IsByte bytes) where
  load_commands-Outcome :
      (n off : ℕ) (img : MachOImage)
      → FitsImage img
      → Outcome IsMachO FitsImage (load_commands n bytes off img)
  unfolding load_commands
  load_commands-Outcome zero off img fits = gives fits
  load_commands-Outcome (suc n) off img fits = Outcome-bind (at-Outcome bytes off h) λ r g.
      Outcome-bind (u32_le-Outcome r g) λ (cmd, r) (hc, g).
        Outcome-bind (u32_le-Outcome r g) λ (size, r) (hs, g).
          Outcome-if (ltb size 8) (λ e. fails is_mach_o)
            λ e. Outcome-bind (parse_command-Outcome img fits bytes h off cmd) λ img fits.
              Outcome-bind (checked-Outcome off size _)
                λ off e. load_commands-Outcome n off img fits

  checked_segments :
      (img : MachOImage) (ss : List Segment)
      → img.segments ≡ ss
      → FitsImage img
      → Outcome IsMachO IsImage
          (elim ss [ [] ↦ err (mach_o "no LC_SEGMENT_64 commands") | s ∷ rest ↦ ok img ])
  unfolding IsImage
  checked_segments img [] e fits = fails is_mach_o
  checked_segments img (s ∷ rest) e fits = gives (fits, cc)

  with_segments-Outcome :
      (img : MachOImage) → FitsImage img → Outcome IsMachO IsImage (with_segments img)
  unfolding with_segments
  with_segments-Outcome img fits = checked_segments img img.segments refl fits

  empty_image-Fits :
      (subtype filetype flags : ℕ)
      → IsU32 subtype
      → IsU32 filetype
      → IsU32 flags
      → FitsImage (empty_image subtype filetype flags)
  unfolding empty_image FitsImage
  empty_image-Fits a b c ha hb hc = ((ha, hb, hc), tt, tt, tt, tt, tt, tt, tt, tt)

  parse_thin_body-Outcome :
      (base : ℕ) (r : Reader) → IsReader r → Outcome IsMachO IsImage (parse_thin_body bytes base r)
  unfolding parse_thin_body
  parse_thin_body-Outcome base r g = Outcome-bind (u32_le-Outcome r g) λ (a, r) (ha, g).
      Outcome-bind (u32_le-Outcome r g) λ (b, r) (hb, g).
        Outcome-bind (u32_le-Outcome r g) λ (n, r) (hn, g).
          Outcome-bind (u32_le-Outcome r g) λ (s, r) (hs, g).
            Outcome-bind (u32_le-Outcome r g) λ (c, r) (hc, g).
              Outcome-bind (u32_le-Outcome r g) λ (d, r) (hd, g).
                Outcome-bind
                  (load_commands-Outcome n (base + 32) _ (empty_image-Fits a b c ha hb hc))
                  with_segments-Outcome

  parse_thin-Outcome : (base : ℕ) → Outcome IsMachO IsImage (parse_thin bytes base)
  unfolding parse_thin
  parse_thin-Outcome base = Outcome-bind (at-Outcome bytes base h) λ r g.
      Outcome-bind (u32_le-Outcome r g) λ (magic, r) (hm, g).
        Outcome-if (not (magic == mh_magic_64)) (λ e. fails is_mach_o)
          λ e. Outcome-bind (u32_le-Outcome r g) λ (cputype, r) (hc, g).
            Outcome-if (not (cputype == cpu_type_arm64)) (λ e. fails is_mach_o)
              λ e. parse_thin_body-Outcome base r g

-- The whole file, and an offset in it.
abbrev IsSlice : List ℕ → List ℕ × ℕ → Type 0
IsSlice bytes (slice, off) = (slice ≡ bytes) × (off ≤ length bytes)

fat_arch-Outcome :
    (is64 : Bool) (r : Reader)
    → IsReader r
    → Outcome IsMachO (Both (λ (s : ℕ × ℕ). Unit)) (fat_arch is64 r)
unfolding fat_arch
fat_arch-Outcome true r g = Outcome-bind (u64_be-Outcome r g) λ (o, r) (ho, g).
    Outcome-bind (u64_be-Outcome r g) λ (s, r) (hs, g).
      Outcome-bind (u32_be-Outcome r g)
        λ (a, r) (ha, g). Outcome-bind (u32_be-Outcome r g) λ (b, r) (hb, g). gives (tt, g)
fat_arch-Outcome false r g = Outcome-bind (u32_be-Outcome r g) λ (o, r) (ho, g).
    Outcome-bind (u32_be-Outcome r g)
      λ (s, r) (hs, g). Outcome-bind (u32_be-Outcome r g) λ (a, r) (ha, g). gives (tt, g)

fat_slices-Outcome :
    (n : ℕ) (is64 : Bool) (best : Option (ℕ × ℕ × ℕ)) (r : Reader)
    → IsReader r
    → Outcome IsMachO (Both (λ (s : Option (ℕ × ℕ × ℕ)). Unit)) (fat_slices n is64 best r)
unfolding fat_slices
fat_slices-Outcome zero is64 best r g = gives (tt, g)
fat_slices-Outcome (suc n) is64 best r g = Outcome-bind (u32_be-Outcome r g) λ (t, r) (ht, g).
    Outcome-bind (u32_be-Outcome r g) λ (s, r) (hs, g).
      Outcome-bind (fat_arch-Outcome is64 r g) λ (o, r) (ho, g). fat_slices-Outcome n is64 _ r g

best-Outcome :
    (best : Option (ℕ × ℕ × ℕ)) (m : String)
    → Outcome IsMachO (λ (s : ℕ × ℕ × ℕ). Unit) (ok_or best (mach_o m))
best-Outcome none m = fails is_mach_o
best-Outcome (some s) m = gives tt

select_fat_slice-Outcome :
    (bytes : List ℕ) → All IsByte bytes → Outcome IsMachO (IsSlice bytes) (select_fat_slice bytes)
unfolding select_fat_slice
select_fat_slice-Outcome bytes h =
    Outcome-bind (u32_be-Outcome (new bytes) (new-IsReader bytes h)) λ (magic, r) (hm, g).
      Outcome-bind (u32_be-Outcome r g) λ (nfat, r) (hn, g).
        Outcome-bind (fat_slices-Outcome nfat (magic == fat_magic_64) none r g) λ (best, r) (u, g).
          Outcome-bind (best-Outcome best _) λ (off, size, subtype) u.
            Outcome-bind (checked-Outcome off size _) λ end e.
              Outcome-if (ltb (length bytes) end) (λ e. fails is_mach_o)
                λ t. let inside = ltb→ge (length bytes) end t in gives (refl, omega arith)

choose_slice-Outcome :
    (magic : ℕ) (bytes : List ℕ)
    → All IsByte bytes
    → Outcome IsMachO (IsSlice bytes) (choose_slice magic bytes)
unfolding choose_slice
choose_slice-Outcome magic bytes h =
    Outcome-if ((magic == fat_magic) || (magic == fat_magic_64))
      (λ e. select_fat_slice-Outcome bytes h)
      λ e.
        Outcome-if (magic == mh_magic_64) (λ e. gives (refl, omega arith))
          λ e. Outcome-if (magic == mh_cigam_64) (λ e. fails is_mach_o) λ e. fails is_mach_o

-- On any file, where the host has the memory for the sections that a segment counts, `parse` gives an image with at least one segment whose fields are all in the range of
-- their types and whose protections are three bits, or fails with a Mach-O error.
pub parse-Outcome : (bytes : List ℕ) → All IsByte bytes → Outcome IsMachO IsImage (parse bytes)
unfolding parse
parse-Outcome bytes h =
    Outcome-bind (u32_le-Outcome (new bytes) (new-IsReader bytes h)) λ (magic, r) (hm, g).
      Outcome-bind (choose_slice-Outcome magic bytes h)
        λ (slice, off) (same, inside). parse_thin-Outcome slice (rw same h) off
