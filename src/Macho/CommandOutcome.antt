-- ===== src/Macho/CommandOutcome.antt =====
-- crates/loader/src/macho/image.rs: what each load command gives on any file at all.
use emulator_ios_for_android.Base.{
  ℕ, zero, suc, ◌+◌, ◌<◌, arith, Bool, true, false, ◌||◌, not, Option, none, some, List, [], ◌∷◌,
  ◌++◌, length, leb, ◌==◌, All,
}
use emulator_ios_for_android.Base.Bits.{bit_and_low}
use emulator_ios_for_android.Common.Outcome.{Outcome, gives, fails, Outcome-bind, Outcome-if}
use emulator_ios_for_android.Common.Addr.{IsByte, IsU64}
use emulator_ios_for_android.Common.Protection.{from_vm_prot}
use emulator_ios_for_android.Common.Utf8.{Text}
use emulator_ios_for_android.Macho.Reader.{Reader}
use emulator_ios_for_android.Macho.Consts.{
  lc_segment_64, lc_load_dylib, lc_load_weak_dylib, lc_reexport_dylib, lc_load_dylinker, lc_main,
  lc_unixthread, lc_symtab, lc_encryption_info_64, lc_uuid, lc_function_starts,
  lc_version_min_iphoneos, lc_dyld_info, lc_dyld_info_only, arm_thread_state64,
  arm_thread_state64_count,
}
use emulator_ios_for_android.Macho.Bounds.{
  IsMachO, is_mach_o, IsReader, Both, at-Outcome, skip-Outcome, checked-Outcome, u32_le-Outcome,
  u64_le-Outcome, fixed_str-Outcome, read_bytes-Outcome,
}
use emulator_ios_for_android.Macho.Image.{Segment, EntryPoint, thread, MachOImage}
use emulator_ios_for_android.Macho.Command.{
  parse_section, parse_sections, parse_segment, read_lc_str, parse_dylib, parse_arm64_thread_pc,
  parse_dylinker, parse_main, set_thread, parse_unixthread, parse_symtab, parse_dyld_info,
  parse_encryption, parse_uuid, parse_function_starts, parse_min_version, parse_command,
}
use emulator_ios_for_android.Macho.Fits.{FitsSection, FitsSegment, FitsEntry, Given, FitsImage}

snoc :
    (xs : List Segment) (x : Segment)
    → All FitsSegment xs
    → FitsSegment x
    → All FitsSegment (xs ++ (x ∷ []))
snoc [] x h p = (p, tt)
snoc (y ∷ ys) x h p = (h.0, snoc ys x h.1 p)

vm_prot-lt : (p : ℕ) → from_vm_prot p < 8
unfolding from_vm_prot
vm_prot-lt p = omega (arith, bit_and_low 3 p)

parse_section-Outcome :
    (r : Reader) → IsReader r → Outcome IsMachO (Both FitsSection) (parse_section r)
unfolding parse_section
parse_section-Outcome r g = Outcome-bind (fixed_str-Outcome r g 16) λ (n, r) (h, g).
    Outcome-bind (fixed_str-Outcome r g 16) λ (n', r) (h, g).
      Outcome-bind (u64_le-Outcome r g) λ (a, r) (ha, g).
        Outcome-bind (u64_le-Outcome r g) λ (s, r) (hs, g).
          Outcome-bind (u32_le-Outcome r g) λ (o, r) (ho, g).
            Outcome-bind (u32_le-Outcome r g) λ (x, r) (h, g).
              Outcome-bind (u32_le-Outcome r g) λ (x, r) (h, g).
                Outcome-bind (u32_le-Outcome r g) λ (x, r) (h, g).
                  Outcome-bind (u32_le-Outcome r g) λ (f, r) (hf, g).
                    Outcome-bind (u32_le-Outcome r g) λ (x, r) (h, g).
                      Outcome-bind (u32_le-Outcome r g) λ (x, r) (h, g).
                        Outcome-bind (u32_le-Outcome r g)
                          λ (x, r) (h, g). gives ((ha, hs, ho, hf), g)

parse_sections-Outcome :
    (n : ℕ) (r : Reader)
    → IsReader r
    → Outcome IsMachO (Both (All FitsSection)) (parse_sections n r)
unfolding parse_sections
parse_sections-Outcome zero r g = gives (tt, g)
parse_sections-Outcome (suc n) r g = Outcome-bind (parse_section-Outcome r g) λ (s, r) (hs, g).
    Outcome-bind (parse_sections-Outcome n r g) λ (rest, r) (h, g). gives ((hs, h), g)

read_lc_str-Outcome :
    (bytes : List ℕ) (off name_off : ℕ)
    → Outcome IsMachO (λ (t : Text). Unit) (read_lc_str bytes off name_off)
unfolding read_lc_str
read_lc_str-Outcome bytes off name_off =
    Outcome-bind (checked-Outcome off name_off _)
      λ start e. Outcome-if (leb (length bytes) start) (λ e. fails is_mach_o) (λ e. gives tt)

module _ (img : MachOImage) (fits : FitsImage img) (bytes : List ℕ) (h : All IsByte bytes)
    (off : ℕ) where
  parse_segment-Outcome : Outcome IsMachO FitsImage (parse_segment img bytes off)
  unfolding parse_segment FitsImage
  parse_segment-Outcome = Outcome-bind (at-Outcome bytes (off + 8) h) λ r g.
      Outcome-bind (fixed_str-Outcome r g 16) λ (name, r) (u, g).
        Outcome-bind (u64_le-Outcome r g) λ (a, r) (ha, g).
          Outcome-bind (u64_le-Outcome r g) λ (b, r) (hb, g).
            Outcome-bind (u64_le-Outcome r g) λ (c, r) (hc, g).
              Outcome-bind (u64_le-Outcome r g) λ (d, r) (hd, g).
                Outcome-bind (u32_le-Outcome r g) λ (m, r) (hm, g).
                  Outcome-bind (u32_le-Outcome r g) λ (i, r) (hi, g).
                    Outcome-bind (u32_le-Outcome r g) λ (n, r) (hn, g).
                      Outcome-bind (u32_le-Outcome r g) λ (f, r) (hf, g).
                        Outcome-bind (parse_sections-Outcome n r g) λ (ss, r) (hss, g). gives (
                          fits.0,
                          snoc img.segments _ fits.1
                              (ha, hb, hc, hd, vm_prot-lt i, vm_prot-lt m, hss),
                          fits.2,
                          fits.3,
                          fits.4,
                          fits.5,
                          fits.6,
                          fits.7,
                          fits.8,
                        )

  parse_dylib-Outcome :
      (weak reexport : Bool) → Outcome IsMachO FitsImage (parse_dylib img bytes off weak reexport)
  unfolding parse_dylib FitsImage
  parse_dylib-Outcome weak reexport = Outcome-bind (at-Outcome bytes (off + 8) h) λ r g.
      Outcome-bind (u32_le-Outcome r g)
        λ (n, r) (hn, g). Outcome-bind (read_lc_str-Outcome bytes off n) λ t u. gives fits

  parse_dylinker-Outcome : Outcome IsMachO FitsImage (parse_dylinker img bytes off)
  unfolding parse_dylinker FitsImage
  parse_dylinker-Outcome = Outcome-bind (at-Outcome bytes (off + 8) h) λ r g.
      Outcome-bind (u32_le-Outcome r g)
        λ (n, r) (hn, g). Outcome-bind (read_lc_str-Outcome bytes off n) λ t u. gives fits

  parse_main-Outcome : Outcome IsMachO FitsImage (parse_main img bytes off)
  unfolding parse_main FitsImage
  parse_main-Outcome = Outcome-bind (at-Outcome bytes (off + 8) h) λ r g.
      Outcome-bind (u64_le-Outcome r g) λ (o, r) (ho, g).
        Outcome-bind (u64_le-Outcome r g) λ (s, r) (hs, g).
          gives (fits.0, fits.1, (ho, hs), fits.3, fits.4, fits.5, fits.6, fits.7, fits.8)

  entered :
      (entry : Option EntryPoint) (pc : ℕ)
      → Given FitsEntry entry
      → IsU64 pc
      → FitsImage (elim entry [ none ↦ record img { entry = some (thread pc) } | some e ↦ img ])
  unfolding FitsImage
  entered none pc h' k = (fits.0, fits.1, k, fits.3, fits.4, fits.5, fits.6, fits.7, fits.8)
  entered (some e) pc h' k = fits

  set_thread-Fits : (pc : Option ℕ) → Given IsU64 pc → FitsImage (set_thread img pc)
  unfolding set_thread FitsImage
  set_thread-Fits none k = fits
  set_thread-Fits (some pc) k = entered img.entry pc fits.2 k

  parse_arm64_thread_pc-Outcome : Outcome IsMachO (Given IsU64) (parse_arm64_thread_pc bytes off)
  unfolding parse_arm64_thread_pc
  parse_arm64_thread_pc-Outcome = Outcome-bind (at-Outcome bytes (off + 8) h) λ r g.
      Outcome-bind (u32_le-Outcome r g) λ (flavor, r) (hf, g).
        Outcome-bind (u32_le-Outcome r g) λ (count, r) (hc, g).
          Outcome-if (not (flavor == arm_thread_state64) || not (count == arm_thread_state64_count))
            (λ e. gives tt)
            (λ e.
              Outcome-bind (skip-Outcome r _ g)
                λ r g. Outcome-bind (u64_le-Outcome r g) λ (pc, r) (hpc, g). gives hpc)

  parse_unixthread-Outcome : Outcome IsMachO FitsImage (parse_unixthread img bytes off)
  unfolding parse_unixthread
  parse_unixthread-Outcome =
      Outcome-bind parse_arm64_thread_pc-Outcome λ pc k. gives (set_thread-Fits pc k)

  parse_symtab-Outcome : Outcome IsMachO FitsImage (parse_symtab img bytes off)
  unfolding parse_symtab FitsImage
  parse_symtab-Outcome = Outcome-bind (at-Outcome bytes (off + 8) h) λ r g.
      Outcome-bind (u32_le-Outcome r g) λ (a, r) (ha, g).
        Outcome-bind (u32_le-Outcome r g) λ (b, r) (hb, g).
          Outcome-bind (u32_le-Outcome r g) λ (c, r) (hc, g).
            Outcome-bind (u32_le-Outcome r g) λ (d, r) (hd, g).
              gives
                (fits.0, fits.1, fits.2, (ha, hb, hc, hd), fits.4, fits.5, fits.6, fits.7, fits.8)

  parse_dyld_info-Outcome : Outcome IsMachO FitsImage (parse_dyld_info img bytes off)
  unfolding parse_dyld_info FitsImage
  parse_dyld_info-Outcome = Outcome-bind (at-Outcome bytes (off + 8) h) λ r g.
      Outcome-bind (u32_le-Outcome r g) λ (a, r) (ha, g).
        Outcome-bind (u32_le-Outcome r g) λ (b, r) (hb, g).
          Outcome-bind (u32_le-Outcome r g) λ (c, r) (hc, g).
            Outcome-bind (u32_le-Outcome r g) λ (d, r) (hd, g).
              Outcome-bind (u32_le-Outcome r g) λ (i, r) (hi, g).
                Outcome-bind (u32_le-Outcome r g) λ (j, r) (hj, g).
                  Outcome-bind (u32_le-Outcome r g) λ (k, r) (hk, g).
                    Outcome-bind (u32_le-Outcome r g) λ (l, r) (hl, g). gives (
                      fits.0,
                      fits.1,
                      fits.2,
                      fits.3,
                      (ha, hb, hc, hd, hi, hj, hk, hl),
                      fits.5,
                      fits.6,
                      fits.7,
                      fits.8,
                    )

  parse_encryption-Outcome : Outcome IsMachO FitsImage (parse_encryption img bytes off)
  unfolding parse_encryption FitsImage
  parse_encryption-Outcome = Outcome-bind (at-Outcome bytes (off + 8) h) λ r g.
      Outcome-bind (u32_le-Outcome r g) λ (a, r) (ha, g).
        Outcome-bind (u32_le-Outcome r g) λ (b, r) (hb, g).
          Outcome-bind (u32_le-Outcome r g) λ (c, r) (hc, g).
            gives (fits.0, fits.1, fits.2, fits.3, fits.4, (ha, hb, hc), fits.6, fits.7, fits.8)

  parse_function_starts-Outcome : Outcome IsMachO FitsImage (parse_function_starts img bytes off)
  unfolding parse_function_starts FitsImage
  parse_function_starts-Outcome = Outcome-bind (at-Outcome bytes (off + 8) h) λ r g.
      Outcome-bind (u32_le-Outcome r g) λ (a, r) (ha, g).
        Outcome-bind (u32_le-Outcome r g) λ (b, r) (hb, g).
          gives (fits.0, fits.1, fits.2, fits.3, fits.4, fits.5, fits.6, (ha, hb), fits.8)

  parse_min_version-Outcome : Outcome IsMachO FitsImage (parse_min_version img bytes off)
  unfolding parse_min_version FitsImage
  parse_min_version-Outcome = Outcome-bind (at-Outcome bytes (off + 8) h) λ r g.
      Outcome-bind (u32_le-Outcome r g)
        λ (a, r) (ha, g). gives (fits.0, fits.1, fits.2, fits.3, fits.4, fits.5, fits.6, fits.7, ha)

  parse_uuid-Outcome : Outcome IsMachO FitsImage (parse_uuid img bytes off)
  unfolding parse_uuid FitsImage
  parse_uuid-Outcome = Outcome-bind (at-Outcome bytes (off + 8) h) λ r g.
      Outcome-bind (read_bytes-Outcome r g 16) λ (raw, r) (run, g).
        gives (fits.0, fits.1, fits.2, fits.3, fits.4, fits.5, run, fits.7, fits.8)

  pub parse_command-Outcome :
      (cmd : ℕ) → Outcome IsMachO FitsImage (parse_command img cmd bytes off)
  unfolding parse_command
  parse_command-Outcome cmd =
      Outcome-if (cmd == lc_segment_64) (λ e. parse_segment-Outcome)
        λ e.
          Outcome-if (cmd == lc_load_dylib) (λ e. parse_dylib-Outcome false false)
            λ e.
              Outcome-if (cmd == lc_load_weak_dylib) (λ e. parse_dylib-Outcome true false)
                λ e.
                  Outcome-if (cmd == lc_reexport_dylib) (λ e. parse_dylib-Outcome false true)
                    λ e.
                      Outcome-if (cmd == lc_load_dylinker) (λ e. parse_dylinker-Outcome)
                        λ e.
                          Outcome-if (cmd == lc_main) (λ e. parse_main-Outcome)
                            λ e.
                              Outcome-if (cmd == lc_unixthread) (λ e. parse_unixthread-Outcome)
                                λ e.
                                  Outcome-if (cmd == lc_symtab) (λ e. parse_symtab-Outcome)
                                    λ e.
                                      Outcome-if
                                        ((cmd == lc_dyld_info) || (cmd == lc_dyld_info_only))
                                        (λ e. parse_dyld_info-Outcome)
                                        λ e.
                                          Outcome-if (cmd == lc_encryption_info_64)
                                            (λ e. parse_encryption-Outcome)
                                            λ e.
                                              Outcome-if (cmd == lc_uuid) (λ e. parse_uuid-Outcome)
                                                λ e.
                                                  Outcome-if (cmd == lc_function_starts)
                                                    (λ e. parse_function_starts-Outcome)
                                                    λ e.
                                                      Outcome-if (cmd == lc_version_min_iphoneos)
                                                        (λ e. parse_min_version-Outcome)
                                                        λ e. gives fits
