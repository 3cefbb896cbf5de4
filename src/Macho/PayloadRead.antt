-- ===== src/Macho/PayloadRead.antt =====
-- crates/loader/src/macho/image.rs: each load command that is written is read back.
use emulator_ios_for_android.Base.{
  ℕ, ◌+◌, ◌*◌, ◌≤◌, ◌<◌, ◌≡◌, refl, ap, arith, Bool, true, false, some, List, [], ◌∷◌, ◌++◌, length,
  All, ltb, leb, gt→leb, length-append, lt→ltb, ge→ltb,
}
use emulator_ios_for_android.Common.Result.{ok}
use emulator_ios_for_android.Common.Addr.{IsU64, u64_mod, checked_add}
use emulator_ios_for_android.Common.Utf8.{from_utf8_lossy-ascii}
use emulator_ios_for_android.Dyld.LebRoundTrip.{IsName, name-IsAscii}
use emulator_ios_for_android.Macho.Reader.{seek, skip, read_bytes}
use emulator_ios_for_android.Macho.Image.{MachOImage}
use emulator_ios_for_android.Macho.Command.{
  parse_section, parse_sections, parse_segment, read_lc_str, parse_dylib, parse_arm64_thread_pc,
  parse_dylinker, parse_main, parse_unixthread, parse_symtab, parse_dyld_info, parse_encryption,
  parse_uuid, parse_function_starts, parse_min_version, parse_command,
}
use emulator_ios_for_android.Macho.Bounds.{IsU32}
use emulator_ios_for_android.Macho.Written.{
  Field, raw_field, written, field_bytes, At, cursor, At-u32, At-u64, At-name, At-raw, At-cast,
  until_nul-name, take_bytes-At, after_u32, after_u64, after_name, after_at,
}
use emulator_ios_for_android.Macho.Encoded.{
  SectionCommand, SegmentCommand, DylibKind, plain, weak, reexport, Command, segment, load_dylib,
  load_dylinker, main_entry, thread_state, symtab, dyld_info, encryption, uuid, function_starts,
  min_version, unhandled, section_fields, sections_fields, payload, number, size, section_of,
  segment_of, dylib_of, apply, FitsSectionCommand, FitsPayload, FitsCommand,
}

module _ {file : List ℕ} (small : IsU64 (length file)) where
  At-section :
      (off : ℕ) (rest : List Field) (s : SectionCommand)
      → FitsSectionCommand s
      → At file off (section_fields s rest)
      → At file (off + 80) rest
  unfolding section_fields
  At-section off rest s h a = At-cast (omega arith) (
      At-u32 (
        At-u32 (
          At-u32 (
            At-u32 (
              At-u32
                (At-u32 (At-u32 (At-u32 (At-u64 (At-u64 (At-name h.1.1 (At-name h.0.1 a))))))))))))

  section_read :
      (off : ℕ) (rest : List Field) (s : SectionCommand)
      → FitsSectionCommand s
      → At file off (section_fields s rest)
      → parse_section (cursor file off) ≡ ok (s.section, cursor file (off + 80))
  unfolding section_fields parse_section
  section_read off rest s (hn, hs, (ha, hz, ho, hf), (h1, h2, h3), (h4, h5, h6)) a =
      after_name small _ hn a λ a. after_name small _ hs a λ a. after_u64 small _ ha a λ a.
        after_u64 small _ hz a λ a. after_u32 small _ ho a λ a. after_u32 small _ h1 a λ a.
          after_u32 small _ h2 a λ a. after_u32 small _ h3 a λ a. after_u32 small _ hf a λ a.
            after_u32 small _ h4 a λ a.
              after_u32 small _ h5 a λ a.
                after_u32 small _ h6 a λ a. ap (λ o. ok (s.section, cursor file o)) (omega arith)

  pub At-sections :
      (off : ℕ) (rest : List Field) (ss : List SectionCommand)
      → All FitsSectionCommand ss
      → At file off (sections_fields ss rest)
      → At file (off + 80 * length ss) rest
  unfolding sections_fields
  At-sections off rest [] h a = At-cast (omega arith) a
  At-sections off rest (s ∷ ss) h a =
      At-cast (omega arith)
        (At-sections (off + 80) rest ss h.1 (At-section off (sections_fields ss rest) s h.0 a))

  sections_read :
      (off : ℕ) (rest : List Field) (ss : List SectionCommand)
      → All FitsSectionCommand ss
      → At file off (sections_fields ss rest)
      → parse_sections (length ss) (cursor file off)
        ≡ ok (section_of ss, cursor file (off + 80 * length ss))
  unfolding sections_fields parse_sections section_of
  sections_read off rest [] h a = ap (λ o. ok ([], cursor file o)) (omega arith)
  sections_read off rest (s ∷ ss) h a =
      let next = At-section off (sections_fields ss rest) s h.0 a in
      rw
        (
          section_read off (sections_fields ss rest) s h.0 a,
          sections_read (off + 80) rest ss h.1 next,
        )
        (ap (λ o. ok (s.section ∷ section_of ss, cursor file o)) (omega arith))

  -- A string behind the fixed part of a command.
  lc_str_read :
      (off n : ℕ) (rest : List Field) (name pad : List ℕ)
      → IsName name
      → At file (off + n) (raw_field (name ++ (0 ∷ pad)) ∷ rest)
      → read_lc_str file off n ≡ ok name
  unfolding read_lc_str checked_add written field_bytes
  lc_str_read off n rest name pad h a =
      let inside : off + n < length file = omega (
        arith,
        a.ends,
        length-append (name ++ (0 ∷ pad)) (written rest),
        length-append name (0 ∷ pad),
      ) in
      let fits : ltb (off + n) u64_mod ≡ true = lt→ltb _ _ (omega arith) in
      let there : leb (length file) (off + n) ≡ false = gt→leb _ _ inside in
      rw
        (
          fits,
          there,
          a.stands,
          until_nul-name name pad (written rest) h,
          from_utf8_lossy-ascii name (name-IsAscii name h),
        )
        refl

  skip_read :
      (off n : ℕ) (bytes : List ℕ) (rest : List Field)
      → length bytes ≡ n
      → At file off (raw_field bytes ∷ rest)
      → skip (cursor file off) n ≡ ok (cursor file (off + n))
  unfolding skip seek checked_add written field_bytes
  skip_read off n bytes rest e a =
      let inside : off + n ≤ length file =
        omega (arith, a.ends, e, length-append bytes (written rest)) in
      let fits : ltb (off + n) u64_mod ≡ true = lt→ltb _ _ (omega arith) in
      let there : ltb (length file) (off + n) ≡ false = ge→ltb _ _ inside in rw (fits, there) refl

  module _ (off : ℕ) (rest : List Field) (img : MachOImage) where
    segment_read :
        (s : SegmentCommand)
        → FitsPayload (segment s)
        → IsU32 (length s.sections)
        → At file (off + 8) (payload (segment s) rest)
        → parse_segment img file off ≡ ok (apply (segment s) img)
    unfolding parse_segment payload apply segment_of
    segment_read s (hn, (ha, hb, hc, hd), (hm, hi, hf), hs) few a = after_at small _ a λ a.
        after_name small _ hn a λ a. after_u64 small _ ha a λ a. after_u64 small _ hb a λ a.
          after_u64 small _ hc a λ a. after_u64 small _ hd a λ a. after_u32 small _ hm a λ a.
            after_u32 small _ hi a λ a.
              after_u32 small _ few a
                λ a. after_u32 small _ hf a λ a. rw (sections_read _ rest s.sections hs a) refl

    dylib_read :
        (kind : DylibKind) (t c d : ℕ) (path pad : List ℕ)
        → FitsPayload (load_dylib kind t c d path pad)
        → At file (off + 8) (payload (load_dylib kind t c d path pad) rest)
        → (w r : Bool) → dylib_of kind path ≡ record { path = path; weak = w; reexport = r }
        → parse_dylib img file off w r ≡ ok (apply (load_dylib kind t c d path pad) img)
    unfolding parse_dylib payload apply
    dylib_read kind t c d path pad ((ht, hc, hd), hp) a w r e = after_at small _ a λ a.
        after_u32 small _ (omega arith) a λ a.
          rw
            (
              lc_str_read off 24 rest path pad hp
                  (At-cast (omega arith) (At-u32 (At-u32 (At-u32 a)))),
              e,
            )
            refl

    dylinker_read :
        (name pad : List ℕ)
        → FitsPayload (load_dylinker name pad)
        → At file (off + 8) (payload (load_dylinker name pad) rest)
        → parse_dylinker img file off ≡ ok (apply (load_dylinker name pad) img)
    unfolding parse_dylinker payload apply
    dylinker_read name pad hp a = after_at small _ a λ a.
        after_u32 small _ (omega arith) a
          λ a. rw (lc_str_read off 12 rest name pad hp (At-cast (omega arith) a)) refl

    main_read :
        (o s : ℕ)
        → FitsPayload (main_entry o s)
        → At file (off + 8) (payload (main_entry o s) rest)
        → parse_main img file off ≡ ok (apply (main_entry o s) img)
    unfolding parse_main payload apply
    main_read o s h a =
        after_at small _ a λ a. after_u64 small _ h.0 a λ a. after_u64 small _ h.1 a λ a. refl

    thread_read :
        (xs : List ℕ) (pc : ℕ) (after : List ℕ)
        → FitsPayload (thread_state xs pc after)
        → At file (off + 8) (payload (thread_state xs pc after) rest)
        → parse_unixthread img file off ≡ ok (apply (thread_state xs pc after) img)
    unfolding parse_unixthread parse_arm64_thread_pc payload apply
    thread_read xs pc after (e, h) a =
        let got : parse_arm64_thread_pc file off ≡ ok (some pc) = after_at small _ a λ a.
          after_u32 small _ (omega arith) a λ a. after_u32 small _ (omega arith) a λ a.
            rw (skip_read _ 256 xs _ e a)
              (after_u64 small _ h (At-cast (omega (arith, e)) (At-raw a)) λ a. refl) in
        rw got refl

    symtab_read :
        (s : _)
        → FitsPayload (symtab s)
        → At file (off + 8) (payload (symtab s) rest)
        → parse_symtab img file off ≡ ok (apply (symtab s) img)
    unfolding parse_symtab payload apply
    symtab_read s h a = after_at small _ a λ a. after_u32 small _ h.0 a λ a.
        after_u32 small _ h.1 a λ a. after_u32 small _ h.2 a λ a. after_u32 small _ h.3 a λ a. refl

    dyld_info_read :
        (d : _)
        → FitsPayload (dyld_info d)
        → At file (off + 8) (payload (dyld_info d) rest)
        → parse_dyld_info img file off ≡ ok (apply (dyld_info d) img)
    unfolding parse_dyld_info payload apply
    dyld_info_read d h a = after_at small _ a λ a. after_u32 small _ h.0 a λ a.
        after_u32 small _ h.1 a λ a. after_u32 small _ h.2 a λ a. after_u32 small _ h.3 a λ a.
          after_u32 small _ h.4 a λ a.
            after_u32 small _ h.5 a
              λ a. after_u32 small _ h.6 a λ a. after_u32 small _ h.7 a λ a. refl

    encryption_read :
        (e : _)
        → FitsPayload (encryption e)
        → At file (off + 8) (payload (encryption e) rest)
        → parse_encryption img file off ≡ ok (apply (encryption e) img)
    unfolding parse_encryption payload apply
    encryption_read e h a = after_at small _ a λ a.
        after_u32 small _ h.0 a λ a. after_u32 small _ h.1 a λ a. after_u32 small _ h.2 a λ a. refl

    uuid_read :
        (raw : List ℕ)
        → FitsPayload (uuid raw)
        → At file (off + 8) (payload (uuid raw) rest)
        → parse_uuid img file off ≡ ok (apply (uuid raw) img)
    unfolding parse_uuid payload apply read_bytes field_bytes
    uuid_read raw h a = after_at small _ a λ a. rw (take_bytes-At small 16 h a) refl

    function_starts_read :
        (o s : ℕ)
        → FitsPayload (function_starts o s)
        → At file (off + 8) (payload (function_starts o s) rest)
        → parse_function_starts img file off ≡ ok (apply (function_starts o s) img)
    unfolding parse_function_starts payload apply
    function_starts_read o s h a =
        after_at small _ a λ a. after_u32 small _ h.0 a λ a. after_u32 small _ h.1 a λ a. refl

    min_version_read :
        (v : ℕ) (after : List ℕ)
        → FitsPayload (min_version v after)
        → At file (off + 8) (payload (min_version v after) rest)
        → parse_min_version img file off ≡ ok (apply (min_version v after) img)
    unfolding parse_min_version payload apply
    min_version_read v after h a = after_at small _ a λ a. after_u32 small _ h a λ a. refl

    -- `parse_command` does to the image what the command means.
    pub parse_command-apply :
        (c : Command)
        → FitsCommand c
        → At file (off + 8) (payload c rest)
        → parse_command img (number c) file off ≡ ok (apply c img)
    unfolding parse_command number FitsCommand size apply
    parse_command-apply (segment s) h a = segment_read s h.0 (omega (arith, h.1)) a
    parse_command-apply (load_dylib plain t c d path pad) h a =
        dylib_read plain t c d path pad h.0 a false false refl
    parse_command-apply (load_dylib weak t c d path pad) h a =
        dylib_read weak t c d path pad h.0 a true false refl
    parse_command-apply (load_dylib reexport t c d path pad) h a =
        dylib_read reexport t c d path pad h.0 a false true refl
    parse_command-apply (load_dylinker name pad) h a = dylinker_read name pad h.0 a
    parse_command-apply (main_entry o s) h a = main_read o s h.0 a
    parse_command-apply (thread_state xs pc after) h a = thread_read xs pc after h.0 a
    parse_command-apply (symtab s) h a = symtab_read s h.0 a
    parse_command-apply (dyld_info d) h a = dyld_info_read d h.0 a
    parse_command-apply (encryption e) h a = encryption_read e h.0 a
    parse_command-apply (uuid raw) h a = uuid_read raw h.0 a
    parse_command-apply (function_starts o s) h a = function_starts_read o s h.0 a
    parse_command-apply (min_version v after) h a = min_version_read v after h.0 a
    parse_command-apply (unhandled cmd body) h a =
        let u = h.0.1 in
        rw
          (
            u.0, u.1.0, u.1.1.0, u.1.1.1.0, u.1.1.1.1.0, u.1.1.1.1.1.0, u.1.1.1.1.1.1.0,
            u.1.1.1.1.1.1.1.0, u.1.1.1.1.1.1.1.1.0, u.1.1.1.1.1.1.1.1.1.0, u.1.1.1.1.1.1.1.1.1.1.0,
            u.1.1.1.1.1.1.1.1.1.1.1.0, u.1.1.1.1.1.1.1.1.1.1.1.1.0, u.1.1.1.1.1.1.1.1.1.1.1.1.1.0,
          )
          refl
