-- ===== src/Macho/RoundTrip.antt =====
-- crates/loader/src/macho/image.rs: a Mach-O file that is written is read back.
use emulator_ios_for_android.Base.{
  ℕ, ◌+◌, ◌*◌, ◌≤◌, ◌≡◌, ◌≢◌, refl, ap, arith, true, false, List, [], ◌∷◌, ◌++◌, length, All, ◌⊎◌,
  inl, inr, ltb, ge→ltb, lt→ltb,
}
use emulator_ios_for_android.Common.Result.{mach_o, ok, err}
use emulator_ios_for_android.Common.Addr.{IsU64, u64_mod, checked_add}
use emulator_ios_for_android.Common.Endian.{from_le}
use emulator_ios_for_android.Macho.Reader.{new, u32_le}
use emulator_ios_for_android.Macho.Consts.{mh_magic_64, cpu_type_arm64}
use emulator_ios_for_android.Macho.Image.{Segment, MachOImage}
use emulator_ios_for_android.Macho.Parse.{
  empty_image, load_commands, with_segments, parse_thin_body, parse_thin, choose_slice, parse,
}
use emulator_ios_for_android.Macho.Bounds.{IsU32}
use emulator_ios_for_android.Macho.Written.{
  Field, u32_field, raw_field, written, field_bytes, take_bytes-At, At, At-u32, At-u64, At-name,
  At-raw, At-cast, At-all, after_u32, after_at,
}
use emulator_ios_for_android.Macho.Encoded.{
  Command, segment, plain, weak, reexport, load_dylib, load_dylinker, main_entry, thread_state,
  symtab, dyld_info, encryption, uuid, function_starts, min_version, unhandled, payload, number,
  size, command_fields, commands_fields, apply, apply_all, FitsCommand,
}
use emulator_ios_for_android.Macho.PayloadRead.{At-sections, parse_command-apply}

-- The header of the file, its commands, and what follows them.
pub record MachOFile : Type 0 where
  pub cpu_subtype : ℕ
  pub filetype : ℕ
  pub sizeofcmds : ℕ
  pub flags : ℕ
  pub reserved : ℕ
  pub commands : List Command
  pub contents : List ℕ

unfoldable pub header_fields : MachOFile → List Field
unfolding commands_fields
header_fields f =
    u32_field mh_magic_64
    ∷ u32_field cpu_type_arm64
    ∷ u32_field f.cpu_subtype
    ∷ u32_field f.filetype
    ∷ u32_field (length f.commands)
    ∷ u32_field f.sizeofcmds
    ∷ u32_field f.flags
    ∷ u32_field f.reserved
    ∷ commands_fields f.commands (raw_field f.contents ∷ [])

unfoldable pub encode : MachOFile → List ℕ
unfolding written header_fields
encode f = written (header_fields f)

-- What the file describes.
unfoldable pub image_of : MachOFile → MachOImage
unfolding apply_all empty_image
image_of f = apply_all f.commands (empty_image f.cpu_subtype f.filetype f.flags)

-- The fields are in range, the file is shorter than the address space, and it describes a segment.
pub record IsFile (f : MachOFile) : Type 0 where
  pub subtype : IsU32 f.cpu_subtype
  pub filetype : IsU32 f.filetype
  pub sizeofcmds : IsU32 f.sizeofcmds
  pub flags : IsU32 f.flags
  pub reserved : IsU32 f.reserved
  pub count : IsU32 (length f.commands)
  pub commands : All FitsCommand f.commands
  pub size : IsU64 (length (encode f))
  pub segments : (image_of f).segments ≢ []

number-lt : (c : Command) → FitsCommand c → IsU32 (number c)
unfolding number FitsCommand
number-lt (segment s) h = omega arith
number-lt (load_dylib plain t c d path pad) h = omega arith
number-lt (load_dylib weak t c d path pad) h = omega arith
number-lt (load_dylib reexport t c d path pad) h = omega arith
number-lt (load_dylinker name pad) h = omega arith
number-lt (main_entry o s) h = omega arith
number-lt (thread_state xs pc after) h = omega arith
number-lt (symtab s) h = omega arith
number-lt (dyld_info d) h = omega arith
number-lt (encryption e) h = omega arith
number-lt (uuid raw) h = omega arith
number-lt (function_starts o s) h = omega arith
number-lt (min_version v after) h = omega arith
number-lt (unhandled cmd body) h = h.0.0

size-ge : (c : Command) → 8 ≤ size c
unfolding size
size-ge (segment s) = omega arith
size-ge (load_dylib k t c d path pad) = omega arith
size-ge (load_dylinker name pad) = omega arith
size-ge (main_entry o s) = omega arith
size-ge (thread_state xs pc after) = omega arith
size-ge (symtab s) = omega arith
size-ge (dyld_info d) = omega arith
size-ge (encryption e) = omega arith
size-ge (uuid raw) = omega arith
size-ge (function_starts o s) = omega arith
size-ge (min_version v after) = omega arith
size-ge (unhandled cmd body) = omega arith

size-lt : (c : Command) → FitsCommand c → IsU32 (size c)
unfolding FitsCommand
size-lt c h = h.1

some_segments :
    (img : MachOImage) (ss : List Segment)
    → ss ≢ []
    → elim ss [ [] ↦ err (mach_o "no LC_SEGMENT_64 commands") | s ∷ rest ↦ ok img ] ≡ ok img
some_segments img [] h = absurd (h refl)
some_segments img (s ∷ ss) h = refl

with_segments-ok : (img : MachOImage) → img.segments ≢ [] → with_segments img ≡ ok img
unfolding with_segments
with_segments-ok img h = some_segments img img.segments h

module _ {file : List ℕ} (small : IsU64 (length file)) where
  At-payload :
      (off : ℕ) (rest : List Field) (c : Command)
      → FitsCommand c
      → At file (off + 8) (payload c rest)
      → At file (off + size c) rest
  unfolding payload size FitsCommand
  At-payload off rest (segment s) h a = At-cast (omega arith) (
      At-sections small _ rest s.sections h.0.3
        (At-u32 (At-u32 (At-u32 (At-u32 (At-u64 (At-u64 (At-u64 (At-u64 (At-name h.0.0.1 a))))))))))
  At-payload off rest (load_dylib k t c d path pad) h a =
      At-cast (omega arith) (At-raw (At-u32 (At-u32 (At-u32 (At-u32 a)))))
  At-payload off rest (load_dylinker name pad) h a = At-cast (omega arith) (At-raw (At-u32 a))
  At-payload off rest (main_entry o s) h a = At-cast (omega arith) (At-u64 (At-u64 a))
  At-payload off rest (thread_state xs pc after) h a =
      At-cast (omega arith) (At-raw (At-u64 (At-raw (At-u32 (At-u32 a)))))
  At-payload off rest (symtab s) h a = At-cast (omega arith) (At-u32 (At-u32 (At-u32 (At-u32 a))))
  At-payload off rest (dyld_info d) h a =
      At-cast (omega arith)
        (At-u32 (At-u32 (At-u32 (At-u32 (At-u32 (At-u32 (At-u32 (At-u32 a))))))))
  At-payload off rest (encryption e) h a = At-cast (omega arith) (At-u32 (At-u32 (At-u32 a)))
  At-payload off rest (uuid raw) h a = At-cast (omega arith) (At-raw a)
  At-payload off rest (function_starts o s) h a = At-cast (omega arith) (At-u32 (At-u32 a))
  At-payload off rest (min_version v after) h a = At-cast (omega arith) (At-raw (At-u32 a))
  At-payload off rest (unhandled cmd body) h a = At-cast (omega arith) (At-raw a)

  load_commands-apply :
      (off : ℕ) (rest : List Field) (img : MachOImage) (cs : List Command)
      → All FitsCommand cs
      → At file off (commands_fields cs rest)
      → load_commands (length cs) file off img ≡ ok (apply_all cs img)
  unfolding load_commands commands_fields command_fields apply_all checked_add
  load_commands-apply off rest img [] h a = refl
  load_commands-apply off rest img (c ∷ cs) h a =
      let body : At file (off + 8) (payload c (commands_fields cs rest)) =
        At-cast (omega arith) (At-u32 (At-u32 a)) in
      let next = At-payload off (commands_fields cs rest) c h.0 body in
      let long : ltb (size c) 8 ≡ false = ge→ltb _ _ (size-ge c) in
      let fits : ltb (off + size c) u64_mod ≡ true = lt→ltb _ _ (omega (arith, next.ends)) in
      after_at small _ a λ a. after_u32 small _ (number-lt c h.0) a λ a.
        after_u32 small _ (size-lt c h.0) a λ a.
          rw (long, parse_command-apply small off (commands_fields cs rest) img c h.0 body, fits)
            (load_commands-apply (off + size c) rest (apply c img) cs h.1 next)

-- A file whose header and commands are written with fields in range, that is shorter than the
-- address space and describes at least one segment, is parsed to the image that its commands
-- describe when each is applied in order.
pub parse-encode : (f : MachOFile) → IsFile f → parse (encode f) ≡ ok (image_of f)
unfolding parse choose_slice parse_thin parse_thin_body encode header_fields image_of new
parse-encode f h =
    let start = At-all (header_fields f) in
    after_u32 h.size _ (omega arith) start λ a. after_at h.size _ start λ a.
      after_u32 h.size _ (omega arith) a λ a. after_u32 h.size _ (omega arith) a λ a.
        after_u32 h.size _ h.subtype a λ a. after_u32 h.size _ h.filetype a λ a.
          after_u32 h.size _ h.count a λ a. after_u32 h.size _ h.sizeofcmds a λ a.
            after_u32 h.size _ h.flags a λ a. after_u32 h.size _ h.reserved a λ a.
              rw
                (load_commands-apply h.size 32 (raw_field f.contents ∷ [])
                  (empty_image f.cpu_subtype f.filetype f.flags) f.commands h.commands
                  (At-cast (omega arith) a))
                (with_segments-ok (image_of f) h.segments)

append_nil : (xs : List ℕ) → xs ++ [] ≡ xs
append_nil [] = refl
append_nil (x ∷ xs) = ap (λ t. x ∷ t) (append_nil xs)

At-front : (front rest : List ℕ) → At (front ++ rest) 0 (raw_field front ∷ raw_field rest ∷ [])
unfolding written field_bytes
At-front front rest = record {
  ends = rw (append_nil rest) (omega arith);
  stands = rw (append_nil rest) refl;
}

universal_refused :
    (last : ℕ) (rest : List ℕ)
    → choose_slice
        (0xca + 256 * (0xfe + 256 * (0xba + 256 * (last + 0))))
        (0xca ∷ 0xfe ∷ 0xba ∷ last ∷ rest)
      ≡ err (mach_o "unknown magic")
    → IsU64 (length (0xca ∷ 0xfe ∷ 0xba ∷ last ∷ rest))
    → parse (0xca ∷ 0xfe ∷ 0xba ∷ last ∷ rest) ≡ err (mach_o "unknown magic")
unfolding parse new u32_le field_bytes from_le
universal_refused last rest e small =
    let got = take_bytes-At small 4 refl (At-front (0xca ∷ 0xfe ∷ 0xba ∷ last ∷ []) rest) in
    rw got (rw e refl)

-- A file that begins with the magic of a universal binary, ca fe ba be or ca fe ba bf as Apple's
-- tools write it, is refused as of an unknown magic, whatever follows.
pub parse-universal :
    (last : ℕ) (rest : List ℕ)
    → (last ≡ 0xbe) ⊎ (last ≡ 0xbf)
    → IsU64 (length (0xca ∷ 0xfe ∷ 0xba ∷ last ∷ rest))
    → parse (0xca ∷ 0xfe ∷ 0xba ∷ last ∷ rest) ≡ err (mach_o "unknown magic")
unfolding choose_slice
parse-universal last rest (inl e) small = universal_refused last rest (rw e refl) small
parse-universal last rest (inr e) small = universal_refused last rest (rw e refl) small
