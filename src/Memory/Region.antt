-- ===== src/Memory/Region.antt =====
-- crates/memory/src/region.rs: one span of guest memory with its host buffer.
use emulator_ios_for_android.Base.{
  ℕ, ◌-◌, Bool, ◌&&◌, List, ◌++◌, length, take, drop, replicate, ltb, leb, if◌then◌else◌,
}
use emulator_ios_for_android.Common.Utf8.{Text}
use emulator_ios_for_android.Common.Result.{memory, EmuResult, ok, err, ◌>>=◌, ◌>>◌, guard, ok_or}
use emulator_ios_for_android.Common.Addr.{GuestAddr, wrapping_add, wrapping_sub, checked_add}
use emulator_ios_for_android.Common.Protection.{Protection, contains}

-- `RegionKind`.
pub data RegionKind : Type 0 where
  segment stack heap anonymous commpage : RegionKind

-- `Region`; `bytes` is the field `data`.
pub record Region : Type 0 where
  pub base : GuestAddr
  pub prot : Protection
  pub kind : RegionKind
  pub name : Text
  pub bytes : List ℕ

unfoldable pub new_zeroed : GuestAddr → ℕ → Protection → RegionKind → Text → Region
new_zeroed base size prot kind name = record {
  base = base;
  prot = prot;
  kind = kind;
  name = name;
  bytes = replicate size 0;
}

unfoldable pub new_from : GuestAddr → ℕ → List ℕ → Protection → RegionKind → Text → EmuResult Region
new_from base size init prot kind name =
    if ltb size (length init)
    then err (memory base "init data exceeds region")
    else ok (record {
      base = base;
      prot = prot;
      kind = kind;
      name = name;
      bytes = init ++ replicate (size - length init) 0;
    })

unfoldable pub size : Region → ℕ
size r = length r.bytes

-- `Region::end`, which wraps as `GuestAddr + u64` does.
unfoldable pub end_addr : Region → GuestAddr
unfolding size
end_addr r = wrapping_add r.base (size r)

unfoldable pub has_addr : Region → GuestAddr → Bool
unfolding end_addr
has_addr r addr = leb r.base addr && ltb addr (end_addr r)

-- `Region::range`: the offsets of `[addr, addr + len)` in the buffer.
unfoldable pub range : Region → GuestAddr → ℕ → EmuResult (ℕ × ℕ)
range r addr len = do
  guard (leb r.base addr) (memory addr "before region")
  let off = wrapping_sub addr r.base
  end ← ok_or (checked_add off len) (memory addr "length overflow")
  guard (leb end (length r.bytes)) (memory addr "past region end")
  ok (off, end)

-- `Region::subslice`: the bytes of a checked span.
unfoldable pub subslice : Region → GuestAddr → ℕ → Protection → EmuResult (List ℕ)
subslice r addr len need = do
  (off, end) ← range r addr len
  guard (contains r.prot need) (memory addr "protection violation")
  ok (take (end - off) (drop off r.bytes))

-- `Region::subslice_mut` with the copy that its only caller makes into the slice: the same checks,
-- then the span is overwritten. A length other than the span's cannot occur.
unfoldable pub overwrite : Region → GuestAddr → List ℕ → Protection → EmuResult Region
overwrite r addr src need = do
  (off, end) ← range r addr (length src)
  guard (contains r.prot need) (memory addr "protection violation")
  ok (record r { bytes = take off r.bytes ++ (src ++ drop end r.bytes) })
