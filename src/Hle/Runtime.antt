-- ===== src/Hle/Runtime.antt =====
-- crates/hle/src/objc/runtime.rs: classes, instances and message dispatch. Hash maps are
-- association lists with the newest entry in front; a retain count is the 64-bit pattern of an
-- `i64`. Each operation takes the registers and the memory of its call context.
use emulator_ios_for_android.Base.{
  ℕ, zero, suc, Bool, true, false, ◌||◌, ◌&&◌, List, [], ◌∷◌, ◌++◌, length, Option, none, some,
  ◌==◌, if◌then◌else◌, bit_or,
}
use emulator_ios_for_android.Common.Result.{ok, err}
use emulator_ios_for_android.Common.Addr.{wrapping_add, wrapping_sub}
use emulator_ios_for_android.Common.Utf8.{Text}
use emulator_ios_for_android.Dyld.Linker.{same_name, find_forward}
use emulator_ios_for_android.Vfs.Bytes.{strip_prefix}
use emulator_ios_for_android.Memory.Guest.{GuestMemory, heap_alloc}
use emulator_ios_for_android.Memory.Typed.{write_u64, read_cstr}
use emulator_ios_for_android.Kernel.Cpu.{CpuContext, arg, set_ret}

abbrev pub class_magic : ℕ
class_magic = 0x0b1c_0000_0000_0000

pub record ClassInfo : Type 0 where
  pub name : Text
  pub superclass : Option ℕ

pub record ObjcRuntime : Type 0 where
  pub classes : List ClassInfo
  pub class_addr_by_name : List (Text × ℕ)
  pub class_index_by_addr : List (ℕ × ℕ)
  pub instance_class : List (ℕ × ℕ)
  pub retain_counts : List (ℕ × ℕ)

unfoldable pub new_runtime : ObjcRuntime
new_runtime = record {
  classes = [];
  class_addr_by_name = [];
  class_index_by_addr = [];
  instance_class = [];
  retain_counts = [];
}

unfoldable pub find_number : List (ℕ × ℕ) → ℕ → Option ℕ
find_number [] key = none
find_number ((k, v) ∷ rest) key = if k == key then some v else find_number rest key

-- `NSObject` and `NSProxy`.
abbrev pub ns_object : Text
ns_object = b'N' ∷ b'S' ∷ b'O' ∷ b'b' ∷ b'j' ∷ b'e' ∷ b'c' ∷ b't' ∷ []

abbrev pub ns_proxy : Text
ns_proxy = b'N' ∷ b'S' ∷ b'P' ∷ b'r' ∷ b'o' ∷ b'x' ∷ b'y' ∷ []

-- `position`, counted from `i` on.
unfoldable pub position : ℕ → List ClassInfo → Text → Option ℕ
unfolding same_name
position i [] name = none
position i (c ∷ cs) name = if same_name c.name name then some i else position (suc i) cs name

unfoldable pub class_index : ObjcRuntime → Text → Option ℕ
unfolding position
class_index rt name = position 0 rt.classes name

-- A class that has no slot yet gets one.
unfoldable pub preload_class : Text → ObjcRuntime → ObjcRuntime
unfolding class_index
preload_class name rt = elim (class_index rt name) [
  | some i ↦ rt
  | none ↦ record rt { classes = rt.classes ++ (record { name = name; superclass = none } ∷ []) }
]

unfoldable pub preload_root_classes : ObjcRuntime → ObjcRuntime
unfolding preload_class
preload_root_classes rt = preload_class ns_proxy (preload_class ns_object rt)

-- The index of a class, which gets a slot below `NSObject` if it has none, and the runtime then.
unfoldable pub register_class : Text → ObjcRuntime → ℕ × ObjcRuntime
unfolding class_index
register_class name rt = elim (class_index rt name) [
  | some i ↦ (i, rt)
  | none ↦ (
    length rt.classes,
    record rt {
      classes = rt.classes ++ (record { name = name; superclass = class_index rt ns_object } ∷ []);
    },
  )
]

-- Memory that was allocated stays so when the header cannot be written.
unfoldable pub get_or_create_class :
    Text → ObjcRuntime → GuestMemory → Option ℕ × (ObjcRuntime × GuestMemory)
unfolding find_forward heap_alloc write_u64 register_class
get_or_create_class name rt mem = elim (find_forward rt.class_addr_by_name name) [
  | some addr ↦ (some addr, (rt, mem))
  | none ↦ elim (heap_alloc mem 16 16) [
    | err e ↦ (none, (rt, mem))
    | ok (addr, mem') ↦ elim (write_u64 mem' addr (bit_or class_magic addr)) [
      | err e ↦ (none, (rt, mem'))
      | ok mem'' ↦
          let (index, rt') = register_class name rt in
          (
            some addr,
            (
              record rt' {
                class_addr_by_name = (name, addr) ∷ rt'.class_addr_by_name;
                class_index_by_addr = (addr, index) ∷ rt'.class_index_by_addr;
              },
              mem'',
            ),
          )
    ]
  ]
]

unfoldable pub alloc_instance :
    ℕ → ObjcRuntime → GuestMemory → Option ℕ × (ObjcRuntime × GuestMemory)
unfolding find_number heap_alloc write_u64
alloc_instance class_addr rt mem = elim (find_number rt.class_index_by_addr class_addr) [
  | none ↦ (none, (rt, mem))
  | some index ↦ elim (heap_alloc mem 16 16) [
    | err e ↦ (none, (rt, mem))
    | ok (obj, mem') ↦ elim (write_u64 mem' obj class_addr) [
      | err e ↦ (none, (rt, mem'))
      | ok mem'' ↦ (
        some obj,
        (
          record rt {
            instance_class = (obj, index) ∷ rt.instance_class;
            retain_counts = (obj, 1) ∷ rt.retain_counts;
          },
          mem'',
        ),
      )
    ]
  ]
]

-- `unwrap_or(0)`.
unfoldable pub or_zero : Option ℕ → ℕ
or_zero none = 0
or_zero (some v) = v

-- `alloc_via`: the instance, or 0, is the value returned.
unfoldable pub alloc_via :
    ℕ → ObjcRuntime → CpuContext → GuestMemory → ObjcRuntime × (CpuContext × GuestMemory)
unfolding alloc_instance or_zero set_ret
alloc_via class_addr rt cpu mem =
    let (obj, (rt', mem')) = alloc_instance class_addr rt mem in
    (rt', (set_ret (or_zero obj) cpu, mem'))

-- `&self.classes[index].name`; an index comes from `register_class`, so it is in range.
unfoldable pub class_name : List ClassInfo → ℕ → Text
class_name [] index = []
class_name (c ∷ cs) zero = c.name
class_name (c ∷ cs) (suc index) = class_name cs index

-- A counted object's count goes up by one with `retain` and down by one with `release`.
unfoldable pub retain : ℕ → ObjcRuntime → ObjcRuntime
unfolding find_number wrapping_add
retain obj rt = elim (find_number rt.retain_counts obj) [
  | none ↦ rt
  | some c ↦ record rt { retain_counts = (obj, wrapping_add c 1) ∷ rt.retain_counts }
]

unfoldable pub release : ℕ → ObjcRuntime → ObjcRuntime
unfolding find_number wrapping_sub
release obj rt = elim (find_number rt.retain_counts obj) [
  | none ↦ rt
  | some c ↦ record rt { retain_counts = (obj, wrapping_sub c 1) ∷ rt.retain_counts }
]

unfoldable pub send_class : ℕ → ObjcRuntime → ℕ
unfolding find_number class_name find_forward or_zero
send_class recv rt = elim (find_number rt.instance_class recv) [
  | none ↦ recv
  | some index ↦ or_zero (find_forward rt.class_addr_by_name (class_name rt.classes index))
]

-- The selectors, as bytes.
abbrev pub sel_alloc : Text
sel_alloc = b'a' ∷ b'l' ∷ b'l' ∷ b'o' ∷ b'c' ∷ []

abbrev pub sel_alloc_with_zone : Text
sel_alloc_with_zone =
    sel_alloc ++ (b'W' ∷ b'i' ∷ b't' ∷ b'h' ∷ b'Z' ∷ b'o' ∷ b'n' ∷ b'e' ∷ b':' ∷ [])

abbrev pub sel_new : Text
sel_new = b'n' ∷ b'e' ∷ b'w' ∷ []

abbrev pub sel_init : Text
sel_init = b'i' ∷ b'n' ∷ b'i' ∷ b't' ∷ []

abbrev pub sel_init_with : Text
sel_init_with = sel_init ++ (b'W' ∷ b'i' ∷ b't' ∷ b'h' ∷ [])

abbrev pub sel_self : Text
sel_self = b's' ∷ b'e' ∷ b'l' ∷ b'f' ∷ []

abbrev pub sel_retain : Text
sel_retain = b'r' ∷ b'e' ∷ b't' ∷ b'a' ∷ b'i' ∷ b'n' ∷ []

abbrev pub sel_autorelease : Text
sel_autorelease = b'a' ∷ b'u' ∷ b't' ∷ b'o' ∷ b'r' ∷ b'e' ∷ b'l' ∷ b'e' ∷ b'a' ∷ b's' ∷ b'e' ∷ []

abbrev pub sel_release : Text
sel_release = b'r' ∷ b'e' ∷ b'l' ∷ b'e' ∷ b'a' ∷ b's' ∷ b'e' ∷ []

abbrev pub sel_retain_count : Text
sel_retain_count = sel_retain ++ (b'C' ∷ b'o' ∷ b'u' ∷ b'n' ∷ b't' ∷ [])

abbrev pub sel_class : Text
sel_class = b'c' ∷ b'l' ∷ b'a' ∷ b's' ∷ b's' ∷ []

abbrev pub sel_hash : Text
sel_hash = b'h' ∷ b'a' ∷ b's' ∷ b'h' ∷ []

unfoldable pub is_some : Option Text → Bool
is_some none = false
is_some (some t) = true

-- The value that a message returns. The selectors that answer no, and every other one, give 0.
unfoldable pub answer : Text → ℕ → ObjcRuntime → GuestMemory → ℕ × (ObjcRuntime × GuestMemory)
unfolding find_number same_name strip_prefix is_some alloc_instance or_zero retain release
    send_class
answer sel recv rt mem =
    let is_class : Bool = elim (find_number rt.class_index_by_addr recv) [
      | none ↦ false
      | some i ↦ true
    ] in
    if is_class
      && (same_name sel sel_alloc || same_name sel sel_alloc_with_zone || same_name sel sel_new)
    then (let (obj, after) = alloc_instance recv rt mem in (or_zero obj, after))
    else if same_name sel sel_init || is_some (strip_prefix sel sel_init_with)
    then (recv, (rt, mem))
    else if same_name sel sel_retain
    then (recv, (retain recv rt, mem))
    else if same_name sel sel_self || same_name sel sel_autorelease
    then (recv, (rt, mem))
    else if same_name sel sel_release
    then (0, (release recv rt, mem))
    else if same_name sel sel_retain_count
    then (elim (find_number rt.retain_counts recv) [ none ↦ 1 | some c ↦ c ], (rt, mem))
    else if same_name sel sel_class
    then (send_class recv rt, (rt, mem))
    else if same_name sel sel_hash
    then (recv, (rt, mem))
    else (0, (rt, mem))

-- `objc_msgSend`, which always handles its call: nil and an unreadable or empty selector give 0.
unfoldable pub msg_send :
    ObjcRuntime → CpuContext → GuestMemory → ObjcRuntime × (CpuContext × GuestMemory)
unfolding arg set_ret read_cstr answer
msg_send rt cpu mem =
    let recv = arg cpu 0 in
    if recv == 0 then (rt, (set_ret 0 cpu, mem)) else elim (read_cstr mem (arg cpu 1) 256) [
      | err e ↦ (rt, (set_ret 0 cpu, mem))
      | ok [] ↦ (rt, (set_ret 0 cpu, mem))
      | ok (b ∷ sel) ↦
          let (v, (rt', mem')) = answer (b ∷ sel) recv rt mem in (rt', (set_ret v cpu, mem'))
    ]
