-- ===== src/Kernel/Unix.antt =====
-- crates/core/src/syscall/unix.rs and errno.rs: the Unix system calls. The host is a parameter: `H`
-- is its state, `F` an open file, `D` a directory handle. A request for more bytes than the host
-- can allocate is not treated.
use emulator_ios_for_android.Base.{
  ℕ, zero, suc, ◌+◌, ◌*◌, ◌/◌, ◌%◌, ◌^◌, Bool, not, ◌&&◌, ◌||◌, List, [], ◌++◌, length, take,
  Option, none, some, ◌==◌, ltb, if◌then◌else◌, bit_and, bit_or, bit_xor,
}
use emulator_ios_for_android.Common.Result.{Result, ok, err}
use emulator_ios_for_android.Common.Addr.{u64_mod, wrapping_add, is_null}
use emulator_ios_for_android.Common.Endian.{to_le}
use emulator_ios_for_android.Common.Utf8.{Text}
use emulator_ios_for_android.Memory.Guest.{GuestMemory, mmap_anon, protect, read, write}
use emulator_ios_for_android.Memory.Typed.{read_u64, write_u64, write_u32, read_cstr}
use emulator_ios_for_android.Vfs.Sandbox.{Sandbox, translate}
use emulator_ios_for_android.Kernel.Cpu.{CpuContext, arg}
use emulator_ios_for_android.Kernel.Fd.{FdTable, stdin, stdout, stderr, file, get, insert, close}

-- The kinds of the host's I/O errors that are told apart.
pub data ErrorKind : Type 0 where
  not_found permission_denied already_exists would_block invalid_input broken_pipe other : ErrorKind

-- `errno::from_io`.
unfoldable pub from_io : ErrorKind → ℕ
from_io not_found = 2
from_io permission_denied = 13
from_io already_exists = 17
from_io would_block = 35
from_io invalid_input = 22
from_io broken_pipe = 29
from_io other = 5

abbrev pub enoent : ℕ
enoent = 2

abbrev pub ebadf : ℕ
ebadf = 9

abbrev pub enomem : ℕ
enomem = 12

abbrev pub efault : ℕ
efault = 14

abbrev pub einval : ℕ
einval = 22

abbrev pub espipe : ℕ
espipe = 29

abbrev pub erofs : ℕ
erofs = 30

abbrev pub enosys : ℕ
enosys = 78

-- `SeekFrom`; a signed offset is its 64-bit pattern.
pub data SeekFrom : Type 0 where
  from_start from_current from_end : ℕ → SeekFrom

-- What `sys_open` sets of `OpenOptions`.
pub record OpenOptions : Type 0 where
  pub readable : Bool
  pub writable : Bool
  pub create : Bool
  pub truncate : Bool
  pub append : Bool
  pub create_new : Bool

-- The host's operations; `clock` is the time since 1970 in seconds and nanoseconds, if it is not
-- before.
pub record Host (H F : Type 0) : Type 0 where
  pub read_file : F → ℕ → H → Result ErrorKind (List ℕ) × H
  pub write_all : F → List ℕ → H → Result ErrorKind (Unit {0}) × H
  pub seek : F → SeekFrom → H → Result ErrorKind ℕ × H
  pub open_file : OpenOptions → Text → H → Result ErrorKind F × H
  pub exists : Text → H → Bool
  pub clock : H → Option (ℕ × ℕ)

-- `SyscallCtx`, with the host's state.
pub record SyscallCtx (H F D : Type 0) : Type 0 where
  pub cpu : CpuContext
  pub mem : GuestMemory
  pub vfs : Sandbox
  pub fds : FdTable F D
  pub exit : Option ℕ
  pub host : H

-- `flag & mask != 0`.
unfoldable pub has_flag : ℕ → ℕ → Bool
has_flag flags mask = not (bit_and flags mask == 0)

unfoldable pub open_options : ℕ → OpenOptions
unfolding has_flag
open_options flags =
    let mode = bit_and flags 3 in
    record {
      readable = not (mode == 1);
      writable = not (mode == 0);
      create = has_flag flags 0x200;
      truncate = has_flag flags 0x400;
      append = has_flag flags 8;
      create_new = has_flag flags 0x800 && has_flag flags 0x200;
    }

-- One step of the generator: `x ^= x << 13; x ^= x >> 7; x ^= x << 17`.
unfoldable pub xorshift : ℕ → ℕ
xorshift x =
    let a = bit_xor x (x * 2 ^ 13 % u64_mod) in
    let b = bit_xor a (a / 2 ^ 7) in bit_xor b (b * 2 ^ 17 % u64_mod)

-- `while bytes.len() < len`; each turn adds eight bytes, so `len` turns are enough.
unfoldable pub random_bytes : ℕ → ℕ → ℕ → List ℕ → List ℕ
unfolding xorshift
random_bytes zero len state bytes = bytes
random_bytes (suc fuel) len state bytes =
    let state' = xorshift state in
    let more = random_bytes fuel len state' (bytes ++ to_le 8 state') in
    if ltb (length bytes) len then more else bytes

-- What a handler returns, and the context behind it.
abbrev pub Handled : Type 0 → Type 0 → Type 0 → Type 0
Handled H F D = Result ℕ ℕ × SyscallCtx H F D

unfoldable pub seek_from : ℕ → ℕ → Option SeekFrom
seek_from whence offset =
    if whence == 0
    then some (from_start offset)
    else if whence == 1
    then some (from_current offset)
    else if whence == 2
    then some (from_end offset)
    else none

module _ {H F D : Type 0} where
  -- `arg(n) as i32`, as its 32-bit pattern.
  unfoldable pub int_arg : SyscallCtx H F D → ℕ → ℕ
  unfolding arg
  int_arg ctx n = arg ctx.cpu n % 2 ^ 32

  unfoldable pub sys_exit : SyscallCtx H F D → Handled H F D
  unfolding int_arg
  sys_exit ctx = (ok 0, record ctx { exit = some (int_arg ctx 0) })

  -- The bytes read are copied to the guest's buffer.
  unfoldable pub copy_out : ℕ → List ℕ → SyscallCtx H F D → Handled H F D
  unfolding write
  copy_out buf bytes ctx = elim (write ctx.mem buf bytes) [
    | err e ↦ (err efault, ctx)
    | ok mem' ↦ (ok (length bytes), record ctx { mem = mem' })
  ]

  unfoldable pub sys_close : SyscallCtx H F D → Handled H F D
  unfolding int_arg close
  sys_close ctx =
      let (closed, fds') = close (int_arg ctx 0) ctx.fds in
      (if closed then ok 0 else err ebadf, record ctx { fds = fds' })

  unfoldable pub sys_mmap : SyscallCtx H F D → Handled H F D
  unfolding arg has_flag mmap_anon
  sys_mmap ctx =
      if has_flag (arg ctx.cpu 3) 0x1000
      then elim (mmap_anon ctx.mem (arg ctx.cpu 1) (bit_and (arg ctx.cpu 2) 7)) [
        | err e ↦ (err enomem, ctx)
        | ok (addr, mem') ↦ (ok addr, record ctx { mem = mem' })
      ]
      else (err enosys, ctx)

  unfoldable pub sys_mprotect : SyscallCtx H F D → Handled H F D
  unfolding arg protect
  sys_mprotect ctx = elim (protect ctx.mem (arg ctx.cpu 0) (bit_and (arg ctx.cpu 2) 7)) [
    | err e ↦ (err einval, ctx)
    | ok mem' ↦ (ok 0, record ctx { mem = mem' })
  ]

  module _ (api : Host H F) where
    unfoldable pub sys_read : SyscallCtx H F D → Handled H F D
    unfolding int_arg arg get copy_out
    sys_read ctx = elim (get ctx.fds.slots (int_arg ctx 0)) [
      | none ↦ (err ebadf, ctx)
      | some (file f) ↦
          let (r, host') = api.read_file f (arg ctx.cpu 2) ctx.host in
          elim r [
            | err kind ↦ (err (from_io kind), record ctx { host = host' })
            | ok bytes ↦ copy_out (arg ctx.cpu 1) bytes (record ctx { host = host' })
          ]
      | some stdin ↦ copy_out (arg ctx.cpu 1) [] ctx
      | some _ ↦ (err einval, ctx)
    ]

    -- `write_bytes`.
    unfoldable pub write_bytes : ℕ → List ℕ → SyscallCtx H F D → Handled H F D
    unfolding get from_io
    write_bytes fd bytes ctx = elim (get ctx.fds.slots fd) [
      | none ↦ (err ebadf, ctx)
      | some stdout ↦ (ok (length bytes), ctx)
      | some stderr ↦ (ok (length bytes), ctx)
      | some (file f) ↦
          let (r, host') = api.write_all f bytes ctx.host in
          elim r [
            | err kind ↦ (err (from_io kind), record ctx { host = host' })
            | ok _ ↦ (ok (length bytes), record ctx { host = host' })
          ]
      | some _ ↦ (err einval, ctx)
    ]

    unfoldable pub sys_write : SyscallCtx H F D → Handled H F D
    unfolding int_arg arg read write_bytes
    sys_write ctx = elim (read ctx.mem (arg ctx.cpu 1) (arg ctx.cpu 2)) [
      | err e ↦ (err efault, ctx)
      | ok bytes ↦ write_bytes (int_arg ctx 0) bytes ctx
    ]

    -- One entry of `writev`: the buffer named at `base_addr`.
    unfoldable pub write_entry : ℕ → ℕ → SyscallCtx H F D → Handled H F D
    unfolding read_u64 wrapping_add read write_bytes
    write_entry fd base_addr ctx = elim (read_u64 ctx.mem base_addr) [
      | err e ↦ (err efault, ctx)
      | ok base ↦ elim (read_u64 ctx.mem (wrapping_add base_addr 8)) [
        | err e ↦ (err efault, ctx)
        | ok len ↦ elim (read ctx.mem base len) [
          | err e ↦ (err efault, ctx)
          | ok bytes ↦ write_bytes fd bytes ctx
        ]
      ]
    ]

    -- The entries `i`, `i + 1`, … of the vector at `iov`, `count` of them.
    unfoldable pub write_entries : ℕ → ℕ → ℕ → ℕ → ℕ → SyscallCtx H F D → Handled H F D
    unfolding write_entry wrapping_add
    write_entries zero i fd iov total ctx = (ok total, ctx)
    write_entries (suc count) i fd iov total ctx =
        let (r, ctx') = write_entry fd (wrapping_add iov (i * 16 % u64_mod)) ctx in
        elim r [
          | err e ↦ (err e, ctx')
          | ok n ↦ write_entries count (suc i) fd iov (wrapping_add total n) ctx'
        ]

    unfoldable pub sys_writev : SyscallCtx H F D → Handled H F D
    unfolding int_arg arg write_entries
    sys_writev ctx = write_entries (arg ctx.cpu 2) 0 (int_arg ctx 0) (arg ctx.cpu 1) 0 ctx

    -- The opened file takes the lowest free descriptor.
    unfoldable pub open_at : ℕ → Text → SyscallCtx H F D → Handled H F D
    unfolding open_options insert from_io
    open_at flags path ctx =
        let (r, host') = api.open_file (open_options flags) path ctx.host in
        elim r [
          | err kind ↦ (err (from_io kind), record ctx { host = host' })
          | ok f ↦
              let (fd, fds') = insert (file f) ctx.fds in
              (ok fd, record ctx { fds = fds'; host = host' })
        ]

    unfoldable pub sys_open : SyscallCtx H F D → Handled H F D
    unfolding arg read_cstr translate open_at
    sys_open ctx = elim (read_cstr ctx.mem (arg ctx.cpu 0) 1024) [
      | err e ↦ (err efault, ctx)
      | ok ios_path ↦ elim (translate ctx.vfs ios_path) [
        | err e ↦ (err enoent, ctx)
        | ok (path, read_only) ↦
            if read_only && not (bit_and (arg ctx.cpu 1) 3 == 0)
            then (err erofs, ctx)
            else open_at (arg ctx.cpu 1) path ctx
      ]
    ]

    unfoldable pub sys_lseek : SyscallCtx H F D → Handled H F D
    unfolding int_arg arg get seek_from from_io
    sys_lseek ctx = elim (get ctx.fds.slots (int_arg ctx 0)) [
      | none ↦ (err ebadf, ctx)
      | some (file f) ↦ elim (seek_from (arg ctx.cpu 2) (arg ctx.cpu 1)) [
        | none ↦ (err einval, ctx)
        | some pos ↦
            let (r, host') = api.seek f pos ctx.host in
            elim r [
              | err kind ↦ (err (from_io kind), record ctx { host = host' })
              | ok at ↦ (ok at, record ctx { host = host' })
            ]
      ]
      | some _ ↦ (err espipe, ctx)
    ]

    unfoldable pub sys_access : SyscallCtx H F D → Handled H F D
    unfolding arg read_cstr translate
    sys_access ctx = elim (read_cstr ctx.mem (arg ctx.cpu 0) 1024) [
      | err e ↦ (err efault, ctx)
      | ok ios_path ↦ elim (translate ctx.vfs ios_path) [
        | err e ↦ (err enoent, ctx)
        | ok (path, read_only) ↦ (if api.exists path ctx.host then ok 0 else err enoent, ctx)
      ]
    ]

    -- The seconds are written, and stay written when the microseconds cannot be.
    unfoldable pub sys_gettimeofday : SyscallCtx H F D → Handled H F D
    unfolding arg is_null write_u64 write_u32 wrapping_add
    sys_gettimeofday ctx =
        let tv = arg ctx.cpu 0 in
        let now : ℕ × ℕ = elim (api.clock ctx.host) [ none ↦ (0, 0) | some t ↦ t ] in
        if is_null tv then (ok 0, ctx) else elim (write_u64 ctx.mem tv now.0) [
          | err e ↦ (err efault, ctx)
          | ok mem' ↦ elim (write_u32 mem' (wrapping_add tv 8) (now.1 / 1000)) [
            | err e ↦ (err efault, record ctx { mem = mem' })
            | ok mem'' ↦ (ok 0, record ctx { mem = mem'' })
          ]
        ]

    unfoldable pub sys_getentropy : SyscallCtx H F D → Handled H F D
    unfolding arg random_bytes write
    sys_getentropy ctx =
        let len = arg ctx.cpu 1 in
        let nanos : ℕ = elim (api.clock ctx.host) [
          | none ↦ 0x9e37_79b9_7f4a_7c15
          | some (secs, sub) ↦ (secs * 1000000000 + sub) % u64_mod
        ] in
        if ltb 256 len
        then (err einval, ctx)
        else elim (write ctx.mem (arg ctx.cpu 0)
            (take len (random_bytes len len (bit_or nanos 1) []))) [
              | err e ↦ (err efault, ctx)
              | ok mem' ↦ (ok 0, record ctx { mem = mem' })
            ]

    -- `handle`: none for a number that is not implemented.
    unfoldable pub unix_handle : ℕ → SyscallCtx H F D → Option (Handled H F D)
    unfolding sys_exit sys_read sys_write sys_writev sys_open sys_close sys_lseek sys_access
        sys_mmap sys_mprotect sys_gettimeofday sys_getentropy
    unix_handle number ctx =
        if number == 1
        then some (sys_exit ctx)
        else if (number == 3) || (number == 396)
        then some (sys_read ctx)
        else if (number == 4) || (number == 397)
        then some (sys_write ctx)
        else if number == 121
        then some (sys_writev ctx)
        else if (number == 5) || (number == 398)
        then some (sys_open ctx)
        else if (number == 6) || (number == 399)
        then some (sys_close ctx)
        else if number == 199
        then some (sys_lseek ctx)
        else if number == 33
        then some (sys_access ctx)
        else if number == 197
        then some (sys_mmap ctx)
        else if number == 73
        then some (ok 0, ctx)
        else if number == 74
        then some (sys_mprotect ctx)
        else if number == 75
        then some (ok 0, ctx)
        else if number == 20
        then some (ok 1, ctx)
        else if (number == 24) || (number == 25)
        then some (ok 501, ctx)
        else if (number == 47) || (number == 43)
        then some (ok 501, ctx)
        else if number == 327
        then some (ok 0, ctx)
        else if number == 116
        then some (sys_gettimeofday ctx)
        else if number == 500
        then some (sys_getentropy ctx)
        else if number == 92
        then some (ok 0, ctx)
        else none
