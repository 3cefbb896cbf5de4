-- ===== src/Common/Protection.antt =====
-- crates/common/src/guest.rs: page protections as a three-bit set.
use emulator_ios_for_android.Base.{ℕ, bit_and, bit_or, Bool, ◌==◌}

-- `Protection(u8)`; the wrapper is dropped.
abbrev pub Protection : Type 0
Protection = ℕ

abbrev pub prot_none : Protection
prot_none = 0

abbrev pub prot_read : Protection
prot_read = 1

abbrev pub prot_write : Protection
prot_write = 2

abbrev pub prot_exec : Protection
prot_exec = 4

abbrev pub prot_rw : Protection
prot_rw = bit_or prot_read prot_write

abbrev pub prot_rx : Protection
prot_rx = bit_or prot_read prot_exec

unfoldable pub contains : Protection → Protection → Bool
contains self other = bit_and self other == other

unfoldable pub from_vm_prot : ℕ → Protection
from_vm_prot vm_prot = bit_and vm_prot 0b111
