-- ===== src/Kernel/Fd.antt =====
-- crates/core/src/fd.rs: the descriptor table. `F` and `D` are the host's open file and directory
-- handle. A descriptor is an `i32`, held as its 32-bit pattern; the hash map is an association
-- list.
use emulator_ios_for_android.Base.{
  ℕ, zero, suc, Bool, true, false, ◌||◌, List, [], ◌∷◌, Option, none, some, ◌==◌, leb,
  if◌then◌else◌, max,
}

pub data FdObject (F D : Type 0) : Type 0 where
  stdout stderr stdin : FdObject F D
  file : F → FdObject F D
  dir : D → FdObject F D

pub record FdTable (F D : Type 0) : Type 0 where
  pub slots : List (ℕ × FdObject F D)
  pub next : ℕ

module _ {F D : Type 0} where
  unfoldable pub get : List (ℕ × FdObject F D) → ℕ → Option (FdObject F D)
  get [] fd = none
  get ((k, obj) ∷ slots) fd = if k == fd then some obj else get slots fd

  unfoldable pub contains_key : List (ℕ × FdObject F D) → ℕ → Bool
  contains_key [] fd = false
  contains_key ((k, obj) ∷ slots) fd = (k == fd) || contains_key slots fd

  unfoldable pub remove : List (ℕ × FdObject F D) → ℕ → List (ℕ × FdObject F D)
  remove [] fd = []
  remove ((k, obj) ∷ slots) fd =
      let rest = remove slots fd in if k == fd then rest else (k, obj) ∷ rest

  unfoldable pub default_table : FdTable F D
  default_table = record { slots = (0, stdin) ∷ (1, stdout) ∷ (2, stderr) ∷ []; next = 3 }

  -- One more than the largest descriptor in use: the loop of `insert` ends before that many turns.
  unfoldable pub bound : List (ℕ × FdObject F D) → ℕ
  bound [] = 0
  bound ((k, obj) ∷ slots) = max (suc k) (bound slots)

  -- `while self.slots.contains_key(&fd) { fd += 1 }`.
  unfoldable pub first_free : ℕ → ℕ → List (ℕ × FdObject F D) → ℕ
  first_free zero fd slots = fd
  first_free (suc fuel) fd slots =
      let higher = first_free fuel (suc fd) slots in if contains_key slots fd then higher else fd

  unfoldable pub insert : FdObject F D → FdTable F D → ℕ × FdTable F D
  unfolding first_free bound
  insert obj t =
      let fd = first_free (bound t.slots) 3 t.slots in
      (fd, record { slots = (fd, obj) ∷ t.slots; next = max t.next (suc fd) })

  unfoldable pub contains : FdTable F D → ℕ → Bool
  unfolding contains_key
  contains t fd = contains_key t.slots fd

  -- `close`: the standard streams stay open.
  unfoldable pub close : ℕ → FdTable F D → Bool × FdTable F D
  unfolding contains_key remove
  close fd t =
      if leb fd 2
      then (true, t)
      else (contains_key t.slots fd, record t { slots = remove t.slots fd })
