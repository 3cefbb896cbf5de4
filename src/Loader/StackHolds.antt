-- ===== src/Loader/StackHolds.antt =====
-- crates/core/src/loader.rs, step 6 of `build_process`: what the initial stack holds.
use emulator_ios_for_android.Base.{
  ℕ, ◌+◌, ◌-◌, ◌*◌, ◌/◌, ◌%◌, ◌≤◌, ◌<◌, ◌≡◌, refl, sym, ap, ◌∙◌, arith, List, [], ◌∷◌, length, All,
  drop, get_elem?, ◌⊎◌, inl, inr,
}
use emulator_ios_for_android.Base.Bits.{bit_and_high}
use emulator_ios_for_android.Common.Result.{ok, ◌>>=◌}
use emulator_ios_for_android.Common.Outcome.{Outcome, gives, Outcome-bind, AnyError, Outcome-of}
use emulator_ios_for_android.Common.Addr.{
  GuestAddr, IsU64, u64_mod, wrapping_add, wrapping_sub, wrapping_add_small, not_u64,
}
use emulator_ios_for_android.Common.Endian.{to_le, length-to_le}
use emulator_ios_for_android.Common.Utf8.{Text}
use emulator_ios_for_android.Memory.Guest.{GuestMemory, write}
use emulator_ios_for_android.Memory.Typed.{write_u64}
use emulator_ios_for_android.Memory.Bytes.{byte_at}
use emulator_ios_for_android.Memory.Mapping.{IsValid, Shows}
use emulator_ios_for_android.Memory.ReadWrite.{write-Shows}
use emulator_ios_for_android.Loader.Layout.{LayoutConfig}
use emulator_ios_for_android.Loader.Stack.{
  align_16, str_addr, apple_addr, envp_addr, argv_addr, build_stack,
}

-- Bytes that a memory shows at an address.
abbrev pub Holds : GuestMemory → ℕ × List ℕ → Type 0
Holds mem (addr, bytes) =
    (i : ℕ) → i < length bytes → byte_at mem.regions (addr + i) ≡ get_elem? bytes i

abbrev pub IsApart : ℕ → ℕ → ℕ × List ℕ → Type 0
IsApart addr n (a, bytes) = (addr + n ≤ a) ⊎ (a + length bytes ≤ addr)

module _ (mem mem' : GuestMemory) (addr : ℕ) (src : List ℕ)
    (shows : Shows mem.regions mem'.regions addr (length src) (get_elem? src)) where
  written-Holds : Holds mem' (addr, src)
  written-Holds i h = ground (arith, shows (addr + i))

  apart-Holds : (e : ℕ × List ℕ) → IsApart addr (length src) e → Holds mem e → Holds mem' e
  apart-Holds (a, bytes) (inl h) k i lt = ground (arith, shows (a + i), k i lt)
  apart-Holds (a, bytes) (inr h) k i lt = ground (arith, shows (a + i), k i lt)

  each-Holds :
      (es : List (ℕ × List ℕ))
      → All (IsApart addr (length src)) es
      → All (Holds mem) es
      → All (Holds mem') es
  each-Holds [] h k = tt
  each-Holds (e ∷ es) h k = (apart-Holds e h.0 k.0, each-Holds es h.1 k.1)

abbrev pub Stacked : List (ℕ × List ℕ) → GuestMemory → Type 0
Stacked es mem = IsValid mem × All (Holds mem) es

-- A write beside what stands adds to it.
write-Stacked :
    (es : List (ℕ × List ℕ)) (mem : GuestMemory) (addr : ℕ) (src : List ℕ)
    → IsU64 addr
    → All (IsApart addr (length src)) es
    → Stacked es mem
    → Outcome AnyError (Stacked ((addr, src) ∷ es)) (write mem addr src)
write-Stacked es mem addr src u h (v, k) = Outcome-of (write mem addr src) (λ m e.
    let (v', shows) = write-Shows mem m addr src v u e in
    (v', (written-Holds mem m addr src shows, each-Holds mem m addr src shows es h k)))

align_16-eq : (a : ℕ) → IsU64 a → align_16 a ≡ a / 16 * 16
unfolding align_16 not_u64
align_16-eq a h = bit_and_high 4 60 a h

below : (a n : ℕ) → n ≤ a → IsU64 a → wrapping_sub a n ≡ a - n
unfolding wrapping_sub
below a n h u = omega arith

-- Where the parts of the stack lie.
pub record Places (top len str apple envp argv : ℕ) : Type 0 where
  pub page : str % 16 ≡ 0
  pub path : str + len + 17 ≤ top
  pub apples : apple + 16 ≡ str
  pub envps : envp + 16 ≡ apple
  pub argvs : argv + 16 ≡ envp

places :
    (top len : ℕ)
    → IsU64 top
    → len + 96 ≤ top
    → let str = str_addr top len in
      let apple = apple_addr str in
      let envp = envp_addr apple in Places top len str apple envp (argv_addr envp)
unfolding str_addr apple_addr envp_addr argv_addr
places top len u room =
    let s0 : ℕ = top - 16 - len - 1 in
    let e0 : str_addr top len ≡ s0 / 16 * 16 =
      rw
        (
          below top 16 (omega arith) u,
          below (top - 16) len (omega arith) (omega arith),
          below (top - 16 - len) 1 (omega arith) (omega arith),
        )
        (align_16-eq s0 (omega arith)) in
    let str : ℕ = str_addr top len in
    let e1 : apple_addr str ≡ str - 16 =
      rw (below str 16 (omega (arith, e0)) (omega (arith, e0)))
        (align_16-eq (str - 16) (omega (arith, e0)) ∙ omega (arith, e0)) in
    let apple : ℕ = apple_addr str in
    let e2 : envp_addr apple ≡ apple - 16 =
      rw (below apple 8 (omega (arith, e0, e1)) (omega (arith, e0, e1)))
        (align_16-eq (apple - 8) (omega (arith, e0, e1)) ∙ omega (arith, e0, e1)) in
    let envp : ℕ = envp_addr apple in
    let e3 : argv_addr envp ≡ envp - 16 =
      rw (below envp 16 (omega (arith, e0, e1, e2)) (omega (arith, e0, e1, e2)))
        (align_16-eq (envp - 16) (omega (arith, e0, e1, e2)) ∙ omega (arith, e0, e1, e2)) in
    record {
      page = omega (arith, e0);
      path = omega (arith, e0);
      apples = omega (arith, e0, e1);
      envps = omega (arith, e0, e1, e2);
      argvs = omega (arith, e0, e1, e2, e3);
    }

-- What the stack holds, from a path and its address: `argv` is the path and a null pointer, `envp` a
-- null pointer, `apple` the path and a null pointer.
abbrev pub stack_contents : ℕ → Text → List (ℕ × List ℕ)
stack_contents str path =
    (str - 48 + 8, to_le 8 0)
    ∷ (str - 48, to_le 8 str)
    ∷ (str - 32, to_le 8 0)
    ∷ (str - 16 + 8, to_le 8 0)
    ∷ (str - 16, to_le 8 str)
    ∷ (str + length path, 0 ∷ [])
    ∷ (str, path)
    ∷ []

-- The stack pointer is aligned and at `argv`, the arguments of `main` are `1`, `argv`, `envp` and
-- `apple`, and the memory holds what they point at.
abbrev pub IsStack : GuestAddr → Text → GuestAddr × (ℕ × ℕ × ℕ × ℕ) × GuestMemory → Type 0
IsStack str path (sp, (argc, argv, envp, apple), mem) =
    (sp % 16 ≡ 0)
    × ((sp ≡ argv) × (argc ≡ 1) × (argv ≡ str - 48) × (envp ≡ str - 32) × (apple ≡ str - 16))
    × Stacked (stack_contents str path) mem

-- The writes of `build_stack` at a place that is aligned and has room below it.
written_at :
    (mem : GuestMemory) (str : ℕ) (path : Text)
    → IsValid mem
    → str % 16 ≡ 0
    → 48 ≤ str
    → str + length path + 1 < u64_mod
    → Outcome AnyError (IsStack str path) (
        write mem str path >>= λ mem. write mem (str + length path) (0 ∷ []) >>= λ mem.
        write_u64 mem (str - 16) str >>= λ mem. write_u64 mem (str - 16 + 8) 0 >>= λ mem.
        write_u64 mem (str - 32) 0 >>= λ mem. write_u64 mem (str - 48) str >>= λ mem.
        write_u64 mem (str - 48 + 8) 0 >>= λ mem.
        ok (str - 48, (1, str - 48, str - 32, str - 16), mem))
unfolding write_u64
written_at mem str path v page low room =
    let w = length-to_le 8 str in
    let z = length-to_le 8 0 in
    Outcome-bind (write-Stacked [] mem str path (omega arith) tt (v, tt)) λ mem k.
      Outcome-bind
        (write-Stacked (drop 6 (stack_contents str path)) mem (str + length path) (0 ∷ [])
          (omega arith) (inr (omega arith), tt) k)
        λ mem k.
          Outcome-bind
            (write-Stacked (drop 5 (stack_contents str path)) mem (str - 16) (to_le 8 str)
              (omega arith) (inl (omega (arith, w)), (inl (omega (arith, w)), tt)) k)
            λ mem k.
              Outcome-bind
                (write-Stacked (drop 4 (stack_contents str path)) mem (str - 16 + 8) (to_le 8 0)
                  (omega arith)
                  (
                    inr (omega (arith, w, z)),
                    (inl (omega (arith, w, z)), (inl (omega (arith, w, z)), tt)),
                  )
                  k)
                λ mem k.
                  Outcome-bind
                    (write-Stacked (drop 3 (stack_contents str path)) mem (str - 32) (to_le 8 0)
                      (omega arith)
                      (
                        inl (omega (arith, w, z)),
                        (
                          inl (omega (arith, w, z)),
                          (inl (omega (arith, w, z)), (inl (omega (arith, w, z)), tt)),
                        ),
                      )
                      k)
                    λ mem k.
                      Outcome-bind
                        (write-Stacked (drop 2 (stack_contents str path)) mem (str - 48)
                          (to_le 8 str) (omega arith)
                          (
                            inl (omega (arith, w, z)),
                            (
                              inl (omega (arith, w, z)),
                              (
                                inl (omega (arith, w, z)),
                                (inl (omega (arith, w, z)), (inl (omega (arith, w, z)), tt)),
                              ),
                            ),
                          )
                          k)
                        λ mem k.
                          Outcome-bind
                            (write-Stacked (drop 1 (stack_contents str path)) mem (str - 48 + 8)
                              (to_le 8 0) (omega arith)
                              (
                                inr (omega (arith, w, z)),
                                (
                                  inl (omega (arith, w, z)),
                                  (
                                    inl (omega (arith, w, z)),
                                    (
                                      inl (omega (arith, w, z)),
                                      (inl (omega (arith, w, z)), (inl (omega (arith, w, z)), tt)),
                                    ),
                                  ),
                                ),
                              )
                              k)
                            λ mem k. gives (omega arith, (refl, refl, refl, refl, refl), k)

-- When there is room for the path and the pointers below the top, `build_stack` gives a valid memory
-- in which `argv`, `envp` and `apple` lie in this order from an aligned stack pointer on, `argv`
-- and `apple` each holding the address of the path and a null pointer and `envp` a null pointer;
-- the path stands at that address with a NUL behind it, and the argument registers are 1 and the
-- three addresses; or a write fails.
pub build_stack-IsStack :
    (mem : GuestMemory) (cfg : LayoutConfig)
    → IsValid mem
    → IsU64 cfg.stack_top
    → length cfg.argv0 + 96 ≤ cfg.stack_top
    → Outcome AnyError
        (IsStack (str_addr cfg.stack_top (length cfg.argv0)) cfg.argv0)
        (build_stack mem cfg)
unfolding build_stack
build_stack-IsStack mem cfg v u room =
    let top : ℕ = cfg.stack_top in
    let len : ℕ = length cfg.argv0 in
    let p = places top len u room in
    let str : ℕ = str_addr top len in
    let apple : apple_addr str ≡ str - 16 = omega (arith, p.apples) in
    let envp : envp_addr (str - 16) ≡ str - 32 =
      ap envp_addr (sym apple) ∙ omega (arith, p.apples, p.envps) in
    let argv : argv_addr (str - 32) ≡ str - 48 =
      ap argv_addr (sym envp ∙ ap envp_addr (sym apple))
      ∙ omega (arith, p.apples, p.envps, p.argvs) in
    let low : 48 ≤ str = omega (arith, p.apples, p.envps, p.argvs) in
    let nul : wrapping_add str len ≡ str + len =
      wrapping_add_small str len (omega (arith, p.path)) in
    let apple8 : wrapping_add (str - 16) 8 ≡ str - 16 + 8 =
      wrapping_add_small (str - 16) 8 (omega (arith, p.path)) in
    let argv8 : wrapping_add (str - 48) 8 ≡ str - 48 + 8 =
      wrapping_add_small (str - 48) 8 (omega (arith, p.path)) in
    let sp : align_16 (str - 48) ≡ str - 48 =
      align_16-eq (str - 48) (omega (arith, p.path)) ∙ omega (arith, p.page, low) in
    rw (apple, envp, argv, nul, apple8, argv8, sp)
      (written_at mem str cfg.argv0 v p.page low (omega (arith, p.path)))
