-- ===== src/Api/Again.antt =====
-- api.rs, `initialize` and `teardown` on an arena that is in use.
use hyperion_rust.Common.{
  ℕ, zero, suc, ◌+◌, ◌%◌, ◌<◌, ◌≤◌, ◌≡◌, subst, List, get_or, set, get_or-set_self, get_or-set_ne,
  arith, ℕ_discrete, if_both, not, ◌==◌,
}
use hyperion_rust.Allocator.{Libc, done}
use hyperion_rust.Allocator.Each.{Each, Each->>=, Each-done}
use hyperion_rust.Superbin.{Superbin, new_superbin, initialize}
use hyperion_rust.Superbin.Valid.{IsValid}
use hyperion_rust.Superbin.Again.{initialize-again}
use hyperion_rust.Core.Chunks.{Access, ArenaInner}
use hyperion_rust.Core.Valid.{AreValid, set-AreValid}
use hyperion_rust.Teardown.{teardown_all_superbins, teardown_from}
use hyperion_rust.Api.{initialize_superbin, initialize_superbins, initialize_arena, teardown_arena}

abbrev pub count : Superbin → ℕ
count s = s.header.metabins_initialized

-- Every superbin has one metabin.
abbrev pub HaveOne : List Superbin → Type 0
HaveOne superbins = (i : ℕ) → i < 64 → count (get_or superbins i new_superbin) ≡ 1

module _ (floor : ℕ → ℕ) (l : Libc) where
  initialize_superbins-AreValid :
      (n index : ℕ) (a : ArenaInner l)
      → n + index ≤ 64
      → AreValid floor a.superbins
      → HaveOne a.superbins
      → AreValid floor (initialize_superbins l n index a).superbins
        × HaveOne (initialize_superbins l n index a).superbins
  unfolding initialize_superbins
  initialize_superbins-AreValid zero index a few v one = (v, one)
  initialize_superbins-AreValid (suc n) index a few v one =
      initialize_superbins-AreValid n (index + 1) (initialize_superbin l a index) (omega arith)
        (set-AreValid a.superbins index (initialize old (index % 65536)) v again.0)
        (λ i lt. elim (ℕ_discrete index i) [
          | yes same ↦
              subst
                (λ k.
                  count
                    (get_or (set a.superbins index (initialize old (index % 65536))) k new_superbin)
                  ≡ 1)
                same
                (rw
                  (get_or-set_self a.superbins index (initialize old (index % 65536)) new_superbin
                    (omega (arith, v.size)))
                  again.1)
          | no other ↦
              rw
                (get_or-set_ne a.superbins index i (initialize old (index % 65536)) new_superbin
                  other)
                (one i lt)
        ])
    where
      old : Superbin
      old = get_or a.superbins index new_superbin

      again :
          IsValid (floor index) (initialize old (index % 65536))
          × ((initialize old (index % 65536)).header.metabins_initialized ≡ 1)
      again =
          initialize-again old (index % 65536) (v.each index (omega arith))
            (one index (omega arith))

  -- Initialising an arena again, while each of its superbins has one metabin.
  pub initialize_arena-AreValid :
      (a : ArenaInner l)
      → AreValid floor a.superbins
      → HaveOne a.superbins
      → AreValid floor (initialize_arena l a).superbins × HaveOne (initialize_arena l a).superbins
  unfolding initialize_arena
  initialize_arena-AreValid a v one =
      initialize_superbins-AreValid 64 0
        (record a { compression_cache = 0; compression_iterator = 1 }) (omega arith) v one

  -- Tearing an arena down releases the memory, and leaves the superbins as they are.
  pub teardown_arena-AreValid :
      (x : Access l) (a : ArenaInner l)
      → AreValid floor a.superbins
      → Each (λ a'. AreValid floor a'.superbins) (teardown_arena l x a)
  unfolding teardown_arena
  teardown_arena-AreValid x a v =
      Each->>= (λ a'. AreValid floor a'.superbins) (teardown_all_superbins l x a) _
        (λ a' e.
          if_both {A = ArenaInner l} (λ r. AreValid floor r.superbins)
            (not (a'.compression_cache == 0)) (torn a' e) (torn a' e))
    where
      torn :
          (a' : ArenaInner l) → teardown_all_superbins l x a ≡ done a' → AreValid floor a'.superbins
      torn a' e =
          Each-done (λ r. AreValid floor r.superbins) (teardown_all_superbins l x a) a'
            (unfold teardown_all_superbins in
              Each->>= (λ r. AreValid floor r.superbins) (teardown_from l x a.superbins a.world) _
                (λ w _. v))
            e
