-- ===== src/Api/Startup/Laws.antt =====
-- What the first calls of a program make of the arenas.
use hyperion_rust.Common.{
  ℕ, zero, suc, ◌+◌, ◌%◌, ◌<◌, ◌≤◌, ◌≡◌, refl, ap, sym, ◌∙◌, true, List, [], ◌∷◌, set, get_or,
  set-get_or, arith,
}
use hyperion_rust.Allocator.{Libc, World, done}
use hyperion_rust.Superbin.{new_superbin}
use hyperion_rust.Superbin
use hyperion_rust.Superbin.Valid.{initialize-initialize}
use hyperion_rust.Arena
use hyperion_rust.Arena.{default_superbins}
use hyperion_rust.Arena.Laws.{get_or-default_superbins}
use hyperion_rust.Core.Chunks.{ArenaInner}
use hyperion_rust.Api.{initialize_superbins, initialize_superbin, initialize_arena}
use hyperion_rust.Api.Startup.{
  Statics, default_arena, unstarted, init_arenas, get_next_arena, get_arena_mut, initialize_from,
  initialize, Call, next_arena, initializes, arena_mut, call, call_all,
}

module _ (l : Libc) (w : World l) where
  initialize_superbin-default :
      (i : ℕ) → i < 64 → initialize_superbin l (default_arena l w) i ≡ default_arena l w
  initialize_superbin-default i h =
      ap (λ superbins. record (default_arena l w) { superbins = superbins })
        (ap (set default_superbins i) same ∙ set-get_or default_superbins i new_superbin)
    where
      same :
          Superbin.initialize (get_or default_superbins i new_superbin) (i % 65536)
          ≡ get_or default_superbins i new_superbin
      same =
          ap (Superbin.initialize (get_or default_superbins i new_superbin)) (omega arith)
          ∙ ap (λ s. Superbin.initialize s i) (get_or-default_superbins i h)
          ∙ initialize-initialize i
          ∙ sym (get_or-default_superbins i h)

  initialize_superbins-default :
      (n i : ℕ) → i + n ≤ 64 → initialize_superbins l n i (default_arena l w) ≡ default_arena l w
  unfolding initialize_superbins
  initialize_superbins-default zero i h = refl
  initialize_superbins-default (suc n) i h =
      ap (initialize_superbins l n (i + 1)) (initialize_superbin-default i (omega arith))
      ∙ initialize_superbins-default n (i + 1) (omega arith)

  initialize_arena-default : initialize_arena l (default_arena l w) ≡ default_arena l w
  unfolding initialize_arena
  initialize_arena-default = initialize_superbins-default 64 0 (omega arith)

  abbrev two : List (ArenaInner l)
  two = default_arena l w ∷ default_arena l w ∷ []

  -- The arenas were made, and are as they are made.
  abbrev pub started : ℕ → Statics l w
  started iterator = record { init_once = true; arenas = two; init_iterator = iterator }

  get_or-two : (i : ℕ) → get_or two i (default_arena l w) ≡ default_arena l w
  get_or-two zero = refl
  get_or-two (suc zero) = refl
  get_or-two (suc (suc i)) = refl

  get_arena_mut-started :
      (key iterator : ℕ)
      → get_arena_mut l w key (started iterator) ≡ done (Arena.get_arena_mut key, started iterator)
  unfolding get_arena_mut init_arenas Arena.get_arena_mut
  get_arena_mut-started key iterator = ground arith

  get_next_arena-started :
      (iterator : ℕ)
      → get_next_arena l w (started iterator)
        ≡ done ((Arena.get_next_arena iterator).0, started (Arena.get_next_arena iterator).1)
  unfolding get_next_arena init_arenas Arena.get_next_arena
  get_next_arena-started iterator = ground arith

  initialize_from-started :
      (n key iterator : ℕ) → initialize_from l w n key (started iterator) ≡ done (started iterator)
  unfolding initialize_from
  initialize_from-started zero key iterator = refl
  initialize_from-started (suc n) key iterator =
      rw (get_arena_mut-started key iterator, same) (initialize_from-started n (key + 1) iterator)
    where
      same :
          set two
            (Arena.get_arena_mut key)
            (initialize_arena l (get_or two (Arena.get_arena_mut key) (default_arena l w)))
          ≡ two
      same =
          ap (set two (Arena.get_arena_mut key)) (
            ap (initialize_arena l) (get_or-two (Arena.get_arena_mut key))
            ∙ initialize_arena-default
            ∙ sym (get_or-two (Arena.get_arena_mut key)))
          ∙ set-get_or two (Arena.get_arena_mut key) (default_arena l w)

  call-started :
      (c : Call l w) (iterator : ℕ)
      → (after : ℕ) × (call l w c (started iterator) ≡ done (started after))
  unfolding call initialize
  call-started next_arena iterator =
      ((Arena.get_next_arena iterator).1, rw (get_next_arena-started iterator) refl)
  call-started initializes iterator = (iterator, initialize_from-started 2 0 iterator)
  call-started (arena_mut key) iterator = (iterator, rw (get_arena_mut-started key iterator) refl)

  call_all-started :
      (calls : List (Call l w)) (iterator : ℕ)
      → (after : ℕ) × (call_all l w calls (started iterator) ≡ done (started after))
  unfolding call_all
  call_all-started [] iterator = (iterator, refl)
  call_all-started (c ∷ calls) iterator =
      let (next, e) = call-started c iterator in
      let (after, e') = call_all-started calls next in (after, rw e e')

  call-unstarted : (c : Call l w) → call l w c (unstarted l w) ≡ call l w c (started 0)
  unfolding call initialize initialize_from get_arena_mut get_next_arena init_arenas
  call-unstarted next_arena = refl
  call-unstarted initializes = refl
  call-unstarted (arena_mut key) = refl

  -- However a program starts, taking arenas in turn or by any keys and initialising them, in any
  -- order and any number of times: no call panics, and after the first there are two arenas, made
  -- once, which are still as they were made.
  pub call_all-unstarted :
      (c : Call l w) (calls : List (Call l w))
      → (after : ℕ) × (call_all l w (c ∷ calls) (unstarted l w) ≡ done (started after))
  unfolding call_all
  call_all-unstarted c calls =
      let (next, e) = call-started c 0 in
      let (after, e') = call_all-started calls next in (after, rw (call-unstarted c, e) e')
