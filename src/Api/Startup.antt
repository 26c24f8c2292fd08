-- ===== src/Api/Startup.antt =====
-- memorymanager/components/arena.rs, `init_arenas` and what follows it, with `initialize` of api.rs:
-- the arenas of the process, made once by whichever call comes first.
pub mod Laws
use hyperion_rust.Common.{
  ℕ, zero, suc, ◌+◌, set, get_or, ltb, length, if◌then◌else◌, Bool, true, false, List, [], ◌∷◌,
  ◌++◌, replicate,
}
use hyperion_rust.Allocator.{Libc, World, Run, done, panic, ◌>>=◌}
use hyperion_rust.Arena
use hyperion_rust.Arena.{num_arenas, default_superbins}
use hyperion_rust.Core.Chunks.{ArenaInner}
use hyperion_rust.Api.{initialize_arena}

module _ (l : Libc) (w : World l) where
  -- `Arena::default()`.
  abbrev pub default_arena : ArenaInner l
  default_arena = record {
    compression_cache = 0;
    compression_iterator = 1;
    superbins = default_superbins;
    world = w;
  }

  -- Whether `INIT_ONCE` has run its closure, `ARENAS` and `INIT_ITERATOR`.
  pub record Statics : Type 0 where
    pub init_once : Bool
    pub arenas : List (ArenaInner l)
    pub init_iterator : ℕ

  abbrev pub unstarted : Statics
  unstarted = record { init_once = false; arenas = []; init_iterator = 0 }

  unfoldable pub init_arenas : Statics → Statics
  init_arenas s =
      if s.init_once
      then s
      else record s { init_once = true; arenas = s.arenas ++ replicate num_arenas default_arena }

  -- `ARENAS[index]`, which panics out of bounds.
  abbrev pub arena_at : ℕ → Statics → Run (ℕ × Statics)
  arena_at index s = if ltb index (length s.arenas) then done (index, s) else panic

  -- The arena's index.
  unfoldable pub get_next_arena : Statics → Run (ℕ × Statics)
  get_next_arena s =
      let made = init_arenas s in
      let (index, iterator) = Arena.get_next_arena made.init_iterator in
      arena_at index (record made { init_iterator = iterator })

  unfoldable pub get_arena_mut : ℕ → Statics → Run (ℕ × Statics)
  get_arena_mut key s = arena_at (Arena.get_arena_mut key) (init_arenas s)

  -- The loop of `initialize` over the arenas, from a key on.
  pub initialize_from : ℕ → ℕ → Statics → Run Statics
  initialize_from zero key s = done s
  initialize_from (suc n) key s = get_arena_mut key s >>= λ (index, made).
      initialize_from n (key + 1) (record made {
        arenas =
            set made.arenas index (initialize_arena l (get_or made.arenas index default_arena));
      })

  unfoldable pub initialize : Statics → Run Statics
  unfolding initialize_from
  initialize s = initialize_from num_arenas 0 s

  -- The calls of a program that is starting.
  pub data Call : Type 0 where
    next_arena initializes : Call
    arena_mut : ℕ → Call

  unfoldable pub call : Call → Statics → Run Statics
  call next_arena s = get_next_arena s >>= λ r. done r.1
  call initializes s = initialize s
  call (arena_mut key) s = get_arena_mut key s >>= λ r. done r.1

  pub call_all : List Call → Statics → Run Statics
  call_all [] s = done s
  call_all (c ∷ calls) s = call c s >>= call_all calls
