-- ===== src/Api/Reachable.antt =====
-- The arenas that operations of api.rs lead to: all of them, but `initialize` only while no
-- superbin has more than one metabin.
pub mod Bounded
pub mod Persistent
use hyperion_rust.Common.{ℕ, ◌<◌, ◌≡◌, sym, subst, Bool}
use hyperion_rust.Simd.Lanes.{Features}
use hyperion_rust.Simd.AllBits.Laws.{HasVectors}
use hyperion_rust.Allocator.{Libc, World, done}
use hyperion_rust.Allocator.Each.{Each-done}
use hyperion_rust.Pointer.{HyperionPointer}
use hyperion_rust.Arena.{default_superbins}
use hyperion_rust.Arena.Laws.{default_superbins-IsValid, length-default_superbins}
use hyperion_rust.Core.Chunks.{ArenaInner, Access}
use hyperion_rust.Core.Valid.{AreValid, one_each}
use hyperion_rust.Core.Allocate.{Outcome, finished}
use hyperion_rust.Core.Allocate.Valid.{Kept, get_new_pointer-Kept}
use hyperion_rust.Core.Free.Valid.{free_from_pointer-EachValid}
use hyperion_rust.Core.Reallocate.Valid.{
  Holds, get_chunk-AreValid, reallocate_from_pointer-IsKept, IsKept,
}
use hyperion_rust.Core.Free.{free_from_pointer}
use hyperion_rust.Core.Chunks.{get_chunk}
use hyperion_rust.Core.Reallocate.{reallocate_from_pointer}
use hyperion_rust.Api.Kept.{
  register_chained_memory-AreValid, get_chained_pointer-AreValid, get_all_chained_pointer-AreValid,
}
use hyperion_rust.Api.Again.{HaveOne, initialize_arena-AreValid, teardown_arena-AreValid}
use hyperion_rust.Api.{
  initialize_arena, teardown_arena, SegmentChain, malloc_chained, get_pointer, reallocate, free,
  register_chained_memory, get_chained_pointer, get_all_chained_pointer,
}

module _ (l : Libc) (x : Access l) (c : Features) (dyn fuel : ℕ) where
  -- One operation that returned. `malloc` is `malloc_chained` for no chain. A pointer has six bits
  -- for its superbin. Between the operations the program and the other arena change the memory.
  pub data Step : ArenaInner l → ArenaInner l → Type 0 where
    allocates :
        {a a' : ArenaInner l} {p : HyperionPointer} (size chain_count : ℕ)
        → malloc_chained l x c dyn fuel a size chain_count ≡ finished (a', p)
        → Step a a'
    looks_up :
        {a a' : ArenaInner l} {address : ℕ} (p : HyperionPointer) (might_increment character : ℕ)
        → p.superbin_id < 64
        → get_pointer l x dyn a p might_increment character ≡ done (a', address)
        → Step a a'
    reallocates :
        {a a' : ArenaInner l} {p' : HyperionPointer} (p : HyperionPointer) (size character : ℕ)
        → p.superbin_id < 64
        → reallocate l x c dyn fuel a p size character ≡ finished (a', p')
        → Step a a'
    frees :
        {a a' : ArenaInner l} (p : HyperionPointer)
        → p.superbin_id < 64
        → free l x c dyn fuel a p ≡ done a'
        → Step a a'
    registers :
        {a a' : ArenaInner l} (p : HyperionPointer) (character segment size over : ℕ)
        (inplace : Bool)
        → register_chained_memory l x fuel a p character segment size inplace over ≡ finished a'
        → Step a a'
    looks_up_chained :
        {a a' : ArenaInner l} {address : ℕ} (p : HyperionPointer) (character size : ℕ) (init : Bool)
        → get_chained_pointer l x dyn a p character init size ≡ done (a', address)
        → Step a a'
    collects :
        {a a' : ArenaInner l} {chain' : SegmentChain} {n : ℕ} (p : HyperionPointer)
        (chain : SegmentChain)
        → get_all_chained_pointer l x chain a p ≡ done (a', chain', n)
        → Step a a'
    initializes : {a : ArenaInner l} → HaveOne a.superbins → Step a (initialize_arena l a)
    tears_down : {a a' : ArenaInner l} → teardown_arena l x a ≡ done a' → Step a a'
    changes_memory : {a : ArenaInner l} (w : World l) → Step a (record a { world = w })

  -- From an arena as `init_arenas` makes it, by operations one after the other.
  pub data Reachable : ArenaInner l → Type 0 where
    start : {a : ArenaInner l} → a.superbins ≡ default_superbins → Reachable a
    next : {a a' : ArenaInner l} → Reachable a → Step a a' → Reachable a'

-- The result that was returned has the property.
Holds-finished :
    {A : Type 0} (P : A → Type 0) (o : Outcome A) (a : A) → Holds P o → o ≡ finished a → P a
Holds-finished P o a h e = subst (Holds P) e h

pub default_superbins-AreValid : AreValid one_each default_superbins
default_superbins-AreValid = record {
  size = length-default_superbins;
  each = λ i lt. (default_superbins-IsValid i lt).0;
}

module _ (l : Libc) (x : Access l) (c : Features) (dyn fuel : ℕ) (vec : HasVectors c) where
  -- Each operation.
  pub Step-AreValid :
      (floor : ℕ → ℕ) (a a' : ArenaInner l)
      → Step l x c dyn fuel a a'
      → AreValid floor a.superbins
      → AreValid floor a'.superbins
  Step-AreValid floor a a' (allocates {p = p} size chain_count e) v =
      (subst (Kept floor l) e (get_new_pointer-Kept floor l x dyn c fuel size chain_count a v)).0
  Step-AreValid floor a a' (looks_up {address = address} p might_increment character few e) v =
      Each-done (λ r. AreValid floor r.0.superbins) (get_chunk l x a p character) (a', address)
        (get_chunk-AreValid floor l x a p character v few) e
  Step-AreValid floor a a' (reallocates {p' = p'} p size character few e) v =
      (Holds-finished (IsKept floor l x c dyn fuel vec)
        (reallocate_from_pointer l x c dyn fuel a p size character) (a', p')
        (reallocate_from_pointer-IsKept floor l x c dyn fuel vec a p v few size character) e).0
  Step-AreValid floor a a' (frees p few e) v =
      Each-done (λ r. AreValid floor r.superbins) (free_from_pointer l x c a p) a'
        (free_from_pointer-EachValid floor l x p few c a vec v) e
  Step-AreValid floor a a' (registers p character segment size over inplace e) v =
      Holds-finished (λ r. AreValid floor r.superbins)
        (register_chained_memory l x fuel a p character segment size inplace over) a'
        (register_chained_memory-AreValid floor l x fuel a p character segment size inplace over v)
        e
  Step-AreValid floor a a' (looks_up_chained {address = address} p character size init e) v =
      Each-done (λ r. AreValid floor r.0.superbins)
        (get_chained_pointer l x dyn a p character init size) (a', address)
        (get_chained_pointer-AreValid floor l x dyn a p character init size v) e
  Step-AreValid floor a a' (collects {chain' = chain'} {n = n} p chain e) v =
      Each-done (λ r. AreValid floor r.0.superbins) (get_all_chained_pointer l x chain a p)
        (a', chain', n) (get_all_chained_pointer-AreValid floor l x chain a p v) e
  Step-AreValid floor a a' (initializes one) v = (initialize_arena-AreValid floor l a v one).0
  Step-AreValid floor a a' (tears_down e) v =
      Each-done (λ r. AreValid floor r.superbins) (teardown_arena l x a) a'
        (teardown_arena-AreValid floor l x a v) e
  Step-AreValid floor a a' (changes_memory w) v = record {
    size = v.size;
    each = λ i lt. v.each i lt;
  }

  -- With AVX2 or SSE4.1, every arena that the following operations lead to, in any order and with
  -- any arguments, from an arena as it is made, has 64 valid superbins: the metabins of each are
  -- those below its count, which is 1 to 16, under their ids, each with a mask of 8 words, and its
  -- ring has 16 entries. The operations are malloc and malloc_chained, get_pointer, reallocate,
  -- free, register_chained_memory, get_chained_pointer, get_all_chained_pointer and teardown, each
  -- where it returned, with its rounds bounded by one number, and, for get_pointer, reallocate and
  -- free, with a pointer that has one of the 64 superbins; any change of the memory between them;
  -- and initialize while every superbin of the arena has one metabin. An initialize of an arena
  -- with a superbin of more metabins is not among them.
  pub Reachable-AreValid :
      (a : ArenaInner l) → Reachable l x c dyn fuel a → AreValid one_each a.superbins
  Reachable-AreValid a (start e) = subst (AreValid one_each) (sym e) default_superbins-AreValid
  Reachable-AreValid a' (next {a = a} r s) = Step-AreValid one_each a a' s (Reachable-AreValid a r)
