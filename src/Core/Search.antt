-- ===== src/Core/Search.antt =====
-- memorymanager/internals/core.rs, `allocate_bin`: the search of a superbin for a free chunk.
pub mod Stuck
pub mod Ends
pub mod Bounded
pub mod Missing
pub mod Valid
use hyperion_rust.Common.{ℕ, zero, suc, true, false, none, some, set, get_or}
use hyperion_rust.Simd.Lanes.{Features}
use hyperion_rust.Allocator.{Libc, World}
use hyperion_rust.Pointer.{HyperionPointer, set_metabin_id}
use hyperion_rust.Metabin.{Metabin, State, Result}
use hyperion_rust.Metabin
use hyperion_rust.Superbin.{Superbin, get_metabin_candidate, self_update_metaring}

module _ (l : Libc) where
  -- The superbin that the pointer's id names, the pointer and the world.
  pub record Search : Type 0 where
    pub superbin : Superbin
    pub pointer : HyperionPointer
    pub world : World l

  -- `no_fuel` is that of a search that was given too few rounds.
  pub data SearchResult : Type 0 where
    found : Search → SearchResult
    panicked no_fuel : SearchResult

  -- What the metabin's own search works on.
  abbrev pub to_state : Metabin → Search → State l
  to_state m s = record {
    metabin = m;
    pointer = s.pointer;
    cache = record {
      bin_cache = s.superbin.bin_cache;
      size_of_bin = s.superbin.header.size_of_bin;
    };
    world = s.world;
  }

  -- The metabin that was changed through the reference goes back to its place, the first of the ring.
  abbrev pub put_back : State l → Search → Search
  put_back st s = record {
    superbin = record (s.superbin) {
      bin_cache = st.cache.bin_cache;
      metabins = set s.superbin.metabins (get_or s.superbin.metabin_ring 0 0) (some st.metabin);
    };
    pointer = st.pointer;
    world = st.world;
  }

  -- A metabin has 256 bins, so that 257 rounds are enough for its own search.
  pub allocate_bin : Features → ℕ → ℕ → Search → SearchResult
  allocate_bin c zero chain_count s = no_fuel
  allocate_bin c (suc fuel) chain_count s = elim (get_metabin_candidate s.superbin) [
    | none ↦ panicked
    | some m ↦ elim (Metabin.allocate_bin l c 257 chain_count (to_state m s)) [
      | Metabin.returned true st ↦
          found (record (put_back st s) { pointer = set_metabin_id st.pointer st.metabin.id })
      | Metabin.returned false st ↦
          allocate_bin c fuel chain_count
            (record (put_back st s) { superbin = self_update_metaring (put_back st s).superbin })
      | Metabin.panicked ↦ panicked
      | Metabin.no_fuel ↦ no_fuel
    ]
  ]
