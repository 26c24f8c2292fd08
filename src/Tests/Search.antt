-- ===== src/Tests/Search.antt =====
-- A full superbin, and the use of the theorem on its search.
use hyperion_rust.Core.Search.Missing.{AllFull, LacksNewest, allocate_bin_panics}
use hyperion_rust.PointerArray.Laws.{get-append_none}
use hyperion_rust.Superbin.Valid.{IsValid}
use hyperion_rust.Common.{
  Option, ◌++◌, length-append, length-replicate, dec_lt, subst, sym, ℕ, List, zero, suc, ◌+◌, ◌/◌,
  ◌%◌, ◌<◌, ◌≤◌, ◌≡◌, refl, ap, ◌∙◌, [], ◌∷◌, replicate, length, get_or, none, some, arith,
}
use hyperion_rust.Common.Bits.{bit_at, bit_at-zero}
use hyperion_rust.Common.Lists.{All-replicate}
use hyperion_rust.Mask.{IsWord, free_at}
use hyperion_rust.Pointer.{default_pointer}
use hyperion_rust.Metabin.{Metabin, default_metabin}
use hyperion_rust.Metabin.Allocate.{IsMask}
use hyperion_rust.PointerArray.{PointerArray, get}
use hyperion_rust.Superbin.Again.{Restarts, initialize-Restarts}
use hyperion_rust.Superbin.{initialize, Superbin, new_superbin}
use hyperion_rust.Core.Search.{Search, allocate_bin, no_fuel, panicked}
use hyperion_rust.Core.Search.Stuck.{IsFull, allocate_bin_stuck}
use hyperion_rust.Tests.{sse_only, bump, fresh}

abbrev numbered : ℕ → Metabin
numbered i = record default_metabin { id = i }

-- The mask of a metabin whose bins are all locked is 0 everywhere.
last-IsMask : IsMask (numbered 15).bin_usage_mask
last-IsMask = record { size = refl; words = All-replicate IsWord 8 0 (omega arith) }

abbrev zeros : ℕ → List ℕ
zeros n = replicate n 0

get_or-zeros : (n i : ℕ) → get_or (zeros n) i 0 ≡ 0
get_or-zeros zero i = refl
get_or-zeros (suc n) zero = refl
get_or-zeros (suc n) (suc i) = get_or-zeros n i

locked : (j : ℕ) → free_at (numbered 15).bin_usage_mask j ≡ 0
locked j = ap (λ w. bit_at w (j % 32)) (get_or-zeros 8 (j / 32)) ∙ bit_at-zero (j % 32)

numbered_from : ℕ → ℕ → PointerArray
numbered_from zero k = []
numbered_from (suc n) k = some (numbered k) ∷ numbered_from n (k + 1)

get-numbered_from : (n k i : ℕ) → i < n → get (numbered_from n k) i ≡ some (numbered (k + i))
unfolding numbered_from
get-numbered_from zero k i h = absurd (omega arith)
get-numbered_from (suc n) k zero h = ap (λ j. some (numbered j)) (omega arith)
get-numbered_from (suc n) k (suc i) h =
    get-numbered_from n (k + 1) i (omega arith) ∙ ap (λ j. some (numbered j)) (omega arith)

get-beyond : (n k i : ℕ) → n ≤ i → get (numbered_from n k) i ≡ none
unfolding numbered_from
get-beyond zero k i h = refl
get-beyond (suc n) k zero h = absurd (omega arith)
get-beyond (suc n) k (suc i) h = get-beyond n (k + 1) i (omega arith)

length-numbered_from : (n k : ℕ) → length (numbered_from n k) ≡ n
unfolding numbered_from
length-numbered_from zero k = refl
length-numbered_from (suc n) k = ap suc (length-numbered_from n (k + 1))

abbrev sixteen : Superbin
sixteen = record new_superbin {
  header = record (new_superbin.header) { metabins_initialized = 16 };
  metabins = numbered_from 16 0;
  metabin_ring = 15 ∷ replicate 15 0;
}

sixteen-IsFull : IsFull (numbered 15) sixteen
sixteen-IsFull = record {
  valid = record {
    room = omega (arith, length-numbered_from 16 0);
    one_metabin = omega arith;
    above = omega arith;
    few = omega arith;
    present = λ i h. (
      numbered i,
      get-numbered_from 16 0 i h ∙ ap (λ j. some (numbered j)) {x = 0 + i} (omega arith),
      refl,
      last-IsMask,
    );
    absent = λ i h. get-beyond 16 0 i h;
    ring_size = refl;
  };
  all_16 = refl;
  last_first = refl;
  last = get-numbered_from 16 0 15 (omega arith);
}

abbrev searching : Search bump
searching = record { superbin = sixteen; pointer = default_pointer; world = fresh }

allocate_bin_stuck_example : allocate_bin bump sse_only 1000 0 searching ≡ no_fuel
allocate_bin_stuck_example =
    allocate_bin_stuck bump sse_only 0 (numbered 15) last-IsMask locked 1000 searching
      sixteen-IsFull

initialize-Restarts_example : Restarts sixteen (initialize sixteen 3)
initialize-Restarts_example = initialize-Restarts sixteen 3 sixteen-IsFull.valid

-- Three full metabins, room for more, and a ring of 0s.
abbrev three : Superbin
three = record new_superbin {
  header = record (new_superbin.header) { metabins_initialized = 3 };
  metabins = numbered_from 3 0 ++ replicate 13 none;
}

get-three : (i : ℕ) → get three.metabins i ≡ get (numbered_from 3 0) i
get-three i = get-append_none (numbered_from 3 0) 13 i

get-three_lt : (i : ℕ) → i < 3 → get three.metabins i ≡ some (numbered i)
get-three_lt i h =
    get-three i ∙ get-numbered_from 3 0 i h ∙ ap (λ j. some (numbered j)) {x = 0 + i} (omega arith)

three-IsValid : IsValid 1 three
three-IsValid = record {
  room = omega (
    arith,
    length-append (numbered_from 3 0) (replicate 13 none),
    length-numbered_from 3 0,
    length-replicate {A = Option Metabin} 13 none,
  );
  one_metabin = omega arith;
  above = omega arith;
  few = omega arith;
  present = λ i h. (numbered i, get-three_lt i h, refl, last-IsMask);
  absent = λ i h. get-three i ∙ get-beyond 3 0 i h;
  ring_size = refl;
}

-- The metabin, if there is one, has no free bit.
abbrev NoneFree : ℕ → Option Metabin → Type 0
NoneFree j none = Unit
NoneFree j (some m) = free_at m.bin_usage_mask j ≡ 0

three-AllFull : AllFull three
three-AllFull i m e j = elim (dec_lt i 3) [
  | yes h ↦ subst (NoneFree j) (sym (get-three_lt i h) ∙ e) (locked j)
  | no h ↦ absurd (none_some (sym (get-three i ∙ get-beyond 3 0 i (omega arith)) ∙ e))
]
  where
    none_some : none ≡ some m → ⊥
    none_some e' = cc e'

three-LacksNewest : LacksNewest 16 three
three-LacksNewest i h e = absurd (omega (arith, get_or-zeros 16 i))

allocate_bin_panics_example :
    allocate_bin bump sse_only 17 0
      (record { superbin = three; pointer = default_pointer; world = fresh })
    ≡ panicked
allocate_bin_panics_example =
    allocate_bin_panics bump sse_only 0 17
      (record { superbin = three; pointer = default_pointer; world = fresh }) (omega arith)
      three-IsValid three-AllFull three-LacksNewest
