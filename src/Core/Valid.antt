-- ===== src/Core/Valid.antt =====
-- The invariant of an arena: its 64 superbins are valid; and how it is kept by what is put into it.
use hyperion_rust.Common.{
  ℕ, ◌<◌, ◌≡◌, ap, subst, ◌∙◌, List, Option, none, some, set, get_or, length, length-set,
  get_or-set_self, get_or-set_ne, arith, ℕ_discrete,
}
use hyperion_rust.Allocator.{Libc, done, panic}
use hyperion_rust.Pointer.{HyperionPointer}
use hyperion_rust.Metabin.{Metabin}
use hyperion_rust.Metabin.Allocate.{IsMask}
use hyperion_rust.PointerArray.{get}
use hyperion_rust.Superbin.{Superbin, new_superbin}
use hyperion_rust.Superbin.Valid.{IsValid}
use hyperion_rust.Core.Search.Valid.{candidate-lt, set-IsValid}
use hyperion_rust.Core.Chunks.{ArenaInner, get_superbin_ref, get_metabin_ref, put_metabin, unwrap}

-- The superbins of an arena, each with the metabins that `floor` says at least.
pub record AreValid (floor : ℕ → ℕ) (superbins : List Superbin) : Type 0 where
  pub size : length superbins ≡ 64
  pub each : (i : ℕ) → i < 64 → IsValid (floor i) (get_or superbins i new_superbin)

-- At least one metabin in each.
abbrev pub one_each : ℕ → ℕ
one_each i = 1

pub set-AreValid :
    {floor : ℕ → ℕ} (superbins : List Superbin) (i : ℕ) (s : Superbin)
    → AreValid floor superbins
    → IsValid (floor i) s
    → AreValid floor (set superbins i s)
set-AreValid {floor = floor} superbins i s v h = record {
  size = length-set superbins i s ∙ v.size;
  each = λ j lt. elim (ℕ_discrete i j) [
    | yes same ↦
        subst (λ k. IsValid (floor k) (get_or (set superbins i s) k new_superbin)) same
          (rw (get_or-set_self superbins i s new_superbin (omega (arith, v.size))) h)
    | no other ↦ rw (get_or-set_ne superbins i j s new_superbin other) (v.each j lt)
  ];
}

module _ {floor : ℕ → ℕ} (l : Libc) (a : ArenaInner l) (p : HyperionPointer)
    (v : AreValid floor a.superbins) (few : p.superbin_id < 64) where
  unwrap-some : (o : Option Metabin) (m : Metabin) → unwrap o ≡ done m → o ≡ some m
  unwrap-some none m e = cc e
  unwrap-some (some m') m e =
      ap (λ r. elim r as (λ _. Option Metabin) [ done k ↦ some k | panic ↦ none ]) e

  -- A metabin that was found can be replaced by one with its id.
  pub put_metabin-AreValid :
      (m m' : Metabin)
      → get_metabin_ref l a p ≡ done m
      → m'.id ≡ m.id
      → (IsMask m.bin_usage_mask → IsMask m'.bin_usage_mask)
      → AreValid floor (put_metabin l a p m').superbins
  put_metabin-AreValid m m' e same mask =
      set-AreValid a.superbins p.superbin_id
        (record s { metabins = set s.metabins p.metabin_id (some m') }) v
        (set-IsValid s p.metabin_id s.bin_cache m' (v.each p.superbin_id few) there.0
          (same ∙ there.1) (mask there.2))
    where
      s : Superbin
      s = get_superbin_ref l a p

      there :
          (p.metabin_id < s.header.metabins_initialized)
          × (m.id ≡ p.metabin_id)
          × IsMask m.bin_usage_mask
      there =
          candidate-lt s p.metabin_id m (v.each p.superbin_id few)
            (unwrap-some (get s.metabins p.metabin_id) m e)
