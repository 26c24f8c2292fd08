-- ===== src/Api/Chained.antt =====
-- Chains of extended pointers through the operations of api.rs.
use hyperion_rust.Common.{
  ℕ, zero, suc, get_or, length, subst, ℕ_discrete, length-set, get_or-set_self, get_or-set_ne, ◌+◌,
  ◌*◌, ◌/◌, ◌%◌, Bool-cases, ◌≤◌, ◌<◌, ◌≡◌, ◌≢◌, ◌⊎◌, inl, inr, refl, ap, sym, ◌∙◌, ◌==◌,
  if◌then◌else◌, Bool, true, false, some, set, ltb, arith,
}
use hyperion_rust.Allocator.{
  Libc, World, Run, done, panic, AllocatedBy, heap, mmap, auto_free_memory, free_mmap, free_heap,
}
use hyperion_rust.Pointer.{HyperionPointer, compression_into_bits}
use hyperion_rust.Bin.{Bin}
use hyperion_rust.Core.{ExtendedHyperionPointer, alloc_size, has_data, as_i16}
use hyperion_rust.Core.Chunks.{Access, ArenaInner, get_bin_ref, extended_address, read_extended}
use hyperion_rust.Core.Allocate.{finished, and_then, lift}
use hyperion_rust.Api.{
  SegmentChain, register_at, find_data, free_data, register_chained_memory, collect,
  get_all_chained_pointer, get_chained_pointer,
}

-- Memory that is there is freed without a panic.
pub auto_free_memory_returns :
    (l : Libc) (ptr size : ℕ) (by : AllocatedBy) (w : World l)
    → (ptr == 0) ≡ false
    → (r : Bool × World l) × (auto_free_memory l ptr size by w ≡ done r)
unfolding auto_free_memory
auto_free_memory_returns l ptr size mmap w e = (free_mmap l ptr size w, rw e refl)
auto_free_memory_returns l ptr size heap w e = (free_heap l ptr w, rw e refl)

module _ (l : Libc) (x : Access l) where
  free_data_returns :
      (e : ExtendedHyperionPointer) (w : World l) → (w' : World l) × (free_data l x e w ≡ done w')
  free_data_returns e w = elim (Bool-cases (e.data_pointer == 0)) [
    | inl null ↦ (w, rw null refl)
    | inr there ↦
        let r = auto_free_memory_returns l e.data_pointer (alloc_size e) e.alloced_by w there in
        (r.0.1, rw (there, r.1) refl)
  ]

  find_data_here :
      (fuel address : ℕ) (w : World l)
      → has_data (x.load address w.mem) ≡ true
      → find_data l x (suc fuel) address w ≡ some address
  unfolding find_data
  find_data_here fuel address w there = rw there refl

  -- The look-up of an entry that has data and is not compressed beyond DEFLATE.
  get_chained_pointer_there :
      (dyn : ℕ) (a : ArenaInner l) (p : HyperionPointer) (b : Bin) (c n address : ℕ) (init : Bool)
      (e : ExtendedHyperionPointer)
      → get_bin_ref l a p ≡ done b
      → extended_address b p + c / 32 * 16 ≡ address
      → x.load address a.world.mem ≡ e
      → has_data e ≡ true
      → compression_into_bits e.compression_state ≤ 1
      → get_chained_pointer l x dyn a p c init n
        ≡ done ((read_extended l x a address).0, e.data_pointer)
  unfolding get_chained_pointer
  get_chained_pointer_there dyn a p b c n address init e e1 e2 e3 e4 e5 =
      rw (e1, e2, e3, e4, e3, plain) refl
    where
      plain : ltb 1 (compression_into_bits e.compression_state) ≡ false
      plain = ground arith

  module _ (dyn : ℕ) (a : ArenaInner l) (p : HyperionPointer) (b : Bin)
      (c c' segment size over fuel : ℕ) (inplace : Bool) where
    -- The address of the entry for the character.
    abbrev pub entry : ℕ
    entry = extended_address b p + c / 32 * 16

    -- A segment that is registered for a character is what a look-up of any character with the same
    -- first 3 bits gives, whether it may allocate or not. The registration itself returns, with
    -- fuel for one step. This holds for a segment that is not null, where the entry is not compressed beyond DEFLATE, and,
    -- unless the registration is in place, already has data.
    pub get_chained_pointer-register_chained_memory :
        get_bin_ref l a p ≡ done b
        → segment ≢ 0
        → c / 32 ≡ c' / 32
        → compression_into_bits (x.load entry a.world.mem).compression_state ≤ 1
        → (inplace ≡ true) ⊎ (has_data (x.load entry a.world.mem) ≡ true)
        → (a' : ArenaInner l) × (register_chained_memory l x
              (suc fuel)
              a
              p
              c
              segment
              size
              inplace
              over
            ≡ finished a')
          × ((init : Bool) (n : ℕ)
              → get_chained_pointer l x dyn a' p c' init n
                ≡ done ((read_extended l x a' entry).0, segment))
    unfolding register_chained_memory
    get_chained_pointer-register_chained_memory e1 e2 e3 e4 e5 = (a', registered e5, looked_up)
      where
        old : ExtendedHyperionPointer
        old = x.load entry a.world.mem

        w : World l
        w = (free_data_returns old a.world).0

        new : ExtendedHyperionPointer
        new = record old {
          data_pointer = segment;
          requested_size = size % 4294967296;
          overallocated = as_i16 over;
          alloced_by = heap;
        }

        a' : ArenaInner l
        a' = record a { world = record w { mem = x.store entry new w.mem } }

        registered :
            (inplace ≡ true) ⊎ (has_data old ≡ true)
            → register_chained_memory l x (suc fuel) a p c segment size inplace over ≡ finished a'
        registered (inl yes_inplace) = rw (e1, yes_inplace, (free_data_returns old a.world).1) refl
        registered (inr there) =
            elim inplace
              as (λ t.
                register_chained_memory l x (suc fuel) a p c segment size t over ≡ finished a') [
                  | true ↦ rw (e1, (free_data_returns old a.world).1) refl
                  | false ↦
                      rw
                        (
                          e1,
                          and_then,
                          lift,
                          if◌then◌else◌,
                          find_data_here fuel entry a.world there,
                          register_at,
                          (free_data_returns old a.world).1,
                        )
                        refl
                ]

        looked_up :
            (init : Bool) (n : ℕ)
            → get_chained_pointer l x dyn a' p c' init n
              ≡ done ((read_extended l x a' entry).0, segment)
        looked_up init n =
            get_chained_pointer_there dyn a' p b c' n entry init new e1
              (ap (λ k. extended_address b p + k * 16) (sym e3)) (x.load-store entry new w.mem)
              (ground arith) e4

  -- A run of the loop returned this many elements, which are all the same address.
  abbrev pub AllAre : ℕ → ℕ → Run (ArenaInner l × SegmentChain × ℕ) → Type 0
  AllAre address elements panic = ⊥
  AllAre address elements (done (a, chain, n)) =
      (n ≡ elements) × ((j : ℕ) → j < elements → get_or chain.pointer j 0 ≡ address)

  module _ (head address : ℕ) (some_address : address ≢ 0) where
    collect-AllAre :
        (n i elements : ℕ) (chain : SegmentChain) (a : ArenaInner l)
        → (x.load head a.world.mem).data_pointer ≡ address
        → compression_into_bits (x.load head a.world.mem).compression_state ≤ 1
        → elements + n ≤ length chain.pointer
        → ((j : ℕ) → j < elements → get_or chain.pointer j 0 ≡ address)
        → AllAre address (elements + n) (collect l x n i head elements chain a)
    unfolding collect
    collect-AllAre zero i elements chain a e1 e2 h so_far =
        (omega arith, λ j lt. so_far j (omega arith))
    collect-AllAre (suc n) i elements chain a e1 e2 h so_far =
        rw (AllAre, there, plain)
          (subst (λ k. AllAre address k (collect l x n (i + 32) head (elements + 1) filled read))
            {x = elements + 1 + n} (omega arith)
            (collect-AllAre n (i + 32) (elements + 1) filled read
              (ap (λ e. e.data_pointer) stored ∙ e1) (rw stored e2)
              (omega (arith, h, length-set chain.pointer elements segment))
              (λ j lt. elim (ℕ_discrete j elements) [
                | yes last ↦
                    rw (last, get_or-set_self chain.pointer elements segment 0 (omega (arith, h)))
                      e1
                | no earlier ↦
                    rw (get_or-set_ne chain.pointer elements j segment 0 (λ e. earlier (sym e)))
                      (so_far j (omega arith))
              ])))
      where
        segment : ℕ
        segment = (x.load head a.world.mem).data_pointer

        filled : SegmentChain
        filled = record chain {
          chars = set chain.chars elements (i % 256);
          pointer = set chain.pointer elements segment;
        }

        read : ArenaInner l
        read = (read_extended l x a head).0

        stored :
            x.load head read.world.mem ≡ record (x.load head a.world.mem) { chance2nd_read = 0 }
        stored =
            x.load-store head (record (x.load head a.world.mem) { chance2nd_read = 0 }) a.world.mem

        there : has_data (x.load head a.world.mem) ≡ true
        there = ground arith

        plain : ltb 1 (compression_into_bits (x.load head a.world.mem).compression_state) ≡ false
        plain = ground arith

    -- Collecting the segments of a chain whose first entry has data, and is not compressed beyond
    -- DEFLATE, returns 8 elements if there is room for them. All of them are the data of the first
    -- entry, whatever the other entries hold.
    pub get_all_chained_pointer-AllAre :
        (chain : SegmentChain) (a : ArenaInner l) (p : HyperionPointer) (b : Bin)
        → get_bin_ref l a p ≡ done b
        → extended_address b p ≡ head
        → 0 < (x.load head a.world.mem).chained_pointer_count
        → (x.load head a.world.mem).data_pointer ≡ address
        → compression_into_bits (x.load head a.world.mem).compression_state ≤ 1
        → 8 ≤ length chain.pointer
        → AllAre address 8 (get_all_chained_pointer l x chain a p)
    unfolding get_all_chained_pointer
    get_all_chained_pointer-AllAre chain a p b e1 e2 e3 e4 e5 h =
        rw (e1, e2, is_chain) (collect-AllAre 8 0 0 chain a e4 e5 h (λ j lt. absurd (omega arith)))
      where
        is_chain : ltb 0 (x.load head a.world.mem).chained_pointer_count ≡ true
        is_chain = ground arith
