-- ===== src/Container/Laws.antt =====
-- What incrementing a container's size and updating its jump table achieve.
use hyperion_rust.Common.{
  ℕ, ◌+◌, ◌*◌, ◌/◌, ◌%◌, ◌<◌, ◌≤◌, ◌≡◌, ◌≢◌, refl, ◌==◌, ltb, if◌then◌else◌, false, arith, List,
  get_or, set, ℕ_discrete,
}
use native.Mathlib.Nat.{add-mul}
use hyperion_rust.Container.{Container, JumpEntry, no_entry, incremented_size, move_entry}

-- With an increment above 0, an incremented container is at least the required minimum larger, by
-- less than one increment more than that, and larger by a multiple of the increment.
incremented_size_lem :
    (k : ℕ) (c : Container) (required : ℕ)
    → 0 < k
    → (c.size + required ≤ incremented_size k c required)
      × (incremented_size k c required < c.size + required + k)
      × ((n : ℕ) × (incremented_size k c required ≡ c.size + n * k))
unfolding incremented_size
incremented_size_lem k c required h = elim (ℕ_discrete (required % k) 0) [
  | yes exact ↦ rw exact (omega arith, omega arith, (required / k, refl))
  | no rest ↦ rw (more rest) (
    omega (arith, add-mul (required / k) 1 k),
    omega (arith, add-mul (required / k) 1 k),
    (required / k + 1, refl),
  )
]
  where
    more : required % k ≢ 0 → (required % k == 0) ≡ false
    more r = ground arith

-- The keys of the first `n` entries ascend.
unfoldable pub Ascending : ℕ → List JumpEntry → Type 0
Ascending n entries =
    (i j : ℕ) → i ≤ j → j < n → (get_or entries i no_entry).key ≤ (get_or entries j no_entry).key

-- An entry moved if its key is above, and as it was if not.
unfoldable pub moved : ℕ → ℕ → JumpEntry → JumpEntry
moved top_node_key usage_delta e = if ltb top_node_key e.key then move_entry usage_delta e else e

module _ (n k d : ℕ) (entries : List JumpEntry) where
  abbrev next : List JumpEntry
  next = set entries n (move_entry d (get_or entries n no_entry))
