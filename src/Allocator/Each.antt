-- ===== src/Allocator/Each.antt =====
-- What holds of every result of code that can panic.
use hyperion_rust.Common.{◌≡◌, refl, subst}
use hyperion_rust.Allocator.{Run, done, panic, ◌>>=◌}

-- The predicate holds of the result, if there is one.
abbrev pub Each {ℓ κ} : {A : Type ℓ} → (A → Type κ) → Run A → Type κ
Each P (done a) = P a
Each P panic = Unit

pub Each->>= {ℓ κ} :
    {A B : Type ℓ} (P : B → Type κ) (m : Run A) (f : A → Run B)
    → ((a : A) → m ≡ done a → Each P (f a))
    → Each P (m >>= f)
Each->>= P (done a) f h = h a refl
Each->>= P panic f h = tt

pub Each-done {ℓ κ} :
    {A : Type ℓ} (P : A → Type κ) (m : Run A) (a : A) → Each P m → m ≡ done a → P a
Each-done P m a h e = subst (Each P) e h
