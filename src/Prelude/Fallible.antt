-- ===== src/Prelude/Fallible.antt =====
-- Results of code that can throw, fault or be cut off, with the monad of their composition.
use mathlib.Core.Path.{◌≡◌, refl}

-- `out_of_fuel` is no behaviour of the code: the model stopped before the code did.
pub data Fault : Type 0 where
  length_error runtime_error out_of_range : Fault
  dangling null_pointer division_by_zero aborted : Fault
  out_of_fuel : Fault

pub data Result {u} (R : Type u) : Type u where
  err : Fault → Result R
  ok : R → Result R

-- Total correctness: the run ends without a fault, and its result satisfies `P`.
abbrev pub Returns {u} : {R : Type u} → (R → Type 0) → Result R → Type 0
Returns P (err fault) = ⊥
Returns P (ok r) = P r

infixl 5 ◌>>=◌
abbrev pub ◌>>=◌ {u v} : {R : Type u} {S : Type v} → Result R → (R → Result S) → Result S
err fault >>= next = err fault
ok r >>= next = next r

-- A chain that succeeded did so at its first link, and from there on.
pub first_link {u v} :
    {R : Type u} {S : Type v} (run : Result R) {next : R → Result S} (end : S)
    → run >>= next ≡ ok end
    → (r : R) × (run ≡ ok r) × (next r ≡ ok end)
first_link (err fault) end e = cc
first_link (ok r) end e = (r, refl, e)

pub Returns->>= {ℓ κ} :
    {A : Type ℓ} {B : Type κ} (P : A → Type 0) (Q : B → Type 0) (m : Result A) (f : A → Result B)
    → Returns P m
    → ((a : A) → P a → Returns Q (f a))
    → Returns Q (m >>= f)
Returns->>= P Q (ok a) f h step = step a h
Returns->>= P Q (err e) f h step = absurd h

pub Returns-map {ℓ} :
    {A : Type ℓ} (P Q : A → Type 0) (m : Result A)
    → Returns P m
    → ((a : A) → P a → Q a)
    → Returns Q m
Returns-map P Q (ok a) h weaker = weaker a h
Returns-map P Q (err e) h weaker = absurd h

-- What holds of any result that the run gives.
pub Returns-ok {ℓ} :
    {A : Type ℓ} (P : A → Type 0) {Q : A → Type 0} (m : Result A)
    → Returns P m
    → ((a : A) → m ≡ ok a → Q a)
    → Returns (λ a. P a × Q a) m
Returns-ok P (ok a) h also = (h, also a refl)
Returns-ok P (err e) h also = absurd h

pub Returns-result {ℓ} :
    {A : Type ℓ} (P : A → Type 0) (m : Result A) → Returns P m → (a : A) × (m ≡ ok a)
Returns-result P (ok a) h = (a, refl)
Returns-result P (err e) h = absurd h
