-- ===== src/Server/Distinct.antt =====
-- The client map of src/socket/server/TcpServerSocket.h has one entry for a key.
use eventplus.Prelude.{
  ◌≡◌, refl, sym, ◌∙◌, inl, inr, ℤ, List, [], ◌∷◌, none, some, int_eq_refl, arith,
}
use eventplus.Common.Details.{Ptr}
use eventplus.Server.State.{lookup, erase, insert}
use eventplus.Server.Registry.{int-cases, lookup-insert_ne, lookup-erase}

abbrev pub Distinct : List (ℤ × Ptr) → Type 0
Distinct [] = Unit {0}
Distinct ((k, p) ∷ m) = (lookup k m ≡ none) × Distinct m

pub insert-Distinct :
    (fd : ℤ) (p : Ptr) (m : List (ℤ × Ptr)) → Distinct m → Distinct (insert fd p m)
unfolding insert lookup
insert-Distinct fd p [] d = (refl, tt)
insert-Distinct fd p ((k, q) ∷ m) (fresh, d) = elim (int-cases k fd) [
  | inl (e, t) ↦ rw t (fresh, d)
  | inr (e, t) ↦ rw t (lookup-insert_ne fd p m k (λ h. e (sym h)) ∙ fresh, insert-Distinct fd p m d)
]

pub erase-Distinct : (fd : ℤ) (m : List (ℤ × Ptr)) → Distinct m → Distinct (erase fd m)
unfolding erase
erase-Distinct fd [] d = tt
erase-Distinct fd ((k, q) ∷ m) (fresh, d) = elim (int-cases k fd) [
  | inl (e, t) ↦ rw t (erase-Distinct fd m d)
  | inr (e, t) ↦ rw t (lookup-erase fd k m ∙ ground arith, erase-Distinct fd m d)
]

-- The entries of a distinct list are what is found under their keys.
pub lookup-head : (k : ℤ) (p : Ptr) (m : List (ℤ × Ptr)) → lookup k ((k, p) ∷ m) ≡ some p
unfolding lookup
lookup-head k p m = rw (int_eq_refl k)

pub lookup-tail :
    (k j : ℤ) (p q : Ptr) (m : List (ℤ × Ptr))
    → lookup k m ≡ none
    → lookup j m ≡ some q
    → lookup j ((k, p) ∷ m) ≡ some q
unfolding lookup
lookup-tail k j p q m fresh l = elim (int-cases k j) [
  | inl (e, t) ↦ absurd (cc)
  | inr (e, t) ↦ rw t l
]
