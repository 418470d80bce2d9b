-- ===== src/Server/Registry.antt =====
-- The client map of src/socket/server/TcpServerSocket.h, and the memory of stores, as functions of
-- the key that is looked up.
use eventplus.Prelude.{
  ◌≡◌, ◌≢◌, refl, ◌⊎◌, inl, inr, ℤ, true, false, List, [], ◌∷◌, Option, none, some, int_eq,
  int_eq_iff, int_eq_refl, ◌==◌, if◌then◌else◌, arith, Bool-cases, ==_iff, ne→==,
}
use eventplus.Common.Details.{Ptr, EventStore}
use eventplus.Server.State.{lookup, erase, insert, update, delete}

pub lookup-insert :
    (fd j : ℤ) (p : Ptr) (m : List (ℤ × Ptr))
    → lookup j (insert fd p m) ≡ (if int_eq fd j then some p else lookup j m)
unfolding lookup insert
lookup-insert fd j p [] = refl
lookup-insert fd j p ((k, q) ∷ m) =
    ground (arith, int_eq_iff k fd, int_eq_iff k j, int_eq_iff fd j, lookup-insert fd j p m)

pub lookup-erase :
    (fd j : ℤ) (m : List (ℤ × Ptr))
    → lookup j (erase fd m) ≡ (if int_eq fd j then none else lookup j m)
unfolding lookup erase
lookup-erase fd j [] = ground arith
lookup-erase fd j ((k, q) ∷ m) =
    ground (arith, int_eq_iff k fd, int_eq_iff k j, int_eq_iff fd j, lookup-erase fd j m)

pub ptr-cases : (p q : Ptr) → (p ≡ q) ⊎ (p ≢ q)
ptr-cases p q = elim (Bool-cases (p == q)) [
  | inl h ↦ inl ((==_iff p q).0 h)
  | inr h ↦ inr (ground arith)
]

pub int-cases : (a b : ℤ) → ((a ≡ b) × (int_eq a b ≡ true)) ⊎ ((a ≢ b) × (int_eq a b ≡ false))
int-cases a b = elim (Bool-cases (int_eq a b)) [
  | inl h ↦ inl ((int_eq_iff a b).0 h, h)
  | inr h ↦ inr (λ e. cc ((int_eq_iff a b).1 e), h)
]

module _ (fd : ℤ) (p : Ptr) (m : List (ℤ × Ptr)) where
  pub lookup-insert_self : lookup fd (insert fd p m) ≡ some p
  lookup-insert_self = rw (lookup-insert fd fd p m, int_eq_refl fd)

  pub lookup-insert_ne : (j : ℤ) → fd ≢ j → lookup j (insert fd p m) ≡ lookup j m
  lookup-insert_ne j h = ground (arith, lookup-insert fd j p m, int_eq_iff fd j)

  pub insert_entry :
      (j : ℤ) (q : Ptr)
      → lookup j (insert fd p m) ≡ some q
      → ((fd ≡ j) × (p ≡ q)) ⊎ ((fd ≢ j) × (lookup j m ≡ some q))
  insert_entry j q l = elim (int-cases fd j) [
    | inl (h, t) ↦ inl (h, ground (arith, lookup-insert fd j p m))
    | inr (h, t) ↦ inr (h, ground (arith, lookup-insert fd j p m))
  ]

module _ (fd : ℤ) (m : List (ℤ × Ptr)) where
  pub lookup-erase_self : lookup fd (erase fd m) ≡ none
  lookup-erase_self = rw (lookup-erase fd fd m, int_eq_refl fd)

  pub lookup-erase_ne : (j : ℤ) → fd ≢ j → lookup j (erase fd m) ≡ lookup j m
  lookup-erase_ne j h = ground (arith, lookup-erase fd j m, int_eq_iff fd j)

  pub erase_entry :
      (j : ℤ) (q : Ptr) → lookup j (erase fd m) ≡ some q → (fd ≢ j) × (lookup j m ≡ some q)
  erase_entry j q l = elim (int-cases fd j) [
    | inl (h, t) ↦ absurd (ground (arith, lookup-erase fd j m))
    | inr (h, t) ↦ (h, ground (arith, lookup-erase fd j m))
  ]

module _ (f : Ptr → Option EventStore) where
  pub update_same : (p : Ptr) (v : Option EventStore) → update f p v p ≡ v
  update_same p v = rw ((==_iff p p).1 refl)

  pub update_other : (p q : Ptr) (v : Option EventStore) → p ≢ q → update f p v q ≡ f q
  update_other p q v h = rw (ne→== p q h)

  pub delete_self : (q : Ptr) → delete f (some q) q ≡ none
  unfolding delete
  delete_self q = update_same q none

  pub delete_other : (o : Option Ptr) (q : Ptr) → o ≢ some q → delete f o q ≡ f q
  unfolding delete
  delete_other none q h = refl
  delete_other (some p) q h = rw (ne→== p q (λ e. h (cc)))

  -- What is still there after a deletion was there before, and is not what was deleted.
  pub delete_survivor :
      (o : Option Ptr) (q : Ptr) (st : EventStore)
      → delete f o q ≡ some st
      → (f q ≡ some st) × (o ≢ some q)
  unfolding delete
  delete_survivor none q st e = (e, λ h. cc)
  delete_survivor (some p) q st e = (ground arith, λ h. ground arith)

  pub update_survivor :
      (p q : Ptr) (new st : EventStore)
      → update f p (some new) q ≡ some st
      → ((p ≡ q) × (new ≡ st)) ⊎ ((p ≢ q) × (f q ≡ some st))
  update_survivor p q new st e = elim (Bool-cases (p == q)) [
    | inl same ↦ inl ((==_iff p q).0 same, ground arith)
    | inr other ↦ inr (ground arith, ground arith)
  ]
