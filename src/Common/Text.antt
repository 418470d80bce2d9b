-- ===== src/Common/Text.antt =====
-- What the program uses of the C++ library for numbers as text: `std::to_string` and `atoi`.
use eventplus.Prelude.{
  ℕ, zero, suc, ◌+◌, ◌-◌, ◌*◌, ◌/◌, ◌%◌, ◌<◌, ◌≡◌, refl, ◌∙◌, ap, ℤ, pos, negsuc, Bool, true, [],
  ◌∷◌, Bool-cases, inl, inr, ltb, leb, ◌==◌, ◌&&◌, ◌||◌, if◌then◌else◌, arith,
}
use eventplus.Common.Details.{Bytes}

-- The decimal digits of `n` before `text`; more fuel than `n` is enough.
unfoldable pub digits : ℕ → ℕ → Bytes → Bytes
digits zero n text = text
digits (suc fuel) n text =
    let more = digits fuel (n / 10) ((b'0' + n % 10) ∷ text) in
    if ltb n 10 then (b'0' + n) ∷ text else more

unfoldable pub to_string : ℤ → Bytes
unfolding digits
to_string (pos n) = digits (suc n) n []
to_string (negsuc n) = b'-' ∷ digits (suc (suc n)) (suc n) []

abbrev pub is_digit : ℕ → Bool
is_digit c = leb b'0' c && leb c b'9'

abbrev is_space : ℕ → Bool
is_space c = c == b' ' || leb 9 c && leb c 13

unfoldable pub atoi_from : ℕ → Bytes → ℕ
atoi_from acc [] = acc
atoi_from acc (c ∷ text) =
    let rest = atoi_from (acc * 10 + (c - b'0')) text in if is_digit c then rest else acc

abbrev negate : ℕ → ℤ
negate zero = pos 0
negate (suc n) = negsuc n

unfoldable pub atoi_signed : Bytes → ℤ
unfolding atoi_from
atoi_signed [] = pos 0
atoi_signed (c ∷ text) =
    if c == b'-'
    then negate (atoi_from 0 text)
    else if c == b'+'
    then pos (atoi_from 0 text)
    else pos (atoi_from 0 (c ∷ text))

-- White space, a sign and digits, up to the first other character; for values that an `int` holds.
unfoldable pub atoi : Bytes → ℤ
unfolding atoi_signed
atoi [] = pos 0
atoi (c ∷ text) = let rest = atoi text in if is_space c then rest else atoi_signed (c ∷ text)

atoi_from-digits :
    (fuel n : ℕ) (text : Bytes) → n < fuel → atoi_from 0 (digits fuel n text) ≡ atoi_from n text
unfolding digits atoi_from
atoi_from-digits zero n text h = absurd (omega arith)
atoi_from-digits (suc fuel) n text h = elim (Bool-cases (ltb n 10)) [
  | inl small ↦ ground arith
  | inr large ↦ ground (arith, atoi_from-digits fuel (n / 10) ((b'0' + n % 10) ∷ text))
]

-- A number is printed with a digit first.
digits-head :
    (fuel n : ℕ) (text : Bytes)
    → (c : ℕ) × (rest : Bytes) × (digits (suc fuel) n text ≡ c ∷ rest) × (is_digit c ≡ true)
unfolding digits
digits-head zero n text = elim (Bool-cases (ltb n 10)) [
  | inl small ↦ (b'0' + n, text, (rw small), ground arith)
  | inr large ↦ (b'0' + n % 10, text, (rw large), ground arith)
]
digits-head (suc fuel) n text = elim (Bool-cases (ltb n 10)) [
  | inl small ↦ (b'0' + n, text, (rw small), ground arith)
  | inr large ↦ rw large (digits-head fuel (n / 10) ((b'0' + n % 10) ∷ text))
]

atoi-digit :
    (c : ℕ) (text : Bytes) → is_digit c ≡ true → atoi (c ∷ text) ≡ pos (atoi_from 0 (c ∷ text))
unfolding atoi atoi_signed
atoi-digit c text d = ground arith

atoi-digits : (n : ℕ) → atoi (digits (suc n) n []) ≡ pos n
unfolding atoi_from
atoi-digits n =
    let (c, rest, e, d) = digits-head n n [] in
    rw e (atoi-digit c rest d ∙ ap pos (rw e at (atoi_from-digits (suc n) n [] (omega arith))))

atoi-minus : (text : Bytes) → atoi (b'-' ∷ text) ≡ negate (atoi_from 0 text)
unfolding atoi atoi_signed
atoi-minus text = refl

-- What is printed is read back.
pub atoi-to_string : (v : ℤ) → atoi (to_string v) ≡ v
unfolding to_string atoi_from
atoi-to_string (pos n) = atoi-digits n
atoi-to_string (negsuc n) =
    atoi-minus _ ∙ ap negate (atoi_from-digits (suc (suc n)) (suc n) [] (omega arith))
