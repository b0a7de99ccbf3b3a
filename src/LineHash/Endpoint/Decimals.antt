-- ===== src/LineHash/Endpoint/Decimals.antt =====
-- The decimal text of a number, as `format!("{n}")` writes it, and reading it back.
use octofs.Prelude.{
  subst, ℕ, zero, suc, ◌+◌, ◌-◌, ◌*◌, ◌/◌, ◌%◌, ◌<◌, ◌≡◌, refl, ap, ◌∙◌, true, some, inl, inr, [],
  ◌∷◌, ◌++◌, arith, ltb, if◌then◌else◌, Bool-cases, All,
}
use octofs.LineHash.Endpoint.{Chars, is_digit, parse_digits}

decimal_from : ℕ → ℕ → Chars
decimal_from zero n = []
decimal_from (suc fuel) n =
    let front = decimal_from fuel (n / 10) ++ (b'0' + n % 10) ∷ [] in
    if ltb n 10 then (b'0' + n) ∷ [] else front

-- A number has fewer digits than its value plus one.
unfoldable pub decimal : ℕ → Chars
unfolding decimal_from
decimal n = decimal_from (suc n) n

parse_digits-append :
    (acc : ℕ) (s : Chars) (d v : ℕ)
    → is_digit d ≡ true
    → parse_digits acc s ≡ some v
    → parse_digits acc (s ++ d ∷ []) ≡ some (v * 10 + (d - b'0'))
unfolding parse_digits
parse_digits-append acc [] d v h e = ground arith
parse_digits-append acc (c ∷ cs) d v h e =
    ground (arith, parse_digits-append (acc * 10 + (c - b'0')) cs d v h)

parse_digits-decimal_from : (fuel n : ℕ) → n < fuel → parse_digits 0 (decimal_from fuel n) ≡ some n
unfolding decimal_from
parse_digits-decimal_from zero n h = absurd (omega arith)
parse_digits-decimal_from (suc fuel) n h = elim (Bool-cases (ltb n 10)) [
  | inl e ↦ rw e (unfold parse_digits in ground arith)
  | inr e ↦ rw e (
      parse_digits-append 0 (decimal_from fuel (n / 10)) (b'0' + n % 10) (n / 10) (ground arith)
        (parse_digits-decimal_from fuel (n / 10) (ground arith))
      ∙ ap some (omega arith))
]

pub parse_digits-decimal : (n : ℕ) → parse_digits 0 (decimal n) ≡ some n
unfolding decimal
parse_digits-decimal n = parse_digits-decimal_from (suc n) n (omega arith)

All-append : (P : ℕ → Type 0) (s t : Chars) → All P s → All P t → All P (s ++ t)
All-append P [] t h k = k
All-append P (c ∷ s) t h k = (h.0, All-append P s t h.1 k)

abbrev pub AreDigits : Chars → Type 0
AreDigits = All (λ c. is_digit c ≡ true)

AreDigits-decimal_from : (fuel n : ℕ) → AreDigits (decimal_from fuel n)
unfolding decimal_from
AreDigits-decimal_from zero n = tt
AreDigits-decimal_from (suc fuel) n = elim (Bool-cases (ltb n 10)) [
  | inl e ↦ rw e (ground arith, tt)
  | inr e ↦ rw e (
      All-append (λ c. is_digit c ≡ true) (decimal_from fuel (n / 10)) _
        (AreDigits-decimal_from fuel (n / 10)) (ground arith, tt))
]

pub AreDigits-decimal : (n : ℕ) → AreDigits (decimal n)
unfolding decimal
AreDigits-decimal n = AreDigits-decimal_from (suc n) n

snoc-cons : (s : Chars) (d : ℕ) → (c : ℕ) × (cs : Chars) × (s ++ d ∷ [] ≡ c ∷ cs)
snoc-cons [] d = (d, [], refl)
snoc-cons (c ∷ s) d = (c, s ++ d ∷ [], refl)

decimal_from-cons : (fuel n : ℕ) → (c : ℕ) × (cs : Chars) × (decimal_from (suc fuel) n ≡ c ∷ cs)
unfolding decimal_from
decimal_from-cons fuel n = elim (Bool-cases (ltb n 10)) [
  | inl e ↦ rw e (b'0' + n, [], refl)
  | inr e ↦ rw e (snoc-cons (decimal_from fuel (n / 10)) (b'0' + n % 10))
]

-- The text of a number begins with a digit.
pub decimal-cons : (n : ℕ) → (c : ℕ) × (cs : Chars) × (decimal n ≡ c ∷ cs) × (is_digit c ≡ true)
unfolding decimal
decimal-cons n =
    let (c, cs, e) = decimal_from-cons n n in
    (c, cs, e, (subst AreDigits e (AreDigits-decimal n)).0)
