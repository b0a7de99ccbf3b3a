-- ===== src/Auth/Compares.antt =====
-- The comparison in constant time is equality.
use octofs.Prelude.{
  ℕ, zero, suc, ◌<◌, ◌≡◌, ◌↔◌, refl, sym, ap, ap₂, ◌∙◌, Bool, true, false, not, ◌&&◌, [], ◌∷◌, ◌==◌,
  ltb, if◌then◌else◌, length, arith, All,
}
use Prim.Native.Nat.{bit_or, bit_xor}
use octofs.Text.{Bytes}
use octofs.Auth.{difference, constant_time_eq}

-- What holds of all bytes below a number.
holds_to : (ℕ → Bool) → ℕ → Bool
holds_to p zero = true
holds_to p (suc n) = if p n then holds_to p n else false

holds-at : (p : ℕ → Bool) (n x : ℕ) → holds_to p n ≡ true → x < n → p x ≡ true
unfolding holds_to
holds-at p zero x h l = absurd (omega arith)
holds-at p (suc n) x h l = ground (arith, holds-at p n x)

abbrev same : Bool → Bool → Bool
same true b = b
same false b = not b

-- Of two bytes: their union and difference are bytes, zero exactly where both are or they are equal.
abbrev fits : ℕ → ℕ → Bool
fits x y =
    (ltb (bit_or x y) 256 && ltb (bit_xor x y) 256)
    && (same (bit_or x y == 0) (x == 0 && y == 0) && same (bit_xor x y == 0) (x == y))

table : holds_to (λ x. holds_to (fits x) 256) 256 ≡ true
unfolding holds_to
table = refl

fits_bytes : (x y : ℕ) → x < 256 → y < 256 → fits x y ≡ true
fits_bytes x y h k = holds-at (fits x) 256 y (holds-at (λ i. holds_to (fits i) 256) 256 x table h) k

-- The same of a union `u` and a difference `d` that are taken for unknown.
or_zero : (x y : ℕ) → x < 256 → y < 256 → bit_or x y ≡ 0 → (x ≡ 0) × (y ≡ 0)
or_zero x y h k e = facts (bit_or x y) (bit_xor x y) (fits_bytes x y h k) e
  where
    facts :
        (u d : ℕ)
        → ((ltb u 256 && ltb d 256) && (same (u == 0) (x == 0 && y == 0) && same (d == 0) (x == y)))
          ≡ true
        → u ≡ 0
        → (x ≡ 0) × (y ≡ 0)
    facts u d f z = ground arith

xor_zero : (x y : ℕ) → x < 256 → y < 256 → bit_xor x y ≡ 0 → x ≡ y
xor_zero x y h k e = facts (bit_or x y) (bit_xor x y) (fits_bytes x y h k) e
  where
    facts :
        (u d : ℕ)
        → ((ltb u 256 && ltb d 256) && (same (u == 0) (x == 0 && y == 0) && same (d == 0) (x == y)))
          ≡ true
        → d ≡ 0
        → x ≡ y
    facts u d f z = ground arith

xor_self : (x : ℕ) → x < 256 → bit_xor x x ≡ 0
xor_self x h = facts (bit_or x x) (bit_xor x x) (fits_bytes x x h h)
  where
    facts :
        (u d : ℕ)
        → ((ltb u 256 && ltb d 256) && (same (u == 0) (x == 0 && x == 0) && same (d == 0) (x == x)))
          ≡ true
        → d ≡ 0
    facts u d f = ground arith

bounds : (x y : ℕ) → x < 256 → y < 256 → (bit_or x y < 256) × (bit_xor x y < 256)
bounds x y h k = facts (bit_or x y) (bit_xor x y) (fits_bytes x y h k)
  where
    facts :
        (u d : ℕ)
        → ((ltb u 256 && ltb d 256) && (same (u == 0) (x == 0 && y == 0) && same (d == 0) (x == y)))
          ≡ true
        → (u < 256) × (d < 256)
    facts u d f = ground arith

abbrev pub AreBytes : Bytes → Type 0
AreBytes = All (λ b. b < 256)

zero-difference :
    (acc : ℕ) (a b : Bytes)
    → acc < 256
    → AreBytes a
    → AreBytes b
    → length a ≡ length b
    → difference acc a b ≡ 0
    → (acc ≡ 0) × (a ≡ b)
unfolding difference
zero-difference acc [] [] h p q l e = (e, refl)
zero-difference acc [] (y ∷ b) h p q l e = absurd (omega arith)
zero-difference acc (x ∷ a) [] h p q l e = absurd (omega arith)
zero-difference acc (x ∷ a) (y ∷ b) h p q l e =
    let d = (bounds x y p.0 q.0).1 in
    let r =
      zero-difference (bit_or acc (bit_xor x y)) a b (bounds acc (bit_xor x y) h d).0 p.1 q.1
        (omega arith) e in
    let o = or_zero acc (bit_xor x y) h d r.0 in (o.0, ap₂ ◌∷◌ (xor_zero x y p.0 q.0 o.1) r.1)

difference_self : (a : Bytes) → AreBytes a → difference 0 a a ≡ 0
unfolding difference
difference_self [] p = refl
difference_self (x ∷ a) p =
    ap (λ d. difference (bit_or 0 d) a a) (xor_self x p.0) ∙ difference_self a p.1

-- The comparison that does not stop at the first difference is equality of the bytes.
pub constant_time_eq_iff :
    (a b : Bytes) → AreBytes a → AreBytes b → (constant_time_eq a b ≡ true) ↔ (a ≡ b)
unfolding constant_time_eq
constant_time_eq_iff a b p q = (
  λ h. (zero-difference 0 a b (omega arith) p q (ground arith) (ground arith)).1,
  λ e.
      let l : length a ≡ length b = ap length e in
      let d : difference 0 a b ≡ 0 = ap (difference 0 a) (sym e) ∙ difference_self a p in
      ground arith,
)
