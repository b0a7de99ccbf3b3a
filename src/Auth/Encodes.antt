-- ===== src/Auth/Encodes.antt =====
-- Texts of ASCII and their encodings.
use octofs.Prelude.{
  ℕ, ◌+◌, ◌/◌, ◌%◌, ◌<◌, ◌≡◌, refl, sym, ap, ap₂, ◌∙◌, subst, true, Option, none, some, inl, inr,
  [], ◌∷◌, ◌++◌, arith, Bool-cases, ltb, All, ◌==◌, Option-cases,
}
use octofs.Text.{Bytes}
use octofs.LineHash.Endpoint.{
  Chars, trim, trim_start, trim_end, keep_last, is_whitespace, split_once, cons_before,
}
use octofs.Auth.{encode_utf8, as_bytes, constant_time_eq}
use octofs.Auth.Compares.{AreBytes, constant_time_eq_iff}

-- A text of ASCII.
abbrev pub IsAscii : Chars → Type 0
IsAscii = All (λ c. c < 128)

IsAscii-trim_start : (s : Chars) → IsAscii s → IsAscii (trim_start s)
unfolding trim_start
IsAscii-trim_start [] h = tt
IsAscii-trim_start (c ∷ s) h = elim (Bool-cases (is_whitespace c)) [
  | inl e ↦ rw e (IsAscii-trim_start s h.1)
  | inr e ↦ rw e h
]

IsAscii-keep_last : (c : ℕ) (s : Chars) → c < 128 → IsAscii s → IsAscii (keep_last c s)
IsAscii-keep_last c [] h k = elim (Bool-cases (is_whitespace c)) [
  | inl e ↦ rw e tt
  | inr e ↦ rw e (h, tt)
]
IsAscii-keep_last c (d ∷ s) h k = (h, k)

IsAscii-trim_end : (s : Chars) → IsAscii s → IsAscii (trim_end s)
unfolding trim_end
IsAscii-trim_end [] h = tt
IsAscii-trim_end (c ∷ s) h = IsAscii-keep_last c (trim_end s) h.0 (IsAscii-trim_end s h.1)

pub IsAscii-trim : (s : Chars) → IsAscii s → IsAscii (trim s)
IsAscii-trim s h = IsAscii-trim_end (trim_start s) (IsAscii-trim_start s h)

pub IsAscii-behind : (s t : Chars) → IsAscii (s ++ t) → IsAscii t
IsAscii-behind [] t h = h
IsAscii-behind (c ∷ s) t h = IsAscii-behind s t h.1

pub split_once-append :
    (sep : ℕ) (s : Chars) {a b : Chars} → split_once sep s ≡ some (a, b) → s ≡ a ++ sep ∷ b
unfolding split_once
split_once-append sep [] h = cc
split_once-append sep (c ∷ s) {a} {b} h = elim (Bool-cases (c == sep)) [
  | inl e ↦
      let q : ◌≡◌ {A = Option (Chars × Chars)} (some ([], s)) (some (a, b)) = rw e at h in
      let k : c ≡ sep = ground arith in
      let l : [] ≡ a = cc in let m : s ≡ b = cc in rw (sym l) (ap₂ ◌∷◌ k m)
  | inr e ↦
      let q : cons_before c (split_once sep s) ≡ some (a, b) = rw e at h in
      elim (Option-cases (split_once sep s)) [
        | inl n ↦ let r : ◌≡◌ {A = Option (Chars × Chars)} none (some (a, b)) = rw n at q in cc
        | inr ((x, y), n) ↦
            let r : ◌≡◌ {A = Option (Chars × Chars)} (some (c ∷ x, y)) (some (a, b)) = rw n at q in
            let l : c ∷ x ≡ a = cc in
            let m : y ≡ b = cc in rw (sym l, sym m) (ap (c ∷◌) (split_once-append sep s n))
      ]
]

AreBytes-append : (a b : Bytes) → AreBytes a → AreBytes b → AreBytes (a ++ b)
AreBytes-append [] b h k = k
AreBytes-append (x ∷ a) b h k = (h.0, AreBytes-append a b h.1 k)

AreBytes-encode_utf8 : (c : ℕ) → AreBytes (encode_utf8 c)
AreBytes-encode_utf8 c = elim (Bool-cases (ltb c 0x80)) [
  | inl e ↦ rw e (ground arith)
  | inr e ↦ elim (Bool-cases (ltb c 0x800)) [
    | inl f ↦ rw (e, f) (omega arith, (omega arith, tt))
    | inr f ↦ elim (Bool-cases (ltb c 0x10000)) [
      | inl g ↦ rw (e, f, g) (omega arith, (omega arith, (omega arith, tt)))
      | inr g ↦ rw (e, f, g) (omega arith, (omega arith, (omega arith, (omega arith, tt))))
    ]
  ]
]

AreBytes-as_bytes : (s : Chars) → AreBytes (as_bytes s)
unfolding as_bytes
AreBytes-as_bytes [] = tt
AreBytes-as_bytes (c ∷ s) =
    AreBytes-append (encode_utf8 c) (as_bytes s) (AreBytes-encode_utf8 c) (AreBytes-as_bytes s)

-- ASCII is its own encoding.
as_bytes-IsAscii : (s : Chars) → IsAscii s → as_bytes s ≡ s
unfolding as_bytes
as_bytes-IsAscii [] h = refl
as_bytes-IsAscii (c ∷ s) h =
    let e : ltb c 0x80 ≡ true = ground (arith, h.0) in rw e (ap (c ∷◌) (as_bytes-IsAscii s h.1))

-- Only ASCII has an encoding that is ASCII.
encodes_ascii : (s : Chars) → IsAscii (as_bytes s) → as_bytes s ≡ s
unfolding as_bytes
encodes_ascii [] h = refl
encodes_ascii (c ∷ s) h = elim (Bool-cases (ltb c 0x80)) [
  | inl e ↦ let k : IsAscii (c ∷ as_bytes s) = rw e at h in rw e (ap (c ∷◌) (encodes_ascii s k.1))
  | inr e ↦ elim (Bool-cases (ltb c 0x800)) [
    | inl f ↦
        let k : IsAscii ((0xc0 + (c / 64) % 32) ∷ (0x80 + c % 64) ∷ as_bytes s) = rw (e, f) at h in
        absurd (omega (arith, k.0))
    | inr f ↦ elim (Bool-cases (ltb c 0x10000)) [
      | inl g ↦
          let k : IsAscii
              ((0xe0 + (c / 4096) % 16) ∷ (0x80 + (c / 64) % 64) ∷ (0x80 + c % 64) ∷ as_bytes s) =
            rw (e, f, g) at h in
          absurd (omega (arith, k.0))
      | inr g ↦
          let k : IsAscii (
              (0xf0 + c / 262144 % 8)
              ∷ (0x80 + c / 4096 % 64)
              ∷ (0x80 + c / 64 % 64)
              ∷ (0x80 + c % 64)
              ∷ as_bytes s) =
            rw (e, f, g) at h in
          absurd (omega (arith, k.0))
    ]
  ]
]

-- A text of ASCII has the encoding of no text but itself.
pub same_text :
    (a b : Chars) → IsAscii a → constant_time_eq (as_bytes a) (as_bytes b) ≡ true → a ≡ b
same_text a b h e =
    let same =
      (constant_time_eq_iff (as_bytes a) (as_bytes b) (AreBytes-as_bytes a) (AreBytes-as_bytes b)).0
        e in
    let same_ascii : a ≡ as_bytes b = sym (as_bytes-IsAscii a h) ∙ same in
    same_ascii ∙ encodes_ascii b (subst IsAscii same_ascii h)
