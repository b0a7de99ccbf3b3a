-- ===== src/Tests/Access.antt =====
-- Requests to a server on an address that is no loopback.
use octofs.Prelude.{
  Option, ◌≡◌, refl, true, false, none, some, ok, ◌⊎◌, ◌↔◌, arith, Bool, ◌&&◌, ltb, [], ◌∷◌,
  if◌then◌else◌, Bool-cases, inl, inr, subst,
}
use octofs.Text.{Bytes, is_empty}
use octofs.Auth.{as_bytes, resolve_auth_token, check_bind_policy, admits, constant_time_eq}
use octofs.Auth.Compares.{constant_time_eq_iff}
use octofs.Auth.Policy.{Carries, IsToStr, admits-Carries}
use octofs.Auth.Encodes.{IsAscii}
use octofs.LineHash.Endpoint.{Chars}
use octofs.Tests.Editing.{codes}

abbrev only_ascii : Chars → Bool
only_ascii [] = true
only_ascii (c ∷ s) = ltb c 128 && only_ascii s

-- Text of ASCII is itself.
abbrev as_text : Bytes → Option Chars
as_text s = if only_ascii s then some s else none

IsAscii-only_ascii : (s : Chars) → only_ascii s ≡ true → IsAscii s
IsAscii-only_ascii [] h = tt
IsAscii-only_ascii (c ∷ s) h = (ground arith, IsAscii-only_ascii s (ground arith))

reads-ascii : IsToStr as_text
reads-ascii = record {
  ascii = λ value text h. elim (Bool-cases (only_ascii value)) [
    | inl e ↦
        let q : some value ≡ some text = rw e at h in
        let k : value ≡ text = cc in subst IsAscii k (IsAscii-only_ascii value e)
    | inr e ↦ let q : ◌≡◌ {A = Option Chars} none (some text) = rw e at h in cc
  ];
}

abbrev cli : Option Chars
cli = some (codes " k1 ")

bound_open : check_bind_policy false (resolve_auth_token none cli) ≡ ok tt
unfolding check_bind_policy resolve_auth_token
bound_open = refl

admitted : admits as_text (resolve_auth_token none cli) (some (codes "BEARER k1")) ≡ true
unfolding admits resolve_auth_token as_bytes
admitted = refl

-- A token that ends in "à", and one that is blank but for a no-break space.
token_accented : resolve_auth_token none (some (b'x' ∷ 0xe0 ∷ [])) ≡ some (b'x' ∷ 0xe0 ∷ [])
unfolding resolve_auth_token
token_accented = refl

token_blank : resolve_auth_token none (some (0xa0 ∷ [])) ≡ none
unfolding resolve_auth_token
token_blank = refl

refused : admits as_text (resolve_auth_token none cli) (some (codes "Bearer k2")) ≡ false
unfolding admits resolve_auth_token as_bytes
refused = refl

admits-Carries_example :
    (false ≡ true)
    ⊎ ((token : Chars) × (resolve_auth_token none cli ≡ some token)
        × (is_empty token ≡ false)
        × Carries as_text token (some (codes "BEARER k1")))
admits-Carries_example =
    admits-Carries as_text reads-ascii none cli false (some (codes "BEARER k1")) bound_open admitted

constant_time_eq_iff_example :
    (constant_time_eq (codes "k1") (codes "k2") ≡ true) ↔ (codes "k1" ≡ codes "k2")
constant_time_eq_iff_example =
    constant_time_eq_iff (codes "k1") (codes "k2") (omega arith, (omega arith, tt))
      (omega arith, (omega arith, tt))
