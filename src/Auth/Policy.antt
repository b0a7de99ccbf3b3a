-- ===== src/Auth/Policy.antt =====
-- Who reaches the tools over HTTP.
use octofs.Prelude.{
  ok, ◌≡◌, refl, sym, ap, ◌∙◌, subst, [], ◌∷◌, ◌++◌, append_assoc, Bool, true, false, ◌⊎◌, inl, inr,
  Option, none, some, map, Bool-cases, Option-cases, arith,
}
use octofs.Text.{Bytes, is_empty}
use octofs.Text.Equality.{eq_of_bytes_eq}
use octofs.LineHash.Endpoint.{Chars, trim, split_once, to_ascii_lowercase}
use octofs.Auth.Encodes.{IsAscii, IsAscii-trim, IsAscii-behind, split_once-append, same_text}
use octofs.Auth.{
  resolve_auth_token, not_blank, token_or, check_bind_policy, bearer, eq_ignore_ascii_case,
  credential_matches, text_matches, bearer_matches, admits,
}

-- `to_str` gives the text of a header only where all of it is ASCII.
pub record IsToStr (to_str : Bytes → Option Chars) : Type 0 where
  pub ascii : (value : Bytes) (text : Chars) → to_str value ≡ some text → IsAscii text

-- The header is `Bearer` in any case, a space, and the token with white space around it.
pub record Carries (to_str : Bytes → Option Chars) (token : Chars) (authorization : Option Bytes)
    : Type 0 where
  pub value : Bytes
  pub text : Chars
  pub scheme : Chars
  pub presented : Chars
  pub given : authorization ≡ some value
  pub readable : to_str value ≡ some text
  pub splits : text ≡ scheme ++ b' ' ∷ presented
  pub is_bearer : map to_ascii_lowercase scheme ≡ bearer
  pub is_token : trim presented ≡ token

loopback : (b : Bool) → check_bind_policy b none ≡ ok tt → b ≡ true
unfolding check_bind_policy
loopback true h = refl
loopback false h = cc

nonempty : (o : Option Chars) {token : Chars} → not_blank o ≡ some token → is_empty token ≡ false
nonempty none h = cc
nonempty (some text) {token} h = elim (Bool-cases (is_empty (trim text))) [
  | inl e ↦ let q : none ≡ some token = rw e at h in cc
  | inr e ↦
      let q : some (trim text) ≡ some token = rw e at h in
      let r : trim text ≡ token = cc in ap is_empty (sym r) ∙ e
]

resolved_nonempty :
    (env cli_token : Option Chars) {token : Chars}
    → resolve_auth_token env cli_token ≡ some token
    → is_empty token ≡ false
unfolding resolve_auth_token
resolved_nonempty env cli_token h = nonempty (token_or cli_token env) h

module _ (to_str : Bytes → Option Chars) (readable : IsToStr to_str) where
  text-Carries :
      (token : Chars) (value : Bytes) (text : Option Chars)
      → to_str value ≡ text
      → text_matches token text ≡ true
      → Carries to_str token (some value)
  unfolding eq_ignore_ascii_case
  text-Carries token value none r h = cc
  text-Carries token value (some text) r h = found (split_once 32 text) refl h
    where
      found :
          (o : Option (Chars × Chars))
          → split_once 32 text ≡ o
          → credential_matches token o ≡ true
          → Carries to_str token (some value)
      found none s k = cc
      found (some (scheme, presented)) s k =
          let parts = split_once-append 32 text s in
          record {
            value = value;
            text = text;
            scheme = scheme;
            presented = presented;
            given = refl;
            readable = r;
            splits = parts;
            is_bearer =
                eq_of_bytes_eq (map to_ascii_lowercase scheme) (map to_ascii_lowercase bearer)
                  (ground arith);
            is_token =
                same_text (trim presented) token
                  (IsAscii-trim presented (
                    IsAscii-behind (scheme ++ b' ' ∷ []) presented (
                      subst IsAscii (parts ∙ sym (append_assoc scheme (b' ' ∷ []) presented))
                        (readable.ascii value text r))))
                  (ground arith);
          }

  bearer_matches-Carries :
      (token : Chars) (authorization : Option Bytes)
      → bearer_matches to_str authorization token ≡ true
      → Carries to_str token authorization
  unfolding bearer_matches
  bearer_matches-Carries token none h = cc
  bearer_matches-Carries token (some value) h = text-Carries token value (to_str value) refl h

  -- Where only a header of ASCII is read as a text: on an address that the bind policy lets through, a
  -- request is admitted only if the address is a loopback, or its header is `Bearer` in any case, a space
  -- and, up to white space around it, the token that the server was started with, which is not empty.
  pub admits-Carries :
      (env cli_token : Option Chars) (is_loopback : Bool) (authorization : Option Bytes)
      → check_bind_policy is_loopback (resolve_auth_token env cli_token) ≡ ok tt
      → admits to_str (resolve_auth_token env cli_token) authorization ≡ true
      → (is_loopback ≡ true)
        ⊎ ((token : Chars) × (resolve_auth_token env cli_token ≡ some token)
            × (is_empty token ≡ false)
            × Carries to_str token authorization)
  unfolding check_bind_policy admits
  admits-Carries env cli_token is_loopback authorization b h =
      elim (Option-cases (resolve_auth_token env cli_token)) [
        | inl e ↦ inl (loopback is_loopback (ap (check_bind_policy is_loopback) (sym e) ∙ b))
        | inr (token, e) ↦ inr (
          token,
          e,
          resolved_nonempty env cli_token e,
          bearer_matches-Carries token authorization
              (ap (λ t. admits to_str t authorization) (sym e) ∙ h),
        )
      ]
