-- ===== src/Remote/RoundTrip.antt =====
-- A URL that is displayed is read back.
use octofs.Prelude.{
  ℕ, ◌≤◌, ◌≡◌, refl, sym, ap, ◌∙◌, subst, Bool, true, false, none, some, [], ◌∷◌, ◌++◌,
  append_assoc, append-nil, arith, ◌==◌, if◌then◌else◌, Bool-cases, inl, inr,
}
use octofs.Text.{Bytes}
use octofs.LineHash.Endpoint.{split_once, parse_digits, is_digit}
use octofs.LineHash.Endpoint.Decimals.{
  decimal, parse_digits-decimal, AreDigits-decimal, decimal-cons,
}
use octofs.Remote.{
  RemotePath, remote, strip_prefix, rsplit_once, strip_scheme, parse_u16, port_or, user_of, path_of,
  bracket_host, plain_host, parse_host, parse_rest, parse_path_source, contains_byte, shown_user,
  shown_host, shown_port, display,
}
use octofs.Remote.Cuts.{
  Lacks, Lacks-append, split_once-append, split_once-none, rsplit_once-none, rsplit_once-append,
  Lacks-digits, Lacks-contains_byte,
}

-- The parts of a URL that its text keeps apart.
pub record IsUrl (env_user : Bytes) (r : RemotePath) : Type 0 where
  pub user_part : r.user_explicit ≡ true → Lacks b'@' r.user
  pub user_default :
      r.user_explicit ≡ false → (r.user ≡ env_user) × Lacks b'@' r.host × Lacks b'@' r.path
  pub host_part : Lacks b'/' r.host
  pub plain : contains_byte b':' r.host ≡ false → Lacks b'[' r.host
  pub bracketed : contains_byte b':' r.host ≡ true → Lacks b']' r.host
  pub port_part : r.port_explicit ≡ true → r.port ≤ 65535
  pub port_default : r.port_explicit ≡ false → r.port ≡ 22
  pub tail : Bytes
  pub rooted : r.path ≡ b'/' ∷ tail

parse_u16-decimal : (n : ℕ) → n ≤ 65535 → parse_u16 (decimal n) ≡ some n
unfolding parse_u16
parse_u16-decimal n h =
    let (c, cs, e, d) = decimal-cons n in
    let p = ap (parse_digits 0) (sym e) ∙ parse_digits-decimal n in rw e (ground arith)

abbrev port_text : Bool → ℕ → Bytes
port_text explicit port = if explicit then b':' ∷ decimal port else []

-- A port as it is shown, read back: explicit and in range, or the default.
abbrev PortFits : Bool → ℕ → Type 0
PortFits explicit port = (explicit ≡ true → port ≤ 65535) × (explicit ≡ false → port ≡ 22)

parse_bracket :
    (host : Bytes) (explicit : Bool) (port : ℕ)
    → Lacks b']' host
    → PortFits explicit port
    → parse_host ((b'[' ∷ (host ++ b']' ∷ [])) ++ port_text explicit port) ≡ (host, port, explicit)
unfolding parse_host strip_prefix
parse_bracket host true port h f =
    rw
      (
        append_assoc host (b']' ∷ []) (b':' ∷ decimal port),
        split_once-append b']' host (b':' ∷ decimal port) h,
      )
      (ap (λ o. (host, port_or o, true)) (parse_u16-decimal port (f.0 refl)))
parse_bracket host false port h f =
    rw (append_assoc host (b']' ∷ []) [], split_once-append b']' host [] h)
      (ap (λ n. (host, n, false)) (sym (f.1 refl)))

strip_bracket : (s : Bytes) → Lacks b'[' s → strip_prefix (b'[' ∷ []) s ≡ none
unfolding strip_prefix
strip_bracket [] h = refl
strip_bracket (c ∷ s) h = ground (arith, h.0)

Lacks-port :
    (b : ℕ) (explicit : Bool) (port : ℕ)
    → is_digit b ≡ false
    → (b':' == b) ≡ false
    → Lacks b (port_text explicit port)
Lacks-port b true port h k = (k, Lacks-digits b (decimal port) h (AreDigits-decimal port))
Lacks-port b false port h k = tt

parse_host_unbracketed :
    (t : Bytes)
    → strip_prefix (b'[' ∷ []) t ≡ none
    → parse_host t ≡ plain_host t (rsplit_once b':' t)
unfolding parse_host
parse_host_unbracketed t h =
    ap
      (λ o. elim o [
        | some inner ↦ bracket_host t (split_once b']' inner)
        | none ↦ plain_host t (rsplit_once b':' t)
      ])
      h

parse_plain :
    (host : Bytes) (explicit : Bool) (port : ℕ)
    → Lacks b':' host
    → Lacks b'[' host
    → PortFits explicit port
    → parse_host (host ++ port_text explicit port) ≡ (host, port, explicit)
parse_plain host true port h k f =
    let t = host ++ b':' ∷ decimal port in
    parse_host_unbracketed t (
      strip_bracket t
        (Lacks-append b'[' host (b':' ∷ decimal port) k (Lacks-port b'[' true port refl refl)))
    ∙ ap (plain_host t) (
        rsplit_once-append b':' host (decimal port)
          (Lacks-digits b':' (decimal port) refl (AreDigits-decimal port)))
    ∙ ap (λ o. (host, port_or o, true)) (parse_u16-decimal port (f.0 refl))
parse_plain host false port h k f =
    ap parse_host (append-nil host)
    ∙ parse_host_unbracketed host (strip_bracket host k)
    ∙ ap (plain_host host) (rsplit_once-none b':' host h)
    ∙ ap (λ n. (host, n, false)) (sym (f.1 refl))

split_user :
    (env_user : Bytes) (explicit : Bool) (user rest : Bytes)
    → (explicit ≡ true → Lacks b'@' user)
    → (explicit ≡ false → (user ≡ env_user) × Lacks b'@' rest)
    → user_of env_user
        ((if explicit then user ++ b'@' ∷ [] else []) ++ rest)
        (split_once b'@' ((if explicit then user ++ b'@' ∷ [] else []) ++ rest))
      ≡ (user, rest, explicit)
split_user env_user true user rest h k =
    ap (λ t. user_of env_user t (split_once b'@' t)) (append_assoc user (b'@' ∷ []) rest)
    ∙ ap (user_of env_user (user ++ b'@' ∷ rest)) (split_once-append b'@' user rest (h refl))
split_user env_user false user rest h k =
    ap (user_of env_user rest) (split_once-none b'@' rest (k refl).1)
    ∙ ap (λ n. (n, rest, false)) (sym (k refl).0)

split_path :
    (authority path tail : Bytes)
    → path ≡ b'/' ∷ tail
    → Lacks b'/' authority
    → path_of (authority ++ path) (split_once b'/' (authority ++ path)) ≡ (authority, path)
split_path authority path tail e h =
    subst (λ p. path_of (authority ++ p) (split_once b'/' (authority ++ p)) ≡ (authority, p))
      (sym e) (ap (path_of (authority ++ b'/' ∷ tail)) (split_once-append b'/' authority tail h))

abbrev with_host : Bytes × Bytes × Bool → Bytes × Bytes → Bytes × ℕ × Bool → RemotePath
with_host u p h = record {
  host = h.0;
  port = h.1;
  user = u.0;
  path = p.1;
  user_explicit = u.2;
  port_explicit = h.2;
}

parse_rest-parts :
    (env_user rest : Bytes) (u : Bytes × Bytes × Bool) (p : Bytes × Bytes) (h : Bytes × ℕ × Bool)
    → user_of env_user rest (split_once b'@' rest) ≡ u
    → path_of u.1 (split_once b'/' u.1) ≡ p
    → parse_host p.0 ≡ h
    → parse_rest env_user rest ≡ with_host u p h
unfolding parse_rest
parse_rest-parts env_user rest u p h eu ep eh =
    ap
      (λ v.
        with_host v (path_of v.1 (split_once b'/' v.1))
          (parse_host (path_of v.1 (split_once b'/' v.1)).0))
      eu
    ∙ ap (λ q. with_host u q (parse_host q.0)) ep
    ∙ ap (with_host u p) eh

module _ (env_user : Bytes) (r : RemotePath) (u : IsUrl env_user r) where
  fits : PortFits r.port_explicit r.port
  fits = (u.port_part, u.port_default)

  parse_host-shown : parse_host (shown_host r ++ shown_port r) ≡ (r.host, r.port, r.port_explicit)
  parse_host-shown = elim (Bool-cases (contains_byte b':' r.host)) [
    | inl e ↦ rw e (parse_bracket r.host r.port_explicit r.port (u.bracketed e) fits)
    | inr e ↦ rw e (
        parse_plain r.host r.port_explicit r.port (Lacks-contains_byte b':' r.host e) (u.plain e)
          fits)
  ]

  Lacks-shown_host :
      (b : ℕ) → (b'[' == b) ≡ false → (b']' == b) ≡ false → Lacks b r.host → Lacks b (shown_host r)
  Lacks-shown_host b h k l = elim (Bool-cases (contains_byte b':' r.host)) [
    | inl e ↦ rw e (h, Lacks-append b r.host (b']' ∷ []) l (k, tt))
    | inr e ↦ rw e l
  ]

  Lacks-authority :
      (b : ℕ)
      → is_digit b ≡ false
      → (b'[' == b) ≡ false
      → (b']' == b) ≡ false
      → (b':' == b) ≡ false
      → Lacks b r.host
      → Lacks b (shown_host r ++ shown_port r)
  Lacks-authority b d h k c l =
      Lacks-append b (shown_host r) (shown_port r) (Lacks-shown_host b h k l)
        (Lacks-port b r.port_explicit r.port d c)

  abbrev authority_path : Bytes
  authority_path = (shown_host r ++ shown_port r) ++ r.path

  -- A URL whose user, host, port and path its text can keep apart is displayed to a text that parses
  -- to the same URL.
  pub parse_path_source-display : parse_path_source env_user (display (remote r)) ≡ remote r
  unfolding parse_path_source display strip_scheme
  parse_path_source-display = ap remote (
      parse_rest-parts env_user (shown_user r ++ authority_path)
        (r.user, authority_path, r.user_explicit) (shown_host r ++ shown_port r, r.path)
        (r.host, r.port, r.port_explicit)
        (split_user env_user r.user_explicit r.user authority_path u.user_part default_user)
        (split_path (shown_host r ++ shown_port r) r.path u.tail u.rooted
          (Lacks-authority b'/' refl refl refl refl u.host_part))
        parse_host-shown)
    where
      default_user : r.user_explicit ≡ false → (r.user ≡ env_user) × Lacks b'@' authority_path
      default_user e =
          let (a, b, c) = u.user_default e in
          (
            a,
            Lacks-append b'@' (shown_host r ++ shown_port r) r.path
                (Lacks-authority b'@' refl refl refl refl b) c,
          )
