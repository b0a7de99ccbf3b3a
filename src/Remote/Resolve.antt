-- ===== src/Remote/Resolve.antt =====
-- Relative paths under a remote working directory, and URLs whose path has an '@'.
use octofs.Prelude.{
  ◌≡◌, refl, sym, ap, ◌∙◌, true, false, none, some, ◌∷◌, ◌++◌, append_assoc, if◌then◌else◌,
}
use octofs.Text.{Bytes, ends_with}
use octofs.Remote.{
  RemotePath, local, remote, ssh_scheme, strip_scheme, parse_rest, parse_path_source, display,
  is_absolute, slashes, under_workdir, resolve_parsed, resolve_path_source, user_of,
}
use octofs.Remote.Cuts.{Lacks, Lacks-append, split_once-append}
use octofs.Remote.RoundTrip.{IsUrl, parse_path_source-display}

parse_local : (env_user p : Bytes) → strip_scheme p ≡ none → parse_path_source env_user p ≡ local p
unfolding parse_path_source
parse_local env_user p h =
    ap (λ o. elim o [ none ↦ local p | some rest ↦ remote (parse_rest env_user rest) ]) h

-- A relative path under a working directory that is a displayed URL is the path below that of the
-- URL, on the same host, port and user: the working directory survives its way as a text.
pub resolve_path_source-display :
    (env_user p : Bytes) (r : RemotePath)
    → IsUrl env_user r
    → strip_scheme p ≡ none
    → is_absolute p ≡ false
    → resolve_path_source env_user p (display (remote r))
      ≡ remote (record r {
        path = if ends_with b'/' r.path then r.path ++ slashes p else r.path ++ b'/' ∷ slashes p;
      })
unfolding resolve_path_source
resolve_path_source-display env_user p r u s a =
    ap (resolve_parsed env_user (display (remote r))) (parse_local env_user p s)
    ∙ rw a (ap (under_workdir p (display (remote r))) (parse_path_source-display env_user r u))

parse_rest-user :
    (env_user user behind : Bytes)
    → Lacks b'@' user
    → ((parse_rest env_user (user ++ b'@' ∷ behind)).user ≡ user)
      × ((parse_rest env_user (user ++ b'@' ∷ behind)).user_explicit ≡ true)
unfolding parse_rest
parse_rest-user env_user user behind h =
    let e = ap (user_of env_user (user ++ b'@' ∷ behind)) (split_once-append b'@' user behind h) in
    (ap (λ t. t.0) e, ap (λ t. t.2) e)

-- An '@' in the path of a URL that names no user is taken for the end of a user: the user is then
-- the host with the directories up to the '@'.
pub parse_path_source_at :
    (env_user host dir behind : Bytes)
    → Lacks b'@' host
    → Lacks b'@' dir
    → (r : RemotePath) × (parse_path_source env_user
          (ssh_scheme ++ (host ++ b'/' ∷ (dir ++ b'@' ∷ behind)))
        ≡ remote r)
      × (r.user ≡ host ++ b'/' ∷ dir)
      × (r.user_explicit ≡ true)
unfolding parse_path_source strip_scheme
parse_path_source_at env_user host dir behind h k =
    let e = append_assoc host (b'/' ∷ dir) (b'@' ∷ behind) in
    let p =
      parse_rest-user env_user (host ++ b'/' ∷ dir) behind
        (Lacks-append b'@' host (b'/' ∷ dir) h (refl, k)) in
    (
      parse_rest env_user ((host ++ b'/' ∷ dir) ++ b'@' ∷ behind),
      ap (λ t. remote (parse_rest env_user t)) (sym e),
      p.0,
      p.1,
    )
