-- ===== src/Tests/Remotes.antt =====
-- Runs of the parser of `ssh://` URLs, and its theorems at concrete URLs.
use octofs.Prelude.{◌≡◌, refl, true, [], ◌∷◌, ◌++◌, arith}
use octofs.Text.{Bytes, ends_with}
use octofs.Remote.{
  RemotePath, remote, display, lock_key, sftp_path, parse_path_source, resolve_path_source,
  ssh_scheme, strip_prefix, strip_scheme,
}
use octofs.Remote.RoundTrip.{IsUrl, parse_path_source-display}
use octofs.Remote.Resolve.{resolve_path_source-display, parse_path_source_at}

abbrev root_user : Bytes
root_user = b'r' ∷ b'o' ∷ []

-- ssh://me@h:22/w
abbrev work_url : RemotePath
work_url = record {
  host = b'h' ∷ [];
  port = 22;
  user = b'm' ∷ b'e' ∷ [];
  path = b'/' ∷ b'w' ∷ [];
  user_explicit = true;
  port_explicit = true;
}

work_url-IsUrl : IsUrl root_user work_url
work_url-IsUrl = record {
  user_part = λ _. (refl, (refl, tt));
  user_default = λ h. absurd (cc);
  host_part = (refl, tt);
  plain = λ _. (refl, tt);
  bracketed = λ h. absurd (cc);
  port_part = λ _. omega arith;
  port_default = λ h. absurd (cc);
  tail = b'w' ∷ [];
  rooted = refl;
}

parse_path_source-display_example :
    parse_path_source root_user (display (remote work_url)) ≡ remote work_url
parse_path_source-display_example = parse_path_source-display root_user work_url work_url-IsUrl

resolve_path_source-display_example :
    resolve_path_source root_user (b'a' ∷ []) (display (remote work_url))
    ≡ remote (record work_url { path = b'/' ∷ b'w' ∷ b'/' ∷ b'a' ∷ [] })
unfolding ends_with strip_scheme strip_prefix
resolve_path_source-display_example =
    resolve_path_source-display root_user (b'a' ∷ []) work_url work_url-IsUrl refl refl

-- ssh://h/d@x
parse_path_source_at_example :
    (r : RemotePath) × (parse_path_source root_user
        (ssh_scheme ++ (b'h' ∷ []) ++ b'/' ∷ ((b'd' ∷ []) ++ b'@' ∷ b'x' ∷ []))
      ≡ remote r)
    × (r.user ≡ b'h' ∷ b'/' ∷ b'd' ∷ [])
    × (r.user_explicit ≡ true)
parse_path_source_at_example =
    parse_path_source_at root_user (b'h' ∷ []) (b'd' ∷ []) (b'x' ∷ []) (refl, tt) (refl, tt)

-- The login homes of two users have one key.
lock_key-home :
    lock_key (remote (record work_url { path = b'/' ∷ b'~' ∷ [] }))
    ≡ lock_key (remote (record work_url { path = b'/' ∷ b'~' ∷ []; user = b'x' ∷ [] }))
unfolding lock_key
lock_key-home = refl

sftp_path-home : sftp_path (remote (record work_url { path = b'/' ∷ b'~' ∷ [] })) ≡ b'.' ∷ []
unfolding sftp_path
sftp_path-home = refl
