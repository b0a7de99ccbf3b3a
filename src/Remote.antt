-- ===== src/Remote.antt =====
-- `PathSource` of src/mcp/fs/remote.rs: paths of the local file system and `ssh://` URLs, as texts.
-- The variable USER of the environment is a parameter, with the default where it is unset.
use octofs.Prelude.{
  ℕ, Bool, true, false, not, ◌&&◌, ◌||◌, Option, none, some, List, [], ◌∷◌, ◌++◌, ◌==◌,
  if◌then◌else◌,
}
use octofs.Text.{Bytes, bytes_eq, is_empty, ends_with, replace, replace_from, starts_with}
use octofs.LineHash.Endpoint.{split_once, parse_magnitude, parse_digits}
use octofs.LineHash.Endpoint.Decimals.{decimal}
pub mod Cuts
pub mod RoundTrip
pub mod Resolve

pub record RemotePath : Type 0 where
  pub host : Bytes
  pub port : ℕ
  pub user : Bytes
  pub path : Bytes
  pub user_explicit : Bool
  pub port_explicit : Bool

pub data PathSource : Type 0 where
  local : Bytes → PathSource
  remote : RemotePath → PathSource

-- `s.strip_prefix(prefix)`
unfoldable pub strip_prefix : Bytes → Bytes → Option Bytes
strip_prefix [] s = some s
strip_prefix (p ∷ ps) [] = none
strip_prefix (p ∷ ps) (c ∷ cs) = let rest = strip_prefix ps cs in if p == c then rest else none

abbrev pub cut_at : ℕ → Bool → Bytes → Option (Bytes × Bytes) → Option (Bytes × Bytes)
cut_at c here cs (some (a, b)) = some (c ∷ a, b)
cut_at c here cs none = if here then some ([], cs) else none

-- the texts before and behind the last `sep`, by `s.rfind(sep)`
unfoldable pub rsplit_once : ℕ → Bytes → Option (Bytes × Bytes)
rsplit_once sep [] = none
rsplit_once sep (c ∷ cs) = cut_at c (c == sep) cs (rsplit_once sep cs)

abbrev pub ssh_scheme : Bytes
ssh_scheme = b's' ∷ b's' ∷ b'h' ∷ b':' ∷ b'/' ∷ b'/' ∷ []

abbrev pub sftp_scheme : Bytes
sftp_scheme = b's' ∷ b'f' ∷ b't' ∷ b'p' ∷ b':' ∷ b'/' ∷ b'/' ∷ []

abbrev pub home_path : Bytes
home_path = b'/' ∷ b'~' ∷ []

-- `path.strip_prefix("ssh://").or_else(|| path.strip_prefix("sftp://"))`
unfoldable pub strip_scheme : Bytes → Option Bytes
unfolding strip_prefix
strip_scheme path = elim (strip_prefix ssh_scheme path) [
  | some rest ↦ some rest
  | none ↦ strip_prefix sftp_scheme path
]

-- `s.parse::<u16>()`
unfoldable pub parse_u16 : Bytes → Option ℕ
unfolding parse_digits
parse_u16 [] = none
parse_u16 (c ∷ cs) = if c == b'+' then parse_magnitude 65535 cs else parse_magnitude 65535 (c ∷ cs)

abbrev pub port_or : Option ℕ → ℕ
port_or none = 22
port_or (some port) = port

-- the user, the rest, and whether the user is explicit
abbrev pub user_of : Bytes → Bytes → Option (Bytes × Bytes) → Bytes × Bytes × Bool
user_of env_user rest none = (env_user, rest, false)
user_of env_user rest (some (user, host_part)) = (user, host_part, true)

-- the host with its port, and the path
abbrev pub path_of : Bytes → Option (Bytes × Bytes) → Bytes × Bytes
path_of host_part none = (host_part, home_path)
path_of host_part (some (host_port, path)) = (host_port, b'/' ∷ path)

abbrev pub bracket_port : Bytes → Option Bytes → Bytes × ℕ × Bool
bracket_port addr none = (addr, 22, false)
bracket_port addr (some digits) = (addr, port_or (parse_u16 digits), true)

abbrev pub bracket_host : Bytes → Option (Bytes × Bytes) → Bytes × ℕ × Bool
bracket_host host_port none = (host_port, 22, false)
bracket_host host_port (some (addr, behind)) = bracket_port addr (strip_prefix (b':' ∷ []) behind)

abbrev pub plain_host : Bytes → Option (Bytes × Bytes) → Bytes × ℕ × Bool
plain_host host_port none = (host_port, 22, false)
plain_host host_port (some (host, digits)) = (host, port_or (parse_u16 digits), true)

-- the host, the port, and whether the port is explicit
unfoldable pub parse_host : Bytes → Bytes × ℕ × Bool
unfolding strip_prefix split_once rsplit_once parse_u16
parse_host host_port = elim (strip_prefix (b'[' ∷ []) host_port) [
  | some inner ↦ bracket_host host_port (split_once b']' inner)
  | none ↦ plain_host host_port (rsplit_once b':' host_port)
]

unfoldable pub parse_rest : Bytes → Bytes → RemotePath
unfolding split_once parse_host
parse_rest env_user rest =
    let (user, host_part, user_explicit) = user_of env_user rest (split_once b'@' rest) in
    let (host_port, path) = path_of host_part (split_once b'/' host_part) in
    let (host, port, port_explicit) = parse_host host_port in
    record {
      host = host;
      port = port;
      user = user;
      path = path;
      user_explicit = user_explicit;
      port_explicit = port_explicit;
    }

unfoldable pub parse_path_source : Bytes → Bytes → PathSource
unfolding strip_scheme parse_rest
parse_path_source env_user path = elim (strip_scheme path) [
  | none ↦ local path
  | some rest ↦ remote (parse_rest env_user rest)
]

abbrev pub contains_byte : ℕ → Bytes → Bool
contains_byte b [] = false
contains_byte b (c ∷ cs) = c == b || contains_byte b cs

abbrev pub shown_user : RemotePath → Bytes
shown_user r = if r.user_explicit then r.user ++ b'@' ∷ [] else []

abbrev pub shown_host : RemotePath → Bytes
shown_host r = if contains_byte b':' r.host then b'[' ∷ (r.host ++ b']' ∷ []) else r.host

abbrev pub shown_port : RemotePath → Bytes
shown_port r = if r.port_explicit then b':' ∷ decimal r.port else []

unfoldable pub display : PathSource → Bytes
display (local p) = p
display (remote r) = ssh_scheme ++ (shown_user r ++ ((shown_host r ++ shown_port r) ++ r.path))

-- The text that locks, history and views are keyed by.
unfoldable pub lock_key : PathSource → Bytes
lock_key (local p) = p
lock_key (remote r) = r.host ++ (b':' ∷ (decimal r.port ++ r.path))

abbrev pub path_str : PathSource → Bytes
path_str (local p) = p
path_str (remote r) = r.path

abbrev pub or_else : Option Bytes → Bytes → Bytes
or_else none d = d
or_else (some s) d = s

-- "/~" is the login home, which SFTP has for "."
unfoldable pub sftp_path : PathSource → Bytes
unfolding strip_prefix bytes_eq
sftp_path source =
    let path = path_str source in
    let tilde = or_else (strip_prefix (b'/' ∷ []) path) path in
    if bytes_eq tilde (b'~' ∷ []) || bytes_eq tilde (b'~' ∷ b'/' ∷ [])
    then b'.' ∷ []
    else or_else (strip_prefix (b'~' ∷ b'/' ∷ []) tilde) path

-- `p.is_absolute()` on Unix
abbrev pub is_absolute : Bytes → Bool
is_absolute [] = false
is_absolute (c ∷ cs) = c == b'/'

-- `workdir.join(p)` for a relative `p` on Unix
unfoldable pub join_path : Bytes → Bytes → Bytes
unfolding ends_with
join_path workdir p =
    if is_empty workdir || ends_with b'/' workdir then workdir ++ p else workdir ++ b'/' ∷ p

-- `path_str.replace('\\', "/")`
abbrev pub slashes : Bytes → Bytes
slashes [] = []
slashes (c ∷ cs) = (if c == 92 then b'/' else c) ∷ slashes cs

abbrev pub under_workdir : Bytes → Bytes → PathSource → PathSource
under_workdir p workdir (local w) = local (join_path workdir p)
under_workdir p workdir (remote r) = remote (record r {
  path = if ends_with b'/' r.path then r.path ++ slashes p else r.path ++ b'/' ∷ slashes p;
})

abbrev pub resolve_parsed : Bytes → Bytes → PathSource → PathSource
resolve_parsed env_user workdir (remote r) = remote r
resolve_parsed env_user workdir (local p) =
    if is_absolute p then local p else under_workdir p workdir (parse_path_source env_user workdir)

unfoldable pub resolve_path_source : Bytes → Bytes → Bytes → PathSource
unfolding parse_path_source join_path ends_with
resolve_path_source env_user path workdir =
    resolve_parsed env_user workdir (parse_path_source env_user path)
