-- ===== src/RedisRepository/Endpoint.antt =====
-- parseRedisEndpoint (cpp/src/redis_repository.cpp). A timeout is a number of milliseconds.
use mini_ocs_nos.Base.{
  ℕ, ◌≡◌, ◌≢◌, ◌≤◌, refl, Bool, true, false, ◌&&◌, ◌||◌, Option, none, some, [], ◌∷◌, ◌++◌, arith,
  leb, ◌==◌, if◌then◌else◌,
}
use mini_ocs_nos.Base.Text.{Text, codes}
use mini_ocs_nos.Base.Decimal.{all_digits, scan_digits, to_string}
use mini_ocs_nos.Base.Decimal.RoundTrip.{scan-to_string, all_digits-to_string, to_string-ne-nil}
use mini_ocs_nos.Base.Outcome.{Outcome, returns, throws, Exception}

pub record RedisEndpoint : Type 0 where
  pub host : Text
  pub port : ℕ
  pub unix_socket : Text
  pub connect_timeout : ℕ
  pub socket_timeout : ℕ

-- An endpoint with the default timeouts.
abbrev pub endpoint : Text → ℕ → Text → RedisEndpoint
endpoint host port unix_socket = record {
  host = host;
  port = port;
  unix_socket = unix_socket;
  connect_timeout = 1000;
  socket_timeout = 1000;
}

-- The text after a prefix.
unfoldable pub strip_prefix : Text → Text → Option Text
strip_prefix [] s = some s
strip_prefix (p ∷ ps) [] = none
strip_prefix (p ∷ ps) (c ∷ s) = let rest = strip_prefix ps s in if p == c then rest else none

-- address.rfind(':'): what stands before the last colon, and after it.
unfoldable pub split_last_colon : Text → Option (Text × Text)
split_last_colon [] = none
split_last_colon (c ∷ s) = elim (split_last_colon s) [
  | some (before, after) ↦ some (c ∷ before, after)
  | none ↦ if c == 58 then some ([], s) else none
]

-- std::from_chars of an int that reads the whole text, from 1 to 65535: anything with a minus sign
-- is below 1.
unfoldable pub read_port : Text → Option ℕ
read_port [] = none
read_port (c ∷ s) =
    let port = scan_digits (c ∷ s) 0 in
    if all_digits (c ∷ s) && leb 1 port && leb port 65535 then some port else none

abbrev pub is_blank : Text → Bool
is_blank [] = true
is_blank (c ∷ s) = false

unfoldable pub parse_tcp : Text → Outcome RedisEndpoint
unfolding split_last_colon read_port
parse_tcp address = elim (split_last_colon address) [
  | none ↦ throws Exception.invalid_argument
  | some (before, after) ↦
      if is_blank before || is_blank after
      then throws Exception.invalid_argument
      else elim (read_port after) [
        | none ↦ throws Exception.invalid_argument
        | some port ↦ returns (endpoint before port [])
      ]
]

-- RedisEndpoint{.unix_socket = target}
abbrev pub socket_endpoint : Text → RedisEndpoint
socket_endpoint path = endpoint (codes "127.0.0.1") 6379 path

unfoldable pub parse_socket : Text → Outcome RedisEndpoint
parse_socket [] = throws Exception.invalid_argument
parse_socket (c ∷ s) =
    if c == 47 then returns (socket_endpoint (c ∷ s)) else throws Exception.invalid_argument

unfoldable pub parse_redis_endpoint : Text → Outcome RedisEndpoint
unfolding strip_prefix parse_tcp parse_socket
parse_redis_endpoint target = elim (strip_prefix (codes "tcp://") target) [
  | some address ↦ parse_tcp address
  | none ↦ elim (strip_prefix (codes "unix://") target) [
    | some path ↦ parse_socket path
    | none ↦ parse_socket target
  ]
]

no_colon : (s : Text) → all_digits s ≡ true → split_last_colon s ≡ none
unfolding split_last_colon all_digits
no_colon [] h = refl
no_colon (c ∷ s) h = ground (arith, no_colon s)

split_last_colon-append :
    (host port : Text)
    → all_digits port ≡ true
    → split_last_colon (host ++ (58 ∷ port)) ≡ some (host, port)
unfolding split_last_colon
split_last_colon-append [] port h = ground (arith, no_colon port h)
split_last_colon-append (c ∷ host) port h = ground (arith, split_last_colon-append host port h)

parse_tcp-print :
    (host text : Text) (port : ℕ)
    → host ≢ []
    → text ≢ []
    → 1 ≤ port
    → port ≤ 65535
    → all_digits text ≡ true
    → scan_digits text 0 ≡ port
    → parse_tcp (host ++ (58 ∷ text)) ≡ returns (endpoint host port [])
unfolding parse_tcp read_port
parse_tcp-print [] text port h t lo hi d e = absurd (h refl)
parse_tcp-print (c ∷ host) [] port h t lo hi d e = absurd (t refl)
parse_tcp-print (c ∷ host) (x ∷ text) port h t lo hi d e =
    ground (arith, split_last_colon-append (c ∷ host) (x ∷ text) d)

-- An address that is printed is read back: tcp://HOST:PORT for every host that is not empty, one
-- with colons included, and every port from 1 to 65535; and a path that starts with a slash, with
-- unix:// in front or alone.
pub parse_redis_endpoint_print :
    (host path : Text) (port : ℕ)
    → host ≢ []
    → 1 ≤ port
    → port ≤ 65535
    → (parse_redis_endpoint (codes "tcp://" ++ (host ++ (58 ∷ to_string port)))
        ≡ returns (endpoint host port []))
      × (parse_redis_endpoint (codes "unix://" ++ (47 ∷ path))
          ≡ returns (socket_endpoint (47 ∷ path)))
      × (parse_redis_endpoint (47 ∷ path) ≡ returns (socket_endpoint (47 ∷ path)))
unfolding parse_redis_endpoint strip_prefix parse_socket codes
parse_redis_endpoint_print host path port h lo hi = (
  (parse_tcp-print host (to_string port) port h (to_string-ne-nil port) lo hi
      (all_digits-to_string port) (scan-to_string port (omega arith))),
  ground arith,
  ground arith,
)
