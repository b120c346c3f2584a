-- ===== src/BrowserService.antt =====
-- browser-service/main.py: which hosts a page may load, and the addresses that are dialled for them.
-- Texts are lists of code points. The methods of `str` that need the Unicode tables, the parsing of
-- URLs, addresses and numbers, and the resolver are outside the repository and are parameters.
pub mod HostPort
pub mod Pins
pub mod Target
pub mod Proxy
pub mod Safe
pub mod Renders
pub mod Pinned
pub mod Dials
pub mod Forward
pub mod Overlap
pub mod Backpressure
use site_parser_for_freelans.Common.{
  ℕ, Bool, true, false, not, ◌||◌, Option, none, some, List, [], ◌∷◌, ◌++◌, is_empty, any, keep_if,
  map, if◌then◌else◌,
}
use site_parser_for_freelans.Common.Int.{ℤ, pos}
use site_parser_for_freelans.Common.Texts.{
  Text, text_eq, contains_char, count_char, starts_with_char, ends_with, split_first,
}

-- What `urlparse` gives. `port` is what reading it gives, where `none` is a ValueError, and no port,
-- or port 0, is `some 0`, which the code treats alike.
pub record Url : Type 0 where
  pub scheme : Text
  pub netloc : Text
  pub hostname : Option Text
  pub port : Option ℕ
  pub path : Text
  pub params : Text
  pub query : Text
  pub fragment : Text

pub record Library : Type 0 where
  pub strip : Text → Text
  pub lstrip : Text → Text
  pub lower : Text → Text
  pub upper : Text → Text
  -- `none` is a ValueError.
  pub urlparse : Text → Option Url
  pub urlunparse : (scheme netloc path params query fragment : Text) → Text
  -- `is_global` of `ipaddress.ip_address(text)`; `none` is a ValueError.
  pub ip_address : Text → Option Bool
  -- `str` and `int`, where `none` is a ValueError, and `str.isdigit`.
  pub str : ℤ → Text
  pub int : Text → Option ℤ
  pub isdigit : Text → Bool

pub data Detail : Type 0 where
  invalid_scheme missing_host not_allowed invalid_host absolute_form_only : Detail

-- What is raised: an HTTPException, an OSError (as `socket.gaierror` is), a ValueError or another.
pub data Failure : Type 0 where
  http_exception : ℕ → Detail → Failure
  os_error value_error other_error : Failure

pub data Result (A : Type 0) : Type 0 where
  ok : A → Result A
  raised : Failure → Result A

pub data Family : Type 0 where
  inet inet6 other_family : Family

-- What `getaddrinfo` gives for a host at the time of a call; `none` is a `socket.gaierror`.
abbrev pub Resolver : Type 0
Resolver = Text → Option (List (Family × Text))

abbrev pub localhost : Text
localhost = 108 ∷ 111 ∷ 99 ∷ 97 ∷ 108 ∷ 104 ∷ 111 ∷ 115 ∷ 116 ∷ []

abbrev pub http : Text
http = 104 ∷ 116 ∷ 116 ∷ 112 ∷ []

abbrev pub https : Text
https = 104 ∷ 116 ∷ 116 ∷ 112 ∷ 115 ∷ []

-- The loop of `_resolve_host_ips`, `ips` being those found so far, which are also the seen ones.
unfoldable pub collect_ips : List Text → List (Family × Text) → List Text
collect_ips ips [] = ips
collect_ips ips ((other_family, ip) ∷ infos) = collect_ips ips infos
collect_ips ips ((inet, ip) ∷ infos) =
    collect_ips (if any (text_eq ip) ips then ips else ips ++ ip ∷ []) infos
collect_ips ips ((inet6, ip) ∷ infos) =
    collect_ips (if any (text_eq ip) ips then ips else ips ++ ip ∷ []) infos

unfoldable pub resolve_host_ips : Resolver → Text → Option (List Text)
unfolding collect_ips
resolve_host_ips resolver host = elim (resolver host) [
  | none ↦ none
  | some infos ↦ some (collect_ips [] infos)
]

-- `host in _BLOCKED_HOSTS or host.endswith(".localhost")`.
unfoldable pub is_blocked : Text → Bool
is_blocked host = text_eq host localhost || ends_with (46 ∷ localhost) host

unfoldable pub normalize : Library → Text → Text
normalize lib host = lib.lower (lib.strip host)

unfoldable pub is_public_ip : Library → Text → Bool
is_public_ip lib raw_ip = elim (lib.ip_address raw_ip) [ none ↦ false | some is_global ↦ is_global ]

-- `parsed.hostname or ""`.
abbrev pub hostname_or_empty : Url → Text
hostname_or_empty parsed = elim parsed.hostname [ none ↦ [] | some host ↦ host ]

-- `test_hosts` are the parts between the commas of the environment variable.
module _ (lib : Library) (test_hosts : List Text) where
  unfoldable pub is_test_allowed_host : Text → Bool
  unfolding normalize
  is_test_allowed_host host = any (text_eq host) (
      map (λ allowed. normalize lib allowed)
        (keep_if (λ allowed. not (is_empty (lib.strip allowed))) test_hosts))

  -- The tests of `_validate_target_url` on the host of the URL.
  unfoldable pub validate_host : Text → Url → Result Url
  unfolding is_blocked is_test_allowed_host
  validate_host host parsed =
      if is_empty host
      then raised (http_exception 400 missing_host)
      else if is_blocked host
      then raised (http_exception 400 not_allowed)
      else if is_test_allowed_host host
      then ok parsed
      else elim (lib.ip_address host) [
        | none ↦ ok parsed
        | some is_global ↦ if is_global then ok parsed else raised (http_exception 400 not_allowed)
      ]

  unfoldable pub validate_url : Option Url → Result Url
  unfolding validate_host normalize
  validate_url none = raised value_error
  validate_url (some parsed) =
      if not (text_eq parsed.scheme http || text_eq parsed.scheme https)
      then raised (http_exception 400 invalid_scheme)
      else if is_empty parsed.netloc
      then raised (http_exception 400 missing_host)
      else validate_host (normalize lib (hostname_or_empty parsed)) parsed

  unfoldable pub validate_target_url : Text → Result Url
  unfolding validate_url
  validate_target_url url = validate_url (lib.urlparse url)

  -- What `_resolve_and_validate_host` does with the addresses of a host that is not itself one.
  unfoldable pub validate_ips : Option (List Text) → Result (List Text)
  unfolding is_public_ip
  validate_ips none = raised (http_exception 400 invalid_host)
  validate_ips (some ips) =
      if is_empty ips || any (λ ip. not (is_public_ip lib ip)) ips
      then raised (http_exception 400 not_allowed)
      else ok ips

  -- `resolved_ips or [normalized]`, for a host that tests may use.
  unfoldable pub allow_ips : Text → Option (List Text) → Result (List Text)
  allow_ips host none = raised os_error
  allow_ips host (some []) = ok (host ∷ [])
  allow_ips host (some (ip ∷ ips)) = ok (ip ∷ ips)

  unfoldable pub resolve_normalized : Resolver → Text → Result (List Text)
  unfolding is_blocked is_test_allowed_host validate_ips allow_ips resolve_host_ips
  resolve_normalized resolver host =
      if is_empty host
      then raised (http_exception 400 missing_host)
      else if is_blocked host
      then raised (http_exception 400 not_allowed)
      else if is_test_allowed_host host
      then allow_ips host (resolve_host_ips resolver host)
      else elim (lib.ip_address host) [
        | none ↦ validate_ips (resolve_host_ips resolver host)
        | some is_global ↦
            if is_global then ok (host ∷ []) else raised (http_exception 400 not_allowed)
      ]

  unfoldable pub resolve_and_validate_host : Resolver → Text → Result (List Text)
  unfolding resolve_normalized normalize
  resolve_and_validate_host resolver host = resolve_normalized resolver (normalize lib host)
