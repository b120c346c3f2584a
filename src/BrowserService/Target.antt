-- ===== src/BrowserService/Target.antt =====
-- _pin_request_target and _open_pinned_connection of browser-service/main.py: the address that is
-- dialled for a host.
use site_parser_for_freelans.Common.{
  ℕ, not, ◌||◌, ◌==◌, Option, none, some, List, [], ◌∷◌, ◌++◌, is_empty, if◌then◌else◌,
}
use site_parser_for_freelans.Common.Int.{ℤ, pos}
use site_parser_for_freelans.Common.Texts.{Text, text_eq, contains_char}
use site_parser_for_freelans.BrowserService.{
  Library, Url, Resolver, Result, ok, raised, http_exception, value_error, other_error,
  missing_host, not_allowed, http, https, normalize, hostname_or_empty, resolve_and_validate_host,
}
use site_parser_for_freelans.BrowserService.HostPort.{colon, format_host_for_url}
use site_parser_for_freelans.BrowserService.Pins.{PinnedHostRegistry, get}

-- The dict that `_pin_request_target` gives, by its keys.
pub data Pinned : Type 0 where
  -- `{"url"}`.
  pinned_url : Text → Pinned
  -- `{"url", "headers": {"host"}, "dial_ip"}`.
  pinned_http : Text → Text → Text → Pinned
  -- `{"url", "connect_ip", "sni_hostname"}`.
  pinned_https : Text → Text → Text → Pinned

-- A connection that is opened: the host as it was looked up, the address and the port.
pub record Dial : Type 0 where
  pub host : Text
  pub ip : Text
  pub port : ℤ

abbrev pub slash : Text
slash = 47 ∷ []

abbrev pub bind_ok : {A B : Type 0} → Result A → (A → Result B) → Result B
bind_ok (ok x) f = f x
bind_ok (raised e) f = raised e

module _ (lib : Library) where
  unfoldable pub pin_http : Url → Text → Option ℕ → Text → Result Pinned
  pin_http parsed host none first_ip = raised value_error
  pin_http parsed host (some port) first_ip =
      let ip_host = if contains_char colon first_ip then 91 ∷ first_ip ++ 93 ∷ [] else first_ip in
      let port_part = if port == 0 then [] else colon ∷ lib.str (pos port) in
      ok (
        pinned_http
          (lib.urlunparse parsed.scheme (ip_host ++ port_part) parsed.path parsed.params
            parsed.query parsed.fragment)
          host first_ip)

  -- `_pin_request_target` of a parsed URL. Reading the port may raise, for https too.
  unfoldable pub pin_parsed : Text → Url → List Text → Result Pinned
  unfolding normalize pin_http
  pin_parsed request_url parsed resolved_ips =
      let host = normalize lib (hostname_or_empty parsed) in
      let is_http = text_eq parsed.scheme http in
      if not (is_http || text_eq parsed.scheme https)
      then ok (pinned_url request_url)
      else if is_empty host
      then raised (http_exception 400 missing_host)
      else elim resolved_ips [
        | [] ↦ raised (http_exception 400 not_allowed)
        | first_ip ∷ others ↦
            if is_http then pin_http parsed host parsed.port first_ip else elim parsed.port [
              | none ↦ raised value_error
              | some port ↦ ok (pinned_https request_url first_ip host)
            ]
      ]

  unfoldable pub pin_request_target : Text → List Text → Result Pinned
  unfolding pin_parsed
  pin_request_target request_url resolved_ips = elim (lib.urlparse request_url) [
    | none ↦ raised value_error
    | some parsed ↦ pin_parsed request_url parsed resolved_ips
  ]

-- `pinned["connect_ip"]` and `pinned["dial_ip"]`, with the host header; a missing key raises.
abbrev pub connect_ip : Pinned → Result Text
connect_ip (pinned_https url ip host) = ok ip
connect_ip _ = raised other_error

abbrev pub dial_ip : Pinned → Result (Text × Text)
dial_ip (pinned_http url host ip) = ok (ip, host)
dial_ip _ = raised other_error

module _ (lib : Library) (test_hosts : List Text) (resolver : Resolver) where
  -- The pinned addresses, or else those of a new resolution.
  unfoldable pub pinned_or_resolved : Text → Option (List Text) → Result (List Text)
  unfolding resolve_and_validate_host
  pinned_or_resolved host none = resolve_and_validate_host lib test_hosts resolver host
  pinned_or_resolved host (some ips) = ok ips

  -- The address and port that `_open_pinned_connection` dials.
  unfoldable pub open_pinned_connection : Text → ℤ → PinnedHostRegistry → Result Dial
  unfolding normalize get pinned_or_resolved pin_request_target format_host_for_url
  open_pinned_connection host port registry =
      let name = normalize lib host in
      let looked_up = normalize lib name in
      bind_ok (pinned_or_resolved name (get lib name registry)) (λ ips.
        bind_ok
          (pin_request_target lib
            (https ++ colon ∷ slash ++ slash ++ format_host_for_url lib name (some port)) ips)
          (λ pinned.
            bind_ok (connect_ip pinned)
              (λ ip. ok (record { host = looked_up; ip = ip; port = port }))))
