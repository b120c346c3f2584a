-- ===== src/BrowserService/Proxy.antt =====
-- _PinnedProxy of browser-service/main.py: what the proxy, through which the browsers load every page,
-- does with a request. Whether a connection opens is an argument. The tunnel after that, which copies
-- bytes both ways, is not modelled.
use site_parser_for_freelans.Common.{
  ℕ, Bool, true, false, not, ◌||◌, ◌==◌, Option, none, some, List, [], ◌∷◌, ◌++◌, is_empty,
  if◌then◌else◌,
}
use site_parser_for_freelans.Common.Int.{ℤ, pos}
use site_parser_for_freelans.Common.Texts.{Text, text_eq, split_first}
use site_parser_for_freelans.BrowserService.{
  Library, Url, Resolver, Result, ok, raised, http_exception, os_error, value_error, other_error,
  absolute_form_only, http, normalize, hostname_or_empty, resolve_and_validate_host,
}
use site_parser_for_freelans.BrowserService.HostPort.{colon, parse_host_port}
use site_parser_for_freelans.BrowserService.Pins.{PinnedHostRegistry}
use site_parser_for_freelans.BrowserService.Target.{
  Dial, slash, bind_ok, dial_ip, pin_request_target, open_pinned_connection,
}

pub data Answer : Type 0 where
  established : Text → Answer
  -- The method, the target in origin form, the version and the headers that are sent on.
  forwarded : Text → Text → Text → List (Text × Text) → Answer
  proxy_error : ℕ → Answer

-- The head of a request: its first line and the others, or how reading it fails.
pub data Head : Type 0 where
  lines : Text → List Text → Head
  incomplete too_long : Head

abbrev pub space : ℕ
space = 32

abbrev pub host_name : Text
host_name = 104 ∷ 111 ∷ 115 ∷ 116 ∷ []

abbrev pub host_title : Text
host_title = 72 ∷ 111 ∷ 115 ∷ 116 ∷ []

abbrev pub connect : Text
connect = 67 ∷ 79 ∷ 78 ∷ 78 ∷ 69 ∷ 67 ∷ 84 ∷ []

abbrev pub proxy_authorization : Text
proxy_authorization =
    112 ∷ 114 ∷ 111 ∷ 120 ∷ 121 ∷ 45 ∷ 97 ∷ 117 ∷ 116 ∷ 104 ∷ 111 ∷ 114 ∷ 105 ∷ 122 ∷ 97 ∷ 116 ∷ 105
    ∷ 111 ∷ 110 ∷ []

abbrev pub proxy_connection : Text
proxy_connection =
    112 ∷ 114 ∷ 111 ∷ 120 ∷ 121 ∷ 45 ∷ 99 ∷ 111 ∷ 110 ∷ 110 ∷ 101 ∷ 99 ∷ 116 ∷ 105 ∷ 111 ∷ 110 ∷ []

-- The loop over the headers: those sent on, and whether one was the host.
unfoldable pub forward_headers : Library → Text → List (Text × Text) → List (Text × Text) × Bool
forward_headers lib host [] = ([], false)
forward_headers lib host ((name, value) ∷ headers) =
    let (rest, saw_host) = forward_headers lib host headers in
    let lower_name = lib.lower name in
    if text_eq lower_name proxy_authorization || text_eq lower_name proxy_connection
    then (rest, saw_host)
    else if text_eq lower_name host_name
    then ((name, host) ∷ rest, true)
    else ((name, value) ∷ rest, saw_host)

unfoldable pub with_host : Library → Text → List (Text × Text) → List (Text × Text)
unfolding forward_headers
with_host lib host headers =
    let (rest, saw_host) = forward_headers lib host headers in
    if saw_host then rest else rest ++ (host_title, host) ∷ []

-- `parsed.port or 80`, which was read before.
abbrev pub port_or_80 : Option ℕ → ℤ
port_or_80 none = pos 80
port_or_80 (some port) = if port == 0 then pos 80 else pos port

-- The headers by their first colon; a line without one raises, and empty lines are passed over.
unfoldable pub read_headers : Library → List Text → Option (List (Text × Text))
read_headers lib [] = some []
read_headers lib (line ∷ rest) =
    let headers = read_headers lib rest in
    if is_empty line then headers else elim (split_first colon line) [
      | none ↦ none
      | some (name, value) ↦ elim headers [
        | none ↦ none
        | some others ↦ some ((name, lib.lstrip value) ∷ others)
      ]
    ]

-- `lines[0].split(" ", 2)`.
unfoldable pub read_first_line : Text → Option (Text × Text × Text)
read_first_line line = elim (split_first space line) [
  | none ↦ none
  | some (method, rest) ↦ elim (split_first space rest) [
    | none ↦ none
    | some (target, version) ↦ some (method, target, version)
  ]
]

-- The `except` clauses; an IncompleteReadError is answered as an OSError is.
unfoldable pub answer_of : Result Answer → Answer
answer_of (ok answer) = answer
answer_of (raised (http_exception status detail)) = proxy_error (if status == 400 then 403 else 502)
answer_of (raised os_error) = proxy_error 502
answer_of (raised value_error) = proxy_error 502
answer_of (raised other_error) = proxy_error 500

module _ (lib : Library) (test_hosts : List Text) (resolver : Resolver) where
  -- `_handle_client` with the parts of its first line. `connects` is whether `open_connection` returns
  -- for an address and a port; `none` is that the connection was not tried.
  module _ (connects : Text → ℤ → Bool) where
    unfoldable pub reach : Result Dial → Answer → Option Dial × Result Answer
    reach (raised e) answer = (none, raised e)
    reach (ok d) answer = (some d, if connects d.ip d.port then ok answer else raised os_error)

    unfoldable pub handle_connect : Text → Text → PinnedHostRegistry → Option Dial × Result Answer
    unfolding parse_host_port open_pinned_connection reach
    handle_connect target version registry =
        reach
          (bind_ok (parse_host_port lib target (pos 443))
            (λ p. open_pinned_connection lib test_hosts resolver p.0 p.1 registry))
          (established version)

    -- The address to dial, and the host header to send.
    unfoldable pub pin_absolute : Text → Text → Result (Text × Text)
    unfolding resolve_and_validate_host pin_request_target
    pin_absolute target hostname =
        bind_ok (resolve_and_validate_host lib test_hosts resolver hostname)
          (λ ips. bind_ok (pin_request_target lib target ips) dial_ip)

    unfoldable pub send_on :
        Text → ℤ → (Text → Answer) → Result (Text × Text) → Option Dial × Result Answer
    unfolding reach
    send_on host port answer (raised e) = (none, raised e)
    send_on host port answer (ok (ip, header)) =
        reach (ok (record { host = host; ip = ip; port = port })) (answer header)

    unfoldable pub handle_absolute :
        Text → Text → Text → List (Text × Text) → Url → Text → Option Dial × Result Answer
    unfolding normalize pin_absolute send_on with_host
    handle_absolute method target version headers parsed hostname =
        let origin_form =
          lib.urlunparse [] [] (if is_empty parsed.path then slash else parsed.path) parsed.params
            parsed.query parsed.fragment in
        send_on (normalize lib hostname) (port_or_80 parsed.port)
          (λ host. forwarded method origin_form version (with_host lib host headers))
          (pin_absolute target hostname)

    unfoldable pub handle_url :
        Text → Text → Text → List (Text × Text) → Option Url → Option Dial × Result Answer
    unfolding handle_absolute
    handle_url method target version headers none = (none, raised value_error)
    handle_url method target version headers (some parsed) =
        let hostname = hostname_or_empty parsed in
        if not (text_eq parsed.scheme http) || is_empty hostname
        then (none, raised (http_exception 400 absolute_form_only))
        else handle_absolute method target version headers parsed hostname

    unfoldable pub handle_parsed :
        Option (Text × Text × Text)
        → Option (List (Text × Text))
        → PinnedHostRegistry
        → Option Dial × Result Answer
    unfolding handle_connect handle_url
    handle_parsed none headers registry = (none, raised value_error)
    handle_parsed (some first) none registry = (none, raised value_error)
    handle_parsed (some (method, target, version)) (some headers) registry =
        if text_eq (lib.upper method) connect
        then handle_connect target version registry
        else handle_url method target version headers (lib.urlparse target)

    unfoldable pub handle_head : Head → PinnedHostRegistry → Option Dial × Result Answer
    unfolding handle_parsed read_first_line read_headers
    handle_head incomplete registry = (none, raised os_error)
    handle_head too_long registry = (none, raised other_error)
    handle_head (lines first others) registry =
        handle_parsed (read_first_line first) (read_headers lib others) registry

    -- The connection that `_handle_client` tries, and its answer.
    unfoldable pub handle_client : Head → PinnedHostRegistry → Option Dial × Answer
    unfolding handle_head answer_of
    handle_client head registry =
        let (dial, result) = handle_head head registry in (dial, answer_of result)
