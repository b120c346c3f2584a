-- ===== src/BrowserService/Dials.antt =====
-- The address that the proxy of browser-service/main.py dials.
use site_parser_for_freelans.Common.{
  ◌≡◌, refl, subst, not, ◌||◌, Bool, Option, none, some, eq_of_some, List, All, is_empty, if_either,
}
use site_parser_for_freelans.Common.Int.{ℤ, pos}
use site_parser_for_freelans.Common.Texts.{Text, text_eq}
use site_parser_for_freelans.BrowserService.{
  Library, Url, Resolver, Result, ok, raised, http_exception, absolute_form_only, normalize,
  hostname_or_empty, resolve_and_validate_host, http,
}
use site_parser_for_freelans.BrowserService.HostPort.{parse_host_port}
use site_parser_for_freelans.BrowserService.Pins.{PinnedHostRegistry, get}
use site_parser_for_freelans.BrowserService.Target.{
  Dial, dial_ip, connect_ip, pin_request_target, pinned_or_resolved, open_pinned_connection,
}
use site_parser_for_freelans.BrowserService.Proxy.{
  Answer, Head, lines, incomplete, too_long, reach, send_on, pin_absolute, handle_connect,
  handle_absolute, handle_url, handle_parsed, handle_head, handle_client, read_first_line,
  read_headers, connect, port_or_80,
}
use site_parser_for_freelans.BrowserService.Safe.{Safe, resolve_and_validate_host-Safe}
use site_parser_for_freelans.BrowserService.Renders.{
  Event, PinsSafe, after, after-Safe, lookup-Safe,
}
use site_parser_for_freelans.BrowserService.Pinned.{
  OnOk, OnSome, on_ok, on_bind, PinnedTo, pin_request_target-PinnedTo,
}

module _ (lib : Library) (test_hosts : List Text) (resolver : Resolver) where
  DialsSafe : Dial → Type 0
  DialsSafe d = Safe lib test_hosts d.host d.ip

  resolve-Safe :
      (host : Text)
      → OnOk
          (All (Safe lib test_hosts (normalize lib host)))
          (resolve_and_validate_host lib test_hosts resolver host)
  resolve-Safe host =
      on_ok (All (Safe lib test_hosts (normalize lib host)))
        (resolve_and_validate_host lib test_hosts resolver host)
        (resolve_and_validate_host-Safe lib test_hosts resolver host)

  pinned_or_resolved-Safe :
      (host : Text) (pinned : Option (List Text))
      → ((ips : List Text) → pinned ≡ some ips → All (Safe lib test_hosts (normalize lib host)) ips)
      → OnOk
          (All (Safe lib test_hosts (normalize lib host)))
          (pinned_or_resolved lib test_hosts resolver host pinned)
  unfolding pinned_or_resolved
  pinned_or_resolved-Safe host none h = resolve-Safe host
  pinned_or_resolved-Safe host (some ips) h = h ips refl

  open_pinned_connection-Safe :
      (host : Text) (port : ℤ) (r : PinnedHostRegistry)
      → PinsSafe lib test_hosts r.pins
      → OnOk DialsSafe (open_pinned_connection lib test_hosts resolver host port r)
  unfolding open_pinned_connection DialsSafe get PinnedTo
  open_pinned_connection-Safe host port r s =
      let name = normalize lib host in
      let P = Safe lib test_hosts (normalize lib name) in
      on_bind (All P) DialsSafe (pinned_or_resolved lib test_hosts resolver name (get lib name r)) _
        (pinned_or_resolved-Safe name (get lib name r)
          (λ ips e. lookup-Safe lib test_hosts (normalize lib name) r.pins ips s e))
        (λ ips h.
          on_bind (PinnedTo P) DialsSafe _ _ (pin_request_target-PinnedTo lib P _ ips h)
            (λ pinned k. on_bind P DialsSafe (connect_ip pinned) _ k.0 (λ ip q. q)))

  module _ (connects : Text → ℤ → Bool) where
    reach-Safe :
        (x : Result Dial) (answer : Answer)
        → OnOk DialsSafe x
        → OnSome DialsSafe (reach lib test_hosts resolver connects x answer).0
    unfolding reach
    reach-Safe (ok d) answer h = h
    reach-Safe (raised e) answer h = tt

    handle_connect-Safe :
        (target version : Text) (r : PinnedHostRegistry)
        → PinsSafe lib test_hosts r.pins
        → OnSome DialsSafe (handle_connect lib test_hosts resolver connects target version r).0
    unfolding handle_connect
    handle_connect-Safe target version r s = reach-Safe _ _ (
        on_bind (λ p. Unit) DialsSafe (parse_host_port lib target (pos 443)) _
          (on_ok (λ p. Unit) _ (λ p e. tt)) (λ p u. open_pinned_connection-Safe p.0 p.1 r s))

    handle_absolute-Safe :
        (method target version : Text) (headers : List (Text × Text)) (parsed : Url)
        (hostname : Text)
        → OnSome DialsSafe
            (handle_absolute lib test_hosts resolver connects method target version headers parsed
              hostname).0
    unfolding handle_absolute pin_absolute DialsSafe PinnedTo
    handle_absolute-Safe method target version headers parsed hostname =
        let P = Safe lib test_hosts (normalize lib hostname) in
        sent _ _ (
          on_bind (All P) (λ d. P d.0) (resolve_and_validate_host lib test_hosts resolver hostname)
            _ (resolve-Safe hostname)
            (λ ips h.
              on_bind (PinnedTo P) (λ d. P d.0) (pin_request_target lib target ips) dial_ip
                (pin_request_target-PinnedTo lib P target ips h) (λ pinned k. k.1)))
      where
        sent :
            (answer : Text → Answer) (x : Result (Text × Text))
            → OnOk (λ d. Safe lib test_hosts (normalize lib hostname) d.0) x
            → OnSome DialsSafe
                (send_on lib test_hosts resolver connects
                  (normalize lib hostname)
                  (port_or_80 parsed.port)
                  answer
                  x).0
        sent answer (ok (ip, header)) h = h
        sent answer (raised e) h = tt

    handle_url-Safe :
        (method target version : Text) (headers : List (Text × Text)) (url : Option Url)
        → OnSome DialsSafe
            (handle_url lib test_hosts resolver connects method target version headers url).0
    unfolding handle_url
    handle_url-Safe method target version headers none = tt
    handle_url-Safe method target version headers (some parsed) =
        let hostname = hostname_or_empty parsed in
        if_either (λ x. OnSome DialsSafe x.0)
          (not (text_eq parsed.scheme http) || is_empty hostname)
          (none, raised (http_exception 400 absolute_form_only))
          (handle_absolute lib test_hosts resolver connects method target version headers parsed
            hostname)
          tt (handle_absolute-Safe method target version headers parsed hostname)

    handle_parsed-Safe :
        (first : Option (Text × Text × Text)) (headers : Option (List (Text × Text)))
        (r : PinnedHostRegistry)
        → PinsSafe lib test_hosts r.pins
        → OnSome DialsSafe (handle_parsed lib test_hosts resolver connects first headers r).0
    unfolding handle_parsed
    handle_parsed-Safe none headers r s = tt
    handle_parsed-Safe (some first) none r s = tt
    handle_parsed-Safe (some (method, target, version)) (some headers) r s =
        if_either (λ x. OnSome DialsSafe x.0) (text_eq (lib.upper method) connect)
          (handle_connect lib test_hosts resolver connects target version r)
          (handle_url lib test_hosts resolver connects method target version headers
            (lib.urlparse target))
          (handle_connect-Safe target version r s)
          (handle_url-Safe method target version headers (lib.urlparse target))

    handle_head-Safe :
        (head : Head) (r : PinnedHostRegistry)
        → PinsSafe lib test_hosts r.pins
        → OnSome DialsSafe (handle_head lib test_hosts resolver connects head r).0
    unfolding handle_head
    handle_head-Safe incomplete r s = tt
    handle_head-Safe too_long r s = tt
    handle_head-Safe (lines first others) r s =
        handle_parsed-Safe (read_first_line first) (read_headers lib others) r s

    dial-Safe :
        (o : Option Dial) (d : Dial)
        → OnSome DialsSafe o
        → o ≡ some d
        → Safe lib test_hosts d.host d.ip
    unfolding DialsSafe
    dial-Safe none d s e = absurd (cc e)
    dial-Safe (some c) d s e = subst DialsSafe (eq_of_some e) s

    -- Whatever the renders did to the registry before, and whatever a page asks the proxy for and the
    -- resolver answers, now and then: an address that the proxy dials is public, unless the host that
    -- it is dialled for is one that tests may use.
    pub handle_client-Safe :
        (events : List Event) (head : Head) (d : Dial)
        → (handle_client lib test_hosts resolver connects head (after lib test_hosts events)).0
          ≡ some d
        → Safe lib test_hosts d.host d.ip
    unfolding handle_client
    handle_client-Safe events head d h =
        let r = after lib test_hosts events in
        dial-Safe (handle_head lib test_hosts resolver connects head r).0 d
          (handle_head-Safe head r (after-Safe lib test_hosts events)) h
