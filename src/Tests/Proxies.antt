-- ===== src/Tests/Proxies.antt =====
-- Runs of the pinned proxy of the browser service, with a small library of texts: numbers are written
-- as so many ones and one more, and an address is what begins with a nine.
use site_parser_for_freelans.Common.{
  ℕ, zero, suc, ◌+◌, ◌-◌, ◌≤◌, ◌<◌, ◌≡◌, refl, ap, true, false, not, ◌&&◌, none, some, [], ◌∷◌,
  ◌++◌, All, any, map, length, leb, if◌then◌else◌, arith,
}
use site_parser_for_freelans.Common.Int.{pos, pos_part}
use site_parser_for_freelans.Common.Texts.{Text, contains_char, starts_with_char}
use site_parser_for_freelans.BrowserService.{
  Library, Url, Resolver, inet, ok, https, normalize, resolve_and_validate_host,
}
use site_parser_for_freelans.BrowserService.HostPort.{
  colon, Decimals, format_host_for_url, parse_host_port, parse_host_port-format_host_for_url,
}
use site_parser_for_freelans.BrowserService.Pins.{no_pins, pin, unpin, get, contains}
use site_parser_for_freelans.BrowserService.Target.{Dial, open_pinned_connection}
use site_parser_for_freelans.BrowserService.Proxy.{
  Head, lines, connect, handle_client, with_host, host_title,
}
use site_parser_for_freelans.BrowserService.Safe.{Safe}
use site_parser_for_freelans.BrowserService.Renders.{begins, after}
use site_parser_for_freelans.BrowserService.Dials.{handle_client-Safe}
use site_parser_for_freelans.BrowserService.Forward.{
  IsForwardable, is_host, with_host-IsForwardable,
}
use site_parser_for_freelans.BrowserService.Backpressure.{
  RenderQueue, new_queue, enter, enters, leaves, turns, turns-new_queue,
}
use site_parser_for_freelans.BrowserService.Overlap.{unpin-pin}

abbrev ones : ℕ → Text
ones zero = 49 ∷ []
ones (suc n) = 49 ∷ ones n

abbrev small_case : Text → Text
small_case t = map (λ c. if leb 65 c && leb c 90 then c + 32 else c) t

abbrev a_url : Url
a_url = record {
  scheme = https;
  netloc = 97 ∷ [];
  hostname = some (97 ∷ []);
  port = some 443;
  path = [];
  params = [];
  query = [];
  fragment = [];
}

abbrev ascii : Library
ascii = record {
  strip = λ t. t;
  lstrip = λ t. t;
  lower = small_case;
  upper = λ t. t;
  urlparse = λ t. some a_url;
  urlunparse = λ scheme netloc path params query fragment. scheme ++ netloc ++ path;
  ip_address = λ t. if starts_with_char 57 t then some true else none;
  str = λ z. ones (pos_part z);
  int = λ t. some (pos (length t - 1));
  isdigit = λ t. not (contains_char colon t);
}

length-ones : (n : ℕ) → length (ones n) ≡ n + 1
length-ones zero = refl
length-ones (suc n) = omega (arith, length-ones n)

ones-colon : (n : ℕ) → contains_char colon (ones n) ≡ false
ones-colon zero = refl
ones-colon (suc n) = ones-colon n

ascii_decimals : Decimals ascii
ascii_decimals = record {
  int-str = λ n. ap (λ k. some (pos k)) (omega (arith, length-ones n));
  isdigit-str = λ n. ap not (ones-colon n);
  str_colon = ones-colon;
}

parse_host_port-format_host_for_url_example :
    parse_host_port ascii
      (format_host_for_url ascii (97 ∷ 58 ∷ 58 ∷ 98 ∷ []) (some (pos 3)))
      (pos 443)
    ≡ ok (97 ∷ 58 ∷ 58 ∷ 98 ∷ [], pos 3)
parse_host_port-format_host_for_url_example =
    parse_host_port-format_host_for_url ascii ascii_decimals (97 ∷ 58 ∷ 58 ∷ 98 ∷ []) 3 (pos 443)
      refl refl

abbrev resolver : Resolver
resolver host = some ((inet, 57 ∷ []) ∷ [])

abbrev tunnel : Head
tunnel = lines (connect ++ 32 ∷ 97 ∷ 32 ∷ 72 ∷ []) []

abbrev dialled : Dial
dialled = record { host = 97 ∷ []; ip = 57 ∷ []; port = pos 443 }

handle_client-Safe_example : Safe ascii [] dialled.host dialled.ip
unfolding handle_client after pin resolve_and_validate_host open_pinned_connection get
    parse_host_port
handle_client-Safe_example =
    handle_client-Safe ascii [] resolver (λ ip port. true) (begins (97 ∷ []) resolver ∷ []) tunnel
      dialled refl

with_host-IsForwardable_example :
    let sent = with_host ascii (97 ∷ []) ((host_title, 98 ∷ []) ∷ (99 ∷ [], 100 ∷ []) ∷ []) in
    All (IsForwardable ascii (97 ∷ [])) sent × (any (is_host ascii) sent ≡ true)
with_host-IsForwardable_example =
    with_host-IsForwardable ascii (97 ∷ []) refl ((host_title, 98 ∷ []) ∷ (99 ∷ [], 100 ∷ []) ∷ [])

unpin-pin_example :
    let s =
      unpin ascii
        (97 ∷ [])
        (pin ascii (97 ∷ []) ((57 ∷ []) ∷ []) (pin ascii (97 ∷ []) ((57 ∷ []) ∷ []) no_pins)) in
    (get ascii (97 ∷ []) s ≡ none) × (contains ascii (97 ∷ []) s ≡ true)
unfolding normalize
unpin-pin_example = unpin-pin ascii (97 ∷ []) ((57 ∷ []) ∷ []) ((57 ∷ []) ∷ []) no_pins refl refl

turns-new_queue_example :
    (r : RenderQueue) × (turns (enters true ∷ enters true ∷ leaves ∷ []) (new_queue 1) ≡ some r)
    × (r.qsize ≡ r.under_way)
    × (0 < 1 → r.under_way ≤ 1)
turns-new_queue_example = turns-new_queue 1 (enters true ∷ enters true ∷ leaves ∷ [])

overloaded : (enter true (enter true (new_queue 1)).0).1 ≡ some 503
unfolding enter
overloaded = refl
