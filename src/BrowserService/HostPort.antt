-- ===== src/BrowserService/HostPort.antt =====
-- _format_host_for_url and _parse_host_port of browser-service/main.py.
use mathlib.Core.List.{append_assoc}
use site_parser_for_freelans.Common.{
  ℕ, ◌≡◌, refl, true, false, not, ◌&&◌, Bool-cases, inl, inr, ◌==◌, Option, none, some, [], ◌∷◌,
  ◌++◌, if◌then◌else◌, arith,
}
use site_parser_for_freelans.Common.Int.{ℤ, pos}
use site_parser_for_freelans.Common.Texts.{
  Text, contains_char, count_char, starts_with_char, split_first, split_first-append,
  count_char-append, count_char-absent,
}
use site_parser_for_freelans.BrowserService.{Library, Result, ok, raised, value_error}

-- The characters `:`, `[` and `]`.
abbrev pub colon : ℕ
colon = 58

abbrev pub open_bracket : ℕ
open_bracket = 91

abbrev pub close_bracket : ℕ
close_bracket = 93

module _ (lib : Library) where
  unfoldable pub format_host_for_url : Text → Option ℤ → Text
  format_host_for_url host port =
      let bracketed =
        if contains_char colon host && not (starts_with_char open_bracket host)
        then open_bracket ∷ host ++ close_bracket ∷ []
        else host in
      elim port [ none ↦ bracketed | some p ↦ bracketed ++ colon ∷ lib.str p ]

  -- `int(text)` as the port of the host.
  unfoldable pub with_port : Text → Option ℤ → Result (Text × ℤ)
  with_port host none = raised value_error
  with_port host (some port) = ok (host, port)

  -- What follows the closing bracket.
  unfoldable pub after_bracket : Text → ℤ → Text → Result (Text × ℤ)
  unfolding with_port
  after_bracket host default_port [] = ok (host, default_port)
  after_bracket host default_port (c ∷ digits) =
      if c == colon then with_port host (lib.int digits) else ok (host, default_port)

  unfoldable pub bracketed_host : ℤ → Option (Text × Text) → Result (Text × ℤ)
  unfolding after_bracket
  bracketed_host default_port none = raised value_error
  bracketed_host default_port (some (host, remainder)) = after_bracket host default_port remainder

  -- The two sides of the only colon, which `rsplit` gives.
  unfoldable pub plain_host : Text → ℤ → Option (Text × Text) → Result (Text × ℤ)
  unfolding with_port
  plain_host value default_port none = ok (value, default_port)
  plain_host value default_port (some (host, raw_port)) =
      if lib.isdigit raw_port then with_port host (lib.int raw_port) else ok (value, default_port)

  unfoldable pub parse_without_bracket : Text → ℤ → Result (Text × ℤ)
  unfolding plain_host
  parse_without_bracket value default_port =
      if count_char colon value == 1
      then plain_host value default_port (split_first colon value)
      else ok (value, default_port)

  unfoldable pub parse_host_port : Text → ℤ → Result (Text × ℤ)
  unfolding bracketed_host parse_without_bracket
  parse_host_port [] default_port = parse_without_bracket [] default_port
  parse_host_port (c ∷ cs) default_port =
      if c == open_bracket
      then bracketed_host default_port (split_first close_bracket cs)
      else parse_without_bracket (c ∷ cs) default_port

  -- What the code relies on of `str`, `int` and `isdigit` on numbers that are not negative.
  pub record Decimals : Type 0 where
    pub int-str : (n : ℕ) → lib.int (lib.str (pos n)) ≡ some (pos n)
    pub isdigit-str : (n : ℕ) → lib.isdigit (lib.str (pos n)) ≡ true
    pub str_colon : (n : ℕ) → contains_char colon (lib.str (pos n)) ≡ false

  parse_bracketed :
      (laws : Decimals) (host : Text) (n : ℕ) (default_port : ℤ)
      → contains_char close_bracket host ≡ false
      → parse_host_port
          (open_bracket ∷ (host ++ close_bracket ∷ []) ++ colon ∷ lib.str (pos n))
          default_port
        ≡ ok (host, pos n)
  unfolding parse_host_port bracketed_host after_bracket with_port
  parse_bracketed laws host n default_port h =
      rw
        (
          append_assoc host (close_bracket ∷ []) (colon ∷ lib.str (pos n)),
          split_first-append close_bracket host (colon ∷ lib.str (pos n)) h,
          laws.int-str n,
        )
        refl

  one_colon :
      (laws : Decimals) (host : Text) (n : ℕ)
      → contains_char colon host ≡ false
      → (count_char colon (host ++ colon ∷ lib.str (pos n)) == 1) ≡ true
  one_colon laws host n h = ground (
    arith,
    count_char-append colon host (colon ∷ lib.str (pos n)),
    count_char-absent colon host h,
    count_char-absent colon (lib.str (pos n)) (laws.str_colon n),
  )

  parse_plain :
      (laws : Decimals) (host : Text) (n : ℕ) (default_port : ℤ)
      → contains_char colon host ≡ false
      → parse_without_bracket (host ++ colon ∷ lib.str (pos n)) default_port ≡ ok (host, pos n)
  unfolding parse_without_bracket plain_host with_port
  parse_plain laws host n default_port h =
      rw
        (
          one_colon laws host n h,
          split_first-append colon host (lib.str (pos n)) h,
          laws.isdigit-str n,
          laws.int-str n,
        )
        refl

  -- For a host that does not begin with an opening bracket and has no closing one, and a port that is
  -- not negative, parsing what `_format_host_for_url` wrote gives back the host and the port, IPv6
  -- addresses included, whatever the default port.
  pub parse_host_port-format_host_for_url :
      (laws : Decimals) (host : Text) (n : ℕ) (default_port : ℤ)
      → starts_with_char open_bracket host ≡ false
      → contains_char close_bracket host ≡ false
      → parse_host_port (format_host_for_url host (some (pos n))) default_port ≡ ok (host, pos n)
  unfolding format_host_for_url parse_host_port
  parse_host_port-format_host_for_url laws host n default_port h k =
      elim (Bool-cases (contains_char colon host)) [
        | inl p ↦ rw (p, h) (parse_bracketed laws host n default_port k)
        | inr p ↦ rw p (without host h (parse_plain laws host n default_port p))
      ]
    where
      without :
          (host : Text)
          → starts_with_char open_bracket host ≡ false
          → parse_without_bracket (host ++ colon ∷ lib.str (pos n)) default_port ≡ ok (host, pos n)
          → parse_host_port (host ++ colon ∷ lib.str (pos n)) default_port ≡ ok (host, pos n)
      without [] h e = e
      without (c ∷ cs) h e = rw h e
