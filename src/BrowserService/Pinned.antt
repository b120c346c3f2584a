-- ===== src/BrowserService/Pinned.antt =====
-- The addresses in what _pin_request_target of browser-service/main.py gives.
use site_parser_for_freelans.Common.{
  ℕ, ◌≡◌, refl, not, ◌||◌, Bool, true, false, Option, none, some, List, [], ◌∷◌, All, is_empty,
  if◌then◌else◌,
}
use site_parser_for_freelans.Common.Texts.{Text, text_eq}
use site_parser_for_freelans.BrowserService.{
  Library, Url, Result, ok, raised, value_error, http_exception, missing_host, not_allowed,
  normalize, hostname_or_empty, http, https,
}
use site_parser_for_freelans.BrowserService.Target.{
  Pinned, pinned_url, pinned_https, bind_ok, dial_ip, connect_ip, pin_http, pin_parsed,
  pin_request_target,
}

-- What is asked of the value, if there is one.
abbrev pub OnOk : {A : Type 0} → (A → Type 0) → Result A → Type 0
OnOk P (ok x) = P x
OnOk P (raised e) = Unit

abbrev pub OnSome : {A : Type 0} → (A → Type 0) → Option A → Type 0
OnSome P (some x) = P x
OnSome P none = Unit

pub on_ok : {A : Type 0} (P : A → Type 0) (x : Result A) → ((a : A) → x ≡ ok a → P a) → OnOk P x
on_ok P (ok a) h = h a refl
on_ok P (raised e) h = tt

pub on_bind :
    {A B : Type 0} (P : A → Type 0) (Q : B → Type 0) (x : Result A) (f : A → Result B)
    → OnOk P x
    → ((a : A) → P a → OnOk Q (f a))
    → OnOk Q (bind_ok x f)
on_bind P Q (ok a) f h k = k a h
on_bind P Q (raised e) f h k = tt

pub on_if :
    {A : Type 0} (P : A → Type 0) (b : Bool) (x y : Result A)
    → OnOk P x
    → OnOk P y
    → OnOk P (if b then x else y)
on_if P true x y h k = h
on_if P false x y h k = k

-- The addresses that the dict of a pinned target names.
unfoldable pub PinnedTo : (Text → Type 0) → Pinned → Type 0
PinnedTo P pinned = OnOk P (connect_ip pinned) × OnOk (λ d. P d.0) (dial_ip pinned)

module _ (lib : Library) (P : Text → Type 0) where
  pin_http-PinnedTo :
      (parsed : Url) (host : Text) (port : Option ℕ) (ip : Text)
      → P ip
      → OnOk (PinnedTo P) (pin_http lib parsed host port ip)
  unfolding pin_http PinnedTo
  pin_http-PinnedTo parsed host none ip h = tt
  pin_http-PinnedTo parsed host (some port) ip h = (tt, h)

  pinned_https-PinnedTo :
      (url host : Text) (port : Option ℕ) (ip : Text)
      → P ip
      → OnOk (PinnedTo P) (elim port as (λ p. Result Pinned) [
        | none ↦ raised value_error
        | some p ↦ ok (pinned_https url ip host)
      ])
  unfolding PinnedTo
  pinned_https-PinnedTo url host none ip h = tt
  pinned_https-PinnedTo url host (some port) ip h = (h, tt)

  pin_parsed-PinnedTo :
      (url : Text) (parsed : Url) (ips : List Text)
      → All P ips
      → OnOk (PinnedTo P) (pin_parsed lib url parsed ips)
  unfolding pin_parsed PinnedTo
  pin_parsed-PinnedTo url parsed [] h =
      let missing : Result Pinned = raised (http_exception 400 missing_host) in
      let blocked : Result Pinned = raised (http_exception 400 not_allowed) in
      let no_host = is_empty (normalize lib (hostname_or_empty parsed)) in
      on_if (PinnedTo P) (not (text_eq parsed.scheme http || text_eq parsed.scheme https))
        (ok (pinned_url url)) (if no_host then missing else blocked) (tt, tt)
        (on_if (PinnedTo P) no_host missing blocked tt tt)
  pin_parsed-PinnedTo url parsed (ip ∷ ips) h =
      let missing : Result Pinned = raised (http_exception 400 missing_host) in
      let name = normalize lib (hostname_or_empty parsed) in
      let plain = pin_http lib parsed name parsed.port ip in
      let secure : Result Pinned = elim parsed.port [
        | none ↦ raised value_error
        | some port ↦ ok (pinned_https url ip name)
      ] in
      let target = if text_eq parsed.scheme http then plain else secure in
      on_if (PinnedTo P) (not (text_eq parsed.scheme http || text_eq parsed.scheme https))
        (ok (pinned_url url)) (if is_empty name then missing else target) (tt, tt)
        (on_if (PinnedTo P) (is_empty name) missing target tt (
          on_if (PinnedTo P) (text_eq parsed.scheme http) plain secure
            (pin_http-PinnedTo parsed name parsed.port ip h.0)
            (pinned_https-PinnedTo url name parsed.port ip h.0)))

  pub pin_request_target-PinnedTo :
      (url : Text) (ips : List Text)
      → All P ips
      → OnOk (PinnedTo P) (pin_request_target lib url ips)
  unfolding pin_request_target
  pin_request_target-PinnedTo url ips h = from (lib.urlparse url)
    where
      from :
          (parsed : Option Url)
          → OnOk (PinnedTo P) (elim parsed as (λ p. Result Pinned) [
            | none ↦ raised value_error
            | some p ↦ pin_parsed lib url p ips
          ])
      from none = tt
      from (some parsed) = pin_parsed-PinnedTo url parsed ips h
