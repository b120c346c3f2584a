-- ===== src/BrowserService/Pins.antt =====
-- _PinnedProxyRequestAllowlist and _PinnedHostRegistry of browser-service/main.py, which the renders
-- that are under way share. A dict is a list of its keys with their values, the latest first.
use site_parser_for_freelans.Common.{
  ℕ, ◌+◌, ◌-◌, Bool, Option, none, some, List, [], ◌∷◌, is_empty, if◌then◌else◌, ltb,
}
use site_parser_for_freelans.Common.Texts.{Text, text_eq}
use site_parser_for_freelans.BrowserService.{Library, normalize}

module _ {A : Type 0} where
  -- `dict.get(key)`.
  unfoldable pub lookup : Text → List (Text × A) → Option A
  lookup k [] = none
  lookup k ((j, x) ∷ entries) = let rest = lookup k entries in if text_eq j k then some x else rest

  -- `dict.pop(key, None)`.
  unfoldable pub remove_key : Text → List (Text × A) → List (Text × A)
  remove_key k [] = []
  remove_key k ((j, x) ∷ entries) =
      let rest = remove_key k entries in if text_eq j k then rest else (j, x) ∷ rest

  -- `dict[key] = x`.
  unfoldable pub store : Text → A → List (Text × A) → List (Text × A)
  unfolding remove_key
  store k x entries = (k, x) ∷ remove_key k entries

pub record PinnedHostRegistry : Type 0 where
  pub refcounts : List (Text × ℕ)
  pub pins : List (Text × List Text)

abbrev pub no_pins : PinnedHostRegistry
no_pins = record { refcounts = []; pins = [] }

-- `dict.get(key, 0)`.
unfoldable pub refcount : Text → List (Text × ℕ) → ℕ
unfolding lookup
refcount k counts = elim (lookup k counts) [ none ↦ 0 | some n ↦ n ]

-- `_PinnedProxyRequestAllowlist.allow`, when it is entered and when it is left; the host is
-- normalized.
unfoldable pub allow : Text → List (Text × ℕ) → List (Text × ℕ)
unfolding store refcount
allow host counts = if is_empty host then counts else store host (refcount host counts + 1) counts

unfoldable pub disallow : Text → List (Text × ℕ) → List (Text × ℕ)
unfolding store refcount remove_key
disallow host counts =
    let remaining = refcount host counts - 1 in
    if is_empty host
    then counts
    else if ltb 0 remaining
    then store host remaining counts
    else remove_key host counts

module _ (lib : Library) where
  -- `_PinnedHostRegistry.pin`, when it is entered.
  unfoldable pub pin : Text → List Text → PinnedHostRegistry → PinnedHostRegistry
  unfolding normalize store allow
  pin host resolved_ips r =
      let name = normalize lib host in
      record {
        refcounts = allow (normalize lib name) r.refcounts;
        pins = if is_empty name then r.pins else store name resolved_ips r.pins;
      }

  -- And when it is left, however the render ends.
  unfoldable pub unpin : Text → PinnedHostRegistry → PinnedHostRegistry
  unfolding normalize remove_key disallow
  unpin host r =
      let name = normalize lib host in
      record {
        refcounts = disallow (normalize lib name) r.refcounts;
        pins = remove_key name r.pins;
      }

  -- `_PinnedHostRegistry.get` and `contains`.
  unfoldable pub get : Text → PinnedHostRegistry → Option (List Text)
  unfolding normalize lookup
  get host r = lookup (normalize lib host) r.pins

  unfoldable pub contains : Text → PinnedHostRegistry → Bool
  unfolding normalize refcount
  contains host r = ltb 0 (refcount (normalize lib host) r.refcounts)
