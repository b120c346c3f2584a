-- ===== src/BrowserService/Renders.antt =====
-- The registry of the pinned hosts over the renders of browser-service/main.py that begin and end.
use site_parser_for_freelans.Common.{
  ◌≡◌, refl, subst, inl, inr, Bool-cases, some, eq_of_some, List, [], ◌∷◌, All, is_empty,
}
use site_parser_for_freelans.Common.Texts.{Text, text_eq, eq_of_text_eq}
use site_parser_for_freelans.BrowserService.{
  Library, Resolver, Result, ok, raised, normalize, resolve_and_validate_host,
}
use site_parser_for_freelans.BrowserService.Pins.{
  PinnedHostRegistry, no_pins, lookup, remove_key, store, pin, unpin,
}
use site_parser_for_freelans.BrowserService.Safe.{Safe, resolve_and_validate_host-Safe}

-- What the renders do with the registry: one begins by resolving its host, and pins what it found,
-- or ends.
pub data Event : Type 0 where
  begins : Text → Resolver → Event
  ends : Text → Event

module _ (lib : Library) (test_hosts : List Text) where
  -- The addresses that are pinned for each host.
  abbrev pub PinsSafe : List (Text × List Text) → Type 0
  PinsSafe [] = Unit
  PinsSafe ((host, ips) ∷ pins) = All (Safe lib test_hosts host) ips × PinsSafe pins

  pub lookup-Safe :
      (host : Text) (pins : List (Text × List Text)) (ips : List Text)
      → PinsSafe pins
      → lookup host pins ≡ some ips
      → All (Safe lib test_hosts host) ips
  unfolding lookup
  lookup-Safe host [] ips s h = absurd (cc h)
  lookup-Safe host ((name, found) ∷ pins) ips s h = elim (Bool-cases (text_eq name host)) [
    | inl p ↦
        subst (λ n. All (Safe lib test_hosts n) ips) (eq_of_text_eq name host p)
          (subst (All (Safe lib test_hosts name)) (eq_of_some (rw p at h)) s.0)
    | inr p ↦ lookup-Safe host pins ips s.1 (rw p at h)
  ]

  remove_key-Safe :
      (host : Text) (pins : List (Text × List Text))
      → PinsSafe pins
      → PinsSafe (remove_key host pins)
  unfolding remove_key
  remove_key-Safe host [] s = tt
  remove_key-Safe host ((name, ips) ∷ pins) s = elim (Bool-cases (text_eq name host)) [
    | inl p ↦ rw p (remove_key-Safe host pins s.1)
    | inr p ↦ rw p (s.0, remove_key-Safe host pins s.1)
  ]

  unfoldable pub happens : Event → PinnedHostRegistry → PinnedHostRegistry
  unfolding pin unpin
  happens (begins host resolver) r = elim (resolve_and_validate_host lib test_hosts resolver host) [
    | ok ips ↦ pin lib host ips r
    | raised e ↦ r
  ]
  happens (ends host) r = unpin lib host r

  unfoldable pub after : List Event → PinnedHostRegistry
  unfolding happens
  after [] = no_pins
  after (e ∷ es) = happens e (after es)

  pin-Safe :
      (host : Text) (ips : List Text) (r : PinnedHostRegistry)
      → All (Safe lib test_hosts (normalize lib host)) ips
      → PinsSafe r.pins
      → PinsSafe (pin lib host ips r).pins
  unfolding pin store
  pin-Safe host ips r h s = elim (Bool-cases (is_empty (normalize lib host))) [
    | inl p ↦ rw p s
    | inr p ↦ rw p (h, remove_key-Safe (normalize lib host) r.pins s)
  ]

  happens-Safe :
      (e : Event) (r : PinnedHostRegistry) → PinsSafe r.pins → PinsSafe (happens e r).pins
  unfolding happens unpin
  happens-Safe (begins host resolver) r s =
      from (resolve_and_validate_host lib test_hosts resolver host) refl
    where
      from :
          (x : Result (List Text))
          → resolve_and_validate_host lib test_hosts resolver host ≡ x
          → PinsSafe
              (elim x as (λ y. PinnedHostRegistry) [
                | ok ips ↦ pin lib host ips r
                | raised e ↦ r
              ]).pins
      from (ok ips) e =
          pin-Safe host ips r (resolve_and_validate_host-Safe lib test_hosts resolver host ips e) s
      from (raised e) q = s
  happens-Safe (ends host) r s = remove_key-Safe (normalize lib host) r.pins s

  pub after-Safe : (es : List Event) → PinsSafe (after es).pins
  unfolding after
  after-Safe [] = tt
  after-Safe (e ∷ es) = happens-Safe e (after es) (after-Safe es)
