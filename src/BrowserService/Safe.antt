-- ===== src/BrowserService/Safe.antt =====
-- The addresses that the proxy dials: public ones, but for the hosts that tests may use.
use site_parser_for_freelans.Common.{
  ◌≡◌, ◌⊎◌, refl, ap, subst, ◌∙◌, inl, inr, Bool, true, false, not, ◌||◌, Bool-cases, Option, none,
  some, Option-cases, List, [], ◌∷◌, All, any, is_empty,
}
use site_parser_for_freelans.Common.Texts.{Text}
use site_parser_for_freelans.BrowserService.{
  Library, Resolver, ok, is_blocked, is_public_ip, is_test_allowed_host, normalize, validate_ips,
  resolve_normalized, resolve_and_validate_host, resolve_host_ips,
}

pub eq_of_ok : {A : Type 0} {a b : A} → ok a ≡ ok b → a ≡ b
eq_of_ok h = cc

-- The host is one that tests may use, or the address is public.
unfoldable pub Safe : Library → List Text → Text → Text → Type 0
Safe lib test_hosts host ip =
    (is_test_allowed_host lib test_hosts host ≡ true) ⊎ (is_public_ip lib ip ≡ true)

module _ (lib : Library) (test_hosts : List Text) where
  All-Allowed :
      (host : Text)
      → is_test_allowed_host lib test_hosts host ≡ true
      → (ips : List Text) → All (Safe lib test_hosts host) ips
  unfolding Safe
  All-Allowed host h [] = tt
  All-Allowed host h (ip ∷ ips) = (inl h, All-Allowed host h ips)

  All-Public :
      (host : Text) (ips : List Text)
      → any (λ ip. not (is_public_ip lib ip)) ips ≡ false
      → All (Safe lib test_hosts host) ips
  unfolding Safe
  All-Public host [] h = tt
  All-Public host (ip ∷ ips) h = elim (Bool-cases (is_public_ip lib ip)) [
    | inl p ↦ (inr p, All-Public host ips (rw p at h))
    | inr p ↦ absurd (cc (rw p at h))
  ]

  validate_ips-Safe :
      (host : Text) (found : Option (List Text)) (ips : List Text)
      → validate_ips lib test_hosts found ≡ ok ips
      → All (Safe lib test_hosts host) ips
  unfolding validate_ips
  validate_ips-Safe host none ips h = absurd (cc h)
  validate_ips-Safe host (some found) ips h =
      elim (Bool-cases (is_empty found || any (λ ip. not (is_public_ip lib ip)) found)) [
        | inl p ↦ absurd (cc (rw p at h))
        | inr p ↦
            subst (All (Safe lib test_hosts host)) (eq_of_ok (rw p at h))
              (All-Public host found (either (is_empty found) p))
      ]
    where
      either : (b : Bool) {c : Bool} → (b || c) ≡ false → c ≡ false
      either true h = absurd (cc h)
      either false h = h

  global : (ip : Text) → lib.ip_address ip ≡ some true → is_public_ip lib ip ≡ true
  unfolding is_public_ip
  global ip e = rw (e, is_public_ip) refl

  resolve_normalized-Safe :
      (resolver : Resolver) (host : Text) (ips : List Text)
      → resolve_normalized lib test_hosts resolver host ≡ ok ips
      → All (Safe lib test_hosts host) ips
  unfolding resolve_normalized Safe
  resolve_normalized-Safe resolver host ips h = elim (Bool-cases (is_empty host)) [
    | inl p ↦ absurd (cc (rw p at h))
    | inr p ↦ elim (Bool-cases (is_blocked host)) [
      | inl q ↦ absurd (cc (rw (p, q) at h))
      | inr q ↦ elim (Bool-cases (is_test_allowed_host lib test_hosts host)) [
        | inl r ↦ All-Allowed host r ips
        | inr r ↦ elim (Option-cases (lib.ip_address host)) [
          | inl e ↦
              validate_ips-Safe host (resolve_host_ips resolver host) ips (rw (p, q, r, e) at h)
          | inr (is_global, e) ↦ elim (Bool-cases is_global) [
            | inl g ↦
                subst (All (Safe lib test_hosts host)) (eq_of_ok (rw (p, q, r, e, g) at h))
                  (inr (global host (e ∙ ap some g)), tt)
            | inr g ↦ absurd (cc (rw (p, q, r, e, g) at h))
          ]
        ]
      ]
    ]
  ]

  -- What `_resolve_and_validate_host` returns for a host, whatever the resolver answers, are addresses
  -- that are public, unless the normalized host is one that tests may use.
  pub resolve_and_validate_host-Safe :
      (resolver : Resolver) (host : Text) (ips : List Text)
      → resolve_and_validate_host lib test_hosts resolver host ≡ ok ips
      → All (Safe lib test_hosts (normalize lib host)) ips
  unfolding resolve_and_validate_host
  resolve_and_validate_host-Safe resolver host ips h =
      resolve_normalized-Safe resolver (normalize lib host) ips h
