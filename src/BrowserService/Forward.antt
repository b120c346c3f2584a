-- ===== src/BrowserService/Forward.antt =====
-- The headers that the proxy of browser-service/main.py sends on.
use site_parser_for_freelans.Common.{
  ◌≡◌, refl, sym, ◌∙◌, inl, inr, Bool, true, false, ◌||◌, Bool-cases, List, [], ◌∷◌, ◌++◌, All, any,
}
use site_parser_for_freelans.Common.Texts.{Text, text_eq}
use site_parser_for_freelans.BrowserService.{Library}
use site_parser_for_freelans.BrowserService.Proxy.{
  forward_headers, with_host, host_name, host_title, proxy_authorization, proxy_connection,
}

-- Is the header one of the proxy's own, or the host?
abbrev pub is_private : Library → Text × Text → Bool
is_private lib (name, value) =
    text_eq (lib.lower name) proxy_authorization || text_eq (lib.lower name) proxy_connection

abbrev pub is_host : Library → Text × Text → Bool
is_host lib (name, value) = text_eq (lib.lower name) host_name

-- The header is not the proxy's own, and names the host if it is the host header.
abbrev pub IsForwardable : Library → Text → Text × Text → Type 0
IsForwardable lib host h = (is_private lib h ≡ false) × (is_host lib h ≡ true → h.1 ≡ host)

module _ (lib : Library) (host : Text) where
  forward_headers-IsForwardable :
      (headers : List (Text × Text))
      → All (IsForwardable lib host) (forward_headers lib host headers).0
        × ((forward_headers lib host headers).1
            ≡ any (is_host lib) (forward_headers lib host headers).0)
  unfolding forward_headers
  forward_headers-IsForwardable [] = (tt, refl)
  forward_headers-IsForwardable ((name, value) ∷ headers) =
      let rest = forward_headers-IsForwardable headers in
      elim (Bool-cases (is_private lib (name, value))) [
        | inl p ↦ rw p rest
        | inr p ↦ elim (Bool-cases (is_host lib (name, value))) [
          | inl q ↦ rw (p, q) (((p, λ e. refl), rest.0), rw q refl)
          | inr q ↦ rw (p, q) (((p, λ e. absurd (cc (q, e))), rest.0), rw q rest.1)
        ]
      ]

  IsForwardable-append :
      (xs ys : List (Text × Text))
      → All (IsForwardable lib host) xs
      → All (IsForwardable lib host) ys
      → All (IsForwardable lib host) (xs ++ ys)
  IsForwardable-append [] ys h k = k
  IsForwardable-append (x ∷ xs) ys h k = (h.0, IsForwardable-append xs ys h.1 k)

  any-append :
      (p : Text × Text → Bool) (xs ys : List (Text × Text))
      → any p ys ≡ true
      → any p (xs ++ ys) ≡ true
  any-append p [] ys h = h
  any-append p (x ∷ xs) ys h = elim (Bool-cases (p x)) [
    | inl q ↦ rw q refl
    | inr q ↦ rw q (any-append p xs ys h)
  ]

  -- Where `lower` writes `Host` in lower case, the headers that are sent on hold no header of the
  -- proxy's own, hold a host header, and every host header among them names the host of the URL,
  -- whatever the page wrote.
  pub with_host-IsForwardable :
      lib.lower host_title ≡ host_name
      → (headers : List (Text × Text))
      → All (IsForwardable lib host) (with_host lib host headers)
        × (any (is_host lib) (with_host lib host headers) ≡ true)
  unfolding with_host
  with_host-IsForwardable lower headers =
      let h = forward_headers-IsForwardable headers in
      elim (Bool-cases (forward_headers lib host headers).1) [
        | inl p ↦ rw p (h.0, sym h.1 ∙ p)
        | inr p ↦
            let own : (is_private lib (host_title, host) ≡ false)
                × (is_host lib (host_title, host) ≡ true) =
              rw lower (refl, refl) in
            rw p (
              IsForwardable-append (forward_headers lib host headers).0 ((host_title, host) ∷ [])
                  h.0 ((own.0, λ e. refl), tt),
              any-append (is_host lib) (forward_headers lib host headers).0
                  ((host_title, host) ∷ []) (rw own.1 refl),
            )
      ]
