-- ===== src/BrowserService/Overlap.antt =====
-- Two renders of one host that overlap, in the registry of browser-service/main.py.
use site_parser_for_freelans.Common.{
  ℕ, ◌+◌, ◌-◌, ◌<◌, ◌≡◌, refl, inl, inr, true, false, Bool-cases, none, List, [], ◌∷◌, is_empty,
  ltb, arith,
}
use site_parser_for_freelans.Common.Texts.{Text, text_eq, text_eq_iff}
use site_parser_for_freelans.BrowserService.{Library, normalize}
use site_parser_for_freelans.BrowserService.Pins.{
  PinnedHostRegistry, lookup, remove_key, store, refcount, allow, disallow, pin, unpin, get,
  contains,
}

lookup-remove_key :
    {A : Type 0} (k : Text) (entries : List (Text × A)) → lookup k (remove_key k entries) ≡ none
unfolding lookup remove_key
lookup-remove_key k [] = refl
lookup-remove_key k ((j, x) ∷ entries) = elim (Bool-cases (text_eq j k)) [
  | inl p ↦ rw p (lookup-remove_key k entries)
  | inr p ↦ rw (p, p) (lookup-remove_key k entries)
]

refcount-store : (k : Text) (n : ℕ) (counts : List (Text × ℕ)) → refcount k (store k n counts) ≡ n
unfolding refcount store lookup
refcount-store k n counts = rw ((text_eq_iff k k).1 refl, refcount) refl

refcount-allow :
    (k : Text) (counts : List (Text × ℕ))
    → is_empty k ≡ false
    → refcount k (allow k counts) ≡ refcount k counts + 1
unfolding allow
refcount-allow k counts h = rw h (refcount-store k (refcount k counts + 1) counts)

refcount-disallow :
    (k : Text) (counts : List (Text × ℕ))
    → is_empty k ≡ false
    → 1 < refcount k counts
    → refcount k (disallow k counts) ≡ refcount k counts - 1
unfolding disallow
refcount-disallow k counts h m =
    let left : ltb 0 (refcount k counts - 1) ≡ true = ground arith in
    rw (h, left) (refcount-store k (refcount k counts - 1) counts)

-- Where normalizing a host twice does what normalizing it once does: when a render of a host that is
-- not empty ends while a second one, which began after it, is under way, the registry has no pinned
-- addresses for the host any more, although it still counts the host as one that is being loaded.
pub unpin-pin :
    (lib : Library) (host : Text) (first second : List Text) (r : PinnedHostRegistry)
    → normalize lib (normalize lib host) ≡ normalize lib host
    → is_empty (normalize lib host) ≡ false
    → let s = unpin lib host (pin lib host second (pin lib host first r)) in
      (get lib host s ≡ none) × (contains lib host s ≡ true)
unfolding get contains pin unpin
unpin-pin lib host first second r i h =
    let k = normalize lib host in
    let one = allow k r.refcounts in
    let two = refcount-allow k one h in
    let three =
      refcount-disallow k (allow k one) h (ground (arith, two, refcount-allow k r.refcounts h)) in
    let four : ltb 0 (refcount k (disallow k (allow k one))) ≡ true =
      ground (arith, three, two, refcount-allow k r.refcounts h) in
    (lookup-remove_key k _, rw i four)
