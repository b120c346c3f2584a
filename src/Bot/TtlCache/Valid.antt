-- ===== src/Bot/TtlCache/Valid.antt =====
-- What every operation on a bounded cache keeps.
use site_parser_for_freelans.Common.{
  ℕ, ◌+◌, ◌≤◌, ◌<◌, sym, inl, inr, Option, none, some, List, [], ◌∷◌, ◌++◌, length, All, Bool-cases,
  Option-cases, leb, length-append, arith,
}
use site_parser_for_freelans.Bot.TtlCache.{
  Entry, TtlCache, build, find, remove, has, prune, drop_oldest, full, make_room, set, take_live,
  get, pop,
}
use site_parser_for_freelans.Bot.TtlCache.Entries.{
  Absent, Distinct, InOrder, remove-Distinct, remove-All, remove-InOrder, length-remove,
  length-remove-le, prune-All, prune-Distinct, prune-InOrder, length-prune-le,
}
use site_parser_for_freelans.Bot.TtlCache.Reads.{make_room-Absent}

module _ {V : Type 0} where
  -- Each key once, at most `maxsize` entries, the oldest first, and none expires later than one that
  -- is written now.
  pub record IsValid (now : ℕ) (c : TtlCache V) : Type 0 where
    pub positive : 1 ≤ c.maxsize
    pub distinct : Distinct c.items
    pub bounded : length c.items ≤ c.maxsize
    pub in_order : InOrder c.items
    pub soon : All (λ e. e.expires_at ≤ now + c.ttl) c.items

  pub build-IsValid : (maxsize ttl now : ℕ) → IsValid now (build maxsize ttl)
  unfolding build
  build-IsValid maxsize ttl now = record {
    positive = omega arith;
    distinct = tt;
    bounded = omega arith;
    in_order = tt;
    soon = tt;
  }

  -- An entry that is the last to expire goes to the end.
  append-InOrder :
      (es : List (Entry V)) (e : Entry V)
      → InOrder es
      → All (λ d. d.expires_at ≤ e.expires_at) es
      → InOrder (es ++ e ∷ [])
  append-InOrder [] e h a = (tt, tt)
  append-InOrder (d ∷ es) e h a = (all_append es h.0, append-InOrder es e h.1 a.1)
    where
      all_append :
          (xs : List (Entry V))
          → All (λ x. d.expires_at ≤ x.expires_at) xs
          → All (λ x. d.expires_at ≤ x.expires_at) (xs ++ e ∷ [])
      all_append [] b = (a.0, tt)
      all_append (x ∷ xs) b = (b.0, all_append xs b.1)

  append-Distinct :
      (es : List (Entry V)) (e : Entry V) → Distinct es → Absent e.key es → Distinct (es ++ e ∷ [])
  append-Distinct [] e h a = (tt, tt)
  append-Distinct (d ∷ es) e h a = (absent_append es h.0, append-Distinct es e h.1 a.1)
    where
      absent_append : (xs : List (Entry V)) → Absent d.key xs → Absent d.key (xs ++ e ∷ [])
      absent_append [] b = (λ q. a.0 (sym q), tt)
      absent_append (x ∷ xs) b = (b.0, absent_append xs b.1)

  append-All :
      (P : Entry V → Type 0) (es : List (Entry V)) (e : Entry V)
      → All P es
      → P e
      → All P (es ++ e ∷ [])
  append-All P [] e h p = (p, tt)
  append-All P (d ∷ es) e h p = (h.0, append-All P es e h.1 p)

  later-All :
      (m n : ℕ) (es : List (Entry V))
      → m ≤ n
      → All (λ e. e.expires_at ≤ m) es
      → All (λ e. e.expires_at ≤ n) es
  later-All m n [] h a = tt
  later-All m n (e ∷ es) h a = (omega (arith, h, a.0), later-All m n es h a.1)

  pub later-IsValid : (m n : ℕ) (c : TtlCache V) → m ≤ n → IsValid m c → IsValid n c
  later-IsValid m n c h i = record {
    positive = i.positive;
    distinct = i.distinct;
    bounded = i.bounded;
    in_order = i.in_order;
    soon = later-All (m + c.ttl) (n + c.ttl) c.items (omega (arith, h)) i.soon;
  }

  -- What holds of a list, of the list without a key and of the list without its head, holds where
  -- there is room.
  make_room_elim :
      (P : List (Entry V) → Type 0) (c : TtlCache V) (k : ℕ) (es : List (Entry V))
      → P (remove k es)
      → P (drop_oldest es)
      → P es
      → P (make_room c k es)
  unfolding make_room
  make_room_elim P c k es r o p = elim (Bool-cases (has k es)) [
    | inl e ↦ rw e r
    | inr e ↦ elim (Bool-cases (full c es)) [ inl f ↦ rw (e, f) o | inr f ↦ rw (e, f) p ]
  ]

  length-make_room :
      (c : TtlCache V) (k : ℕ) (es : List (Entry V))
      → 1 ≤ c.maxsize
      → length es ≤ c.maxsize
      → length (make_room c k es) + 1 ≤ c.maxsize
  unfolding make_room has full drop_oldest
  length-make_room c k [] h l = ground (arith, h)
  length-make_room c k (e ∷ es) h l = elim (Option-cases (find k (e ∷ es))) [
    | inr (x, f) ↦ rw (has, f) (omega (arith, length-remove k x (e ∷ es) f, l))
    | inl f ↦ rw (has, f) ground (arith, h, l)
  ]

  pub set-IsValid :
      (now m k : ℕ) (v : V) (c : TtlCache V) → now ≤ m → IsValid now c → IsValid m (set m k v c)
  unfolding set drop_oldest
  set-IsValid now m k v c h i =
      let es = prune m c.items in
      let d = prune-Distinct m c.items i.distinct in
      let o = prune-InOrder m c.items i.in_order in
      let s =
        later-All (now + c.ttl) (m + c.ttl) es (omega (arith, h)) (prune-All _ m c.items i.soon) in
      record {
        positive = i.positive;
        distinct =
            append-Distinct (make_room c k es) _
              (make_room_elim Distinct c k es (remove-Distinct k es d) (tail-Distinct es d) d)
              (make_room-Absent c k es d);
        bounded = omega (
          arith,
          length-append (make_room c k es)
              (record { key = k; value = v; expires_at = m + c.ttl } ∷ []),
          length-make_room c k es i.positive (omega (arith, length-prune-le m c.items, i.bounded)),
        );
        in_order =
            append-InOrder (make_room c k es) _
              (make_room_elim InOrder c k es (remove-InOrder k es o) (tail-InOrder es o) o)
              (make_room_elim (All _) c k es (remove-All _ k es s) (tail-All es s) s);
        soon =
            append-All _ (make_room c k es) _
              (make_room_elim (All _) c k es (remove-All _ k es s) (tail-All es s) s) (omega arith);
      }
    where
      tail-Distinct : (es : List (Entry V)) → Distinct es → Distinct (drop_oldest es)
      tail-Distinct [] a = tt
      tail-Distinct (e ∷ es) a = a.1

      tail-InOrder : (es : List (Entry V)) → InOrder es → InOrder (drop_oldest es)
      tail-InOrder [] a = tt
      tail-InOrder (e ∷ es) a = a.1

      tail-All :
          (es : List (Entry V))
          → All (λ e. e.expires_at ≤ m + c.ttl) es
          → All (λ e. e.expires_at ≤ m + c.ttl) (drop_oldest es)
      tail-All [] a = tt
      tail-All (e ∷ es) a = a.1

  pub pop-IsValid : (now k : ℕ) (c : TtlCache V) → IsValid now c → IsValid now (pop k c)
  unfolding pop
  pop-IsValid now k c i = record {
    positive = i.positive;
    distinct = remove-Distinct k c.items i.distinct;
    bounded = omega (arith, length-remove-le k c.items, i.bounded);
    in_order = remove-InOrder k c.items i.in_order;
    soon = remove-All _ k c.items i.soon;
  }

  pub prune-IsValid :
      (now m : ℕ) (c : TtlCache V)
      → now ≤ m
      → IsValid now c
      → IsValid m (record c { items = prune m c.items })
  prune-IsValid now m c h i = record {
    positive = i.positive;
    distinct = prune-Distinct m c.items i.distinct;
    bounded = omega (arith, length-prune-le m c.items, i.bounded);
    in_order = prune-InOrder m c.items i.in_order;
    soon =
        prune-All _ m c.items
          (later-All (now + c.ttl) (m + c.ttl) c.items (omega (arith, h)) i.soon);
  }

  pub get-IsValid :
      (now m k : ℕ) (c : TtlCache V) → now ≤ m → IsValid now c → IsValid m (get m k c).0
  unfolding get take_live pop
  get-IsValid now m k c h i = answer (find k (prune m c.items))
    where
      valid : IsValid m (record c { items = prune m c.items })
      valid = prune-IsValid now m c h i

      answer :
          (o : Option (Entry V))
          → IsValid m (take_live m k (record c { items = prune m c.items }) o).0
      answer none = valid
      answer (some x) = elim (Bool-cases (leb x.expires_at m)) [
        | inl p ↦ rw p (pop-IsValid m k (record c { items = prune m c.items }) valid)
        | inr p ↦ rw p valid
      ]

  -- When the entries expire in order, pruning leaves none that is expired.
  pub prune-Live :
      (now : ℕ) (es : List (Entry V)) → InOrder es → All (λ e. now < e.expires_at) (prune now es)
  unfolding prune
  prune-Live now [] h = tt
  prune-Live now (e ∷ es) h = elim (Bool-cases (leb e.expires_at now)) [
    | inl p ↦ rw p (prune-Live now es h.1)
    | inr p ↦ rw p (ground (arith, p), after es h.0 (ground (arith, p)))
  ]
    where
      after :
          (xs : List (Entry V))
          → All (λ d. e.expires_at ≤ d.expires_at) xs
          → now < e.expires_at
          → All (λ d. now < d.expires_at) xs
      after [] b l = tt
      after (x ∷ xs) b l = (omega (arith, b.0, l), after xs b.1 l)
