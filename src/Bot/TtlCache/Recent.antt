-- ===== src/Bot/TtlCache/Recent.antt =====
-- How long a written value can be read.
use site_parser_for_freelans.Common.{
  ℕ, ◌+◌, ◌≤◌, ◌<◌, ◌≡◌, ◌≢◌, refl, sym, ap, ◌∙◌, inl, inr, true, ◌==◌, Option, none, some, List,
  [], ◌∷◌, ◌++◌, length, All, Bool-cases, if◌then◌else◌, leb, length-append, eq_of_some, ltb, ◌&&◌,
  arith,
}
use site_parser_for_freelans.Bot.TtlCache.{
  Entry, TtlCache, find, remove, has, prune, drop_oldest, full, make_room, set, take_live, get, pop,
}
use site_parser_for_freelans.Bot.TtlCache.Entries.{Absent, Distinct, find-remove_ne, prune-Distinct}
use site_parser_for_freelans.Bot.TtlCache.Reads.{
  live, read, get-read, find-append_ne, find-append_eq, make_room-Absent,
}
use site_parser_for_freelans.Bot.TtlCache.History.{
  Call, write, look, drop, step, run, From, run-IsValid,
}
use site_parser_for_freelans.Bot.TtlCache.Valid.{IsValid, set-IsValid}

module _ {V : Type 0} where
  -- How many entries are newer than the one of the key.
  unfoldable pub behind : ℕ → List (Entry V) → ℕ
  behind k [] = 0
  behind k (e ∷ es) = let rest = behind k es in if e.key == k then length es else rest

  -- `x` is the entry of `k`, and at most `n` are newer.
  unfoldable pub Recent : ℕ → Entry V → ℕ → List (Entry V) → Type 0
  Recent k x n es = (find k es ≡ some x) × (behind k es ≤ n)

  pub prune-Recent :
      (m k : ℕ) (x : Entry V) (n : ℕ) (es : List (Entry V))
      → m < x.expires_at
      → Recent k x n es
      → Recent k x n (prune m es)
  unfolding prune find behind Recent
  prune-Recent m k x n [] l r = r
  prune-Recent m k x n (e ∷ es) l r = elim (Bool-cases (leb e.expires_at m)) [
    | inr p ↦ rw p r
    | inl p ↦ elim (Bool-cases (e.key == k)) [
      | inr q ↦ rw p (prune-Recent m k x n es l (rw q at r))
      | inl q ↦
          let same : e ≡ x = eq_of_some ((rw q at r).0) in
          let late : e.expires_at ≡ x.expires_at = ap (λ d. d.expires_at) same in
          let no : ⊥ = ground (arith, p, late, l) in elim no [ ]
    ]
  ]

  remove-Recent :
      (k q : ℕ) (x : Entry V) (n : ℕ) (es : List (Entry V))
      → q ≢ k
      → Recent q x n es
      → Recent q x n (remove k es)
  unfolding remove behind find Recent
  remove-Recent k q x n es d r = (find-remove_ne k q es d ∙ r.0, omega (arith, fewer es, r.1))
    where
      shorter : (xs : List (Entry V)) → length (remove k xs) ≤ length xs
      shorter [] = omega arith
      shorter (e ∷ xs) = ground (arith, shorter xs)

      fewer : (xs : List (Entry V)) → behind q (remove k xs) ≤ behind q xs
      fewer [] = omega arith
      fewer (e ∷ xs) = ground (arith, fewer xs, shorter xs, d)

  drop_oldest-Recent :
      (k : ℕ) (x : Entry V) (n : ℕ) (es : List (Entry V))
      → n + 1 < length es
      → Recent k x n es
      → Recent k x n (drop_oldest es)
  unfolding drop_oldest behind find Recent
  drop_oldest-Recent k x n [] l r = r
  drop_oldest-Recent k x n (e ∷ es) l r = elim (Bool-cases (e.key == k)) [
    | inr q ↦ rw q at r
    | inl q ↦ let no : ⊥ = omega (arith, (rw q at r).1, l) in elim no [ ]
  ]

  make_room-Recent :
      (c : TtlCache V) (k q : ℕ) (x : Entry V) (n : ℕ) (es : List (Entry V))
      → q ≢ k
      → n + 1 < c.maxsize
      → Recent q x n es
      → Recent q x n (make_room c k es)
  unfolding make_room full Recent
  make_room-Recent c k q x n es d l r = elim (Bool-cases (has k es)) [
    | inl p ↦ rw p (remove-Recent k q x n es d r)
    | inr p ↦ elim (Bool-cases (ltb 0 c.maxsize && leb c.maxsize (length es))) [
      | inl f ↦
          let long : c.maxsize ≤ length es = ground (arith, f) in
          rw (p, f) (drop_oldest-Recent q x n es (omega (arith, long, l)) r)
      | inr f ↦ rw (p, f) r
    ]
  ]

  append-Recent :
      (q : ℕ) (x : Entry V) (n : ℕ) (es : List (Entry V)) (e : Entry V)
      → q ≢ e.key
      → Recent q x n es
      → Recent q x (n + 1) (es ++ e ∷ [])
  unfolding find behind Recent
  append-Recent q x n es e d r = (find-append_ne q es e d ∙ r.0, omega (arith, one_more es, r.1))
    where
      one_more : (xs : List (Entry V)) → behind q (xs ++ e ∷ []) ≤ behind q xs + 1
      one_more [] = ground arith
      one_more (d ∷ xs) = ground (arith, one_more xs, length-append xs (e ∷ []))

  -- A call before the time `until` that neither writes nor removes the key.
  abbrev pub Spares : ℕ → ℕ → Call V → Type 0
  Spares q until (write m k v) = (m < until) × (q ≢ k)
  Spares q until (look m k) = m < until
  Spares q until (drop k) = q ≢ k

  -- The number of calls that write.
  unfoldable pub writes : List (Call V) → ℕ
  writes [] = 0
  writes (write m k v ∷ xs) = writes xs + 1
  writes (look m k ∷ xs) = writes xs
  writes (drop k ∷ xs) = writes xs

  get-Recent :
      (m k q : ℕ) (x : Entry V) (n : ℕ) (c : TtlCache V)
      → m < x.expires_at
      → Recent q x n c.items
      → Recent q x n (get m k c).0.items
  unfolding get take_live Recent
  get-Recent m k q x n c l r = answer (find k (prune m c.items)) refl
    where
      kept : Recent q x n (prune m c.items)
      kept = prune-Recent m q x n c.items l r

      answer :
          (o : Option (Entry V))
          → find k (prune m c.items) ≡ o
          → Recent q x n (take_live m k (record c { items = prune m c.items }) o).0.items
      answer none e = kept
      answer (some y) e = elim (Bool-cases (leb y.expires_at m)) [
        | inr p ↦ rw p kept
        | inl p ↦ rw p (remove-Recent k q x n (prune m c.items) (λ same. other y e p same) kept)
      ]
        where
          other :
              (y : Entry V)
              → find k (prune m c.items) ≡ some y
              → leb y.expires_at m ≡ true
              → q ≡ k
              → ⊥
          other y e p same =
              let found : some x ≡ some y =
                sym kept.0 ∙ ap (λ j. find j (prune m c.items)) same ∙ e in
              let late : x.expires_at ≡ y.expires_at = ap (λ d. d.expires_at) (eq_of_some found) in
              ground (arith, p, late, l)

  get-maxsize : (m k : ℕ) (c : TtlCache V) → (get m k c).0.maxsize ≡ c.maxsize
  unfolding get take_live
  get-maxsize m k c = answer (find k (prune m c.items))
    where
      answer :
          (o : Option (Entry V))
          → (take_live m k (record c { items = prune m c.items }) o).0.maxsize ≡ c.maxsize
      answer none = refl
      answer (some y) = elim (Bool-cases (leb y.expires_at m)) [
        | inl p ↦ rw p refl
        | inr p ↦ rw p refl
      ]

  pub run-Recent :
      (calls : List (Call V)) (c : TtlCache V) (q : ℕ) (x : Entry V) (n : ℕ)
      → All (Spares q x.expires_at) calls
      → n + writes calls < c.maxsize
      → Recent q x n c.items
      → (m : ℕ) × Recent q x m (run calls c).items
  unfolding run step writes set pop Recent
  run-Recent [] c q x n s l r = (n, r)
  run-Recent (write m k v ∷ xs) c q x n s l r =
      run-Recent xs (set m k v c) q x (n + 1) s.1 (omega (arith, l)) (
        append-Recent q x n (make_room c k (prune m c.items)) _ s.0.1 (
          make_room-Recent c k q x n (prune m c.items) s.0.1 (omega (arith, l))
            (prune-Recent m q x n c.items s.0.0 r)))
  run-Recent (look m k ∷ xs) c q x n s l r =
      run-Recent xs (get m k c).0 q x n s.1 (omega (arith, l, get-maxsize m k c))
        (get-Recent m k q x n c s.0 r)
  run-Recent (drop k ∷ xs) c q x n s l r =
      run-Recent xs (pop k c) q x n s.1 l (remove-Recent k q x n c.items s.0 r)

  pub set-Recent :
      (m k : ℕ) (v : V) (c : TtlCache V)
      → Distinct c.items
      → Recent k (record { key = k; value = v; expires_at = m + c.ttl }) 0 (set m k v c).items
  unfolding set Recent behind
  set-Recent m k v c d =
      let gone = make_room-Absent c k (prune m c.items) (prune-Distinct m c.items d) in
      (
        find-append_eq (make_room c k (prune m c.items)) _ gone,
        newest (make_room c k (prune m c.items)) gone,
      )
    where
      newest :
          (xs : List (Entry V))
          → Absent k xs
          → behind k (xs ++ record { key = k; value = v; expires_at = m + c.ttl } ∷ []) ≤ 0
      newest [] a = ground arith
      newest (e ∷ xs) a = ground (arith, a.0, newest xs a.1)

  -- A written value is what `get` returns until it expires, as long as the key is neither written nor
  -- removed again and fewer than `maxsize` writes follow, the calls being in the
  -- order of their times.
  pub get-run-set :
      (calls : List (Call V)) (c : TtlCache V) (now m k : ℕ) (v : V)
      → IsValid m c
      → From m calls
      → All (Spares k (m + c.ttl)) calls
      → writes calls < c.maxsize
      → now < m + c.ttl
      → (get now k (run calls (set m k v c))).1 ≡ some v
  unfolding read live set Recent
  get-run-set calls c now m k v i f s w l =
      let valid = run-IsValid m calls (set m k v c) f (set-IsValid m m k v c (omega arith) i) in
      let (n, found) =
        run-Recent calls (set m k v c) k _ 0 s (size w) (set-Recent m k v c i.distinct) in
      get-read now k (run calls (set m k v c)) valid.distinct
      ∙ ap (live now) found.0
      ∙ ground (arith, l)
    where
      size : writes calls < c.maxsize → 0 + writes calls < (set m k v c).maxsize
      size h = omega (arith, h)
