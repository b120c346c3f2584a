-- ===== src/Bot/TtlCache/Reads.antt =====
-- What can be read from a cache after a write.
use site_parser_for_freelans.Common.{
  ℕ, ◌+◌, ◌≤◌, ◌≡◌, ◌≢◌, refl, sym, ap, subst, ◌∙◌, inl, inr, false, ◌==◌, ==_iff, Option, none,
  some, List, [], ◌∷◌, ◌++◌, Bool-cases, Option-cases, if◌then◌else◌, leb, arith,
}
use site_parser_for_freelans.Bot.TtlCache.{
  Entry, TtlCache, find, has, prune, drop_oldest, full, make_room, set, take_live, get,
}
use site_parser_for_freelans.Bot.TtlCache.Entries.{
  Absent, Distinct, find-Absent, Absent-find, remove-Absent, find-remove_ne, prune-Distinct,
}

module _ {V : Type 0} where
  -- The value of an entry that is not expired.
  unfoldable pub live : ℕ → Option (Entry V) → Option V
  live now none = none
  live now (some e) = if leb e.expires_at now then none else some e.value

  -- The value for `k` at the time `now`, of all the entries.
  unfoldable pub read : ℕ → ℕ → List (Entry V) → Option V
  unfolding live find
  read now k es = live now (find k es)

  -- Pruning at an earlier time changes no read.
  pub read-prune :
      (m now k : ℕ) (es : List (Entry V))
      → m ≤ now
      → Distinct es
      → read now k (prune m es) ≡ read now k es
  unfolding read prune
  read-prune m now k [] h d = refl
  read-prune m now k (e ∷ es) h d = elim (Bool-cases (leb e.expires_at m)) [
    | inr q ↦ rw q refl
    | inl q ↦ elim (Bool-cases (e.key == k)) [
      | inl p ↦
          let gone : find k es ≡ none =
            find-Absent k es (subst (λ j. Absent j es) ((==_iff e.key k).0 p) d.0) in
          let before = read-prune m now k es h d.1 in ground (arith, before, gone)
      | inr p ↦ rw (q, p) (read-prune m now k es h d.1)
    ]
  ]

  -- `get` answers with what can be read.
  pub get-read :
      (now k : ℕ) (c : TtlCache V) → Distinct c.items → (get now k c).1 ≡ read now k c.items
  unfolding get read take_live
  get-read now k c d = answer (find k (prune now c.items)) refl
    where
      answer :
          (o : Option (Entry V))
          → find k (prune now c.items) ≡ o
          → (take_live now k (record c { items = prune now c.items }) o).1 ≡ read now k c.items
      answer none e = ap (live now) (sym e) ∙ read-prune now now k c.items (omega arith) d
      answer (some x) e = elim (Bool-cases (leb x.expires_at now)) [
        | inl p ↦ rw p refl ∙ (ap (live now) (sym e) ∙ read-prune now now k c.items (omega arith) d)
        | inr p ↦ rw p refl ∙ (ap (live now) (sym e) ∙ read-prune now now k c.items (omega arith) d)
      ]

  pub find-append_ne :
      (q : ℕ) (es : List (Entry V)) (e : Entry V) → q ≢ e.key → find q (es ++ e ∷ []) ≡ find q es
  unfolding find
  find-append_ne q [] e n = ground (arith, n)
  find-append_ne q (d ∷ es) e n = ground (arith, find-append_ne q es e n)

  pub find-append_eq :
      (es : List (Entry V)) (e : Entry V) → Absent e.key es → find e.key (es ++ e ∷ []) ≡ some e
  unfolding find
  find-append_eq [] e h = ground (arith)
  find-append_eq (d ∷ es) e h = ground (arith, h.0, find-append_eq es e h.1)

  pub Absent-has : (k : ℕ) (es : List (Entry V)) → has k es ≡ false → Absent k es
  unfolding has
  Absent-has k es n = elim (Option-cases (find k es)) [
    | inl e ↦ Absent-find k es e
    | inr (x, e) ↦ cc (rw (has, e) at n)
  ]

  pub make_room-Absent :
      (c : TtlCache V) (k : ℕ) (es : List (Entry V)) → Distinct es → Absent k (make_room c k es)
  unfolding make_room drop_oldest
  make_room-Absent c k es d = elim (Bool-cases (has k es)) [
    | inl p ↦ rw p (remove-Absent k es d)
    | inr n ↦ elim (Bool-cases (full c es)) [
      | inl p ↦ rw (n, p) (drop_oldest-Absent k es (Absent-has k es n))
      | inr p ↦ rw (n, p) (Absent-has k es n)
    ]
  ]
    where
      drop_oldest-Absent : (k : ℕ) (es : List (Entry V)) → Absent k es → Absent k (drop_oldest es)
      drop_oldest-Absent k [] h = tt
      drop_oldest-Absent k (e ∷ es) h = h.1

  -- The key of the oldest entry.
  unfoldable pub oldest : List (Entry V) → Option ℕ
  oldest [] = none
  oldest (e ∷ es) = some e.key

  -- The key that a write of `k` drops, of the entries that are left by the pruning.
  unfoldable pub victim : TtlCache V → ℕ → List (Entry V) → Option ℕ
  unfolding has full oldest
  victim c k es = if has k es then none else if full c es then oldest es else none

  pub find-make_room :
      (c : TtlCache V) (k q : ℕ) (es : List (Entry V))
      → q ≢ k
      → victim c k es ≢ some q
      → find q (make_room c k es) ≡ find q es
  unfolding make_room victim drop_oldest oldest find
  find-make_room c k q es n v = elim (Bool-cases (has k es)) [
    | inl p ↦ rw p (find-remove_ne k q es n)
    | inr p ↦ elim (Bool-cases (full c es)) [
      | inl r ↦ rw (p, r) (find-drop_oldest es (rw (p, r) at v))
      | inr r ↦ rw (p, r) refl
    ]
  ]
    where
      find-drop_oldest :
          (es : List (Entry V)) → oldest es ≢ some q → find q (drop_oldest es) ≡ find q es
      find-drop_oldest [] w = refl
      find-drop_oldest (e ∷ es) w = ground (arith, w)

  -- The value that was written can be read until it expires.
  pub read-set_eq :
      (m now k : ℕ) (v : V) (c : TtlCache V)
      → Distinct c.items
      → read now k (set m k v c).items ≡ (if leb (m + c.ttl) now then none else some v)
  unfolding set read live
  read-set_eq m now k v c d = ap (live now) (
      find-append_eq (make_room c k (prune m c.items)) _
        (make_room-Absent c k (prune m c.items) (prune-Distinct m c.items d)))

  -- A write changes no read of another key that it does not drop.
  pub read-set_ne :
      (m now k q : ℕ) (v : V) (c : TtlCache V)
      → Distinct c.items
      → m ≤ now
      → q ≢ k
      → victim c k (prune m c.items) ≢ some q
      → read now q (set m k v c).items ≡ read now q c.items
  unfolding set read
  read-set_ne m now k q v c d h n w =
      ap (live now) (find-append_ne q (make_room c k (prune m c.items)) _ n)
      ∙ ap (live now) (find-make_room c k q (prune m c.items) n w)
      ∙ read-prune m now q c.items h d
