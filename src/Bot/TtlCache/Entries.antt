-- ===== src/Bot/TtlCache/Entries.antt =====
-- Lists of entries with each key once.
use site_parser_for_freelans.Common.{
  ℕ, ◌+◌, ◌≤◌, ◌≡◌, ◌≢◌, refl, subst, inl, inr, ◌==◌, ==_iff, none, some, List, [], ◌∷◌, length,
  All, Bool-cases, leb, arith,
}
use site_parser_for_freelans.Bot.TtlCache.{Entry, find, remove, prune}

module _ {V : Type 0} where
  -- No entry has the key.
  abbrev pub Absent : ℕ → List (Entry V) → Type 0
  Absent k [] = Unit
  Absent k (e ∷ es) = (e.key ≢ k) × Absent k es

  abbrev pub Distinct : List (Entry V) → Type 0
  Distinct [] = Unit
  Distinct (e ∷ es) = Absent e.key es × Distinct es

  -- The entries expire in the order of the list.
  abbrev pub InOrder : List (Entry V) → Type 0
  InOrder [] = Unit
  InOrder (e ∷ es) = All (λ d. e.expires_at ≤ d.expires_at) es × InOrder es

  pub find-Absent : (k : ℕ) (es : List (Entry V)) → Absent k es → find k es ≡ none
  unfolding find
  find-Absent k [] h = refl
  find-Absent k (e ∷ es) h = ground (arith, find-Absent k es h.1, h.0)

  pub Absent-find : (k : ℕ) (es : List (Entry V)) → find k es ≡ none → Absent k es
  unfolding find
  Absent-find k [] h = tt
  Absent-find k (e ∷ es) h = elim (Bool-cases (e.key == k)) [
    | inl p ↦ cc (rw p at h)
    | inr p ↦ (λ q. ground (arith, q), Absent-find k es (rw p at h))
  ]

  pub Absent-remove : (j k : ℕ) (es : List (Entry V)) → Absent j es → Absent j (remove k es)
  unfolding remove
  Absent-remove j k [] h = tt
  Absent-remove j k (e ∷ es) h = elim (Bool-cases (e.key == k)) [
    | inl p ↦ rw p h.1
    | inr p ↦ rw p (h.0, Absent-remove j k es h.1)
  ]

  pub remove-Absent : (k : ℕ) (es : List (Entry V)) → Distinct es → Absent k (remove k es)
  unfolding remove
  remove-Absent k [] h = tt
  remove-Absent k (e ∷ es) h = elim (Bool-cases (e.key == k)) [
    | inl p ↦ rw p (subst (λ j. Absent j es) ((==_iff e.key k).0 p) h.0)
    | inr p ↦ rw p (λ q. ground (arith, q), remove-Absent k es h.1)
  ]

  pub remove-Distinct : (k : ℕ) (es : List (Entry V)) → Distinct es → Distinct (remove k es)
  unfolding remove
  remove-Distinct k [] h = tt
  remove-Distinct k (e ∷ es) h = elim (Bool-cases (e.key == k)) [
    | inl p ↦ rw p h.1
    | inr p ↦ rw p (Absent-remove e.key k es h.0, remove-Distinct k es h.1)
  ]

  pub remove-All :
      (P : Entry V → Type 0) (k : ℕ) (es : List (Entry V)) → All P es → All P (remove k es)
  unfolding remove
  remove-All P k [] h = tt
  remove-All P k (e ∷ es) h = elim (Bool-cases (e.key == k)) [
    | inl p ↦ rw p h.1
    | inr p ↦ rw p (h.0, remove-All P k es h.1)
  ]

  pub remove-InOrder : (k : ℕ) (es : List (Entry V)) → InOrder es → InOrder (remove k es)
  unfolding remove
  remove-InOrder k [] h = tt
  remove-InOrder k (e ∷ es) h = elim (Bool-cases (e.key == k)) [
    | inl p ↦ rw p h.1
    | inr p ↦ rw p (remove-All _ k es h.0, remove-InOrder k es h.1)
  ]

  -- Taking out a key that is there makes the list one shorter.
  pub length-remove :
      (k : ℕ) (e : Entry V) (es : List (Entry V))
      → find k es ≡ some e
      → length (remove k es) + 1 ≡ length es
  unfolding find remove
  length-remove k e [] h = cc
  length-remove k e (d ∷ es) h = elim (Bool-cases (d.key == k)) [
    | inl p ↦ rw p (omega arith)
    | inr p ↦ rw p (omega (arith, length-remove k e es (rw p at h)))
  ]

  pub length-remove-le : (k : ℕ) (es : List (Entry V)) → length (remove k es) ≤ length es
  unfolding remove
  length-remove-le k [] = omega arith
  length-remove-le k (e ∷ es) = ground (arith, length-remove-le k es)

  pub find-remove_ne : (k q : ℕ) (es : List (Entry V)) → q ≢ k → find q (remove k es) ≡ find q es
  unfolding find remove
  find-remove_ne k q [] n = refl
  find-remove_ne k q (e ∷ es) n = ground (arith, find-remove_ne k q es n)

  -- Pruning leaves the end of the list: what holds of all, and of the order, stays.
  pub prune-All :
      (P : Entry V → Type 0) (now : ℕ) (es : List (Entry V)) → All P es → All P (prune now es)
  unfolding prune
  prune-All P now [] h = tt
  prune-All P now (e ∷ es) h = elim (Bool-cases (leb e.expires_at now)) [
    | inl p ↦ rw p (prune-All P now es h.1)
    | inr p ↦ rw p h
  ]

  pub prune-Distinct : (now : ℕ) (es : List (Entry V)) → Distinct es → Distinct (prune now es)
  unfolding prune
  prune-Distinct now [] h = tt
  prune-Distinct now (e ∷ es) h = elim (Bool-cases (leb e.expires_at now)) [
    | inl p ↦ rw p (prune-Distinct now es h.1)
    | inr p ↦ rw p h
  ]

  pub prune-InOrder : (now : ℕ) (es : List (Entry V)) → InOrder es → InOrder (prune now es)
  unfolding prune
  prune-InOrder now [] h = tt
  prune-InOrder now (e ∷ es) h = elim (Bool-cases (leb e.expires_at now)) [
    | inl p ↦ rw p (prune-InOrder now es h.1)
    | inr p ↦ rw p h
  ]

  pub length-prune-le : (now : ℕ) (es : List (Entry V)) → length (prune now es) ≤ length es
  unfolding prune
  length-prune-le now [] = omega arith
  length-prune-le now (e ∷ es) = ground (arith, length-prune-le now es)
