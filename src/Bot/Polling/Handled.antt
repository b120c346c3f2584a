-- ===== src/Bot/Polling/Handled.antt =====
-- Which updates run_polling of telegram-bot/main.py acknowledges by its offset.
use site_parser_for_freelans.Common.{
  ℕ, zero, suc, ◌+◌, ◌≤◌, ◌<◌, ◌≡◌, ◌⊎◌, refl, sym, inl, inr, subst, Bool, true, false, ◌||◌,
  Bool-cases, ◌==◌, Option, none, some, List, [], ◌∷◌, ◌++◌, All, any, take, keep_if, ltb, leb,
  arith, eq_of_some,
}
use site_parser_for_freelans.Bot.Webhook.{next_offset}
use site_parser_for_freelans.Bot.Polling.{
  Polling, Poll, fails, gives, waiting, process_updates, after_updates, poll, run_polling,
}

abbrev pub stands_in : ℕ → List ℕ → Bool
stands_in j is = any (λ i. i == j) is

abbrev pub Ascending : List ℕ → Type 0
Ascending [] = Unit
Ascending (i ∷ is) = All (λ j. i < j) is × Ascending is

-- The id is below the offset, so that Telegram forgets the update at the next call.
abbrev pub acknowledged : ℕ → Option ℕ → Bool
acknowledged j none = false
acknowledged j (some n) = ltb j n

-- The offset after a list of updates that were all handled.
abbrev pub after_all : Option ℕ → List ℕ → Option ℕ
after_all next [] = next
after_all next (i ∷ is) = after_all (some (i + 1)) is

process_updates-all :
    (succeeds : ℕ → Bool) (next n : Option ℕ) (is : List ℕ)
    → (process_updates succeeds next is).1 ≡ some n
    → ((process_updates succeeds next is).0 ≡ is) × (n ≡ after_all next is)
unfolding process_updates
process_updates-all succeeds next n [] h = (refl, sym (eq_of_some h))
process_updates-all succeeds next n (i ∷ is) h = elim (Bool-cases (succeeds i)) [
  | inl p ↦
      let ih = process_updates-all succeeds (some (i + 1)) n is (rw p at h) in
      (rw (p, ih.0) refl, ih.1)
  | inr p ↦ absurd (cc (rw p at h))
]

greater-absent : (i j : ℕ) (is : List ℕ) → All (λ k. i < k) is → j ≤ i → stands_in j is ≡ false
greater-absent i j [] a h = refl
greater-absent i j (k ∷ ks) a h = ground (arith, greater-absent i j ks a.1 h, a.0)

keep_if-Ascending : (p : ℕ → Bool) (is : List ℕ) → Ascending is → Ascending (keep_if p is)
keep_if-Ascending p [] a = tt
keep_if-Ascending p (i ∷ is) a = elim (Bool-cases (p i)) [
  | inl h ↦ rw h (keep_if-All p is a.0, keep_if-Ascending p is a.1)
  | inr h ↦ rw h (keep_if-Ascending p is a.1)
]
  where
    keep_if-All :
        (p : ℕ → Bool) (ks : List ℕ) → All (λ k. i < k) ks → All (λ k. i < k) (keep_if p ks)
    keep_if-All p [] h = tt
    keep_if-All p (k ∷ ks) h = elim (Bool-cases (p k)) [
      | inl q ↦ rw q (h.0, keep_if-All p ks h.1)
      | inr q ↦ rw q (keep_if-All p ks h.1)
    ]

taken :
    (count j m : ℕ) (is : List ℕ)
    → Ascending is
    → stands_in j is ≡ true
    → acknowledged j (after_all (some m) (take count is)) ≡ true
    → (ltb j m ≡ true) ⊎ (stands_in j (take count is) ≡ true)
taken zero j m is a s h = inl h
taken (suc count) j m [] a s h = inl h
taken (suc count) j m (i ∷ is) a s h = elim (Bool-cases (i == j)) [
  | inl p ↦ inr (rw p refl)
  | inr p ↦
      let later : stands_in j is ≡ true = rw p at s in
      elim (taken count j (i + 1) is a.1 later h) [
        | inl q ↦ absurd (cc (greater-absent i j is a.0 (ground (arith, q)), later))
        | inr q ↦ inr (rw p q)
      ]
]

stands_in-keep_if :
    (j n : ℕ) (is : List ℕ)
    → stands_in j is ≡ true
    → n ≤ j
    → stands_in j (keep_if (leb n) is) ≡ true
stands_in-keep_if j n [] s h = s
stands_in-keep_if j n (i ∷ is) s h = ground (arith, stands_in-keep_if j n is)

stands_in-append :
    (j : ℕ) (xs ys : List ℕ) → stands_in j (xs ++ ys) ≡ (stands_in j xs || stands_in j ys)
stands_in-append j [] ys = refl
stands_in-append j (x ∷ xs) ys = ground (arith, stands_in-append j xs ys)

waiting-Ascending :
    (offset : Option ℕ) (ids : List ℕ) → Ascending ids → Ascending (waiting offset ids)
unfolding waiting
waiting-Ascending none ids a = a
waiting-Ascending (some n) ids a = keep_if-Ascending (leb n) ids a

stands_in-waiting :
    (j : ℕ) (offset : Option ℕ) (ids : List ℕ)
    → stands_in j ids ≡ true
    → acknowledged j offset ≡ false
    → stands_in j (waiting offset ids) ≡ true
unfolding waiting
stands_in-waiting j none ids s h = s
stands_in-waiting j (some n) ids s h = stands_in-keep_if j n ids s (ground (arith, h))

acknowledged-after_all :
    (j : ℕ) (offset : Option ℕ) (is : List ℕ)
    → acknowledged j (after_all (next_offset offset is) is) ≡ true
    → (acknowledged j offset ≡ true) ⊎ (acknowledged j (after_all (some 0) is) ≡ true)
unfolding next_offset
acknowledged-after_all j offset [] h = inl h
acknowledged-after_all j offset (i ∷ is) h = inr h

-- Every update that the offset acknowledges was handled.
abbrev pub AllHandled : List ℕ → Polling → Type 0
AllHandled ids p =
    (j : ℕ) → stands_in j ids ≡ true → acknowledged j p.offset ≡ true → stands_in j p.handled ≡ true

still_handled :
    (j : ℕ) (xs ys : List ℕ)
    → (stands_in j xs ≡ true) ⊎ (stands_in j ys ≡ true)
    → stands_in j (xs ++ ys) ≡ true
still_handled j xs ys (inl h) = ground (arith, stands_in-append j xs ys, h)
still_handled j xs ys (inr h) = ground (arith, stands_in-append j xs ys, h)

after_updates-AllHandled :
    (ids : List ℕ) (p : Polling) (batch : List ℕ) (done : List ℕ) (next : Option (Option ℕ))
    → ((n : Option ℕ)
        → next ≡ some n
        → (done ≡ batch) × (n ≡ after_all (next_offset p.offset batch) batch))
    → ((j : ℕ)
        → stands_in j ids ≡ true
        → acknowledged j p.offset ≡ false
        → acknowledged j (after_all (some 0) batch) ≡ true
        → stands_in j batch ≡ true)
    → AllHandled ids p
    → AllHandled ids (after_updates p (done, next))
unfolding after_updates
after_updates-AllHandled ids p batch done none all covers h j s k =
    still_handled j p.handled done (inl (h j s k))
after_updates-AllHandled ids p batch done (some n) all covers h j s k =
    elim (Bool-cases (acknowledged j p.offset)) [
      | inl q ↦ still_handled j p.handled done (inl (h j s q))
      | inr q ↦
          let (d, e) = all n refl in
          let later : acknowledged j (after_all (next_offset p.offset batch) batch) ≡ true =
            subst (λ o. acknowledged j o ≡ true) e k in
          elim (acknowledged-after_all j p.offset batch later) [
            | inl r ↦ absurd (cc (q, r))
            | inr r ↦ still_handled j p.handled done (inr (rw d (covers j s q r)))
          ]
    ]

poll-AllHandled :
    (ids : List ℕ) (e : Poll) (p : Polling)
    → Ascending ids
    → AllHandled ids p
    → AllHandled ids (poll ids e p)
unfolding poll
poll-AllHandled ids fails p a h = h
poll-AllHandled ids (gives count succeeds) p a h =
    let batch = take count (waiting p.offset ids) in
    let r = process_updates succeeds (next_offset p.offset batch) batch in
    after_updates-AllHandled ids p batch r.0 r.1
      (λ n. process_updates-all succeeds (next_offset p.offset batch) n batch)
      (λ j s q k.
        elim (taken count j 0 (waiting p.offset ids) (waiting-Ascending p.offset ids a)
          (stands_in-waiting j p.offset ids s q) k) [
            | inl z ↦ absurd (ground (arith, z))
            | inr t ↦ t
          ])
      h

-- For updates with ascending ids, and any turns of the polling in which getUpdates fails or gives any
-- number of the next updates and any of them are handled: an update that the offset tells Telegram to
-- forget was handled.
pub run_polling-AllHandled :
    (ids : List ℕ) (es : List Poll) (j : ℕ)
    → Ascending ids
    → stands_in j ids ≡ true
    → acknowledged j (run_polling ids es).offset ≡ true
    → stands_in j (run_polling ids es).handled ≡ true
unfolding run_polling
run_polling-AllHandled ids es j a = from es j
  where
    from : (es : List Poll) → AllHandled ids (run_polling ids es)
    from [] j s k = absurd (cc k)
    from (e ∷ es) j s k = poll-AllHandled ids e (run_polling ids es) a (from es) j s k
