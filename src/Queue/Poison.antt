-- ===== src/Queue/Poison.antt =====
-- Payloads that the handlers of the queue consumer do not expect.
use site_parser_for_freelans.Common.{
  ℕ, ◌≡◌, ◌≢◌, refl, ◌⊎◌, inl, inr, ◌∙◌, ap, true, false, Bool, Option, none, some, List, [], ◌∷◌,
  Bool-cases,
}
use site_parser_for_freelans.Json.{
  Value, null, boolean, int, real, str, arr, obj, attribute_error, Outcome, ok, raises,
}
use site_parser_for_freelans.Redis.{Codec, Redis, processing, pending, lrem, rpush}
use site_parser_for_freelans.Queue.{
  Consumer, go_on, pop_blocking, take_payload, reclaim_one, reclaim_each, reclaim_stuck,
}
use site_parser_for_freelans.Queue.Lease.{Parsed, fails, keeps_lease}
use site_parser_for_freelans.Queue.Payload.{pop_job, parse_job}

-- A JSON value that is not an object.
abbrev pub NotObject : Value → Type 0
NotObject (obj fs) = ⊥
NotObject _ = Unit

parse_job-NotObject : (v : Value) → NotObject v → parse_job v ≡ fails attribute_error
unfolding parse_job
parse_job-NotObject (obj fs) h = elim h [ ]
parse_job-NotObject null h = refl
parse_job-NotObject (boolean b) h = refl
parse_job-NotObject (int n) h = refl
parse_job-NotObject (real r) h = refl
parse_job-NotObject (str s) h = refl
parse_job-NotObject (arr xs) h = refl

module _ {Raw : Type 0} (codec : Codec Raw) where
  abbrev pub SomeNotObject : List Raw → Type 0
  SomeNotObject [] = ⊥
  SomeNotObject (raw ∷ items) =
      ((v : Value) × (codec.loads raw ≡ some v) × NotObject v) ⊎ SomeNotObject items

  keeps_lease-NotObject :
      (threshold now : ℕ) (raw : Raw) (v : Value)
      → codec.loads raw ≡ some v
      → NotObject v
      → keeps_lease codec threshold now raw ≡ raises attribute_error
  unfolding keeps_lease
  keeps_lease-NotObject threshold now raw (obj fs) l n = elim n [ ]
  keeps_lease-NotObject threshold now raw null l n = rw (l, keeps_lease)
  keeps_lease-NotObject threshold now raw (boolean b) l n = rw (l, keeps_lease)
  keeps_lease-NotObject threshold now raw (int i) l n = rw (l, keeps_lease)
  keeps_lease-NotObject threshold now raw (real r) l n = rw (l, keeps_lease)
  keeps_lease-NotObject threshold now raw (str t) l n = rw (l, keeps_lease)
  keeps_lease-NotObject threshold now raw (arr xs) l n = rw (l, keeps_lease)

module _ {Raw : Type 0} {codec : Codec Raw} {server : Redis codec} where
  take_payload-NotObject :
      (now : ℕ) (c : Consumer server) (payload : Raw) (v : Value)
      → codec.loads payload ≡ some v
      → NotObject v
      → take_payload parse_job (λ n. n) now payload c ≡ (c, raises attribute_error)
  unfolding take_payload
  take_payload-NotObject now c payload v l n = rw (l, parse_job-NotObject v n, take_payload)

  pop_blocking_moved :
      {A : Type 0} (parse : Value → Parsed A) (key : A → ℕ) (now : ℕ) (c : Consumer server)
      (payload : Raw) (s : server.Store)
      → server.brpoplpush c.store ≡ some (some payload, s)
      → pop_blocking parse key now c ≡ take_payload parse key now payload (record c { store = s })
  unfolding pop_blocking
  pop_blocking_moved parse key now c payload s h = rw (h, pop_blocking)

  -- A payload that is JSON but no object makes `pop_blocking` of the ai-process queue raise
  -- AttributeError, and leaves the payload at the head of the processing list, in no deque.
  pub pop_job-NotObject :
      (now : ℕ) (c : Consumer server) (payload : Raw) (v : Value) (s : server.Store)
      → server.brpoplpush c.store ≡ some (some payload, s)
      → codec.loads payload ≡ some v
      → NotObject v
      → (pop_job now c ≡ (record c { store = s }, raises attribute_error))
        × ((rest : List Raw) × (server.lists s processing ≡ payload ∷ rest))
  unfolding pop_job
  pop_job-NotObject now c payload v s h l n = (
    pop_blocking_moved parse_job (λ n. n) now c payload s h
        ∙ take_payload-NotObject now (record c { store = s }) payload v l n,
    (
      server.lists c.store processing,
      ap (λ k. k processing) (server.brpoplpush_moved payload c.store s h).2,
    ),
  )

  reclaim_one_stuck :
      (o : Outcome Bool) (raw : Raw) (c : Consumer server)
      (next : Consumer server → Consumer server × Outcome (Unit {0}))
      → ((d : Consumer server) → (next d).1 ≢ ok tt)
      → (reclaim_one o raw c next).1 ≢ ok tt
  unfolding reclaim_one
  reclaim_one_stuck (raises x) raw c next h e = cc
  reclaim_one_stuck (ok true) raw c next h e = h c e
  reclaim_one_stuck (ok false) raw c next h e =
      go (server.execute (lrem processing raw ∷ rpush pending raw ∷ []) c.store) e
    where
      go : (s : Option server.Store) → (go_on s c next).1 ≢ ok tt
      go none e = cc
      go (some s) e = h (record c { store = s }) e

  reclaim_each_stuck :
      (threshold now : ℕ) (items : List Raw)
      → SomeNotObject codec items
      → (c : Consumer server) → (reclaim_each threshold now items c).1 ≢ ok tt
  unfolding reclaim_each
  reclaim_each_stuck threshold now [] h c e = elim h [ ]
  reclaim_each_stuck threshold now (raw ∷ items) (inl (v, l, n)) c e =
      cc (rw (keeps_lease-NotObject codec threshold now raw v l n) at e)
  reclaim_each_stuck threshold now (raw ∷ items) (inr h) c e =
      reclaim_one_stuck (keeps_lease codec threshold now raw) raw c
        (reclaim_each threshold now items) (reclaim_each_stuck threshold now items h) e

  -- While the processing list holds a payload that is JSON but no object, `reclaim_stuck` does not
  -- complete, whatever the lease threshold, the time and the connection.
  pub reclaim_stuck-NotObject :
      (threshold now : ℕ) (c : Consumer server)
      → SomeNotObject codec (server.lists c.store processing)
      → (reclaim_stuck threshold now c).1 ≢ ok tt
  unfolding reclaim_stuck
  reclaim_stuck-NotObject threshold now c h = elim (Bool-cases (server.reachable c.store)) [
    | inl r ↦ rw r (reclaim_each_stuck threshold now (server.lists c.store processing) h c)
    | inr r ↦ rw r (λ e. cc)
  ]
