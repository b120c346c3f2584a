-- ===== src/Queue/Retry.antt =====
-- Redelivery of a message: claimed, failed, pushed back, and claimed again.
use Prim.Native.String.{String}
use text.Mathlib.Text.{◌==◌ as str_eq}
use text.Mathlib.TextEquality.{eq_iff}
use site_parser_for_freelans.Common.{
  ℕ, suc, ◌≡◌, ◌≢◌, refl, sym, ap, ◌∙◌, ◌⊎◌, inl, inr, Bool, true, false, Option, none, some, List,
  [], ◌∷◌, ltb, if◌then◌else◌, arith,
}
use site_parser_for_freelans.Common.Int.{ℤ, pos, pos_part}
use site_parser_for_freelans.Json.{
  Value, arr, no_items, item, Fields, no_fields, field, obj, null, int, real, finite, Exc,
  type_error, value_error, overflow_error, attribute_error, connection_error, Outcome, ok, raises,
  get, get_default, set, to_int,
}
use site_parser_for_freelans.Redis.{Codec}
use site_parser_for_freelans.Queue.Lease.{
  count_retry, prepare_nack_payload, Parsed, discard, message, fails, normalize_trace_id,
}
use site_parser_for_freelans.Queue.Payload.{
  positive_id, with_traces, parse_job, parse_user_embed, AcBatchMessage, parse_job_ids,
  parse_ac_batch,
}

get-set :
    (k j : String) (v : Value) (fs : Fields)
    → get k (set j v fs) ≡ (if str_eq j k then some v else get k fs)
unfolding get set
get-set k j v no_fields = refl
get-set k j v (field i w fs) = ground (arith, eq_iff j k, eq_iff i j, eq_iff i k, get-set k j v fs)

get_default-set :
    (k j : String) (d v : Value) (fs : Fields)
    → get_default k d (set j v fs) ≡ (if str_eq j k then v else get_default k d fs)
unfolding get_default
get_default-set k j d v fs = ground (arith, get-set k j v fs)

-- The claim of `pop_blocking`, on the dictionary of a payload.
abbrev pub claimed : ℕ → Fields → Fields
claimed now fs = set "_claimed_at" (real (finite (pos now))) fs

-- The dictionary's `_retry_count` is read as `n`: it is missing and `n` is 0, or `int` gives `n`.
abbrev pub HasRetries : ℕ → Fields → Type 0
HasRetries n fs = to_int (get_default "_retry_count" (int (pos 0)) fs) ≡ ok (pos n)

count_retry-eq :
    (n : ℕ) (fs : Fields)
    → HasRetries n fs
    → count_retry fs ≡ ok (set "_retry_count" (int (pos (suc n))) fs, ltb 5 (suc n))
unfolding count_retry
count_retry-eq n fs h = rw (h, count_retry)

HasRetries-claimed : (n now : ℕ) (fs : Fields) → HasRetries n fs → HasRetries n (claimed now fs)
HasRetries-claimed n now fs h =
    ap to_int
      (get_default-set "_retry_count" "_claimed_at" (int (pos 0)) (real (finite (pos now))) fs)
    ∙ h

HasRetries-counted : (n : ℕ) (fs : Fields) → HasRetries n (set "_retry_count" (int (pos n)) fs)
unfolding to_int
HasRetries-counted n fs =
    ap to_int (get_default-set "_retry_count" "_retry_count" (int (pos 0)) (int (pos n)) fs)

parse_job-set :
    (k : String) (v : Value) (fs : Fields)
    → str_eq k "job_id" ≡ false
    → str_eq k "trace_id" ≡ false
    → str_eq k "traceparent" ≡ false
    → parse_job (obj (set k v fs)) ≡ parse_job (obj fs)
unfolding parse_job
parse_job-set k v fs a b c =
    rw (get-set "job_id" k v fs, a, get-set "trace_id" k v fs, b, get-set "traceparent" k v fs, c)

-- What the other two parsers make of the values of the fields that they read.
unfoldable user_embed_of : Option Value → Option Value → Parsed ℕ
user_embed_of user trace = elim user [
  | none ↦ discard
  | some null ↦ discard
  | some user_id ↦ with_traces (positive_id user_id) (normalize_trace_id trace) []
]

parse_user_embed_lem :
    (fs : Fields) → parse_user_embed (obj fs) ≡ user_embed_of (get "user_id" fs) (get "trace_id" fs)
unfolding parse_user_embed user_embed_of
parse_user_embed_lem fs = refl

parse_user_embed-set :
    (k : String) (v : Value) (fs : Fields)
    → str_eq k "user_id" ≡ false
    → str_eq k "trace_id" ≡ false
    → parse_user_embed (obj (set k v fs)) ≡ parse_user_embed (obj fs)
parse_user_embed-set k v fs a b =
    rw
      (parse_user_embed_lem (set k v fs), get-set "user_id" k v fs, a, get-set "trace_id" k v fs, b)
      (sym (parse_user_embed_lem fs))

unfoldable ac_batch_of : Value → Value → Option Value → Option Value → Parsed AcBatchMessage
ac_batch_of user jobs trace traceparent = elim (positive_id user) [
  | discard ↦ discard
  | fails e ↦ fails e
  | message uid _ _ ↦ elim jobs [
    | arr no_items ↦ discard
    | arr (item x xs) ↦ elim (parse_job_ids (item x xs)) [
      | discard ↦ discard
      | fails e ↦ fails e
      | message ids _ _ ↦
          message
            (record {
              user_id = uid;
              job_ids = ids;
              trace_id = normalize_trace_id trace;
              traceparent = normalize_trace_id traceparent;
            })
            (normalize_trace_id trace) (normalize_trace_id traceparent)
    ]
    | other ↦ discard
  ]
]

parse_ac_batch_lem :
    (fs : Fields)
    → parse_ac_batch (obj fs)
      ≡ ac_batch_of
          (get_default "user_id" null fs)
          (get_default "job_ids" null fs)
          (get "trace_id" fs)
          (get "traceparent" fs)
unfolding parse_ac_batch ac_batch_of
parse_ac_batch_lem fs = refl

parse_ac_batch-set :
    (k : String) (v : Value) (fs : Fields)
    → str_eq k "user_id" ≡ false
    → str_eq k "job_ids" ≡ false
    → str_eq k "trace_id" ≡ false
    → str_eq k "traceparent" ≡ false
    → parse_ac_batch (obj (set k v fs)) ≡ parse_ac_batch (obj fs)
parse_ac_batch-set k v fs a b c d =
    rw
      (
        parse_ac_batch_lem (set k v fs),
        get-set "trace_id" k v fs,
        c,
        get-set "traceparent" k v fs,
        d,
        get_default-set "user_id" k null v fs,
        a,
        get_default-set "job_ids" k null v fs,
        b,
      )
      (sym (parse_ac_batch_lem fs))

-- The policy: the delivery that makes the count `n + 1` is the last one if that is above 5.
unfoldable pub policy : ℕ → List ℕ → List Bool
policy n [] = []
policy n (now ∷ times) = ltb 5 (suc n) ∷ policy (suc n) times

module _ {Raw : Type 0} (codec : Codec Raw) where
  -- One failed delivery at time `now`: the payload is claimed and nacked. The result is what is
  -- pushed back, and whether it goes to the dead letters.
  unfoldable pub fail_once : ℕ → Raw → Outcome (Raw × Bool)
  fail_once now raw = elim (codec.loads raw) [
    | some (obj fs) ↦ prepare_nack_payload codec (codec.dumps (obj (claimed now fs)))
    | some other ↦ ok (raw, true)
    | none ↦ ok (raw, true)
  ]

  abbrev counted : ℕ → ℕ → Fields → Fields
  counted now n fs = set "_retry_count" (int (pos (suc n))) (claimed now fs)

  fail_once-eq :
      (now n : ℕ) (raw : Raw) (fs : Fields)
      → codec.loads raw ≡ some (obj fs)
      → HasRetries n fs
      → fail_once now raw ≡ ok (codec.dumps (obj (counted now n fs)), ltb 5 (suc n))
  unfolding fail_once prepare_nack_payload
  fail_once-eq now n raw fs l h =
      rw (l, fail_once)
        (rw (codec.loads-dumps (obj (claimed now fs)), prepare_nack_payload)
          (rw (count_retry-eq n (claimed now fs) (HasRetries-claimed n now fs h)) refl))

  -- Failed deliveries at each of the times, one after another: does each go to the dead letters?
  unfoldable pub fail_each : List ℕ → Raw → Outcome (List Bool)
  fail_each [] raw = ok []
  fail_each (now ∷ times) raw = next (fail_once now raw) (fail_each times)
    where
      next : Outcome (Raw × Bool) → (Raw → Outcome (List Bool)) → Outcome (List Bool)
      next (raises e) rest = raises e
      next (ok (raw', to_dlq)) rest = elim (rest raw') [
        | raises e ↦ raises e
        | ok bs ↦ ok (to_dlq ∷ bs)
      ]

  -- A payload that is an object with `n` retries counted is sent to the dead letters by exactly
  -- those of its failed deliveries that make the count exceed 5, and by no earlier one; at no
  -- delivery does the nack raise.
  pub fail_each-policy :
      (n : ℕ) (times : List ℕ) (raw : Raw) (fs : Fields)
      → codec.loads raw ≡ some (obj fs)
      → HasRetries n fs
      → fail_each times raw ≡ ok (policy n times)
  unfolding fail_each policy
  fail_each-policy n [] raw fs l h = refl
  fail_each-policy n (now ∷ times) raw fs l h = rw (fail_once-eq now n raw fs l h) (
      rw
        (fail_each-policy (suc n) times _ (counted now n fs)
          (codec.loads-dumps (obj (counted now n fs)))
          (HasRetries-counted (suc n) (claimed now fs)))
        refl)

  count_retry_cases :
      (fs : Fields)
      → ((e : Exc) × (count_retry fs ≡ raises e)
          × (to_int (get_default "_retry_count" (int (pos 0)) fs) ≡ raises e)
          × (e ≢ type_error)
          × (e ≢ value_error))
        ⊎ ((n : ℕ) × (count_retry fs
              ≡ ok (set "_retry_count" (int (pos (suc n))) fs, ltb 5 (suc n))))
  unfolding count_retry
  count_retry_cases fs = from (to_int (get_default "_retry_count" (int (pos 0)) fs)) refl
    where
      from :
          (o : Outcome ℤ)
          → to_int (get_default "_retry_count" (int (pos 0)) fs) ≡ o
          → ((e : Exc) × (count_retry fs ≡ raises e)
              × (to_int (get_default "_retry_count" (int (pos 0)) fs) ≡ raises e)
              × (e ≢ type_error)
              × (e ≢ value_error))
            ⊎ ((n : ℕ) × (count_retry fs
                  ≡ ok (set "_retry_count" (int (pos (suc n))) fs, ltb 5 (suc n))))
      from (ok n) h = inr (pos_part n, rw (count_retry, h) refl)
      from (raises type_error) h = inr (0, rw (count_retry, h) refl)
      from (raises value_error) h = inr (0, rw (count_retry, h) refl)
      from (raises attribute_error) h =
          inl (attribute_error, rw (count_retry, h) refl, h, λ q. cc, λ q. cc)
      from (raises overflow_error) h =
          inl (overflow_error, rw (count_retry, h) refl, h, λ q. cc, λ q. cc)
      from (raises connection_error) h =
          inl (connection_error, rw (count_retry, h) refl, h, λ q. cc, λ q. cc)

  -- The same message for each of the three parsers: the same refusal, or the same ids, trace id and
  -- traceparent.
  abbrev pub SameMessage : Fields → Fields → Type 0
  SameMessage fs fs' =
      (parse_job (obj fs') ≡ parse_job (obj fs))
      × (parse_user_embed (obj fs') ≡ parse_user_embed (obj fs))
      × (parse_ac_batch (obj fs') ≡ parse_ac_batch (obj fs))

  -- A failed delivery of a payload that is an object pushes back an object that each of the three
  -- parsers reads as the same message as before, whatever `_retry_count` is, unless `int` raises on
  -- `_retry_count` what is neither a TypeError nor a ValueError: then the nack raises that.
  pub fail_once-SameMessage :
      (now : ℕ) (raw : Raw) (fs : Fields)
      → codec.loads raw ≡ some (obj fs)
      → ((e : Exc) × (fail_once now raw ≡ raises e)
          × (to_int (get_default "_retry_count" (int (pos 0)) fs) ≡ raises e)
          × (e ≢ type_error)
          × (e ≢ value_error))
        ⊎ ((out : Raw) × (to_dlq : Bool) × (fs' : Fields) × (fail_once now raw ≡ ok (out, to_dlq))
            × (codec.loads out ≡ some (obj fs'))
            × SameMessage fs fs')
  unfolding fail_once prepare_nack_payload
  fail_once-SameMessage now raw fs l = elim (count_retry_cases (claimed now fs)) [
    | inl (e, c, t, a, b) ↦ inl (
      e,
      rw (l, fail_once)
          (rw (codec.loads-dumps (obj (claimed now fs)), prepare_nack_payload) (rw c refl)),
      sym (
            ap to_int (
              get_default-set "_retry_count" "_claimed_at" (int (pos 0)) (real (finite (pos now)))
                fs))
          ∙ t,
      a,
      b,
    )
    | inr (n, c) ↦ inr (
      codec.dumps (obj (counted now n fs)),
      ltb 5 (suc n),
      counted now n fs,
      rw (l, fail_once)
          (rw (codec.loads-dumps (obj (claimed now fs)), prepare_nack_payload) (rw c refl)),
      codec.loads-dumps (obj (counted now n fs)),
      (
        parse_job-set "_retry_count" (int (pos (suc n))) (claimed now fs) refl refl refl
            ∙ parse_job-set "_claimed_at" (real (finite (pos now))) fs refl refl refl,
        parse_user_embed-set "_retry_count" (int (pos (suc n))) (claimed now fs) refl refl
            ∙ parse_user_embed-set "_claimed_at" (real (finite (pos now))) fs refl refl,
        parse_ac_batch-set "_retry_count" (int (pos (suc n))) (claimed now fs) refl refl refl refl
            ∙ parse_ac_batch-set "_claimed_at" (real (finite (pos now))) fs refl refl refl refl,
      ),
    )
  ]
