-- ===== src/Queue/Lease.antt =====
-- ai-service/src/ai_service/adapter/redis/queue.py: what the consumer does to payloads and to the
-- deques of its messages in flight, without Redis. The other two consumers have the same functions.
-- Times are microseconds.
use site_parser_for_freelans.Common.{
  ℕ, suc, ◌+◌, Bool, true, false, ◌&&◌, Option, none, some, List, [], ◌∷◌, ◌++◌, map, take,
  is_empty, ltb, ◌==◌, if◌then◌else◌,
}
use site_parser_for_freelans.Common.Int.{pos, negsuc, pos_part}
use site_parser_for_freelans.Json.{
  Value, Real, Fields, int, str, obj, finite, infinite, neg_infinite, nan, Exc, type_error,
  value_error, attribute_error, Outcome, ok, raises, get_default, set, strip, to_int, to_float,
}
use site_parser_for_freelans.Redis.{Codec}

abbrev pub max_nack_retries : ℕ
max_nack_retries = 5

-- What `pop_blocking` makes of a payload: it discards it, takes it as a message, or raises.
pub data Parsed (A : Type 0) : Type 0 where
  discard : Parsed A
  message : A → List ℕ → List ℕ → Parsed A
  fails : Exc → Parsed A

-- `_normalize_trace_id`: the text without outer space, cut to 128 characters; empty if not a text.
unfoldable pub normalize_trace_id : Option Value → List ℕ
unfolding strip
normalize_trace_id (some (str s)) = if is_empty (strip s) then [] else take 128 (strip s)
normalize_trace_id _ = []

-- An entry of a deque of `_inflight_by_job_id`.
pub record Entry (Raw : Type 0) : Type 0 where
  pub raw : Raw
  pub trace_id : List ℕ
  pub traceparent : List ℕ

-- `_inflight_by_job_id`, in the order of its keys.
module _ {Raw : Type 0} where
  unfoldable pub inflight_of : ℕ → List (ℕ × List (Entry Raw)) → List (Entry Raw)
  inflight_of id [] = []
  inflight_of id ((j, es) ∷ m) = if j == id then es else inflight_of id m

  -- `inflight[id].append(entry)` of a defaultdict.
  unfoldable pub append_inflight :
      ℕ → Entry Raw → List (ℕ × List (Entry Raw)) → List (ℕ × List (Entry Raw))
  append_inflight id e [] = (id, e ∷ []) ∷ []
  append_inflight id e ((j, es) ∷ m) =
      let rest = append_inflight id e m in if j == id then (j, es ++ e ∷ []) ∷ m else (j, es) ∷ rest

  -- `_peek_inflight`.
  unfoldable pub peek_inflight : ℕ → List (ℕ × List (Entry Raw)) → Option (Entry Raw)
  unfolding inflight_of
  peek_inflight id m = elim (inflight_of id m) [ [] ↦ none | e ∷ es ↦ some e ]

  -- Every entry of every deque, with its key.
  unfoldable pub all_inflight : List (ℕ × List (Entry Raw)) → List (ℕ × Raw)
  all_inflight [] = []
  all_inflight ((id, es) ∷ m) = map (λ e. (id, e.raw)) es ++ all_inflight m

-- The dictionary part of `_prepare_nack_payload`: one more retry, and whether that is too many.
unfoldable pub count_retry : Fields → Outcome (Fields × Bool)
unfolding get_default to_int
count_retry fs =
    let counted : ℕ → Outcome (Fields × Bool) = λ retries.
      ok (set "_retry_count" (int (pos (suc retries))) fs, ltb max_nack_retries (suc retries)) in
    elim (to_int (get_default "_retry_count" (int (pos 0)) fs)) [
      | ok n ↦ counted (pos_part n)
      | raises type_error ↦ counted 0
      | raises value_error ↦ counted 0
      | raises e ↦ raises e
    ]

module _ {Raw : Type 0} (codec : Codec Raw) where
  -- The first entry with this text is taken out of the deque.
  unfoldable pub drop_entry : Raw → List (Entry Raw) → List (Entry Raw)
  drop_entry raw [] = []
  drop_entry raw (e ∷ es) =
      let rest = drop_entry raw es in if codec.raw_eq e.raw raw then es else e ∷ rest

  -- `_drop_inflight`; a deque that becomes empty is popped, and one that was empty stays.
  unfoldable pub drop_inflight : ℕ → Raw → List (ℕ × List (Entry Raw)) → List (ℕ × List (Entry Raw))
  unfolding drop_entry
  drop_inflight id raw [] = []
  drop_inflight id raw ((j, es) ∷ m) =
      let rest = drop_inflight id raw m in
      if j == id
      then (if is_empty es
          then (j, es) ∷ m
          else if is_empty (drop_entry raw es)
          then m
          else (j, drop_entry raw es) ∷ m)
      else (j, es) ∷ rest

  abbrev pub repacked : Outcome (Fields × Bool) → Outcome (Raw × Bool)
  repacked (raises e) = raises e
  repacked (ok (fs, to_dlq)) = ok (codec.dumps (obj fs), to_dlq)

  -- `_prepare_nack_payload`: the payload to push back, and whether it goes to the dead letters.
  unfoldable pub prepare_nack_payload : Raw → Outcome (Raw × Bool)
  prepare_nack_payload raw = elim (codec.loads raw) [
    | some (obj fs) ↦ repacked (count_retry fs)
    | some other ↦ ok (raw, true)
    | none ↦ ok (raw, true)
  ]

  -- Whether `reclaim_stuck` leaves an entry alone, its lease being valid.
  unfoldable pub lease_valid : ℕ → ℕ → Real → Bool
  lease_valid threshold now (finite (pos c)) = ltb 0 c && ltb now (threshold + c)
  lease_valid threshold now (finite (negsuc c)) = false
  lease_valid threshold now infinite = true
  lease_valid threshold now neg_infinite = false
  lease_valid threshold now nan = false

  -- The `try` block of `reclaim_stuck` on one entry: is it kept? TypeError, ValueError and
  -- JSONDecodeError mean that it is not.
  unfoldable pub keeps_lease : ℕ → ℕ → Raw → Outcome Bool
  unfolding lease_valid get_default to_float
  keeps_lease threshold now raw = elim (codec.loads raw) [
    | none ↦ ok false
    | some (obj fs) ↦
        elim (to_float codec.read_float (get_default "_claimed_at" (int (pos 0)) fs)) [
          | ok claimed_at ↦ ok (lease_valid threshold now claimed_at)
          | raises type_error ↦ ok false
          | raises value_error ↦ ok false
          | raises e ↦ raises e
        ]
    | some other ↦ raises attribute_error
  ]
