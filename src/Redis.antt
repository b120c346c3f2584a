-- ===== src/Redis.antt =====
-- What the queue adapters ask of their environment: the lists of a Redis server, the json module,
-- and `float` on texts. All three are outside the repository, so they are parameters, with the
-- documented behaviour that the code relies on.
use site_parser_for_freelans.Common.{
  ℕ, ◌≡◌, ◌↔◌, Bool, true, false, Option, none, some, List, [], ◌∷◌, ◌++◌, if◌then◌else◌,
}
use site_parser_for_freelans.Json.{Value, Real}

-- The three lists of a consumer: `{queue}`, `{queue}:processing` and `{queue}:dlq`.
pub data Key : Type 0 where
  pending processing dlq : Key

abbrev pub key_eq : Key → Key → Bool
key_eq pending pending = true
key_eq processing processing = true
key_eq dlq dlq = true
key_eq _ _ = false

pub record Codec (Raw : Type 0) : Type 0 where
  -- Equality of texts.
  pub raw_eq : Raw → Raw → Bool
  pub raw_eq_iff : (a b : Raw) → (raw_eq a b ≡ true) ↔ (a ≡ b)
  -- `json.loads`; `none` is a JSONDecodeError.
  pub loads : Raw → Option Value
  -- `json.dumps(…, separators=(",", ":"), ensure_ascii=False)`.
  pub dumps : Value → Raw
  pub loads-dumps : (v : Value) → loads (dumps v) ≡ some v
  pub read_float : List ℕ → Option Real

pub data Command (Raw : Type 0) : Type 0 where
  lrem lpush rpush : Key → Raw → Command Raw

module _ {Raw : Type 0} (codec : Codec Raw) where
  -- `LREM key 1 raw` drops the first entry that is equal to `raw`.
  abbrev pub remove : Raw → List Raw → List Raw
  remove raw [] = []
  remove raw (x ∷ xs) = let rest = remove raw xs in if codec.raw_eq x raw then xs else x ∷ rest

  abbrev pub write : Key → List Raw → (Key → List Raw) → Key → List Raw
  write k l lists j = if key_eq k j then l else lists j

  -- The effect of a command on the lists.
  abbrev pub apply : Command Raw → (Key → List Raw) → Key → List Raw
  apply (lrem k raw) lists = write k (remove raw (lists k)) lists
  apply (lpush k raw) lists = write k (raw ∷ lists k) lists
  apply (rpush k raw) lists = write k (lists k ++ raw ∷ []) lists

  abbrev pub apply_all : List (Command Raw) → (Key → List Raw) → Key → List Raw
  apply_all [] lists = lists
  apply_all (c ∷ cs) lists = apply_all cs (apply c lists)

  -- A server: `lists` is what LRANGE shows. A call that finds no connection is `none` and leaves
  -- the lists as they were; a transaction is carried out as a whole.
  pub record Redis : Type 1 where
    pub Store : Type 0
    pub lists : Store → Key → List Raw
    -- Whether a reading call reaches the server.
    pub reachable : Store → Bool
    pub execute : List (Command Raw) → Store → Option Store
    pub brpoplpush : Store → Option (Option Raw × Store)
    pub execute_lists :
        (cs : List (Command Raw)) (s s' : Store)
        → execute cs s ≡ some s'
        → lists s' ≡ apply_all cs (lists s)
    pub brpoplpush_empty :
        (s s' : Store)
        → brpoplpush s ≡ some (none, s')
        → (lists s pending ≡ []) × (lists s' ≡ lists s)
    pub brpoplpush_moved :
        (raw : Raw) (s s' : Store)
        → brpoplpush s ≡ some (some raw, s')
        → (rest : List Raw) × (lists s pending ≡ rest ++ raw ∷ [])
          × (lists s' ≡ write processing (raw ∷ lists s processing) (write pending rest (lists s)))
