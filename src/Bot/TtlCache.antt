-- ===== src/Bot/TtlCache.antt =====
-- The bounded caches of telegram-bot/main.py whose entries expire: _UserIDCache,
-- _ConversationStateCache and _ProcessedUpdateCache, which differ in the type of the values. An
-- OrderedDict is the list of its entries, the oldest first; it has each key once. Times are those of
-- the monotonic clock. The lock makes each operation atomic.
pub mod Entries
pub mod Reads
pub mod Valid
pub mod History
pub mod Recent
use site_parser_for_freelans.Common.{
  ℕ, ◌+◌, max, Bool, true, false, ◌&&◌, ◌==◌, Option, none, some, List, [], ◌∷◌, ◌++◌, length,
  if◌then◌else◌, ltb, leb,
}

pub record Entry (V : Type 0) : Type 0 where
  pub key : ℕ
  pub value : V
  pub expires_at : ℕ

pub record TtlCache (V : Type 0) : Type 0 where
  pub maxsize : ℕ
  pub ttl : ℕ
  pub items : List (Entry V)

module _ {V : Type 0} where
  unfoldable pub build : ℕ → ℕ → TtlCache V
  build maxsize ttl = record { maxsize = max 1 maxsize; ttl = max 1 ttl; items = [] }

  -- `cache.get(key)`.
  unfoldable pub find : ℕ → List (Entry V) → Option (Entry V)
  find k [] = none
  find k (e ∷ es) = let rest = find k es in if e.key == k then some e else rest

  -- `cache.pop(key, None)`.
  unfoldable pub remove : ℕ → List (Entry V) → List (Entry V)
  remove k [] = []
  remove k (e ∷ es) = let rest = remove k es in if e.key == k then es else e ∷ rest

  unfoldable pub has : ℕ → List (Entry V) → Bool
  unfolding find
  has k es = elim (find k es) [ none ↦ false | some e ↦ true ]

  -- `_prune_expired_entries`: the keys before the first entry that is not expired are removed, which
  -- are the front of the list.
  unfoldable pub prune : ℕ → List (Entry V) → List (Entry V)
  prune now [] = []
  prune now (e ∷ es) = let rest = prune now es in if leb e.expires_at now then rest else e ∷ es

  unfoldable pub drop_oldest : List (Entry V) → List (Entry V)
  drop_oldest [] = []
  drop_oldest (e ∷ es) = es

  -- Is there no room for one more entry?
  unfoldable pub full : TtlCache V → List (Entry V) → Bool
  full c es = ltb 0 c.maxsize && leb c.maxsize (length es)

  -- The entries among which the one for `k` is put.
  unfoldable pub make_room : TtlCache V → ℕ → List (Entry V) → List (Entry V)
  unfolding has remove full drop_oldest
  make_room c k es = if has k es then remove k es else if full c es then drop_oldest es else es

  unfoldable pub set : ℕ → ℕ → V → TtlCache V → TtlCache V
  unfolding prune make_room
  set now k v c = record c {
    items =
        make_room c k (prune now c.items)
        ++ record { key = k; value = v; expires_at = now + c.ttl } ∷ [];
  }

  -- The value, unless it is expired, in which case its entry is removed.
  unfoldable pub take_live : ℕ → ℕ → TtlCache V → Option (Entry V) → TtlCache V × Option V
  unfolding remove
  take_live now k c none = (c, none)
  take_live now k c (some e) =
      if leb e.expires_at now
      then (record c { items = remove k c.items }, none)
      else (c, some e.value)

  unfoldable pub get : ℕ → ℕ → TtlCache V → TtlCache V × Option V
  unfolding prune find take_live
  get now k c =
      let pruned = prune now c.items in
      take_live now k (record c { items = pruned }) (find k pruned)

  unfoldable pub pop : ℕ → TtlCache V → TtlCache V
  unfolding remove
  pop k c = record c { items = remove k c.items }
