-- ===== src/Bot/Cached.antt =====
-- The cached values of telegram-bot/main.py: the ids of users and the states of conversations, which
-- are kept by the same code in a local cache and, if there is one, in Redis.
use site_parser_for_freelans.Common.{
  ℕ, ◌+◌, ◌<◌, ◌≡◌, refl, ap, Option, none, some, List, All, if◌then◌else◌,
}
use site_parser_for_freelans.Bot.Texts.{Texts}
use site_parser_for_freelans.Bot.TtlCache.{TtlCache, set, get, pop}
use site_parser_for_freelans.Bot.TtlCache.History.{Call, run, From}
use site_parser_for_freelans.Bot.TtlCache.Valid.{IsValid}
use site_parser_for_freelans.Bot.TtlCache.Recent.{Spares, writes, get-run-set}

-- `_STATE_STORE`, if there is one, and the cache. Texts in Redis have the type `Raw`.
pub record Cached {Raw : Type 0} (server : Texts Raw) (V : Type 0) : Type 0 where
  pub state_store : Option server.Store
  pub cache : TtlCache V

module _ {Raw V : Type 0} (server : Texts Raw) (print : V → Raw) (parse : Raw → Option V) where
  unfoldable pub sent : Option server.Store → server.Store → server.Store
  sent none s = s
  sent (some s') s = s'

  unfoldable pub store_value : ℕ → V → Option server.Store → Option server.Store
  unfolding sent
  store_value k v none = none
  store_value k v (some s) = some (sent (server.set k (print v) s) s)

  -- `_cache_user_id` and `_set_conversation_state`.
  unfoldable pub cache_value : ℕ → ℕ → V → Cached server V → Cached server V
  unfolding store_value set
  cache_value now k v c = record {
    state_store = store_value k v c.state_store;
    cache = set now k v c.cache;
  }

  -- `get_user_id` and `get_conversation_state` of _RedisStateStore, the value being read: a text that
  -- is no value is deleted. The last component is `none` after an exception.
  unfoldable pub deleted : Option server.Store → server.Store → server.Store × Option (Option V)
  deleted none s = (s, none)
  deleted (some s') s = (s', some none)

  unfoldable pub read_raw : ℕ → Option Raw → server.Store → server.Store × Option (Option V)
  unfolding deleted
  read_raw k none s = (s, some none)
  read_raw k (some raw) s = elim (parse raw) [
    | none ↦ deleted (server.delete k s) s
    | some v ↦ (s, some (some v))
  ]

  unfoldable pub get_value : ℕ → server.Store → server.Store × Option (Option V)
  unfolding read_raw
  get_value k s = if server.reachable s then read_raw k (server.holds s k) s else (s, none)

  -- `_get_cached_user_id` and `_get_conversation_state`, after the local cache and after Redis.
  unfoldable pub after_store :
      ℕ → ℕ → server.Store × Option (Option V) → TtlCache V → Cached server V × Option V
  unfolding cache_value
  after_store now k (s, some (some v)) c =
      (cache_value now k v (record { state_store = some s; cache = c }), some v)
  after_store now k (s, some none) c = (record { state_store = some s; cache = c }, none)
  after_store now k (s, none) c = (record { state_store = some s; cache = c }, none)

  unfoldable pub after_cache :
      ℕ → ℕ → Option server.Store → TtlCache V × Option V → Cached server V × Option V
  unfolding get_value after_store
  after_cache now k store (c, some v) = (record { state_store = store; cache = c }, some v)
  after_cache now k none (c, none) = (record { state_store = none; cache = c }, none)
  after_cache now k (some s) (c, none) = after_store now k (get_value k s) c

  unfoldable pub get_cached : ℕ → ℕ → Cached server V → Cached server V × Option V
  unfolding get after_cache
  get_cached now k c = after_cache now k c.state_store (get now k c.cache)

  -- `_clear_conversation_state`.
  unfoldable pub clear : ℕ → Cached server V → Cached server V
  unfolding pop sent
  clear k c = record {
    cache = pop k c.cache;
    state_store = elim c.state_store [ none ↦ none | some s ↦ some (sent (server.delete k s) s) ];
  }

  -- `_resolve_user_id`, around the call of the backend, which may change the world.
  module _ {World : Type 0} (post_users : World → World × Option V) where
    unfoldable pub posted :
        ℕ → ℕ → World × Option V → Cached server V → World × Cached server V × Option V
    unfolding cache_value
    posted now k (w, none) c = (w, c, none)
    posted now k (w, some v) c = (w, cache_value now k v c, some v)

    unfoldable pub resolve_after :
        ℕ → ℕ → World → Cached server V × Option V → World × Cached server V × Option V
    unfolding posted
    resolve_after now k w (c, some v) = (w, c, some v)
    resolve_after now k w (c, none) = posted now k (post_users w) c

    -- At the time of the lookup and at the time of the caching.
    unfoldable pub resolve :
        ℕ → ℕ → ℕ → World → Cached server V → World × Cached server V × Option V
    unfolding get_cached resolve_after
    resolve now later k w c = resolve_after later k w (get_cached now k c)

    after_cache-hit :
        (now k : ℕ) (store : Option server.Store) (v : V) (r : TtlCache V × Option V)
        → r.1 ≡ some v
        → after_cache now k store r ≡ (record { state_store = store; cache = r.0 }, some v)
    unfolding after_cache
    after_cache-hit now k store v (c, o) e = rw e refl

    -- A value that was cached resolves without a call of the backend or of Redis until its entry
    -- expires, if the calls on the local cache in between are in the order of their times, neither
    -- write nor remove its key, and fewer than `maxsize` of them write.
    pub resolve-cache_value :
        (m now later k : ℕ) (v : V) (w : World) (c : Cached server V) (store : Option server.Store)
        → (calls : List (Call V)) → IsValid m c.cache
        → From m calls
        → All (Spares k (m + c.cache.ttl)) calls
        → writes calls < c.cache.maxsize
        → now < m + c.cache.ttl
        → (d : TtlCache V) × (resolve now later k w
              (record { state_store = store; cache = run calls (cache_value m k v c).cache })
            ≡ (w, record { state_store = store; cache = d }, some v))
    unfolding resolve resolve_after get_cached cache_value
    resolve-cache_value m now later k v w c store calls valid from spares few early =
        let hit = get-run-set calls c.cache now m k v valid from spares few early in
        let kept = run calls (set m k v c.cache) in
        (
          (get now k kept).0,
          ap (resolve_after later k w) (after_cache-hit now k store v (get now k kept) hit),
        )
