-- ===== src/SharedPools.antt =====
-- ai-service/src/ai_service/adapter/postgres/_pooled_repository.py: the connection pools that the
-- repositories share, for one key (dsn, minconn, maxconn); those of other keys are not touched. An
-- entry is its address, and a pool is that of its entry, which creates at most one. The provider is
-- the one of the metrics that is registered under the name of the key.
pub mod Threads
pub mod Valid
pub mod Gives
pub mod Takes
pub mod Steps
pub mod Closed
pub mod Conn
use site_parser_for_freelans.Common.{
  ℕ, ◌+◌, ◌-◌, Bool, true, false, not, ◌&&◌, ◌||◌, ◌==◌, Option, none, some, if◌then◌else◌, ltb,
}

pub record SharedPoolEntry : Type 0 where
  -- Is there a pool?
  pub pool : Bool
  pub refcount : ℕ
  pub active_leases : ℕ
  pub closing : Bool

-- `current` is what `_SHARED_POOLS` holds under the key.
pub record SharedPools : Type 0 where
  pub entries : ℕ → SharedPoolEntry
  pub created : ℕ
  pub current : Option ℕ
  pub provider : Bool

abbrev pub fresh : SharedPoolEntry
fresh = record { pool = false; refcount = 0; active_leases = 0; closing = false }

abbrev pub put : ℕ → SharedPoolEntry → (ℕ → SharedPoolEntry) → ℕ → SharedPoolEntry
put a e entries j = if j == a then e else entries j

abbrev pub no_pools : SharedPools
no_pools = record { entries = λ a. fresh; created = 0; current = none; provider = false }

-- `_SHARED_POOLS.get(self._pool_key) is entry`.
abbrev pub is_current : ℕ → Option ℕ → Bool
is_current a none = false
is_current a (some b) = a == b

unfoldable pub reference : ℕ → SharedPools → SharedPools × ℕ
reference a s =
    let e = s.entries a in
    (
      record s {
        entries = put a (record e { refcount = e.refcount + 1; closing = false }) s.entries;
      },
      a,
    )

-- `_retain_shared_pool_entry`, and the entry that the new repository keeps.
unfoldable pub retain_entry : Option ℕ → SharedPools → SharedPools × ℕ
unfolding reference
retain_entry none s = reference s.created (record s {
  entries = put s.created fresh s.entries;
  created = s.created + 1;
  current = some s.created;
  provider = true;
})
retain_entry (some a) s = reference a s

unfoldable pub retain_shared_pool_entry : SharedPools → SharedPools × ℕ
unfolding retain_entry
retain_shared_pool_entry s = retain_entry s.current s

-- `_ensure_shared_pool`: afterwards there is a pool, as before or a new one; `opens` is whether the
-- constructor of a pool returns, and `none` is what it raises otherwise.
unfoldable pub ensure_shared_pool : Bool → ℕ → SharedPools → Option SharedPools
ensure_shared_pool opens a s =
    let e = s.entries a in
    if e.pool || opens
    then some (record s { entries = put a (record e { pool = true }) s.entries })
    else none

-- `_borrow_pool`, of a repository that is not closed. The pool that a repository keeps is that of its
-- entry.
unfoldable pub borrow_pool : Bool → ℕ → SharedPools → Option SharedPools
unfolding ensure_shared_pool
borrow_pool opens a s = elim (ensure_shared_pool opens a s) [
  | none ↦ none
  | some t ↦
      let e = t.entries a in
      some
        (record t { entries = put a (record e { active_leases = e.active_leases + 1 }) t.entries })
]

-- What the locked parts of `_release_pool_lease` and `_release_shared_pool_ref` do with an entry, of
-- which `found` says whether `_SHARED_POOLS` holds it, and whether they remove it, so that the
-- provider and the pool are still to be cleaned up.
unfoldable pub drop_lease : Bool → SharedPoolEntry → SharedPoolEntry × Bool
drop_lease found e =
    let leases = if ltb 0 e.active_leases then e.active_leases - 1 else e.active_leases in
    (record e { active_leases = leases }, e.closing && (e.refcount == 0) && (leases == 0) && found)

unfoldable pub drop_ref : Bool → SharedPoolEntry → SharedPoolEntry × Bool
drop_ref found e =
    let refs = if ltb 0 e.refcount then e.refcount - 1 else e.refcount in
    let unused = refs == 0 in
    (
      record e { refcount = refs; closing = if unused then true else e.closing },
      unused && (e.active_leases == 0) && found,
    )

unfoldable pub store : ℕ → SharedPoolEntry × Bool → SharedPools → SharedPools
store a (e, removed) s = record s {
  entries = put a e s.entries;
  current = if removed then none else s.current;
}

unfoldable pub release_pool_lease : ℕ → SharedPools → SharedPools × Bool
unfolding drop_lease store
release_pool_lease a s =
    let dropped = drop_lease (is_current a s.current) (s.entries a) in
    (store a dropped s, dropped.1)

unfoldable pub release_shared_pool_ref : ℕ → SharedPools → SharedPools × Bool
unfolding drop_ref store
release_shared_pool_ref a s =
    let dropped = drop_ref (is_current a s.current) (s.entries a) in (store a dropped s, dropped.1)

-- What both do with a removed entry after the lock: the provider is deregistered, and `closeall` is
-- called if there is a pool.
unfoldable pub clean_up : ℕ → SharedPools → SharedPools × Bool
clean_up a s = (record s { provider = false }, (s.entries a).pool)
