-- ===== src/BrowserService/Backpressure.antt =====
-- render and healthz of browser-service/main.py: the queue that bounds the renders under way. Nothing
-- runs between the test of the queue and the put, which does not wait on a queue that is not full.
use site_parser_for_freelans.Common.{
  ℕ, ◌+◌, ◌-◌, ◌≤◌, ◌<◌, ◌≡◌, refl, ◌∙◌, inl, inr, Bool-cases, Bool, true, ◌&&◌, ◌==◌, Option, none,
  some, List, [], ◌∷◌, if◌then◌else◌, ltb, leb, arith,
}

-- An asyncio.Queue, which has no bound if maxsize is 0, and the renders that have put an entry.
pub record RenderQueue : Type 0 where
  pub maxsize : ℕ
  pub qsize : ℕ
  pub under_way : ℕ

abbrev pub new_queue : ℕ → RenderQueue
new_queue maxsize = record { maxsize = maxsize; qsize = 0; under_way = 0 }

unfoldable pub full : RenderQueue → Bool
full q = ltb 0 q.maxsize && leb q.maxsize q.qsize

-- The part of `render` before the page: the status 503, or else none and an entry in the queue.
unfoldable pub enter : Bool → RenderQueue → RenderQueue × Option ℕ
unfolding full
enter has_pool q =
    if has_pool
    then (if full q
        then (q, some 503)
        else (record q { qsize = q.qsize + 1; under_way = q.under_way + 1 }, none))
    else (q, some 503)

-- The `finally`, however the page ended: `get_nowait`, where `none` is that the queue was empty.
unfoldable pub leave : RenderQueue → Option RenderQueue
leave q =
    if ltb 0 q.qsize
    then some (record q { qsize = q.qsize - 1; under_way = q.under_way - 1 })
    else none

-- `healthz`, for the number of healthy browsers if there is a pool.
unfoldable pub healthz : Option ℕ → ℕ
healthz none = 503
healthz (some healthy_count) = if healthy_count == 0 then 503 else 200

pub data Turn : Type 0 where
  enters : Bool → Turn
  leaves : Turn

-- A turn of some render; only one that is under way leaves.
unfoldable pub turn : Turn → RenderQueue → Option RenderQueue
unfolding enter leave
turn (enters has_pool) q = some (enter has_pool q).0
turn leaves q = if ltb 0 q.under_way then leave q else some q

unfoldable pub turns : List Turn → RenderQueue → Option RenderQueue
unfolding turn
turns [] q = some q
turns (t ∷ ts) q = elim (turn t q) [ none ↦ none | some r ↦ turns ts r ]

-- The queue counts the renders under way, which are at most maxsize, if there is a bound.
abbrev pub Counted : RenderQueue → Type 0
Counted q = (q.qsize ≡ q.under_way) × (0 < q.maxsize → q.qsize ≤ q.maxsize)

enter-Counted :
    (has_pool : Bool) (q : RenderQueue)
    → Counted q
    → Counted (enter has_pool q).0 × ((enter has_pool q).0.maxsize ≡ q.maxsize)
unfolding enter full
enter-Counted has_pool q c = ground arith

turn-Counted :
    (t : Turn) (q : RenderQueue)
    → Counted q
    → (r : RenderQueue) × (turn t q ≡ some r) × Counted r × (r.maxsize ≡ q.maxsize)
unfolding turn leave
turn-Counted (enters has_pool) q c =
    let e = enter-Counted has_pool q c in ((enter has_pool q).0, refl, e.0, e.1)
turn-Counted leaves q c = elim (Bool-cases (ltb 0 q.under_way)) [
  | inl p ↦
      let some_entry : ltb 0 q.qsize ≡ true = ground (arith, p, c.0) in
      (
        record q { qsize = q.qsize - 1; under_way = q.under_way - 1 },
        rw (p, some_entry) refl,
        ground arith,
        refl,
      )
  | inr p ↦ (q, rw p refl, c, refl)
]

turns-Counted :
    (ts : List Turn) (q : RenderQueue)
    → Counted q
    → (r : RenderQueue) × (turns ts q ≡ some r) × Counted r × (r.maxsize ≡ q.maxsize)
unfolding turns
turns-Counted [] q c = (q, refl, c, refl)
turns-Counted (t ∷ ts) q c =
    let (r, e, d, m) = turn-Counted t q c in
    let (s, g, h, n) = turns-Counted ts r d in (s, rw (turns, e) g, h, n ∙ m)

-- However renders come and end, `get_nowait` never finds the queue empty, the queue counts exactly the
-- renders under way, and these are never more than maxsize, if it is a bound.
pub turns-new_queue :
    (maxsize : ℕ) (ts : List Turn)
    → (r : RenderQueue) × (turns ts (new_queue maxsize) ≡ some r)
      × (r.qsize ≡ r.under_way)
      × (0 < maxsize → r.under_way ≤ maxsize)
turns-new_queue maxsize ts =
    let (r, e, c, m) = turns-Counted ts (new_queue maxsize) (refl, λ h. omega arith) in
    (r, e, c.0, λ h. omega (arith, m, c.0, c.1 (omega (arith, m, h)), h))
