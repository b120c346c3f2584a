-- ===== src/BrowserPool/Render.antt =====
-- _render_with_pool of browser-service/main.py: the attempts of a render on the pool. What the page
-- and the recreation of a browser do are arguments; the callers that hold an instance are a list.
use site_parser_for_freelans.Common.{
  ℕ, ◌≡◌, refl, Bool, true, Option, none, some, List, [], ◌∷◌, is_empty, if◌then◌else◌, if_either,
  ltb, arith,
}
use site_parser_for_freelans.Common.Copies.{copies, drop_one}
use site_parser_for_freelans.BrowserPool.{
  BrowserPool, acquire, release, mark_unhealthy, recreate_browser, Launch,
}
use site_parser_for_freelans.BrowserPool.Counts.{
  hold, Counts, acquire-Counts, release-Counts, mark_unhealthy-Counts,
}
use site_parser_for_freelans.BrowserPool.Bounds.{recreate_browser-Counts}

pub data Page : Type 0 where
  rendered times_out fails : Page

-- What an attempt meets: how the page ends, whether its cleanup fails, and when and how the browser is
-- recreated.
pub record Attempt : Type 0 where
  pub page : Page
  pub cleanup_fails : Bool
  pub now : ℕ
  pub launch : Launch

-- `mark_unhealthy(browser, wait=True)`.
unfoldable pub mark_and_wait : Attempt → ℕ → BrowserPool → BrowserPool
unfolding mark_unhealthy recreate_browser
mark_and_wait t a p = recreate_browser t.now (p.objects a).browser_id t.launch (mark_unhealthy a p)

-- `release` of an instance that this render holds.
unfoldable pub give_back : ℕ → BrowserPool → List ℕ → BrowserPool × List ℕ
unfolding release
give_back a p held = (release a p, drop_one a held)

-- An attempt after the instance was acquired, the release in `finally` last, and the status of the
-- answer, unless the render goes on.
unfoldable pub on_page :
    Page → Attempt → Bool → ℕ → BrowserPool → List ℕ → BrowserPool × List ℕ × Option ℕ
unfolding mark_and_wait give_back mark_unhealthy
on_page rendered t last a p held =
    let q = if t.cleanup_fails then mark_unhealthy a p else p in
    let (r, holders) = give_back a q held in (r, holders, some 200)
on_page times_out t last a p held =
    let (r, holders) = give_back a (mark_and_wait t a p) held in
    (r, holders, if last then some 504 else none)
on_page fails t last a p held =
    let (r, holders) = give_back a (mark_and_wait t a p) held in
    (r, holders, if last then some 500 else none)

unfoldable pub attempt :
    Attempt → Bool → BrowserPool × Option ℕ → List ℕ → BrowserPool × List ℕ × Option ℕ
unfolding on_page
attempt t last (p, none) held = (p, held, if last then some 503 else none)
attempt t last (p, some a) held = on_page t.page t last a p (a ∷ held)

unfoldable pub go_on :
    BrowserPool × List ℕ × Option ℕ
    → (BrowserPool → List ℕ → BrowserPool × List ℕ × Option ℕ)
    → BrowserPool × List ℕ × Option ℕ
go_on (p, held, some status) next = (p, held, some status)
go_on (p, held, none) next = next p held

-- The loop over the attempts; without an attempt there is no answer.
unfoldable pub render_with_pool :
    List Attempt → BrowserPool → List ℕ → BrowserPool × List ℕ × Option ℕ
unfolding attempt go_on acquire
render_with_pool [] p held = (p, held, none)
render_with_pool (t ∷ ts) p held =
    go_on (attempt t (is_empty ts) (acquire p) held) (λ q holders. render_with_pool ts q holders)

-- The pool counts the callers, who are those of before.
abbrev Settled : List ℕ → BrowserPool × List ℕ × Option ℕ → Type 0
Settled held r = Counts r.0 held × (r.1 ≡ held)

drop_one-head : (a : ℕ) (held : List ℕ) → drop_one a (a ∷ held) ≡ held
unfolding drop_one
drop_one-head a held = ground arith

give_back-Settled :
    (a : ℕ) (p : BrowserPool) (held : List ℕ)
    → Counts p (a ∷ held)
    → Counts (give_back a p (a ∷ held)).0 held × ((give_back a p (a ∷ held)).1 ≡ held)
unfolding give_back copies
give_back-Settled a p held c =
    let some_held : ltb 0 (copies a (a ∷ held)) ≡ true = ground arith in
    let d = release-Counts a p (a ∷ held) some_held c in
    (rw⁻¹ (drop_one-head a held) d, drop_one-head a held)

mark_and_wait-Counts :
    (t : Attempt) (a : ℕ) (p : BrowserPool) (held : List ℕ)
    → Counts p held
    → Counts (mark_and_wait t a p) held
unfolding mark_and_wait
mark_and_wait-Counts t a p held c =
    recreate_browser-Counts t.now (p.objects a).browser_id t.launch (mark_unhealthy a p) held
      (mark_unhealthy-Counts a p held c)

on_page-Settled :
    (page : Page) (t : Attempt) (last : Bool) (a : ℕ) (p : BrowserPool) (held : List ℕ)
    → Counts p (a ∷ held)
    → Settled held (on_page page t last a p (a ∷ held))
unfolding on_page
on_page-Settled rendered t last a p held c =
    give_back-Settled a (if t.cleanup_fails then mark_unhealthy a p else p) held (
      if_either (λ q. Counts q (a ∷ held)) t.cleanup_fails (mark_unhealthy a p) p
        (mark_unhealthy-Counts a p (a ∷ held) c) c)
on_page-Settled times_out t last a p held c =
    give_back-Settled a (mark_and_wait t a p) held (mark_and_wait-Counts t a p (a ∷ held) c)
on_page-Settled fails t last a p held c =
    give_back-Settled a (mark_and_wait t a p) held (mark_and_wait-Counts t a p (a ∷ held) c)

attempt-Settled :
    (t : Attempt) (last : Bool) (r : BrowserPool × Option ℕ) (held : List ℕ)
    → Counts (hold r held).0 (hold r held).1
    → Settled held (attempt t last r held)
unfolding attempt hold
attempt-Settled t last (p, none) held c = (c, refl)
attempt-Settled t last (p, some a) held c = on_page-Settled t.page t last a p held c

-- On a pool that counts its callers a render releases each browser that it acquires exactly once,
-- however its attempts end: afterwards the same callers hold the same instances as before, and the
-- pool counts them.
pub render_with_pool-Counts :
    (ts : List Attempt) (p : BrowserPool) (held : List ℕ)
    → Counts p held
    → Counts (render_with_pool ts p held).0 held × ((render_with_pool ts p held).1 ≡ held)
unfolding render_with_pool go_on
render_with_pool-Counts [] p held c = (c, refl)
render_with_pool-Counts (t ∷ ts) p held c =
    goes (λ q d. render_with_pool-Counts ts q held d) (attempt t (is_empty ts) (acquire p) held)
      (attempt-Settled t (is_empty ts) (acquire p) held (acquire-Counts p held c))
  where
    goes :
        ((q : BrowserPool) → Counts q held → Settled held (render_with_pool ts q held))
        → (r : BrowserPool × List ℕ × Option ℕ) → Settled held r
        → Settled held (go_on r (λ q holders. render_with_pool ts q holders))
    goes ih (q, holders, some status) s = s
    goes ih (q, holders, none) s = rw s.1 (ih q s.0)
