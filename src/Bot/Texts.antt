-- ===== src/Bot/Texts.antt =====
-- The texts that telegram-bot/main.py keeps in Redis under the keys of one kind, by number. Redis is
-- outside the repository, so it is a parameter with its documented behaviour; keys do not expire here.
use site_parser_for_freelans.Common.{
  ℕ, ◌≡◌, Bool, true, false, ◌==◌, Option, none, some, if◌then◌else◌,
}

abbrev pub put : {A : Type 0} → ℕ → Option A → (ℕ → Option A) → ℕ → Option A
put i x f j = if j == i then x else f j

-- A call that finds no connection is `none` and changes nothing.
pub record Texts (V : Type 0) : Type 1 where
  pub Store : Type 0
  pub holds : Store → ℕ → Option V
  -- Whether a reading call reaches the server.
  pub reachable : Store → Bool
  pub set : ℕ → V → Store → Option Store
  -- `SET … NX`, and whether the key was set.
  pub set_nx : ℕ → V → Store → Option (Bool × Store)
  pub delete : ℕ → Store → Option Store
  pub set_holds :
      (i : ℕ) (v : V) (s s' : Store) → set i v s ≡ some s' → holds s' ≡ put i (some v) (holds s)
  pub set_nx_new :
      (i : ℕ) (v : V) (s s' : Store)
      → set_nx i v s ≡ some (true, s')
      → (holds s i ≡ none) × (holds s' ≡ put i (some v) (holds s))
  pub set_nx_old :
      (i : ℕ) (v : V) (s s' : Store)
      → set_nx i v s ≡ some (false, s')
      → (holds s' ≡ holds s) × ((w : V) × (holds s i ≡ some w))
  pub delete_holds : (i : ℕ) (s s' : Store) → delete i s ≡ some s' → holds s' ≡ put i none (holds s)
