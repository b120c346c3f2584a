-- ===== src/Bot/Inbox/Commands.antt =====
-- Sequences of commands, and what they do to the lists of the inbox.
use site_parser_for_freelans.Common.{
  ℕ, ◌≡◌, refl, ap, ◌∙◌, inl, inr, ◌⊎◌, true, false, ◌==◌, Option, some, List, [], ◌∷◌,
  if◌then◌else◌, Option-cases, arith,
}
use site_parser_for_freelans.Common.Copies.{copies}
use site_parser_for_freelans.Bot.Store.{View, Command, Server, apply, perform, without}

pub copies-without :
    (i j : ℕ) (is : List ℕ) → copies j (without i is) ≡ (if i == j then 0 else copies j is)
unfolding copies without
copies-without i j [] = ground arith
copies-without i j (k ∷ is) = ground (arith, copies-without i j is)

module _ {P : Type 0} where
  unfoldable pub apply_all : List (Command P) → View P → View P
  unfolding apply
  apply_all [] v = v
  apply_all (c ∷ cs) v = apply_all cs (apply c v)

  -- A server that is always reached.
  pub record IsReliable (server : Server P) : Type 0 where
    pub reads : (s : server.Store) → server.reachable s ≡ true
    pub writes :
        (c : Command P) (s : server.Store) → (s' : server.Store) × (server.execute c s ≡ some s')
    pub moves : (s : server.Store) → (o : Option ℕ × server.Store) × (server.brpoplpush s ≡ some o)

  -- The first commands of a sequence, or all.
  pub data Prefix : List (Command P) → List (Command P) → Type 0 where
    stops : {cs : List (Command P)} → Prefix [] cs
    goes : {c : Command P} {ds cs : List (Command P)} → Prefix ds cs → Prefix (c ∷ ds) (c ∷ cs)

  module _ (server : Server P) where
    -- A server that is always reached carries out every command.
    pub perform_all :
        (up : IsReliable server) (cs : List (Command P)) (s : server.Store)
        → (s' : server.Store) × (perform server cs s ≡ (s', true))
          × (server.view s' ≡ apply_all cs (server.view s))
    unfolding perform apply_all
    perform_all up [] s = (s, refl, refl)
    perform_all up (c ∷ cs) s =
        let (s', e) = up.writes c s in
        let (t, done, shows) = perform_all up cs s' in
        (t, rw (perform, e) done, shows ∙ ap (apply_all cs) (server.execute_view c s s' e))

    -- Any server carries out all commands, or the first of them and raises. If only the reply to the
    -- last one was lost, all are carried out though it raises.
    pub perform_cases :
        (cs : List (Command P)) (s : server.Store)
        → ((s' : server.Store) × (perform server cs s ≡ (s', true))
            × (server.view s' ≡ apply_all cs (server.view s)))
          ⊎ ((s' : server.Store) × (perform server cs s ≡ (s', false))
              × (ds : List (Command P)) × Prefix ds cs
              × (server.view s' ≡ apply_all ds (server.view s)))
    unfolding perform apply_all
    perform_cases [] s = inl (s, refl, refl)
    perform_cases (c ∷ cs) s = elim (Option-cases (server.execute c s)) [
      | inl e ↦ elim (server.failure_view c s) [
        | inl same ↦ inr (server.after_failure c s, rw (perform, e) refl, [], stops, same)
        | inr shows ↦
            inr (server.after_failure c s, rw (perform, e) refl, c ∷ [], goes stops, shows)
      ]
      | inr (t, e) ↦ elim (perform_cases cs t) [
        | inl (s', all, shows) ↦
            inl (s', rw (perform, e) all, shows ∙ ap (apply_all cs) (server.execute_view c s t e))
        | inr (s', some_of, ds, part, shows) ↦ inr (
          s',
          rw (perform, e) some_of,
          c ∷ ds,
          goes part,
          shows ∙ ap (apply_all ds) (server.execute_view c s t e),
        )
      ]
    ]
