-- ===== src/Bot/Inbox/Memory.antt =====
-- A Redis of one shard in memory, which carries out every command.
use site_parser_for_freelans.Common.{
  ℕ, ◌≡◌, refl, sym, subst, true, Option, none, some, inl, List, [], ◌∷◌, ◌++◌, eq_of_some,
  split_last, Ends, split_last-Ends,
}
use site_parser_for_freelans.Bot.Store.{View, Command, Server, apply}
use site_parser_for_freelans.Bot.Inbox.Commands.{IsReliable}

abbrev pub moved : View ℕ → Option (List ℕ × ℕ) → Option ℕ × View ℕ
moved v none = (none, v)
moved v (some (rest, i)) = (some i, record v { inbox = rest; handling = i ∷ v.handling })

abbrev pub move : View ℕ → Option ℕ × View ℕ
move v = moved v (split_last v.inbox)

Moves : View ℕ → Option ℕ × View ℕ → Type 0
Moves v (none, w) = (v.inbox ≡ []) × (w ≡ v)
Moves v (some i, w) =
    (rest : List ℕ) × (v.inbox ≡ rest ++ i ∷ [])
    × (w ≡ record v { inbox = rest; handling = i ∷ v.handling })

moved-Moves : (v : View ℕ) (o : Option (List ℕ × ℕ)) → Ends v.inbox o → Moves v (moved v o)
unfolding Moves
moved-Moves v none e = (e, refl)
moved-Moves v (some (rest, i)) e = (rest, e, refl)

pub executed : (c : Command ℕ) (s s' : View ℕ) → some (apply c s) ≡ some s' → s' ≡ apply c s
executed c s s' h = sym (eq_of_some h)

pub move_empty : (s s' : View ℕ) → some (move s) ≡ some (none, s') → (s.inbox ≡ []) × (s' ≡ s)
unfolding Moves
move_empty s s' h =
    subst (Moves s) (eq_of_some h) (moved-Moves s (split_last s.inbox) (split_last-Ends s.inbox))

pub move-some :
    (i : ℕ) (s s' : View ℕ)
    → some (move s) ≡ some (some i, s')
    → (rest : List ℕ) × (s.inbox ≡ rest ++ i ∷ [])
      × (s' ≡ record s { inbox = rest; handling = i ∷ s.handling })
unfolding Moves
move-some i s s' h =
    subst (Moves s) (eq_of_some h) (moved-Moves s (split_last s.inbox) (split_last-Ends s.inbox))

abbrev pub server : Server ℕ
server = record {
  Store = View ℕ;
  view = λ v. v;
  reachable = λ v. true;
  execute = λ c v. some (apply c v);
  after_failure = λ c v. v;
  brpoplpush = λ v. some (move v);
  after_failed_move = λ v. v;
  failure_view = λ c v. inl refl;
  execute_view = executed;
  brpoplpush_empty = move_empty;
  brpoplpush_moved = move-some;
}

pub server-IsReliable : IsReliable server
server-IsReliable = record {
  reads = λ s. refl;
  writes = λ c s. (apply c s, refl);
  moves = λ s. (move s, refl);
}
