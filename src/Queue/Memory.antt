-- ===== src/Queue/Memory.antt =====
-- A server and a codec that meet the assumptions of the module Redis: three lists in memory, on
-- which every call succeeds, and texts that are JSON values or something else.
use Prim.Native.String.{String}
use text.Mathlib.Text.{◌==◌ as str_eq}
use text.Mathlib.TextEquality.{eq_iff}
use native.Mathlib.Decide.{ℕ_discrete}
use site_parser_for_freelans.Common.{
  ℕ, ◌≡◌, ◌↔◌, refl, sym, subst, Bool, true, false, Option, none, some, List, [], ◌∷◌, ◌++◌, inl,
  inr, Bool-cases, eq_of_some, split_last, Ends, split_last-Ends,
}
use site_parser_for_freelans.Json.{Value}
use site_parser_for_freelans.Redis.{
  Codec, Redis, Command, Key, pending, processing, apply_all, write,
}

pub data Text : Type 0 where
  json : Value → Text
  other : ℕ → Text

text_discrete : Discrete String
text_discrete s t = elim (Bool-cases (str_eq s t)) [
  | inl e ↦ yes ((eq_iff s t).0 e)
  | inr e ↦ no (λ p. cc ((eq_iff s t).1 p))
]

Value-discrete : Discrete Value
Value-discrete = hlevel (ℕ_discrete, text_discrete)

Text-discrete : Discrete Text
Text-discrete = hlevel (ℕ_discrete, Value-discrete)

pub text_eq : Text → Text → Bool
text_eq a b = elim (Text-discrete a b) [ yes e ↦ true | no e ↦ false ]

pub text_eq_iff : (a b : Text) → (text_eq a b ≡ true) ↔ (a ≡ b)
unfolding text_eq
text_eq_iff a b = by_decision (Text-discrete a b) refl
  where
    by_decision : (d : Dec (a ≡ b)) → Text-discrete a b ≡ d → (text_eq a b ≡ true) ↔ (a ≡ b)
    by_decision (yes e) p = (λ _. e, λ _. rw (p, text_eq))
    by_decision (no n) p = (λ q. cc (rw (p, text_eq) at q), λ q. absurd (n q))

abbrev pub read : Text → Option Value
read (json v) = some v
read (other n) = none

abbrev pub codec : Codec Text
codec = record {
  raw_eq = text_eq;
  raw_eq_iff = text_eq_iff;
  loads = read;
  dumps = json;
  loads-dumps = λ v. refl;
  read_float = λ s. none;
}

abbrev pub Lists : Type 0
Lists = Key → List Text

abbrev pub rotated : Lists → Option (List Text × Text) → Option Text × Lists
rotated l none = (none, l)
rotated l (some (front, last)) =
    (some last, write codec processing (last ∷ l processing) (write codec pending front l))

-- BRPOPLPUSH.
abbrev pub rotate : Lists → Option Text × Lists
rotate l = rotated l (split_last (l pending))

Rotates : Lists → Option Text × Lists → Type 0
Rotates l (none, l') = (l pending ≡ []) × (l' ≡ l)
Rotates l (some raw, l') =
    (rest : List Text) × (l pending ≡ rest ++ raw ∷ [])
    × (l' ≡ write codec processing (raw ∷ l processing) (write codec pending rest l))

rotated-Rotates :
    (l : Lists) (o : Option (List Text × Text)) → Ends (l pending) o → Rotates l (rotated l o)
unfolding Rotates
rotated-Rotates l none e = (e, refl)
rotated-Rotates l (some (front, last)) e = (front, e, refl)

rotate-Rotates : (l : Lists) → Rotates l (rotate l)
rotate-Rotates l = rotated-Rotates l (split_last (l pending)) (split_last-Ends (l pending))

pub execute_lem :
    (cs : List (Command Text)) (s s' : Lists)
    → some (apply_all codec cs s) ≡ some s'
    → s' ≡ apply_all codec cs s
execute_lem cs s s' h = sym (eq_of_some h)

pub rotate_empty : (s s' : Lists) → some (rotate s) ≡ some (none, s') → (s pending ≡ []) × (s' ≡ s)
unfolding Rotates
rotate_empty s s' h = subst (Rotates s) (eq_of_some h) (rotate-Rotates s)

pub rotate_moved :
    (raw : Text) (s s' : Lists)
    → some (rotate s) ≡ some (some raw, s')
    → (rest : List Text) × (s pending ≡ rest ++ raw ∷ [])
      × (s' ≡ write codec processing (raw ∷ s processing) (write codec pending rest s))
unfolding Rotates
rotate_moved raw s s' h = subst (Rotates s) (eq_of_some h) (rotate-Rotates s)

abbrev pub server : Redis codec
server = record {
  Store = Lists;
  lists = λ s. s;
  reachable = λ s. true;
  execute = λ cs s. some (apply_all codec cs s);
  brpoplpush = λ s. some (rotate s);
  execute_lists = execute_lem;
  brpoplpush_empty = rotate_empty;
  brpoplpush_moved = rotate_moved;
}
