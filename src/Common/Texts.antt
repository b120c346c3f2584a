-- ===== src/Common/Texts.antt =====
-- Texts as lists of code points, with the methods of Python's `str` that the code uses on them.
use Prim.Native.Nat.{ℕ, ◌+◌}
use mathlib.Core.Path.{◌≡◌, refl}
use mathlib.Core.Logic.{◌↔◌}
use mathlib.Core.List.{List, [], ◌∷◌, ◌++◌}
use mathlib.Core.Bool.{Bool, true, false, ◌&&◌, ◌||◌}
use mathlib.Core.Option.{Option, none, some}
use native.Mathlib.Omega.{arith}
use site_parser_for_freelans.Common.Tests.{if◌then◌else◌, ◌==◌, ==_iff}

abbrev pub Text : Type 0
Text = List ℕ

abbrev pub text_eq : Text → Text → Bool
text_eq [] [] = true
text_eq [] (y ∷ ys) = false
text_eq (x ∷ xs) [] = false
text_eq (x ∷ xs) (y ∷ ys) = let rest = text_eq xs ys in (x == y) && rest

-- `c in text`, and `text.count(c)`.
abbrev pub contains_char : ℕ → Text → Bool
contains_char c [] = false
contains_char c (x ∷ xs) = let rest = contains_char c xs in (x == c) || rest

abbrev pub count_char : ℕ → Text → ℕ
count_char c [] = 0
count_char c (x ∷ xs) = let rest = count_char c xs in if x == c then rest + 1 else rest

abbrev pub starts_with_char : ℕ → Text → Bool
starts_with_char c [] = false
starts_with_char c (x ∷ xs) = x == c

abbrev pub ends_with : Text → Text → Bool
ends_with suffix [] = text_eq [] suffix
ends_with suffix (x ∷ xs) = let rest = ends_with suffix xs in text_eq (x ∷ xs) suffix || rest

abbrev before : ℕ → Option (Text × Text) → Option (Text × Text)
before x none = none
before x (some (front, back)) = some (x ∷ front, back)

-- The texts before and after the first `c`.
abbrev pub split_first : ℕ → Text → Option (Text × Text)
split_first c [] = none
split_first c (x ∷ xs) =
    let rest = split_first c xs in if x == c then some ([], xs) else before x rest

text_eq-same : (xs : Text) → text_eq xs xs ≡ true
text_eq-same [] = refl
text_eq-same (x ∷ xs) = ground (arith, text_eq-same xs)

pub eq_of_text_eq : (xs ys : Text) → text_eq xs ys ≡ true → xs ≡ ys
eq_of_text_eq [] [] h = refl
eq_of_text_eq [] (y ∷ ys) h = cc
eq_of_text_eq (x ∷ xs) [] h = cc
eq_of_text_eq (x ∷ xs) (y ∷ ys) h =
    let head : x ≡ y = ground arith in
    let tail : text_eq xs ys ≡ true = ground arith in rw (head, eq_of_text_eq xs ys tail) refl

pub text_eq_iff : (xs ys : Text) → (text_eq xs ys ≡ true) ↔ (xs ≡ ys)
text_eq_iff xs ys = (eq_of_text_eq xs ys, λ e. rw e (text_eq-same ys))

pub split_first-append :
    (c : ℕ) (xs ys : Text)
    → contains_char c xs ≡ false
    → split_first c (xs ++ c ∷ ys) ≡ some (xs, ys)
split_first-append c [] ys h = rw ((==_iff c c).1 refl) refl
split_first-append c (x ∷ xs) ys h =
    let here : (x == c) ≡ false = ground arith in
    let rest : contains_char c xs ≡ false = ground arith in
    rw (here, split_first-append c xs ys rest) refl

pub count_char-append :
    (c : ℕ) (xs ys : Text) → count_char c (xs ++ ys) ≡ count_char c xs + count_char c ys
count_char-append c [] ys = omega arith
count_char-append c (x ∷ xs) ys = ground (arith, count_char-append c xs ys)

pub count_char-absent : (c : ℕ) (xs : Text) → contains_char c xs ≡ false → count_char c xs ≡ 0
count_char-absent c [] h = refl
count_char-absent c (x ∷ xs) h = ground (arith, count_char-absent c xs)
