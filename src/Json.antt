-- ===== src/Json.antt =====
-- What the queue adapters use of Python's json module and of its number readers: the values that
-- `json.loads` gives, dictionaries, `int(…)`, `float(…)` and `str.strip`. A finite float is a whole
-- number of millionths; an integer is small enough to be a float.
use Prim.Native.String.{String}
use text.Mathlib.Text.{◌==◌ as str_eq}
use mathlib.Core.List.{reverse}
use site_parser_for_freelans.Common.{
  ℕ, zero, suc, ◌+◌, ◌-◌, ◌*◌, ◌/◌, Bool, true, false, ◌||◌, ◌&&◌, Option, none, some, List, [],
  ◌∷◌, leb, ◌==◌, if◌then◌else◌,
}
use site_parser_for_freelans.Common.Int.{ℤ, pos, negsuc}

pub data Real : Type 0 where
  finite : ℤ → Real
  infinite neg_infinite nan : Real

mutual
  pub data Value : Type 0 where
    null : Value
    boolean : Bool → Value
    int : ℤ → Value
    real : Real → Value
    str : List ℕ → Value
    arr : Items → Value
    obj : Fields → Value

  pub data Fields : Type 0 where
    no_fields : Fields
    field : String → Value → Fields → Fields

  pub data Items : Type 0 where
    no_items : Items
    item : Value → Items → Items

-- The exceptions of the code at hand.
pub data Exc : Type 0 where
  type_error value_error overflow_error attribute_error connection_error : Exc

pub data Outcome {ℓ} (A : Type ℓ) : Type ℓ where
  ok : A → Outcome A
  raises : Exc → Outcome A

-- `data.get(key)` of a dictionary.
unfoldable pub get : String → Fields → Option Value
get k no_fields = none
get k (field j v fs) = if str_eq j k then some v else get k fs

-- `data[key] = value`: in the place of the old value, or at the end.
unfoldable pub set : String → Value → Fields → Fields
set k v no_fields = field k v no_fields
set k v (field j w fs) = if str_eq j k then field j v fs else field j w (set k v fs)

-- `data.get(key, default)`.
unfoldable pub get_default : String → Value → Fields → Value
unfolding get
get_default k d fs = elim (get k fs) [ none ↦ d | some v ↦ v ]

-- The characters that `str.strip` and `int` strip.
unfoldable pub is_space : ℕ → Bool
is_space c =
    (leb 9 c && leb c 13)
    || (leb 28 c && leb c 32)
    || c == 133
    || c == 160
    || c == 5760
    || (leb 8192 c && leb c 8202)
    || c == 8232
    || c == 8233
    || c == 8239
    || c == 8287
    || c == 12288

unfoldable pub lstrip : List ℕ → List ℕ
unfolding is_space
lstrip [] = []
lstrip (c ∷ cs) = if is_space c then lstrip cs else c ∷ cs

unfoldable pub strip : List ℕ → List ℕ
unfolding lstrip
strip s = reverse (lstrip (reverse (lstrip s)))

-- ASCII digits, with single underscores between them.
unfoldable pub digits : ℕ → Bool → List ℕ → Option ℕ
digits acc after_digit [] = if after_digit then some acc else none
digits acc after_digit (c ∷ cs) =
    let next = digits (acc * 10 + (c - 48)) true cs in
    let skip = digits acc false cs in
    if leb 48 c && leb c 57 then next else if c == 95 && after_digit then skip else none

unfoldable pub negate : ℕ → ℤ
negate zero = pos zero
negate (suc n) = negsuc n

unfoldable pub signed : List ℕ → Option ℤ
unfolding digits negate
signed [] = none
signed (c ∷ cs) =
    if c == 45
    then elim (digits 0 false cs) [ none ↦ none | some n ↦ some (negate n) ]
    else if c == 43
    then elim (digits 0 false cs) [ none ↦ none | some n ↦ some (pos n) ]
    else elim (digits 0 false (c ∷ cs)) [ none ↦ none | some n ↦ some (pos n) ]

-- `int` of a float drops the fraction.
unfoldable pub truncate : ℤ → ℤ
unfolding negate
truncate (pos n) = pos (n / 1000000)
truncate (negsuc n) = negate (suc n / 1000000)

-- `int(value)`.
unfoldable pub to_int : Value → Outcome ℤ
unfolding strip signed truncate
to_int null = raises type_error
to_int (boolean b) = ok (if b then pos 1 else pos 0)
to_int (int n) = ok n
to_int (real (finite n)) = ok (truncate n)
to_int (real infinite) = raises overflow_error
to_int (real neg_infinite) = raises overflow_error
to_int (real nan) = raises value_error
to_int (str s) = elim (signed (strip s)) [ none ↦ raises value_error | some n ↦ ok n ]
to_int (arr xs) = raises type_error
to_int (obj fs) = raises type_error

unfoldable pub millionths : ℤ → ℤ
unfolding negate
millionths (pos n) = pos (n * 1000000)
millionths (negsuc n) = negate (suc n * 1000000)

-- `float(value)`, by a reader of texts (`none` is a ValueError).
unfoldable pub to_float : (List ℕ → Option Real) → Value → Outcome Real
unfolding millionths
to_float read null = raises type_error
to_float read (boolean b) = ok (finite (if b then pos 1000000 else pos 0))
to_float read (int n) = ok (finite (millionths n))
to_float read (real r) = ok r
to_float read (str s) = elim (read s) [ none ↦ raises value_error | some r ↦ ok r ]
to_float read (arr xs) = raises type_error
to_float read (obj fs) = raises type_error
