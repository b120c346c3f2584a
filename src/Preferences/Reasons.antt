-- ===== src/Preferences/Reasons.antt =====
-- The users that the preference filter passes, and the reasons of the others.
use Prim.Native.String.{String}
use site_parser_for_freelans.Common.{
  ℕ, ◌≡◌, inl, inr, refl, sym, ap, ◌∙◌, Bool, true, false, ◌==◌, ==_iff, Option, none, some, List,
  [], ◌∷◌, ◌++◌, any, All, ◌||◌, keep_if, if◌then◌else◌, Bool-cases, arith,
}
use site_parser_for_freelans.Common.Float.{Float}
use site_parser_for_freelans.Preferences.Objections.{all_reasons, IsFirst, every-IsFirst}
use site_parser_for_freelans.Preferences.{
  User, JobFacts, Reason, reason_eq, source, work_type, stack, experience, exclude_keyword,
  include_keyword, budget, reason_for, add, mark_filtered, evaluate_one, evaluate_each,
  evaluate_preference_filter,
}

-- `reason in filtered_user_reasons.get(user_id, set())`.
unfoldable pub has_reason : ℕ → Reason → List (ℕ × List Reason) → Bool
has_reason i r [] = false
has_reason i r ((j, rs) ∷ rest) =
    let other = has_reason i r rest in if j == i then any (reason_eq r) rs else other

unfoldable pub is_reason : Reason → Option Reason → Bool
is_reason r none = false
is_reason r (some q) = reason_eq r q

reason_eq_refl : (r : Reason) → reason_eq r r ≡ true
reason_eq_refl source = refl
reason_eq_refl work_type = refl
reason_eq_refl stack = refl
reason_eq_refl experience = refl
reason_eq_refl exclude_keyword = refl
reason_eq_refl include_keyword = refl
reason_eq_refl budget = refl

reason_eq_sound : (q r : Reason) → reason_eq q r ≡ true → q ≡ r
reason_eq_sound source source h = refl
reason_eq_sound work_type work_type h = refl
reason_eq_sound stack stack h = refl
reason_eq_sound experience experience h = refl
reason_eq_sound exclude_keyword exclude_keyword h = refl
reason_eq_sound include_keyword include_keyword h = refl
reason_eq_sound budget budget h = refl
reason_eq_sound _ _ h = cc

or_assoc : (a b c : Bool) → ((a || b) || c) ≡ (a || (b || c))
or_assoc true b c = refl
or_assoc false b c = refl

or_comm : (a b : Bool) → (a || b) ≡ (b || a)
or_comm true true = refl
or_comm true false = refl
or_comm false true = refl
or_comm false false = refl

any-append :
    (p : Reason → Bool) (rs : List Reason) (r : Reason) → any p (rs ++ r ∷ []) ≡ (p r || any p rs)
any-append p [] r = refl
any-append p (x ∷ rs) r =
    ap (λ b. p x || b) (any-append p rs r)
    ∙ sym (or_assoc (p x) (p r) (any p rs))
    ∙ ap (λ b. b || any p rs) (or_comm (p x) (p r))
    ∙ or_assoc (p r) (p x) (any p rs)

-- A reason is in the set after `add` if it was there or is the one that is added.
any-add :
    (q r : Reason) (rs : List Reason)
    → any (reason_eq q) (add r rs) ≡ (reason_eq q r || any (reason_eq q) rs)
unfolding add
any-add q r rs = elim (Bool-cases (any (reason_eq r) rs)) [
  | inr e ↦ rw e (any-append (reason_eq q) rs r)
  | inl e ↦ elim (Bool-cases (reason_eq q r)) [
    | inr d ↦ rw (e, d) refl
    | inl d ↦
        let there : any (reason_eq q) rs ≡ true =
          ap (λ x. any (reason_eq x) rs) (reason_eq_sound q r d) ∙ e in
        rw (e, d) there
  ]
]

has_reason-mark_filtered :
    (i j : ℕ) (q r : Reason) (m : List (ℕ × List Reason))
    → has_reason i q (mark_filtered j r m)
      ≡ ((if j == i then reason_eq q r else false) || has_reason i q m)
unfolding has_reason mark_filtered
has_reason-mark_filtered i j q r [] = elim (Bool-cases (j == i)) [
  | inl e ↦ rw e refl
  | inr e ↦ rw e refl
]
has_reason-mark_filtered i j q r ((k, rs) ∷ m) = elim (Bool-cases (k == j)) [
  | inl e ↦
      let same : (k == i) ≡ (j == i) = ap (λ x. x == i) ((==_iff k j).0 e) in
      rw e (elim (Bool-cases (j == i)) [
        | inl d ↦ rw (same, d) (any-add q r rs)
        | inr d ↦ rw (same, d) refl
      ])
  | inr e ↦ elim (Bool-cases (k == i)) [
    | inr d ↦ rw (e, d) (has_reason-mark_filtered i j q r m)
    | inl d ↦ let apart : (j == i) ≡ false = ground (arith, e, d) in rw (e, d, apart) refl
  ]
]

if_false : (b : Bool) → (if b then false else false) ≡ false
if_false true = refl
if_false false = refl

unfoldable pub is_none : Option Reason → Bool
is_none none = true
is_none (some r) = false

module _ {S : Type 0} ⦃f : Float S⦄ (clean strip : String → String)
    (keyword_matches : String → Bool) where
  -- The user is marked with the reason.
  unfoldable pub marks : JobFacts S → ℕ → Reason → User S → Bool
  unfolding is_reason
  marks job i q u =
      if u.id == i then is_reason q (reason_for clean strip keyword_matches job u) else false

  evaluate_each_lem :
      (job : JobFacts S) (i : ℕ) (q : Reason) (us : List (User S)) (m : List (ℕ × List Reason))
      → ((evaluate_each clean strip keyword_matches job us m).0
          ≡ keep_if (λ u. is_none (reason_for clean strip keyword_matches job u)) us)
        × (has_reason i q (evaluate_each clean strip keyword_matches job us m).1
            ≡ (any (marks job i q) us || has_reason i q m))
  unfolding evaluate_each evaluate_one marks is_reason is_none
  evaluate_each_lem job i q [] m = (refl, refl)
  evaluate_each_lem job i q (u ∷ us) m =
      judged (λ n. evaluate_each_lem job i q us n) (reason_for clean strip keyword_matches job u)
        refl
    where
      judged :
          ((n : List (ℕ × List Reason))
            → ((evaluate_each clean strip keyword_matches job us n).0
                ≡ keep_if (λ v. is_none (reason_for clean strip keyword_matches job v)) us)
              × (has_reason i q (evaluate_each clean strip keyword_matches job us n).1
                  ≡ (any (marks job i q) us || has_reason i q n)))
          → (o : Option Reason) → reason_for clean strip keyword_matches job u ≡ o
          → ((evaluate_one clean strip keyword_matches u o
                (λ n. evaluate_each clean strip keyword_matches job us n)
                m).0
              ≡ keep_if (λ v. is_none (reason_for clean strip keyword_matches job v)) (u ∷ us))
            × (has_reason i q
                  (evaluate_one clean strip keyword_matches u o
                    (λ n. evaluate_each clean strip keyword_matches job us n)
                    m).1
                ≡ (any (marks job i q) (u ∷ us) || has_reason i q m))
      judged ih none e =
          let (kept, reasons) = ih m in
          let unmarked : marks job i q u ≡ false = rw (marks, e) (if_false (u.id == i)) in
          (rw e (ap (λ vs. u ∷ vs) kept), rw unmarked reasons)
      judged ih (some r) e =
          let (kept, reasons) = ih (mark_filtered u.id r m) in
          let marked : marks job i q u ≡ (if u.id == i then reason_eq q r else false) =
            rw (marks, e) refl in
          (
            rw e kept,
            reasons
                ∙ ap (λ b. any (marks job i q) us || b) (has_reason-mark_filtered i u.id q r m)
                ∙ sym (or_assoc (any (marks job i q) us) _ (has_reason i q m))
                ∙ ap (λ b. b || has_reason i q m) (or_comm (any (marks job i q) us) _)
                ∙ ap (λ b. (b || any (marks job i q) us) || has_reason i q m) (sym marked),
          )

  -- The filter passes exactly the users without a reason, in their order; an id has a reason in its
  -- result exactly when a user with this id was marked with it; and the reason of each user is the
  -- first for which the user objects to the job, in the order source, work type, stack, experience,
  -- excluded keyword, wanted keyword, budget, and none if the user objects for no reason.
  pub evaluate_preference_filter_lem :
      (job : JobFacts S) (users : List (User S)) (i : ℕ) (q : Reason)
      → ((evaluate_preference_filter clean strip keyword_matches job users).0
          ≡ keep_if (λ u. is_none (reason_for clean strip keyword_matches job u)) users)
        × (has_reason i q (evaluate_preference_filter clean strip keyword_matches job users).1
            ≡ any (marks job i q) users)
        × All
            (λ u.
              IsFirst clean strip keyword_matches job u all_reasons
                (reason_for clean strip keyword_matches job u))
            users
  unfolding evaluate_preference_filter has_reason
  evaluate_preference_filter_lem job users i q =
      let (kept, reasons) = evaluate_each_lem job i q users [] in
      (
        kept,
        reasons ∙ or_comm (any (marks job i q) users) false,
        every-IsFirst clean strip keyword_matches job users,
      )
