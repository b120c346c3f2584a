-- ===== src/AcBatch/Scoring.antt =====
-- The factors of the final score of ai-service/src/ai_service/usecase/process_ac_batch.py, and the
-- jobs and users of domain/job.py and domain/user.py, with the fields that it reads. `None` and an
-- empty text or list are not told apart where the code only asks whether there is something.
use Prim.Native.String.{String, compare, ◌++◌ as str_append}
use text.Mathlib.Text.{◌==◌ as str_eq, is_le}
use site_parser_for_freelans.Common.{
  ℕ, Bool, true, false, ◌&&◌, ◌||◌, not, Option, none, some, List, [], ◌∷◌, map, is_empty, take,
  keep_if, any, max, if◌then◌else◌, leb,
}
use site_parser_for_freelans.Common.Float.{
  Float, lit, neg, ◌⊕◌, ◌⊖◌, ◌⊗◌, ◌⊘◌, max_float, min_float,
}
use site_parser_for_freelans.Common.Sort.{sort_by}
use site_parser_for_freelans.Feedback.{percent}

-- Times are in seconds.
pub record Job (S : Type 0) : Type 0 where
  pub id : ℕ
  pub title : String
  pub raw_html : String
  pub source : String
  pub technologies : List String
  pub posted_at : Option S
  pub created_at : Option S
  pub rerank_score : S
  pub feedback_bonus : S
  pub preference_multiplier : S
  pub final_score : S
  pub ranker_version : String
  pub reason_codes : List String

pub record User (S : Type 0) : Type 0 where
  pub id : ℕ
  pub profile_text : String
  pub embedding : List S
  pub preferred_sources : List String
  pub tag_affinity : List (String × S)

-- Python's `str.strip`, `str.lower` and `text[:n]`, which count and class characters by Unicode's
-- tables, and the numbers that the regular expressions `_COMPETITION_PATTERNS` find in a text.
pub record Texts : Type 0 where
  pub strip : String → String
  pub lower : String → String
  pub prefix : ℕ → String → String
  pub found_numbers : String → List ℕ

-- `datetime.now` and `math.exp`.
pub record Clock (S : Type 0) : Type 0 where
  pub now : S
  pub exp : S → S

unfoldable pub strings_eq : List String → List String → Bool
strings_eq [] [] = true
strings_eq [] (t ∷ ts) = false
strings_eq (s ∷ ss) [] = false
strings_eq (s ∷ ss) (t ∷ ts) = str_eq s t && strings_eq ss ts

-- The elements without repetitions.
unfoldable pub distinct : List String → List String
distinct [] = []
distinct (s ∷ ss) = let rest = distinct ss in if any (str_eq s) rest then rest else s ∷ rest

unfoldable pub join : String → List String → String
join sep [] = ""
join sep (s ∷ []) = s
join sep (s ∷ t ∷ ts) = str_append s (str_append sep (join sep (t ∷ ts)))

module _ (texts : Texts) where
  -- `tuple(sorted({…}))` in `_feedback_signal`.
  unfoldable pub skills_key : List String → List String
  unfolding distinct
  skills_key technologies =
      sort_by (λ s t. is_le (compare s t))
        (distinct (keep_if (λ s. not (str_eq s "")) (map texts.strip technologies)))

  abbrev pub normal : String → String
  normal s = texts.lower (texts.strip s)

  unfoldable pub extract_competition_count : String → Option ℕ
  extract_competition_count raw_html =
      if str_eq raw_html ""
      then none
      else largest (keep_if (λ n. leb n 5000) (texts.found_numbers raw_html))
    where
      largest : List ℕ → Option ℕ
      largest [] = none
      largest (n ∷ ns) = some (greatest n ns)
        where
          greatest : ℕ → List ℕ → ℕ
          greatest m [] = m
          greatest m (k ∷ ks) = greatest (max m k) ks

  module _ {S : Type 0} where
    unfoldable pub fallback_explanation : Job S → String
    unfolding join
    fallback_explanation job =
        if is_empty job.technologies
        then "Подходит по итоговому скору рекомендаций."
        else str_append "Подходит по стеку: " (str_append (join ", " (take 3 job.technologies)) ".")

    -- `tag in user.tag_affinity` and `user.tag_affinity[tag]`.
    unfoldable pub affinity_of : String → List (String × S) → Option S
    affinity_of tag [] = none
    affinity_of tag (e ∷ es) =
        let rest = affinity_of tag es in if str_eq tag e.0 then some e.1 else rest

    module _ ⦃f : Float S⦄ where
      unfoldable pub add_affinity : S → Option S → S
      add_affinity bonus none = bonus
      add_affinity bonus (some affinity) = bonus ⊕ affinity ⊗ percent 5

      unfoldable pub sum_affinity : List (String × S) → S → List String → S
      unfolding add_affinity affinity_of
      sum_affinity tag_affinity bonus [] = bonus
      sum_affinity tag_affinity bonus (tech ∷ techs) =
          sum_affinity tag_affinity (add_affinity bonus (affinity_of (normal tech) tag_affinity))
            techs

      unfoldable pub tag_affinity_bonus : User S → Job S → S
      unfolding sum_affinity
      tag_affinity_bonus user job =
          if is_empty user.tag_affinity || is_empty job.technologies
          then lit 0
          else min_float (sum_affinity user.tag_affinity (lit 0) job.technologies) (percent 15)

      unfoldable pub preference_multiplier : User S → String → S
      preference_multiplier user source =
          let preferred =
            map normal (keep_if (λ s. not (str_eq (texts.strip s) "")) user.preferred_sources) in
          if is_empty preferred
          then lit 1
          else if any (str_eq (normal source)) preferred
          then lit 12 ⊘ lit 10
          else lit 8 ⊘ lit 10

      unfoldable pub competition_multiplier : Job S → S
      unfolding extract_competition_count
      competition_multiplier job =
          if str_eq (normal job.source) "kwork"
          then elim (extract_competition_count job.raw_html) [
            | none ↦ lit 1
            | some bids ↦ lit 1 ⊘ (lit 1 ⊕ lit bids ⊘ lit 50)
          ]
          else lit 1

module _ {S : Type 0} ⦃f : Float S⦄ where
  unfoldable pub posting_time : Job S → Option S
  posting_time job = elim job.posted_at [ some t ↦ some t | none ↦ job.created_at ]

  unfoldable pub time_decay_multiplier : Clock S → Job S → S
  unfolding posting_time
  time_decay_multiplier clock job = elim (posting_time job) [
    | none ↦ lit 1
    | some posted_at ↦
        clock.exp (neg (max_float (lit 0) ((clock.now ⊖ posted_at) ⊘ lit 3600)) ⊘ lit 48)
  ]

  unfoldable pub final_score : S → S → S → S → S → S
  final_score adjusted preference time_decay competition tag_affinity =
      (((adjusted ⊗ (lit 1 ⊕ tag_affinity)) ⊗ preference) ⊗ time_decay) ⊗ competition
