-- ===== src/Fallback/Keywords.antt =====
-- ai-service/src/ai_service/adapter/rule_based/classifier.py: the classifier of keywords, and its use
-- as the fallback of another one. What is found in the text is an argument.
use Prim.Native.String.{String}
use text.Mathlib.Text.{◌==◌ as str_eq}
use site_parser_for_freelans.Common.{
  ℕ, ◌≡◌, refl, Bool, true, false, ◌&&◌, ◌||◌, ◌==◌, Option, none, some, List, [], ◌∷◌, any,
  is_empty, keep_if, take, length, if◌then◌else◌, ltb, leb,
}
use site_parser_for_freelans.Fallback.Classifier.{
  ClassificationResult, has, classify, is_empty_result, Keeps, classify-Complete,
}

-- The text after `sanitize_for_classifier` and `_normalize`: whether anything is left, which texts and
-- which whole words are in it, and its length.
pub record Normalized : Type 0 where
  pub is_blank : Bool
  pub contains : String → Bool
  pub has_word : String → Bool
  pub text_length : ℕ

abbrev pub project_types : List (String × List String)
project_types =
    ("web", "сайт" ∷ "веб" ∷ "web" ∷ "landing" ∷ "лендинг" ∷ "frontend" ∷ "backend" ∷ [])
    ∷ ("mobile", "мобильн" ∷ "mobile" ∷ "android" ∷ "ios" ∷ "приложен" ∷ [])
    ∷ ("bot", "бот" ∷ "bot" ∷ "telegram" ∷ "telegram bot" ∷ [])
    ∷ []

abbrev pub seniority_keywords : List (String × List String)
seniority_keywords =
    ("junior", "джуниор" ∷ "junior" ∷ "начинающ" ∷ "стажёр" ∷ [])
    ∷ ("middle", "мидл" ∷ "middle" ∷ "опыт" ∷ [])
    ∷ ("senior", "сеньор" ∷ "senior" ∷ "lead" ∷ "тимлид" ∷ [])
    ∷ []

abbrev pub budget_keywords : List (String × List String)
budget_keywords =
    ("low", "до 5000" ∷ "до 10000" ∷ "бюджет 5" ∷ "недорого" ∷ "дешево" ∷ [])
    ∷ ("high", "от 100000" ∷ "крупный бюджет" ∷ "оплата по договорённости" ∷ [])
    ∷ []

abbrev pub spam_keywords : List String
spam_keywords = "казино" ∷ "заработок" ∷ "крипто" ∷ "crypto" ∷ "биткоин" ∷ "bitcoin" ∷ []

abbrev pub complexity_high_keywords : List String
complexity_high_keywords =
    "архитектур" ∷ "интеграц" ∷ "микросервис" ∷ "highload" ∷ "high load" ∷ "нагрузк" ∷ "масштаб"
    ∷ "enterprise" ∷ "платформ" ∷ "инфраструктур" ∷ "распределённ" ∷ "distributed" ∷ "big data"
    ∷ "machine learning" ∷ "нейронн" ∷ []

abbrev pub complexity_low_keywords : List String
complexity_low_keywords =
    "лендинг" ∷ "landing" ∷ "небольшой" ∷ "небольшую" ∷ "небольшое" ∷ "простой" ∷ "простую"
    ∷ "простое" ∷ "несложн" ∷ "мелкий" ∷ "маленьк" ∷ []

-- The first label one of whose keywords is in the text, or the default.
unfoldable pub first_label : Normalized → String → List (String × List String) → String
first_label t default [] = default
first_label t default ((label, keywords) ∷ rest) =
    let later = first_label t default rest in if any t.contains keywords then label else later

-- `_infer_complexity`.
unfoldable pub infer_complexity : Normalized → ℕ → String → ℕ → ℕ → String
infer_complexity t tech_count seniority high_tech_count low_text_len =
    if any t.contains complexity_high_keywords
    then "high"
    else if leb high_tech_count tech_count || str_eq seniority "senior"
    then "high"
    else if any t.contains complexity_low_keywords
    then "low"
    else if (tech_count == 0)
        && (str_eq seniority "junior" || str_eq seniority "unknown")
        && ltb t.text_length low_text_len
    then "low"
    else "medium"

abbrev pub only_spam : ClassificationResult
only_spam = record {
  project_type = none;
  seniority = none;
  technologies = none;
  complexity = none;
  budget_level = none;
  is_spam = some false;
}

-- `classify`; `tech_keywords` is the set of the technologies in the order in which it is gone through.
unfoldable pub rule_based_classify : ℕ → ℕ → List String → Normalized → ClassificationResult
unfolding first_label infer_complexity
rule_based_classify high_tech_count low_text_len tech_keywords t =
    let found = keep_if t.has_word tech_keywords in
    let seniority = first_label t "unknown" seniority_keywords in
    if t.is_blank then only_spam else record {
      project_type = some (first_label t "other" project_types);
      seniority = some seniority;
      technologies = if is_empty found then none else some (take 10 found);
      complexity = some (infer_complexity t (length found) seniority high_tech_count low_text_len);
      budget_level = some (first_label t "unknown" budget_keywords);
      is_spam = some (any t.contains spam_keywords);
    }

-- Every field but the technologies is there.
abbrev pub Full : ClassificationResult → Type 0
Full r =
    (has r.project_type ≡ true)
    × (has r.seniority ≡ true)
    × (has r.complexity ≡ true)
    × (has r.budget_level ≡ true)
    × (has r.is_spam ≡ true)

rule_based_classify-Full :
    (high_tech_count low_text_len : ℕ) (tech_keywords : List String) (t : Normalized)
    → t.is_blank ≡ false
    → Full (rule_based_classify high_tech_count low_text_len tech_keywords t)
unfolding rule_based_classify
rule_based_classify-Full high_tech_count low_text_len tech_keywords t h =
    rw h (refl, refl, refl, refl, refl)

-- With the classifier of keywords as its fallback, classifying a text of which something is left
-- gives a result with a project type, a seniority, a complexity, a budget level and a verdict on spam,
-- whatever the primary classifier does, raising included; and where the primary's result has a project
-- type, a seniority or a complexity, its fields all stand in the result with their values.
pub classify-rule_based_classify :
    (primary : Option ClassificationResult) (high_tech_count low_text_len : ℕ)
    (tech_keywords : List String) (t : Normalized)
    → t.is_blank ≡ false
    → let rules = rule_based_classify high_tech_count low_text_len tech_keywords t in
      (r : ClassificationResult) × ((classify primary (some rules)).0 ≡ some r)
      × Full r
      × ((p : ClassificationResult) → primary ≡ some p → is_empty_result p ≡ false → Keeps r p)
classify-rule_based_classify primary high_tech_count low_text_len tech_keywords t h =
    let rules = rule_based_classify high_tech_count low_text_len tech_keywords t in
    let (r, e, c, k) = classify-Complete primary rules in
    let g = rule_based_classify-Full high_tech_count low_text_len tech_keywords t h in
    (r, e, (c.0 g.0, c.1 g.1, c.3 g.2, c.4 g.3, c.5 g.4), k)
