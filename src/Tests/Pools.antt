-- ===== src/Tests/Pools.antt =====
-- The pool of browsers and the preference filter, at small inputs.
use Prim.Native.String.{String}
use site_parser_for_freelans.Common.{
  ℕ, ◌≡◌, ◌⊎◌, ◌==◌, refl, true, false, none, some, List, [], ◌∷◌, if◌then◌else◌, All, any, keep_if,
  arith,
}
use site_parser_for_freelans.Common.Copies.{copies}
use site_parser_for_freelans.BrowserPool.{
  BrowserInstance, BrowserPool, acquire, is_available, launched, launch_fails,
}
use site_parser_for_freelans.BrowserPool.Counts.{Counts}
use site_parser_for_freelans.BrowserPool.Bounds.{
  Event, acquires, releases, marks, recycles, recreates, run, run-Counts,
}
use site_parser_for_freelans.BrowserPool.Ids.{ids, range_from, Complete}
use site_parser_for_freelans.BrowserPool.Slots.{run-Complete, rebuilding_after}
use site_parser_for_freelans.BrowserPool.Choice.{NotBusier, acquire-NotBusier}
use site_parser_for_freelans.BrowserPool.Render.{
  Attempt, rendered, times_out, render_with_pool, render_with_pool-Counts,
}
use site_parser_for_freelans.Preferences.{
  User, JobFacts, source, evaluate_preference_filter, reason_for,
}
use site_parser_for_freelans.Preferences.Objections.{all_reasons, IsFirst}
use site_parser_for_freelans.Preferences.Reasons.{
  has_reason, is_none, marks as marks_user, evaluate_preference_filter_lem,
}
use site_parser_for_freelans.Common.Int.{pos}
use site_parser_for_freelans.AcBatch.Scoring.{join}
use site_parser_for_freelans.Domain.{MatchCandidate}
use site_parser_for_freelans.Fallback.Classifier.{ClassificationResult}
use site_parser_for_freelans.JobMatch.Execute.{Services, Classes, execute, build_why_it_fits}
use site_parser_for_freelans.JobMatch.Searches.{Sound, execute-Sound}
use site_parser_for_freelans.Tests.{hundredths}

-- The object of the address is the browser with this id.
abbrev idle : ℕ → BrowserInstance
idle a = record { browser_id = a; active = 0; max_concurrent = 2; healthy = true; created_at = 0 }

abbrev two_browsers : BrowserPool
two_browsers = record {
  pool_size = 2;
  max_concurrent = 2;
  browser_ttl = 100;
  has_factory = false;
  objects = idle;
  next = 2;
  instances = 0 ∷ 1 ∷ [];
  tasks = [];
}

two_browsers-Counts : Counts two_browsers []
unfolding copies
two_browsers-Counts = record {
  counted = λ a h. refl;
  capped = λ a. omega arith;
  unused = λ a l. refl;
  listed = (omega arith, (omega arith, tt));
}

abbrev events : List Event
events =
    acquires
    ∷ marks 0
    ∷ releases 0
    ∷ recreates 5 0 launched
    ∷ recycles 300
    ∷ recreates 301 1 launch_fails
    ∷ []

run-Counts_example : Counts (run events two_browsers []).0 (run events two_browsers []).1
run-Counts_example = run-Counts events two_browsers [] two_browsers-Counts

run-Complete_example : Complete (run events two_browsers []).0
unfolding Complete ids range_from rebuilding_after
run-Complete_example =
    run-Complete events two_browsers [] false
      (tt, (tt, (tt, (omega arith, (tt, (omega arith, tt)))))) two_browsers-Counts (λ e. refl) refl

acquire-NotBusier_example :
    ((a : ℕ) × ((acquire two_browsers).1 ≡ some a)
      × (is_available (idle a) ≡ true)
      × All (NotBusier idle a) (0 ∷ 1 ∷ []))
    ⊎ (((acquire two_browsers).1 ≡ none) × All (λ b. is_available (idle b) ≡ true → ⊥) (0 ∷ 1 ∷ []))
acquire-NotBusier_example = acquire-NotBusier 2 two_browsers (omega arith) (refl, (refl, tt))

-- The instance 2 took the place of the instance 0.
abbrev replaced : BrowserPool
replaced = record two_browsers {
  objects = λ a. if a == 2 then idle 0 else idle a;
  next = 3;
  instances = 2 ∷ 1 ∷ [];
}

abbrev job : JobFacts ℕ
job = record {
  source = "kwork";
  job_stack = [];
  job_type = none;
  required_experience_years = none;
  budget_amount = some 500;
}

abbrev with_sources : ℕ → List String → User ℕ
with_sources i sources = record {
  id = i;
  preferences = record {
    include_keywords = [];
    exclude_keywords = [];
    min_budget = none;
    max_budget = none;
    preferred_sources = sources;
  };
  structured = record {
    stack = [];
    work_type = none;
    experience_years = none;
    desired_budget_min = none;
  };
}

abbrev users : List (User ℕ)
users = with_sources 1 [] ∷ with_sources 2 ("fl" ∷ []) ∷ []

evaluate_preference_filter_example :
    let r = evaluate_preference_filter (λ s. s) (λ s. s) (λ s. false) job users in
    (r.0 ≡ keep_if (λ u. is_none (reason_for (λ s. s) (λ s. s) (λ s. false) job u)) users)
    × (has_reason 2 source r.1 ≡ any (marks_user (λ s. s) (λ s. s) (λ s. false) job 2 source) users)
    × All
        (λ u.
          IsFirst
            (λ s. s)
            (λ s. s)
            (λ s. false)
            job
            u
            all_reasons
            (reason_for (λ s. s) (λ s. s) (λ s. false) job u))
        users
evaluate_preference_filter_example =
    evaluate_preference_filter_lem (λ s. s) (λ s. s) (λ s. false) job users 2 source

abbrev attempts : List Attempt
attempts =
    record { page = times_out; cleanup_fails = true; now = 5; launch = launched }
    ∷ record { page = rendered; cleanup_fails = false; now = 6; launch = launched }
    ∷ []

render_with_pool-Counts_example :
    Counts (render_with_pool attempts two_browsers []).0 []
    × ((render_with_pool attempts two_browsers []).1 ≡ [])
render_with_pool-Counts_example =
    render_with_pool-Counts attempts two_browsers [] two_browsers-Counts

abbrev bot_fields : ClassificationResult
bot_fields = record {
  project_type = some "bot";
  seniority = some "middle";
  technologies = some ("python" ∷ []);
  complexity = none;
  budget_level = some "low";
  is_spam = none;
}

abbrev candidate : ℕ → MatchCandidate ℕ
candidate user_id = record {
  user_id = user_id;
  job_id = 9;
  match_score = 80;
  trace_id = "";
  why_it_fits = "";
  raw_similarity = 80;
  rerank_score = 0;
  final_score = 0;
  ranker_version = "";
  reason_codes = [];
  profile_text = "python";
}

-- A classification is a number, and the empty one is zero.
abbrev classes : Classes ℕ ℕ
classes = record {
  empty = 0;
  is_empty_dict = λ c. c == 0;
  facts = λ c. job;
  fields = λ c. bot_fields;
}

abbrev services : Services ℕ ℕ
services = record {
  classifier = some (some 4);
  encoder = some (3 ∷ []);
  saves = true;
  has_match_repo = true;
  users = some (some users);
  has_filter_events = true;
  found = λ embedding allowed limit. some (candidate 1 ∷ []);
  score_pairs = none;
  get_feedback_signal = none;
  structured_profile = λ t. t;
  settings = record {
    threshold = 70;
    limit = 20;
    rerank_threshold = 55;
    rerank_top_k = pos 10;
    rerank_fallback_enabled = true;
  };
  job_text = "a bot";
  job_skills = [];
  trace_id = "";
  accumulates = some true;
}

execute-Sound_example :
    Sound
      (λ s. s)
      (λ s. s)
      (λ s. false)
      classes
      services
      false
      (3 ∷ [])
      4
      (execute (λ s. s) (λ s. s) (λ s. false) classes services true none)
execute-Sound_example =
    execute-Sound (λ s. s) (λ s. s) (λ s. false) classes services none (3 ∷ []) refl

why_it_fits_a_bot :
    build_why_it_fits bot_fields
    ≡ "Telegram-бот со стеком python. уровень: middle, небольшой бюджет."
unfolding build_why_it_fits join
why_it_fits_a_bot = refl
