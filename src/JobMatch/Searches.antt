-- ===== src/JobMatch/Searches.antt =====
-- What the calls of ProcessJobUseCase.execute, ai-service/src/ai_service/usecase/process_job.py, are
-- made for.
use Prim.Native.String.{String}
use site_parser_for_freelans.Common.{
  ℕ, ◌≡◌, refl, sym, subst, inl, inr, Bool, true, false, not, ◌&&◌, Bool-cases, Option, none, some,
  List, [], ◌∷◌, All, is_empty, if◌then◌else◌, if_either, eq_of_some, arith,
}
use site_parser_for_freelans.Common.Float.{Float}
use site_parser_for_freelans.Domain.{MatchCandidate}
use site_parser_for_freelans.Preferences.{User, Reason, budget_filtered_user_ids}
use site_parser_for_freelans.JobMatch.{search_limit}
use site_parser_for_freelans.JobMatch.Kept.{IsOf, match_job-IsOf}
use site_parser_for_freelans.JobMatch.Execute.{
  Call, encode, classify, save_embedding, list_matchable_users, record_events, find_users,
  accumulate, Services, Classes, Run, calls, hand_on, search, matching, matched, filtered,
  allowed_user_ids, record_filtered, search_allowed, match_users, match_embedding, save_and_match,
  classify_and_save, encode_and_match, execute,
}

module _ {S C : Type 0} ⦃f : Float S⦄ (clean strip : String → String)
    (keyword_matches : String → Bool) (classes : Classes S C) (s : Services S C) where
  -- The users that a search is for: all, where there is no repository of users, and else those who
  -- pass the filter with the facts of the job, if there are any.
  abbrev pub SearchFor : C → Option (List ℕ) → Type 0
  SearchFor classification none = s.users ≡ none
  SearchFor classification (some ids) =
      (is_empty ids ≡ false)
      × ((users : List (User S)) × (s.users ≡ some (some users))
          × (ids ≡ allowed_user_ids clean strip keyword_matches classes s classification users))

  abbrev limit : List S → Option (List ℕ) → ℕ
  limit embedding allowed =
      search_limit s.settings (matching clean strip keyword_matches classes s embedding allowed)

  -- What a call is made with, `saved` being whether there was an embedding before, and
  -- `classification` the one of the job.
  abbrev pub Made : Bool → List S → C → Call S C → Type 0
  Made saved embedding classification encode = saved ≡ false
  Made saved embedding classification classify = saved ≡ false
  Made saved embedding classification (save_embedding e metadata) =
      (saved ≡ false) × (e ≡ embedding)
  Made saved embedding classification list_matchable_users = is_empty embedding ≡ false
  Made saved embedding classification (record_events ids) = is_empty ids ≡ false
  Made saved embedding classification (find_users e allowed n) =
      (e ≡ embedding)
      × (n ≡ limit embedding allowed)
      × (is_empty e ≡ false)
      × SearchFor classification allowed
  Made saved embedding classification (accumulate cs) =
      (allowed : Option (List ℕ)) × SearchFor classification allowed
      × (matched clean strip keyword_matches classes s embedding allowed classification ≡ some cs)
      × ((found : List (MatchCandidate S)) × (s.found embedding allowed (limit embedding allowed)
            ≡ some found)
          × All (λ c. IsOf found c.user_id) cs)
      × (is_empty cs ≡ false)

  -- All calls are made so, and the answer is false only for an empty embedding.
  abbrev pub Sound : Bool → List S → C → Run S C → Type 0
  Sound saved embedding classification (made, result) =
      All (Made saved embedding classification) made
      × (result ≡ some false → is_empty embedding ≡ true)

  search-Sound :
      (saved : Bool) (embedding : List S) (classification : C) (allowed : Option (List ℕ))
      → is_empty embedding ≡ false
      → SearchFor classification allowed
      → Sound saved embedding classification
          (search clean strip keyword_matches classes s embedding classification allowed)
  unfolding search hand_on
  search-Sound saved embedding classification allowed n h =
      from (matched clean strip keyword_matches classes s embedding allowed classification) refl
    where
      of_found :
          (cs : List (MatchCandidate S))
          → matched clean strip keyword_matches classes s embedding allowed classification ≡ some cs
          → (found : List (MatchCandidate S)) × (s.found embedding allowed (limit embedding allowed)
              ≡ some found)
            × All (λ c. IsOf found c.user_id) cs
      of_found cs e = match_job-IsOf s.settings _ s.job_text s.job_skills _ s.trace_id cs e

      handed :
          (accumulates : Option Bool) (cs : List (MatchCandidate S))
          → matched clean strip keyword_matches classes s embedding allowed classification ≡ some cs
          → Sound saved embedding classification (hand_on accumulates cs)
      handed accumulates [] e = (tt, λ q. absurd (cc q))
      handed none (c ∷ cs) e = (tt, λ q. absurd (cc q))
      handed (some true) (c ∷ cs) e =
          (((allowed, h, e, of_found (c ∷ cs) e, refl), tt), λ q. absurd (cc q))
      handed (some false) (c ∷ cs) e =
          (((allowed, h, e, of_found (c ∷ cs) e, refl), tt), λ q. absurd (cc q))

      from :
          (o : Option (List (MatchCandidate S)))
          → matched clean strip keyword_matches classes s embedding allowed classification ≡ o
          → Sound saved embedding classification (
              calls
                (find_users embedding allowed (
                  search_limit s.settings
                    (matching clean strip keyword_matches classes s embedding allowed)))
                (elim o as (λ x. Run S C) [
                  | none ↦ ([], none)
                  | some candidates ↦ hand_on s.accumulates candidates
                ]))
      from none e = (((refl, refl, n, h), tt), λ q. absurd (cc q))
      from (some cs) e = let r = handed s.accumulates cs e in (((refl, refl, n, h), r.0), r.1)

  recorded-Sound :
      (saved : Bool) (embedding : List S) (classification : C) (marked : List (ℕ × List Reason))
      (rest : Run S C)
      → Sound saved embedding classification rest
      → Sound saved embedding classification
          (record_filtered clean strip keyword_matches classes s marked rest)
  unfolding record_filtered
  recorded-Sound saved embedding classification marked rest h =
      let ids = budget_filtered_user_ids marked in
      elim (Bool-cases (s.has_filter_events && not (is_empty ids))) [
        | inl p ↦ rw p ((some_ids s.has_filter_events (is_empty ids) p, h.0), h.1)
        | inr p ↦ rw p h
      ]
    where
      some_ids : (b c : Bool) → (b && not c) ≡ true → c ≡ false
      some_ids b true q = absurd (ground arith)
      some_ids b false q = refl

  search_allowed-Sound :
      (saved : Bool) (embedding : List S) (classification : C) (users : List (User S))
      → is_empty embedding ≡ false
      → s.users ≡ some (some users)
      → Sound saved embedding classification (
          search_allowed clean strip keyword_matches classes s embedding classification
            (allowed_user_ids clean strip keyword_matches classes s classification users))
  unfolding search_allowed
  search_allowed-Sound saved embedding classification users n e =
      let ids = allowed_user_ids clean strip keyword_matches classes s classification users in
      elim (Bool-cases (is_empty ids)) [
        | inl p ↦ rw p (tt, λ q. absurd (cc q))
        | inr p ↦
            rw p (search-Sound saved embedding classification (some ids) n (p, (users, e, refl)))
      ]

  match_users-Sound :
      (saved : Bool) (embedding : List S) (classification : C)
      (users : Option (Option (List (User S))))
      → is_empty embedding ≡ false
      → s.users ≡ users
      → Sound saved embedding classification
          (match_users clean strip keyword_matches classes s users embedding classification)
  unfolding match_users search_allowed
  match_users-Sound saved embedding classification none n e =
      search-Sound saved embedding classification none n e
  match_users-Sound saved embedding classification (some none) n e = ((n, tt), λ q. absurd (cc q))
  match_users-Sound saved embedding classification (some (some users)) n e =
      let r =
        recorded-Sound saved embedding classification
          (filtered clean strip keyword_matches classes s classification users).1 _
          (search_allowed-Sound saved embedding classification users n e) in
      ((n, r.0), r.1)

  match_embedding-Sound :
      (saved : Bool) (embedding : List S) (classification : C)
      → Sound saved embedding classification
          (match_embedding clean strip keyword_matches classes s embedding classification)
  unfolding match_embedding
  match_embedding-Sound saved embedding classification = elim (Bool-cases (is_empty embedding)) [
    | inl p ↦ rw p (tt, λ q. refl)
    | inr p ↦
        let matched : Run S C =
          if s.has_match_repo
          then match_users clean strip keyword_matches classes s s.users embedding classification
          else ([], some true) in
        subst (λ b. Sound saved embedding classification (if b then ([], some false) else matched))
          (sym p)
          (if_either (Sound saved embedding classification) s.has_match_repo
            (match_users clean strip keyword_matches classes s s.users embedding classification)
            ([], some true) (match_users-Sound saved embedding classification s.users p refl)
            (tt, λ q. absurd (cc q)))
  ]

  save_and_match-Sound :
      (embedding : List S) (classification : C) (metadata : Option C)
      → Sound false embedding classification
          (save_and_match clean strip keyword_matches classes s embedding classification metadata)
  unfolding save_and_match
  save_and_match-Sound embedding classification metadata =
      let r =
        if_either (Sound false embedding classification) s.saves
          (match_embedding clean strip keyword_matches classes s embedding classification)
          ([], none) (match_embedding-Sound false embedding classification)
          (tt, λ q. absurd (cc q)) in
      (((refl, refl), r.0), r.1)

  -- The classification of a job without a saved embedding, if the classifier does not raise.
  abbrev pub new_classification : Option (Option C) → C
  new_classification none = classes.empty
  new_classification (some none) = classes.empty
  new_classification (some (some classification)) = classification

  classify_and_save-Sound :
      (classifier : Option (Option C)) (embedding : List S)
      → Sound false embedding
          (new_classification classifier)
          (classify_and_save clean strip keyword_matches classes s classifier embedding)
  unfolding classify_and_save
  classify_and_save-Sound none embedding = save_and_match-Sound embedding classes.empty none
  classify_and_save-Sound (some none) embedding = ((refl, tt), λ q. absurd (cc q))
  classify_and_save-Sound (some (some classification)) embedding =
      let r =
        save_and_match-Sound embedding classification
          (if classes.is_empty_dict classification then none else some classification) in
      ((refl, r.0), r.1)

  -- The embedding of a job, if there is one, and its classification: the saved ones, or those of the
  -- encoder and the classifier.
  abbrev pub embedding_of : Option (List S × Option C) → Option (List S)
  embedding_of none = s.encoder
  embedding_of (some (embedding, classification)) = some embedding

  abbrev pub classification_of : Option (List S × Option C) → C
  classification_of none = new_classification s.classifier
  classification_of (some (embedding, none)) = classes.empty
  classification_of (some (embedding, some classification)) = classification

  abbrev pub is_saved : Option (List S × Option C) → Bool
  is_saved none = false
  is_saved (some e) = true

  -- For a job that is found and gets an embedding, saved before or new: it is embedded, classified and
  -- saved only if nothing was saved before; the search is for this embedding, which is not empty,
  -- among exactly the users who pass the preference filter with the classification of the job, of whom
  -- there are some, or among all where there is no repository of users; the candidates that are handed
  -- on are what `match_job` makes of the answer to a search among these same users, all of them are
  -- of users that this search found, and there are some; and `execute` returns false only if the
  -- embedding is empty.
  pub execute-Sound :
      (saved : Option (List S × Option C)) (embedding : List S)
      → embedding_of saved ≡ some embedding
      → Sound
          (is_saved saved)
          embedding
          (classification_of saved)
          (execute clean strip keyword_matches classes s true saved)
  unfolding execute encode_and_match
  execute-Sound none embedding h =
      let r = classify_and_save-Sound s.classifier embedding in rw h ((refl, r.0), r.1)
  execute-Sound (some (found, none)) embedding h =
      rw (eq_of_some h) (match_embedding-Sound true embedding classes.empty)
  execute-Sound (some (found, some classification)) embedding h =
      rw (eq_of_some h) (match_embedding-Sound true embedding classification)
