-- ===== src/UserEmbed/Calls.antt =====
-- `execute` of ProcessUserEmbedUseCase: the calls that it makes, in their order.
use Prim.Native.String.{String}
use text.Mathlib.Text.{◌==◌ as str_eq}
use site_parser_for_freelans.Common.{
  Bool, true, false, Option, none, some, List, [], ◌∷◌, if◌then◌else◌,
}
use site_parser_for_freelans.Common.Float.{Float}
use site_parser_for_freelans.Preferences.{StructuredProfile}
use site_parser_for_freelans.UserEmbed.{
  Profile, Parsed, clean_stack, clean_or, structured_profile, build_embedding_text,
}

pub data Call (S V : Type 0) : Type 0 where
  -- The stack, the specialization and the level.
  upsert_structured_profile : List String → String → String → Call S V
  -- The stack and the lowest budget.
  backfill_preferences : List String → Option S → Call S V
  encode : String → Call S V
  save_embedding : V → Call S V
  enqueue : Call S V

-- Which calls return, and what the encoder gives; `none` is an exception.
pub record Answers (V : Type 0) : Type 0 where
  pub upserts : Bool
  pub backfills : Bool
  pub embedding : Option V
  pub saves : Bool
  pub enqueues : Bool

-- What `execute` finds: the profile text of the user, if there is one, what is in it, and whether
-- there is a rematch queue.
pub record Input (S : Type 0) : Type 0 where
  pub profile_text : Option String
  -- Is the text in the profile text in lower case?
  pub has : String → Bool
  pub local_profile : StructuredProfile S
  pub parsed_profile : Parsed S
  -- `build_structured_profile_text`.
  pub plain_text : String
  pub has_queue : Bool

-- The calls, and what is returned, `none` where a call raised.
abbrev pub Run : (S V : Type 0) → Type 0
Run S V = List (Call S V) × Option Bool

module _ {S V : Type 0} where
  -- A call, and what comes after it if it returns.
  unfoldable pub then_if : Call S V → Bool → Run S V → Run S V
  then_if call returns rest = if returns then (call ∷ rest.0, rest.1) else (call ∷ [], none)

  -- From the embedding on.
  unfoldable pub save_and_enqueue : Bool → Answers V → V → Run S V
  unfolding then_if
  save_and_enqueue has_queue a embedding =
      then_if (save_embedding embedding) a.saves
        (if has_queue then then_if enqueue a.enqueues ([], some true) else ([], some true))

  unfoldable pub embed_text : Bool → Answers V → String → Run S V
  unfolding save_and_enqueue
  embed_text has_queue a text = if str_eq text "" then ([], some false) else elim a.embedding [
    | none ↦ (encode text ∷ [], none)
    | some v ↦ let rest = save_and_enqueue has_queue a v in (encode text ∷ rest.0, rest.1)
  ]

module _ {S V : Type 0} ⦃f : Float S⦄ (strip lower : String → String) where
  unfoldable pub with_profile : Bool → Answers V → String → String → Option (Profile S) → Run S V
  unfolding then_if embed_text clean_stack clean_or build_embedding_text
  with_profile has_queue a profile_text plain_text none = embed_text has_queue a (strip plain_text)
  with_profile has_queue a profile_text plain_text (some p) =
      let stack = clean_stack strip lower p.stack in
      then_if
        (upsert_structured_profile stack (clean_or strip lower "other" p.specialization)
          (clean_or strip lower "не указан" p.level))
        a.upserts
        (then_if (backfill_preferences stack p.min_budget_hint) a.backfills
          (embed_text has_queue a (strip (build_embedding_text strip lower profile_text p))))

  unfoldable pub execute : Input S → Answers V → Run S V
  unfolding with_profile structured_profile
  execute i a = elim i.profile_text [
    | none ↦ ([], some false)
    | some profile_text ↦
        with_profile i.has_queue a profile_text i.plain_text
          (structured_profile strip lower i.has i.local_profile i.parsed_profile)
  ]
