-- ===== src/UserEmbed/Order.antt =====
-- In which order `execute` of ProcessUserEmbedUseCase makes its calls, and what its answer says.
use Prim.Native.String.{String}
use text.Mathlib.Text.{◌==◌ as str_eq}
use site_parser_for_freelans.Common.{◌≡◌, Bool, true, false, Option, none, some, List, [], ◌∷◌}
use site_parser_for_freelans.Common.Float.{Float}
use site_parser_for_freelans.UserEmbed.Calls.{
  Call, upsert_structured_profile, backfill_preferences, encode, save_embedding, enqueue, Answers,
  Run,
}

-- How far a run has come: the profile of the user is stored with a stack, its preferences are filled
-- in, its text is embedded, the embedding is saved.
pub data Stage (V : Type 0) : Type 0 where
  fresh : Stage V
  profile_stored : List String → Stage V
  ready : Stage V
  embedded : V → Stage V
  stored : Stage V

module _ {S V : Type 0} (has_queue : Bool) (a : Answers V) where
  -- The runs from a stage on: their calls, and what they return. A call that raises is the last.
  pub data Trace : Stage V → List (Call S V) → Option Bool → Type 0 where
    upsert_fails :
        {stack : List String} {specialization level : String}
        → a.upserts ≡ false
        → Trace fresh (upsert_structured_profile stack specialization level ∷ []) none
    upserts :
        {stack : List String} {specialization level : String} {calls : List (Call S V)}
        {r : Option Bool}
        → a.upserts ≡ true
        → Trace (profile_stored stack) calls r
        → Trace fresh (upsert_structured_profile stack specialization level ∷ calls) r
    no_user : Trace fresh [] (some false)
    unstructured :
        {calls : List (Call S V)} {r : Option Bool} → Trace ready calls r → Trace fresh calls r
    backfill_fails :
        {stack : List String} {hint : Option S}
        → a.backfills ≡ false
        → Trace (profile_stored stack) (backfill_preferences stack hint ∷ []) none
    backfills :
        {stack : List String} {hint : Option S} {calls : List (Call S V)} {r : Option Bool}
        → a.backfills ≡ true
        → Trace ready calls r
        → Trace (profile_stored stack) (backfill_preferences stack hint ∷ calls) r
    empty_text : Trace ready [] (some false)
    encode_fails :
        {text : String}
        → str_eq text "" ≡ false
        → a.embedding ≡ none
        → Trace ready (encode text ∷ []) none
    encodes :
        {text : String} {v : V} {calls : List (Call S V)} {r : Option Bool}
        → str_eq text "" ≡ false
        → a.embedding ≡ some v
        → Trace (embedded v) calls r
        → Trace ready (encode text ∷ calls) r
    save_fails : {v : V} → a.saves ≡ false → Trace (embedded v) (save_embedding v ∷ []) none
    saves :
        {v : V} {calls : List (Call S V)} {r : Option Bool}
        → a.saves ≡ true
        → Trace stored calls r
        → Trace (embedded v) (save_embedding v ∷ calls) r
    enqueue_fails : has_queue ≡ true → a.enqueues ≡ false → Trace stored (enqueue ∷ []) none
    enqueues : has_queue ≡ true → a.enqueues ≡ true → Trace stored (enqueue ∷ []) (some true)
    no_queue : has_queue ≡ false → Trace stored [] (some true)

  abbrev pub RunTrace : Stage V → Run S V → Type 0
  RunTrace stage run = Trace stage run.0 run.1
