-- ===== src/Bot/Polling.antt =====
-- run_polling and get_updates of telegram-bot/main.py. Telegram keeps the ids of the updates that it
-- has in ascending order, and gives some of those from the offset on; what `_process_update` returns
-- for each is an argument. The heartbeat and the waits are left out.
pub mod Handled
use site_parser_for_freelans.Common.{
  ℕ, zero, suc, ◌+◌, ◌*◌, ◌^◌, ◌≤◌, ◌<◌, ◌≡◌, ◌⊎◌, refl, inl, inr, min, Bool, true, false,
  Bool-cases, ◌==◌, ==_iff, Option, none, some, List, [], ◌∷◌, ◌++◌, All, any, take, keep_if,
  if◌then◌else◌, ltb, leb, ltb→lt, arith,
}
use site_parser_for_freelans.Bot.Webhook.{next_offset}

-- The offset and the streak of errors, and the ids of the updates that were handled.
pub record Polling : Type 0 where
  pub offset : Option ℕ
  pub poll_error_streak : ℕ
  pub handled : List ℕ

-- One turn of the loop: getUpdates fails, or gives so many updates, which are handled or not.
pub data Poll : Type 0 where
  fails : Poll
  gives : ℕ → (ℕ → Bool) → Poll

abbrev pub start_polling : Polling
start_polling = record { offset = none; poll_error_streak = 0; handled = [] }

-- `_poll_retry_delay_sec` in milliseconds, with the random part.
abbrev pub poll_retry_delay : ℕ → ℕ → ℕ
poll_retry_delay attempt jitter = min 10000 (500 * 2 ^ attempt) + jitter

-- The updates that Telegram has from the offset on.
unfoldable pub waiting : Option ℕ → List ℕ → List ℕ
waiting none ids = ids
waiting (some n) ids = keep_if (leb n) ids

-- The loop over the updates: those handled, and the next offset, unless one failed.
unfoldable pub process_updates : (ℕ → Bool) → Option ℕ → List ℕ → List ℕ × Option (Option ℕ)
process_updates succeeds next [] = ([], some next)
process_updates succeeds next (i ∷ is) =
    let rest = process_updates succeeds (some (i + 1)) is in
    if succeeds i then (i ∷ rest.0, rest.1) else ([], none)

unfoldable pub after_updates : Polling → List ℕ × Option (Option ℕ) → Polling
after_updates p (done, none) = record p { poll_error_streak = 0; handled = p.handled ++ done }
after_updates p (done, some next) = record {
  offset = next;
  poll_error_streak = 0;
  handled = p.handled ++ done;
}

unfoldable pub poll : List ℕ → Poll → Polling → Polling
unfolding waiting process_updates after_updates next_offset
poll ids fails p = record p { poll_error_streak = p.poll_error_streak + 1 }
poll ids (gives count succeeds) p =
    let updates = take count (waiting p.offset ids) in
    after_updates p (process_updates succeeds (next_offset p.offset updates) updates)

-- The turns, the last one first.
unfoldable pub run_polling : List ℕ → List Poll → Polling
unfolding poll
run_polling ids [] = start_polling
run_polling ids (e ∷ es) = poll ids e (run_polling ids es)
