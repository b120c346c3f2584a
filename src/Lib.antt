-- ===== src/Lib.antt =====
-- The Python services that match freelance jobs with users. Of ai-service: its queues, its consumer
-- loop, and the rules by which users are filtered and jobs and candidates are ranked, adjusted and
-- sent, the agents that fall back from language models to rules, the embedding of users, and the
-- shared connection pools. Of telegram-bot: the caches, the deduplication of updates, and the
-- webhook with its inbox. Of browser-service: the pool of browsers, and the proxy that keeps pages
-- from addresses that are not public.
--
-- A message is pushed to a Redis list, claimed by a consumer loop, handed to a use case, and acked
-- or nacked. The use cases rerank candidates, adjust their scores by feedback, and store them or
-- send them in batches.
--
-- Redis and Json are what the queue classes use: Redis with lists that a transaction changes at
-- once, and JSON texts; both are parameters with their documented laws, and Queue.Memory is an
-- instance of them. A failed call of Redis changes no list. Queue is ai-
-- service/src/ai_service/adapter/redis/queue.py (RedisQueueConsumer); Queue.Lease its leases,
-- retries and deques; Queue.Payload the payloads, also of user_embed_queue.py and ac_batch_queue.py
-- beside it; Queue.Classes the three classes. The method names are those of the source, without
-- leading underscores. Queue.Conserve, Queue.Reclaim, Queue.Retry and Queue.Poison are proofs.
--
-- ConsumerLoop is usecase/consumer_loop.py, usecase/user_embed_consumer_loop.py and
-- util/queue_retry.py of ai-service/src/ai_service. A loop that runs until an event is set is a
-- function of the list of its turns, which says what the queue, the use case and the event answer;
-- so no bound on its length is chosen.
--
-- Breaker is util/circuit_breaker.py, with Breaker.Machine for its abstract machine. Rerank is
-- usecase/rerank_policy.py. AcLoop is usecase/actor_critic_loop.py: its loop is a recursion on the
-- attempts that are left, of which there are max_attempts. Feedback is util/feedback_adjuster.py.
-- AcBatch is usecase/process_ac_batch.py, with the factors of the score in AcBatch.Scoring.
-- JobMatch is the matching part of usecase/process_job.py, and usecase/accumulate_matches.py.
-- Rematch is the end of usecase/process_user_rematch.py. Domain is domain/ and the candidates of
-- port/match_repository.py. Preferences is util/preference_filter.py, _apply_preference_filter of
-- usecase/process_user_rematch.py, and the users that usecase/process_job.py records. Tests are
-- runs at small inputs.
--
-- Bot is telegram-bot/main.py. Bot.TtlCache is its three bounded caches, an OrderedDict being the
-- list of its entries; Bot.Cached the ids of users and the states of conversations, which are the
-- same code over such a cache and Redis; Bot.Updates the claims of updates and _process_update,
-- with the handler of an update as a parameter; Bot.Store the webhook inbox of _RedisStateStore,
-- and Bot.Inbox the functions and the worker around it, whose loop is a function of the list of its
-- iterations; Bot.Webhook do_POST. An update reaches do_POST, is put into the inbox of its shard,
-- and is claimed, handled, and acked or given back by the worker. Redis is a parameter with its
-- documented laws, Bot.Texts for the keys of one kind and Server of Bot.Store for the keys of a
-- shard, of which Bot.Inbox.Memory is an instance; keys of the inbox may expire between the calls,
-- as events of Bot.Inbox.History, while the key of a claim in Bot.Updates does not expire; the
-- calls of a shard follow each other, and each command may fail, carried out or not.
--
-- BrowserPool is browser-service/browser_pool.py. Instances are objects with addresses, as callers
-- keep those that were replaced; each method runs as a whole, but for the rebuilding, which first
-- empties the pool and lets other tasks run before it ends; and the outcomes of launches and of the
-- rebuilding are arguments. BrowserPool.Render is _render_with_pool of browser-service/main.py,
-- whose loop is a recursion on the attempts.
--
-- BrowserService is browser-service/main.py around the pool: which hosts may be loaded, HostPort
-- for hosts with ports, Pins for the registry of pinned hosts, Backpressure for the queue of
-- renders, Target and Proxy for the proxy through which the browsers load every page, with Renders
-- for the renders that begin and end. Texts are lists of code points; the parsing of URLs,
-- addresses and numbers, the Unicode tables and the resolver are parameters, and each call of the
-- resolver may answer anything.
--
-- SharedPools is adapter/postgres/_pooled_repository.py of ai-service/src/ai_service: the entries
-- of one key at their addresses, with each part of a method that holds the lock as a step of
-- SharedPools.Threads, so that the steps of threads interleave, and SharedPools.Conn for the life
-- of one connection. Fallback is adapter/actor, adapter/critic, adapter/fallback and
-- adapter/rule_based there: agents are functions that may raise, Fallback.Rules needs no language
-- model, and Fallback.Total puts them into the loop of AcLoop. FeatureFlags is
-- util/feature_flags.py. UserEmbed is usecase/process_user_embed.py and
-- util/profile_embedding_text.py, and JobMatch.Execute is execute of usecase/process_job.py, both
-- as the list of their calls with the answer.
--
-- Scores are of any type with the operations of Common.Float: the order is total, as on numbers
-- that are not NaN, and nothing is assumed of rounding. Integers of Python have no bound, and are
-- natural numbers or ℤ here. Times are natural numbers in milliseconds or microseconds.
--
-- Not modelled: logging, metrics other than those of the rerank policy and of the fallbacks, and
-- tracing; SQL and the calls of language models, whose answers are arguments; what Unicode's tables
-- and regular expressions say of a text, which is an argument too; the structured profile and the
-- parsing of budgets, the commands and the batch sessions of the telegram bot, the tunnel and the
-- rest of the HTTP interface of the browser service, and the Go backend.
pub mod Common
pub mod Domain
pub mod Breaker
pub mod Rerank
pub mod SharedPools
pub mod Fallback
pub mod UserEmbed
pub mod FeatureFlags
pub mod AcLoop
pub mod Json
pub mod Redis
pub mod Queue
pub mod ConsumerLoop
pub mod Feedback
pub mod AcBatch
pub mod JobMatch
pub mod Rematch
pub mod Preferences
pub mod Bot
pub mod BrowserPool
pub mod BrowserService
mod Tests
