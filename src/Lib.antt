-- ===== src/Lib.antt =====
-- A verification library for the CORTEX cognitive runtime: what the runtime's organs do with a
-- request and with what they learn from it.
--
-- The program. A request is classified by difficulty and category; app/routing/lc.py makes a task
-- context of it, and app/api/routes.py leads it through the routing organs: the decay of idle
-- cells, the gate, the skip router, the override by learned weights, the ratchet and the advisor of
-- app/basal_ganglia, whose candidate may promote it. A brake stops sessions that ask too much, and a
-- request whose weight nearly tips to another band may run there once more in the background. The
-- registry of app/core/slot_registry.py says which model serves a tier and whether it is ready, and
-- the manager of app/core/lock_manager.py guards shared keys. After the answer, app/rpe turns an observed reward into a proposal, applies at most one
-- for each trace and key to a store of weights by session, category and difficulty, rolls it into
-- a global preset and schedules its rollback. app/memory keeps the goals of each session,
-- app/synapse the weights of the categories. The demo's backend counts requests in
-- demo_backend/rate_limit.py.
--
-- The files.
--   Prelude         shared names, Boolean tests, lists measured by native numbers
--   Sorting         Python's stable sorting
--   OrderedDict     Python's dict and OrderedDict, their laws, and LRU bounds
--   Int, Float      integers; Python's floats as an interface of operations and laws, and thousandths
--                   as an instance on which everything can be run
--   Rpe/Cell, Rpe/WeightStore, Rpe/DifficultyStore
--                   app/rpe/difficulty_store.py: keys, the protocol as an interface, and the
--                   in-memory store as an instance of it
--   Rpe/PresetStore app/rpe/preset_store.py: DifficultyPresetStore and PresettedDifficultyStore, the
--                   second instance of the interface
--   Rpe/Proposal    app/rpe/models.py and SynapseDifficultyDryRunCalculator of app/rpe/calculators.py
--   Rpe/Reward      the sources of app/rpe/sources.py and the checks of RPEReward
--   Rpe/DryRun      DopamineRPE of app/rpe/dopamine.py (observe, dry_run) and the category's calculator
--   Rpe/Ttl         app/rpe/ifom_store.py, with the calculator, the mutator and the service's branch of
--                   TTL overrides
--   Rpe/Mutator     SynapseDifficultyWeightMutator of app/rpe/mutators.py
--   Rpe/Selection, Rpe/Service
--                   RPEMutationService of app/rpe/service.py (apply_proposals, rollback,
--                   confirm_mutation), the pending set of app/rpe/rollback_scheduler.py, and learn of
--                   app/rpe/difficulty_learner.py
--   Routing/Task    app/api/schemas/context.py and app/core/model_tier.py
--   Routing/SkipRouter, Override, Ratchet, Decay, Gate, LocusCoeruleus
--                   app/routing/skip_router.py, rpe_route_override.py, routing_ratchet.py,
--                   routing_decay.py, app/rpe/difficulty_gate.py, app/routing/lc.py (process)
--   Routing/Pipeline steps 7.15 to 8.2 of query in app/api/routes.py, with _basal_ganglia_apply
--   Routing/Pipeline/Advised
--                   the same step with the advisor of BasalGanglia
--   Routing/Neuromodulators, Crossroad, Continuation
--                   app/routing/neuromodulators.py, crossroad.py (maybe_explore),
--                   continuation_detector.py
--   BasalGanglia    app/basal_ganglia: models.py, policies.py, advisor.py
--   Slots           app/core/slot_registry.py, with /health of app/api/routes.py and the readiness of
--                   demo_backend/main.py
--   Locks           app/core/lock_manager.py
--   Memory/Goal, GoalStack, SessionContext, Ifom
--                   app/memory/goal.py, goal_stack.py, session_goal_context.py, store.py, ifom.py
--   Rpe/RecentCounter
--                   app/rpe/recent_counter.py
--   Synapse         app/synapse: store.py, policies.py, observer.py, categories.py
--   Synapse/Adapter SynapseStoreAdapter and SynapseWeightMutator of app/rpe/mutators.py
--   RateLimit       demo_backend/rate_limit.py
--
-- The reading of the code. Each object is a record of its fields, each method a function from the
-- arguments and the state to the result and the new state. An exception is a value, with the state
-- that the method leaves. Every clock reading, fresh id and answer of an injected organ is an
-- argument, as are `exp`, `int`, `sum` and the order of strings of the standard library, numpy's norm
-- and product, MD5, files, the environment and pydantic's validation. A method is one step: the
-- in-memory stores never suspend, and interleavings at the awaits of log events and databases are
-- not modelled. Locks is the exception: there the tasks of `acquire` interleave at each await. An
-- asyncio.Lock stands there as its documentation describes it, with one owner and waiters in the
-- order of their arrival.
-- Where another part takes a lock, an argument says whether it is had in time. Loops are structural
-- recursion on the list that they run over, so no fuel is needed. A float is an element of any type
-- with the laws of the interface, which IEEE 754 numbers without NaN have. Log events change no
-- state and fail silently in the source; they are left out. A target key is the pair that its string
-- spells.
--
-- Not modelled: HTTP, SQL, vector stores and language models, which are I/O and third-party code;
-- the swarm and its agents; the prefrontal cortex, the cue classifier and the continuation path of
-- app/api/routes.py; DopamineRPE.apply and the category's branch of the mutation service, which
-- repeats the form of the modelled ones; the caches, the maintenance jobs and the application's
-- wiring.
pub mod Prelude
pub mod OrderedDict
pub mod Sorting
pub mod Int
pub mod Float
pub mod Rpe
pub mod Routing
pub mod BasalGanglia
pub mod Memory
pub mod Synapse
pub mod RateLimit
pub mod Slots
pub mod Locks
