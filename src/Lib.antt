-- ===== src/Lib.antt =====
-- The governance arithmetic of aimesh's explore half: what the host computes, and never a model,
-- between the answers of a panel of explorers and the report that a person reads; and the registry of
-- runs of its review half.
--
-- A run asks every explorer blindly (round 1), has a canonicalizer group the raw nominations, lets
-- the panel challenge the grouping, counts who independently named each entity, and may put the
-- entities to a ballot. The parts meet in values: nominations go through the gate of package canon
-- into a ledger and a partition; the envelopes of round 1 become the blind baseline; package govern
-- counts the members of a cluster against the baseline, reports a range where a contested mapping
-- affects the count, and tallies recorded ballots under inputs that were frozen before.
--
--   Base      lists, sets, maps, texts, sorting, numbers in print, hash chains and fallible results
--   Schema    internal/explore/schema/types.go: identities, envelopes, EnvelopeRef, IsAbstention
--   Canon     internal/explore/canon: canon.go (Ledger, buildLedger as Build, partitionView and
--             Canonicalize as View), dual.go (assignments and intersect as Dual, contestedMerges and
--             CanonicalizeDual as Agreement) and confirm.go (Challenge.Validate as Challenge,
--             ParseChallenges as Parsed, assignmentOf and applySplits as Splits, Present as Presented, the contested
--             mappings as Disputed, Confirm as Confirmation)
--   Round     internal/explore/round/round.go: Project, clipUTF8, NewArtifact, ValidateEdge, Round
--   Govern    internal/explore/govern: govern.go (Policy, Baseline, Claim, Corroborate), decision.go
--             (Decision, Ballot, Tally), EstimateClaim (Estimate) and paretoFrontier (Frontier) of
--             fixedspace.go
--   Runs      internal/review/surface/mcp/runs.go: reserve, admit, finish and release with its eviction,
--             as steps of a registry (Reached)
--   Tests     the theorems on small inputs
--
-- A Go function that returns a value and an error is a function into Outcome, with one constructor
-- for each refusal; an index out of range, which panics in Go, is a constructor of its own. A map is
-- an association list, a list without repetitions, or a function, as the code uses it. Go gives the
-- keys in no order: where Confirm loops over a map, the order is a parameter that meets each key
-- once, and elsewhere it does not matter. A loop is a recursion on its list with the loop's variables
-- as arguments, so nothing runs on fuel. Numbers that the code only counts with are naturals; an
-- index that a model proposed and a declared number of rounds are integers, since they may be
-- negative. A negative shortlist size or quorum is refused like 0. An operation of the registry is
-- taken as one step; the registry's lock makes it so, but for the end of a run, which a record's own
-- lock guards and which is taken as a step between the others. A time is a number of nanoseconds. The scores
-- of the Pareto frontier are any type with an order in which neither of two values may be less.
--
-- The SHA-256 digests over JSON are parameters, and so is the call of a canonicalizer. Texts that
-- only explain a value to a reader (renderings, reasons, summaries, error messages) are not modelled,
-- but the values that they state are; the resolution of a challenge is one of the values that its
-- text tells. A record of the registry leaves out what a run returned, which the registry does not
-- read. Prompts, model calls, files and the surfaces are not modelled, nor are the floating-point
-- statistics of pooled forecasts.
pub mod Base
pub mod Schema
pub mod Canon
pub mod Round
pub mod Govern
pub mod Runs
pub mod Tests
