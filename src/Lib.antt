-- ===== src/Lib.antt =====
-- A verification library for ZeroTrust.sh, a scanner that finds security defects in two ways: rules
-- matched by an external tool (the pattern path), and a reasoning path in which a code property graph
-- selects surfaces, contracts decide on them, and an LLM judges what is left. Both paths give findings,
-- which deduplication merges, scores and suppresses.
--
-- The files and the code that they model:
--   Finding      internal/finding/finding.go: the record that all stages pass on, its labels (Severity),
--                its identifier and options (Build), the language of a path (Language).
--   Config       internal/config/config.go: defaultConfig, Validate, Load (Valid).
--   Dedup        internal/dedup: merge and gate1Key (gates.go); the loop of gate 1 (Gate) against the
--                grouping of its input by key (Grouped); applyBoostAndScore (Score), AutoSuppress
--                (Suppress), the suppression rules and safe patterns of sidecar.go (Sidecar), ssvc.go
--                (Ssvc), dedupHistorical (History), the whole pass Layer.process (Process), and what the key of
--                gate 1 stands for (Place).
--   Taint        internal/cpg_engine/taint.go: the tables of the four languages (Java, Python, Js, Go),
--                their lookups (Lookup, Shadow) and the majority language (Majority).
--   Surface      the records of internal/semantic/targeting and internal/semantic/enrichment.
--   Contracts    internal/semantic/contracts: rulebook.go (Injection, Others, Rulebook) and check.go: text
--                helpers (Source), escalate (Escalate, Majority), one rule on one surface (Evaluate), Check and
--                CheckAll (Check).
--   Targeting    internal/semantic/targeting: the import classes of files (Boundary, after import_boundary.go), the
--                searches over the call graph (Search), Run with identifyIDOR and DetectSecondOrder (Select),
--                AutoFlagCVESurfaces (CveFlag), and
--                IsTestFile of pkg/util/testfile.go (TestFile).
--   DiffIndex    internal/ingestion/diffindex: Diff and Commit against the table scan_state, which is an interface
--                (State, with an implementation in Table), and ExpandWithCPG (Expand).
--   Triage       internal/semantic/triage/triage.go: Filter, the parts of its prompt (Prompt, Window, Obfuscate), and
--                the reading of the answer (Confidence).
--   Enrichment   internal/semantic/enrichment/enrichment.go: the helpers on sinks, lines and files.
--   Analysis     internal/semantic/analysis: from the LLM's verdict to a finding.
--   Retry        pkg/llm/retry.go: the calls that are repeated, and the waits between them.
--   Prelude      lists, bytes and package strings, path globs, association lists, scores, truncateUTF8.
--   Tests        concrete inputs on which the statements are applied.
--
-- How the code is rendered. A Go string is the list of its bytes, a map an association list, a slice a
-- list. The loops over slices are structural recursion. A write through an index that is out of range is
-- a panic, the value `none` of gate 1 and of the pass. A float64 stands for its rank among the values
-- other than NaN (Prelude.Float): comparison is that of ranks, and literals, addition and division are a
-- parameter with laws of IEEE 754. An order that Go leaves open is an argument: the iteration over a map
-- in Taint.Majority, the order of the goroutines in Contracts.Check. Targeting and DiffIndex range over their
-- maps in the order of insertion; what is proved of their results is membership, or the order that the sort
-- gives. The retry loop is recursion on the
-- attempts that are left, which are the attempts of its configuration. Durations are 64-bit words in two's complement. Printing a number has as fuel the
-- number plus one, which exceeds the count of its digits. The searches over the call graph have as fuel the
-- number of seeds and edges, and the window of truncateAroundLine the number of lines; both are proved to be enough. A
-- bit mask of import classes is a record of Booleans. A severity label is one of its five constants, and not
-- any integer. The tree below a directory is a data type, in the
-- order of the walk.
--
-- Parameters, being code outside the repository's Go files: SHA-256 with hexadecimal encoding, the YAML
-- decoders, what files and the network answer, the database, the answers of the graph and of the LLM, the
-- prompt templates, the regular expression for decimals, the code of a surface's callers in its
-- prompt, the random jitter, and whether a context is done.
-- Case folding and white space are those of ASCII.
--
-- Not modelled: input and output (the client of the graph server, HTTP, SQL, Docker, templates, the
-- console), the decoders of JSON, logging, and the stages pipeline, enrichment (Enrich, readFunctionBody),
-- proof of exploit, patch and report beyond the code named above. Of targeting, the earlier start of the
-- import analysis is left out; of the graph only the interface is used.
pub mod Prelude
pub mod Finding
pub mod Config
pub mod Dedup
pub mod Taint
pub mod Surface
pub mod Targeting
pub mod DiffIndex
pub mod Triage
pub mod Enrichment
pub mod Analysis
pub mod Retry
pub mod Tests
pub mod Contracts
