-- ===== src/Lib.antt =====
-- Verification of gruff-go, a Go code-quality analyser: the path that a finding takes from the
-- rules to the report and the exit code.
--
-- An analysis (internal/analysis/runner.go) collects findings from the rules, compares them with
-- a baseline of reviewed findings, keeps those in the changed region where a diff mode is on,
-- prunes composites whose evidence is gone, tallies them, scores them and picks an exit code; a
-- display filter may then hide findings from the printed report. Which files are scanned at all is
-- decided by names, by .gitignore files and by the path patterns of the configuration, which also
-- says which rules run. The modules follow these parts:
--
--   Finding     internal/finding: Finding.Types (types.go, the struct of finding.go),
--               Finding.Threshold (threshold.go), Finding.Identity (contract_identity.go and the
--               identities of finding.go)
--   Baseline    internal/baseline/baseline.go: Baseline.Entries (File, Entry, FromFindings, Parse,
--               Marshal), Baseline.Pairing (pairExactOccurrences, pairStableOccurrences),
--               Baseline.Apply (Apply), Baseline.Files (Load, Write)
--   Diff        internal/diff/diff.go: Diff.Changed (ChangedLines, Merge, WholeFiles,
--               refreshChangedFiles), Diff.Patch (Parse), Diff.Ranges (ExplicitRanges), Diff.Scope
--               (Filter, FileChanged, RangeChanged), Diff.Git (FromGit, FromMode)
--   Analysis    internal/analysis: Analysis.Display and Analysis.Filtered (display_filter.go),
--               Analysis.Composite (composite_pruning.go), Analysis.Region (applyChangedFilter and what it calls in
--               runner.go), Analysis.Exit (ResolveExitCode and the tallies of report.go),
--               Analysis.Report (NewReport and SortReport of report.go), Analysis.Inputs (options and
--               diagnostics of runner.go), Analysis.Run (applyBaseline, resolveChangedScope and
--               Analyze of runner.go)
--   Scoring     internal/scoring/scoring.go: Scoring.Points (findingPenalty, grade, complexityBin),
--               Scoring.Clusters (clusterPenalties), Scoring.Tally (the main loop of Calculate),
--               Scoring.Totals (the rest of Calculate, topOffenders)
--   Source      internal/source: Source.Ignored (ignore_classification.go); for source.go,
--               Source.Discovery.Decide (decideIgnore, CheckIgnore), Source.Discovery.Files (the records
--               and the tree that is walked) and Source.Discovery.Walker (Discover);
--               Source.Discovery.Classify (classify, and generated.go); for gitignore.go,
--               Source.Gitignore.Parse (parseIgnoreFile), Source.Gitignore.Segments (matchSegmentsAt),
--               Source.Gitignore.Chain (the directories above a path), Source.Gitignore.Loaded (the
--               Matcher with its caches)
--   Pathfilter  internal/pathfilter/pathfilter.go: Pathfilter.Patterns
--   Config      internal/config/config.go: Config.Fields (Config and its parts), Config.Normal
--               (Normalized), Config.Rules (RuleOptions)
--   Base        what the parts share: tests on numbers, lists, byte strings, maps, sorting
--
-- The other children of a part prove its properties; its Samples (and Analysis.RunSamples) run it on
-- concrete inputs and apply the properties to them. A Go function keeps its name, in lower case with
-- underscores; a loop is a function by clauses of its own, named where it is used.
--
-- Values. A Go string is its list of bytes, and strings.TrimSpace is that of ASCII text.
-- Severities, thresholds and pillars are strings in the source and stay so. Line and column
-- numbers are never negative in the program and are natural numbers; strconv.Atoi keeps its bound
-- of 2^63 - 1. A map is a list of pairs, or a function where it is only read and updated; a set is
-- a list without repetition; nil and empty slices and maps are one, since the code modelled here
-- does not tell them apart. slices.SortFunc and slices.Sort are an insertion sort by the
-- comparison that the source passes; Go fixes no order among items that compare as equal, and here
-- it is that of the input. The order in which Go ranges over a map is that of the list. A write to
-- a nil map, which panics in Go, is an outcome of its own. Loops run over lists, so no definition
-- needs fuel; the one loop over a range of lines runs for its length, and where it would pass the
-- greatest int, after which it never ends, this is an outcome of its own too. A sum of line numbers
-- in a hunk header is taken modulo 2^64: from 2^63 on it is a negative int, which no finding has for
-- a line.
--
-- Parameters. The SHA-256 digest, as the 16 hexadecimal digits that are kept of it, encoding/json,
-- reading and writing files, running git (a function of the arguments, to the output or an error),
-- absolute paths and the texts of errors are arguments of the definitions that use them, and so
-- are path.Match, path.Clean and the content of the .gitignore of a directory, where an unreadable
-- file is a missing one, as in the source. Discovery is given what os.Stat says of a path and, for
-- a directory, the tree that filepath.WalkDir meets there, with the error of a directory that
-- cannot be read; its other calls of path/filepath are given too, but for Ext and Base, which are
-- written out for paths that do not end in a slash. Analyze is given what source.Discover,
-- parser.Parse and the rule registry return, and the function that scores a list of findings,
-- whose source is Calculate of Scoring. The operations on float64 that scoring uses are a record,
-- Float, with no laws: no result depends on how they round.
--
-- Not modelled: the package context of a scan, cancellation, reading and validating the
-- configuration, the rules themselves, which walk the trees of go/ast, the command line, the
-- renderers and the dashboard; the JSON form of findings.
pub mod Base
pub mod Finding
pub mod Baseline
pub mod Diff
pub mod Scoring
pub mod Analysis
pub mod Source
pub mod Pathfilter
pub mod Config
