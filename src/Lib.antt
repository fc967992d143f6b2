-- ===== src/Lib.antt =====
-- RuleHawk audits firewall configurations. Parsers turn a vendor's configuration into a list of
-- rules, the analysers of fwrule turn the rules into issues, and the core keeps the issues as
-- findings over repeated scans. A scheduler runs the scans, a dispatcher announces what they change,
-- and a license sets the limits. The library models the parsers, the analysers, the reconciliation of
-- findings, the store in memory, and the decisions of the scheduler, the dispatcher and the license.
--
-- Parts and files:
--   fwrule/rule.go       Fwrule/Rule.antt: the rule as a record and each function on it under its own
--                        name (`Covers` is `covers j i`, `SameMatch` is `same_match`). What the
--                        tests mean for packets is in Fwrule/Packet.antt and its children.
--   fwrule/coverindex.go Fwrule/Postings.antt (posting lists, `seekDim`), Fwrule/Index.antt (the
--                        index, `add` and `firstCoverer`), Fwrule/Index/Addrs.antt (`addrDim`) and
--                        Fwrule/Index/Ports.antt (`portDim`, the segment tree). Words, Dimension,
--                        Tracks, Leapfrog and First under Fwrule/Index carry the proofs.
--   fwrule/analyze.go    Fwrule/Analyze.antt (the pass for shadowed and duplicate rules, and its
--                        quadratic reference), Fwrule/Checks.antt (permissive rules, hygiene,
--                        `Analyze` and `Drift`).
--   fwparse/parse.go     Fwparse.antt (`Parse`) and Fwparse/Base.antt (`reindex`, `dedupeStrings`).
--   fwparse/iptables.go, fwparse/fortinet.go, fwparse/pfsense.go
--                        Fwparse/Iptables.antt, Fwparse/Fortinet.antt and Fwparse/Pfsense.antt: a
--                        line or an element at a time, as the loops of the source read them.
--                        Fwparse/Negations.antt (iptables), and Keys, Settings and Policies under
--                        Fwparse (FortiGate) carry proofs on them.
--   fwparse/ciscoasa.go  Fwparse/AsaSpecs.antt (addresses and ports), Fwparse/CiscoAsa.antt (access
--                        lists) and Fwparse/Services.antt (the names of services).
--   fwparse/ciscoasa_objects.go
--                        Fwparse/MemberLines.antt (the lines of a definition), Fwparse/Scan.antt
--                        (the definitions) and Fwparse/Members.antt (their
--                        expansion). Ways, Expansion, Reachable, Resolving, Ending and Caching
--                        under Fwparse carry the proofs on it.
--   core/finding.go, core/collector.go
--                        Core.antt: severities, states, findings, their validation, and the metadata
--                        of a module.
--   store/store.go       Store.antt: records, the interface of a store, and the result.
--   store/reconcile.go   Store/Reconcile.antt: `Reconcile` is `reconcile` over the interface, made of
--                        `ingest` for a finding of the scan and `age` for a record that it does not
--                        report; `capEvidence` is `cap_evidence`.
--   store/memory.go      Store/Memory.antt: each operation of `MemStore`, and `mem_ops`, its view
--                        through the interface. Keyed, Apart, Silent, Scans and Absences under Store
--                        carry the proofs on findings that scans stop reporting.
--   notify/notify.go     Notify.antt: the dispatcher as a record, `Enqueue`, `Flush` and `Close` as
--                        steps that return it with the sends that they start; Notify/Ranks.antt (the
--                        sort by severity) and Notify/Retry.antt (`sendWithRetry`).
--   sched/scheduler.go   Sched.antt: the registered modules and their targets, the back-off of a
--                        target that fails, and `scan_one`, which hands what a collector finds to
--                        `reconcile`.
--   license/license.go   License.antt: `Sign`, `Verify`, `Activate`, and License/Tiers.antt: the
--                        limits of the tiers, compared in License/Range.antt.
--   rulehawk/rulehawk.go, rulehawk/memstore.go
--                        Audit.antt: `Collect` parses a stored configuration, runs the analysers and
--                        turns their issues into findings; Audit/Whole.antt puts it together with
--                        the scheduler, the reconciliation and the parsers.
-- Common holds what the parts share: tests on numbers, lists, signed integers, and texts as lists of
-- code points. Net is the part of Go's package net that the rules use: addresses as the numbers that
-- their bytes spell, networks with canonical masks, the parsers of addresses and of CIDR notation,
-- and `IPNet.Contains`. Fwrule/Samples.antt and Fwrule/Tests.antt run the theorems on small rules.
--
-- State and errors: the index is a record of posting lists, and an insertion returns a new one. A Go
-- map is a function from keys to lists, where a missing key reads as the empty list. A panic and a
-- loop that does not end are outcomes of their own: `out_of_range` and `out_of_fuel` of
-- `first_coverer`, and `none` of `shadow_and_duplicate`. A reconciliation passes on its progress: the
-- store, the result, the number of identifiers taken and the fingerprints seen; an error of the store
-- or of the generator sets `failed` and leaves the changes made so far, as the source does. The clock
-- is a number and the generator a function from the number of the call to its answer.
--
-- Bounds and fuel: the loop of `firstCoverer` has one round more than there are rules, since each
-- round moves the floor up to a position or past it; the loops on the segment tree have 17 rounds,
-- since each halves a node number below 2 * 65536; the loop of `sort.Search` has as many rounds as
-- the list has elements. Ports are 64-bit integers, and the width of a range wraps round; positions
-- of rules are 32-bit integers in the source and do not wrap here. `resolve` has one round more than
-- there are definitions, since no way through them has a name twice. The doubling of a back-off wraps
-- round at 64 bits. `strings.ToLower` and `strings.ToUpper` change the ASCII letters only.
--
-- Parameters: the decoder of XML of the pfSense parser; JSON, base64 and ed25519 of the license; the
-- hash of a fingerprint and the JSON of evidence; what
-- a channel returns at each attempt; the checks of a collector; the clock and the identifiers.
--
-- Not modelled: the SQLite stores (SQL over a database driver), identifiers, the channels of
-- notification (network input and output), verification requests, the console, the
-- web server, the AI client and the commands; of the scheduler, the jitter, which is a floating-point
-- number, the pool of workers and the goroutines; of the dispatcher, the wait for the sends.
pub mod Common
pub mod Net
pub mod Fwrule
pub mod Fwparse
pub mod Notify
pub mod License
pub mod Sched
pub mod Audit
pub mod Core
pub mod Store
