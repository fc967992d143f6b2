-- ===== src/Store.antt =====
-- store/store.go: the records, the interface of a store, and the result of a reconciliation.
pub mod Reconcile
pub mod Notices
pub mod Seen
pub mod Resolutions
pub mod Keyed
pub mod Apart
pub mod Silent
pub mod Scans
pub mod Absences
pub mod Rejections
pub mod Memory
pub mod Keeps
pub mod Tests
use rulehawk.Common.{List, ℕ, [], Option}
use rulehawk.Core.{Finding, IngestError}
use rulehawk.Common.Text.{Text}

-- A finding with the number of consecutive scans that did not report it. The source's `int` stays
-- below the threshold of the module, so it does not wrap.
pub record Record : Type 0 where
  pub finding : Finding
  pub absent_streak : ℕ

-- What the engine uses of a store of states `S`. An error is `none`.
pub record Store (S : Type 0) : Type 0 where
  pub list_by_target : S → Text → Text → Option (List Record)
  pub upsert : S → Record → Option S

-- The clock of one reconciliation, and the identifiers that the generator returns, one after
-- another; `none` is its error.
pub record Engine : Type 0 where
  pub now : ℕ
  pub new_id : ℕ → Option Text

pub record RejectedFinding : Type 0 where
  pub finding : Finding
  pub err : IngestError

pub record ReconcileResult : Type 0 where
  pub newly_open : List Finding
  pub resolved : List Finding
  pub rejected : List RejectedFinding

abbrev pub no_result : ReconcileResult
no_result = record { newly_open = []; resolved = []; rejected = [] }
