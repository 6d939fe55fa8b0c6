-- ===== src/Dashboard/Batches.antt =====
-- `start_batch` and `send_reports`: a batch of uploads, sent one after the other.
use highthroughputingestion.Base.{
  ℕ, ◌+◌, ◌≡◌, Bool, false, ◌||◌, Option, none, some, String, List, [], ◌∷◌, length, count, ◌==◌,
  if◌then◌else◌, arith,
}

pub data BatchStatus : Type 0 where
  preparing running completed completed_with_errors : BatchStatus

pub record Batch : Type 0 where
  pub status : BatchStatus
  pub total : ℕ
  pub accepted : ℕ
  pub completed : ℕ
  pub errors : ℕ
  pub current_file : String

-- A report, and the status code of the API's response to it, `none` where the request raises.
pub record Upload : Type 0 where
  pub name : String
  pub status_code : Option ℕ

unfoldable pub start_batch : List Upload → Batch
start_batch reports = record {
  status = preparing;
  total = length reports;
  accepted = 0;
  completed = 0;
  errors = 0;
  current_file = "";
}

abbrev pub is_accepted : Option ℕ → Bool
is_accepted none = false
is_accepted (some code) = code == 200 || code == 202

-- One pass of the loop.
unfoldable pub send_report : Upload → Batch → Batch
send_report u b =
    if is_accepted u.status_code
    then record b { current_file = u.name; accepted = b.accepted + 1; completed = b.completed + 1 }
    else record b { current_file = u.name; errors = b.errors + 1 }

unfoldable pub send_all : List Upload → Batch → Batch
send_all [] b = b
send_all (u ∷ rest) b = send_all rest (send_report u b)

abbrev finished : Batch → Batch
finished b = record b {
  current_file = "";
  status = if b.errors == 0 then BatchStatus.completed else completed_with_errors;
}

unfoldable pub send_reports : List Upload → Batch → Batch
send_reports reports b = finished (send_all reports (record b { status = running }))

send_all-counts :
    (reports : List Upload) (b : Batch)
    → let b' = send_all reports b in
      (b'.accepted ≡ b.accepted + count (λ u. is_accepted u.status_code) reports)
      × (b'.accepted + b'.errors ≡ b.accepted + b.errors + length reports)
      × (b'.completed + b.accepted ≡ b'.accepted + b.completed)
      × (b'.total ≡ b.total)
unfolding send_all send_report
send_all-counts [] b = ground arith
send_all-counts (u ∷ rest) b = ground (arith, send_all-counts rest (send_report u b))

-- When a batch has been sent, its accepted reports are those whose response is 200 or 202, every
-- report is counted as accepted or as an error, as many are completed as accepted, and the status
-- is without errors exactly when all were accepted.
pub send_reports_accounted :
    (reports : List Upload)
    → let b = send_reports reports (start_batch reports) in
      (b.accepted ≡ count (λ u. is_accepted u.status_code) reports)
      × (b.accepted + b.errors ≡ b.total)
      × (b.completed ≡ b.accepted)
      × (b.status
          ≡ (if b.accepted == b.total then BatchStatus.completed else completed_with_errors))
unfolding send_reports start_batch
send_reports_accounted reports =
    ground (arith, send_all-counts reports (record (start_batch reports) { status = running }))
