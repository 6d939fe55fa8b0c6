-- ===== src/Samples.antt =====
-- Concrete values for the tests: a runtime, clocks and settings, a database with one document.
use highthroughputingestion.Base.{
  pos, negsuc, str_eq, true, none, some, [], ◌∷◌, length, ◌==◌, if◌then◌else◌,
}
use highthroughputingestion.Runtime.{Runtime}
use highthroughputingestion.Database.{Database, empty_database}
use highthroughputingestion.Repository.{Repository, Submission, new_row}

-- Checksums tell only the empty document from the others, and `id-1` and `id-2` are the UUIDs.
abbrev pub sample_runtime : Runtime
sample_runtime = record {
  sha256 = λ content. if length content == 0 then "e3b0" else "9f86";
  uuid = λ text.
      if str_eq text "id-1" then some "id-1" else if str_eq text "id-2" then some "id-2" else none;
  encode = λ text. if str_eq text "agency" then 97 ∷ 103 ∷ [] else 120 ∷ [];
  crc32 = length;
  mmh3 = some (λ key. negsuc 40);
}

abbrev pub sample_submission : Submission
sample_submission = record {
  idempotency_key = "key-1";
  agency_id = "agency";
  filename = "report";
  object_key = "documents/9f86.bin";
  sha256 = "9f86";
  file_size = 3;
  audit_type = "ISO_27001";
  report_year = pos 2026;
  auditor_org = "org";
}

abbrev pub sample_database : Database
sample_database = record {
  documents = new_row sample_submission "id-1" 1 10 ∷ [];
  results = [];
  events = [];
}

abbrev pub empty_repository : Repository
empty_repository = record { pool = true; db = empty_database }

abbrev pub sample_repository : Repository
sample_repository = record { pool = true; db = sample_database }
