-- ===== src/Storage/Tests.antt =====
-- Concrete runs of the storage.
use highthroughputingestion.Base.{
  ℕ, ◌≡◌, refl, true, false, List, [], ◌∷◌, arith, returned, raised, length, file_not_found,
}
use highthroughputingestion.Base.{zero, suc, String}
use highthroughputingestion.Runtime.{Runtime}
use highthroughputingestion.Storage.{Storage, Outcomes, save_document, read_document, file_path}
use highthroughputingestion.Storage.Contents.{read-save_document, save_document_lost, save_all}
use highthroughputingestion.Samples.{sample_runtime}

abbrev store : Storage
store = record { base_dir = "/data"; blobs = []; remote_available = false; objects = [] }

abbrev content : List ℕ
content = 1 ∷ 2 ∷ 3 ∷ []

-- A checksum that tells one byte from all other contents.
abbrev checksum : List ℕ → String
checksum (zero ∷ []) = "zero"
checksum _ = "other"

abbrev hashing : Runtime
hashing = record sample_runtime { sha256 = checksum }

no_collision : (c : List ℕ) → checksum c ≡ "zero" → c ≡ 0 ∷ []
no_collision [] h = cc
no_collision (zero ∷ []) h = refl
no_collision (zero ∷ _ ∷ _) h = cc
no_collision (suc _ ∷ _) h = cc

abbrev saves : List (Outcomes × List ℕ)
saves =
    (record { write_ok = false; put_ok = true }, 0 ∷ [])
    ∷ (record { write_ok = true; put_ok = true }, content)
    ∷ []

read-save_document_example :
    read_document (hashing.sha256 (0 ∷ [])) (
      save_all hashing saves
        (save_document hashing
          (record { write_ok = true; put_ok = true })
          (0 ∷ [])
          (save_all hashing saves store)).1)
    ≡ returned (0 ∷ [])
read-save_document_example =
    read-save_document hashing true (0 ∷ []) store saves saves refl (omega arith) no_collision

save_document_lost_example :
    let (r, s') =
      save_document sample_runtime (record { write_ok = false; put_ok = true }) content store in
    (r
      ≡ returned (
        sample_runtime.sha256 content,
        length content,
        file_path store.base_dir (sample_runtime.sha256 content),
      ))
    × (read_document (sample_runtime.sha256 content) s' ≡ raised file_not_found)
save_document_lost_example =
    save_document_lost sample_runtime true content store (omega arith) refl refl
