-- ===== src/Storage.antt =====
-- `ContentAddressableStorage` of api/src/storage.py. The local blobs are a dict from file path to
-- content, the objects of MinIO one from object key to content. A document is written under a
-- temporary name and renamed, so that a failed write leaves no blob; the temporary file and the
-- construction of the client are not modelled; `start` is in Api.Startup.
pub mod Contents
mod Tests
use highthroughputingestion.Base.{
  ℕ, ◌*◌, String, ◌<>◌, Bool, true, false, not, Option, none, some, List, ltb, length,
}
use highthroughputingestion.Base.{
  Exec, Result, Error, value_error, file_not_found, object_store_error, returned, raised,
  if◌then◌else◌,
}
use highthroughputingestion.Base.Dict.{Dict, lookup, insert, contains}
use highthroughputingestion.Runtime.{Runtime}

-- Settings.MAX_PAYLOAD_BYTES
abbrev pub max_payload_bytes : ℕ
max_payload_bytes = 25 * 1024 * 1024

pub record Storage : Type 0 where
  pub base_dir : String
  pub blobs : Dict (List ℕ)
  pub remote_available : Bool
  pub objects : Dict (List ℕ)

-- Whether the file system takes the write, and whether MinIO takes the object.
pub record Outcomes : Type 0 where
  pub write_ok : Bool
  pub put_ok : Bool

-- `self.base_dir / "blobs" / f"{sha256}.bin"`
unfoldable pub file_path : String → String → String
file_path base_dir sha256 = base_dir <> "/blobs/" <> sha256 <> ".bin"

unfoldable pub object_key : String → String
object_key sha256 = "documents/" <> sha256 <> ".bin"

-- The `try` block: an exception of the file system is dropped.
abbrev write_blob : Bool → String → List ℕ → Storage → Storage
write_blob ok path content s = if ok then record s { blobs = insert path content s.blobs } else s

-- The part after the local write.
put_object : Bool → String → List ℕ → Exec Storage (String × ℕ × String)
put_object ok sha256 content s =
    if s.remote_available
    then (if ok
        then (
          returned (sha256, length content, object_key sha256),
          record s { objects = insert (object_key sha256) content s.objects },
        )
        else (raised object_store_error, s))
    else (returned (sha256, length content, file_path s.base_dir sha256), s)

unfoldable pub save_document : Runtime → Outcomes → List ℕ → Exec Storage (String × ℕ × String)
unfolding put_object
save_document rt o content s =
    let sha256 = rt.sha256 content in
    let path = file_path s.base_dir sha256 in
    if ltb max_payload_bytes (length content)
    then (raised value_error, s)
    else if contains path s.blobs
    then (returned (sha256, length content, path), s)
    else put_object o.put_ok sha256 content (write_blob o.write_ok path content s)

unfoldable pub read_document : String → Storage → Result (List ℕ)
read_document sha256 s = elim (lookup (file_path s.base_dir sha256) s.blobs) [
  | none ↦ raised file_not_found
  | some content ↦ returned content
]
