-- ===== src/Storage/Contents.antt =====
-- What `save_document` stores can be read, and what it must not store it refuses.
use text.Mathlib.TextLemmas.{append_cancel_left, append_cancel_right}
use highthroughputingestion.Base.{
  ℕ, ◌≤◌, ◌<◌, ◌≡◌, ◌⊎◌, refl, sym, ap, ◌∙◌, Bool, true, false, none, some, String, str_eq, eq_iff,
  List, [], ◌∷◌, length, ltb, arith, returned, raised, value_error, file_not_found, Option-cases,
  Bool-cases, inl, inr,
}
use highthroughputingestion.Base.Dict.{lookup, insert, lookup-insert, lookup-insert_self}
use highthroughputingestion.Runtime.{Runtime}
use highthroughputingestion.Storage.{
  Storage, Outcomes, max_payload_bytes, file_path, save_document, read_document, put_object,
}

-- A document over the limit is refused, and nothing is stored.
pub save_document_oversize :
    (rt : Runtime) (o : Outcomes) (content : List ℕ) (s : Storage)
    → max_payload_bytes < length content
    → save_document rt o content s ≡ (raised value_error, s)
unfolding save_document
save_document_oversize rt o content s big = ground arith

file_path_inj : (base a b : String) → file_path base a ≡ file_path base b → a ≡ b
unfolding file_path
file_path_inj base a b e =
    append_cancel_right a b ".bin"
      (append_cancel_left "/blobs/" _ _ (append_cancel_left base _ _ e))

-- What a save does to the directory: nothing, or a new file under the checksum of its content.
abbrev Stores : Runtime → List ℕ → Storage → Storage → Type 0
Stores rt content s s' =
    let path = file_path s.base_dir (rt.sha256 content) in
    (s'.base_dir ≡ s.base_dir)
    × ((s'.blobs ≡ s.blobs)
        ⊎ ((lookup path s.blobs ≡ none) × (s'.blobs ≡ insert path content s.blobs)))

save_document-Stores :
    (rt : Runtime) (o : Outcomes) (content : List ℕ) (s : Storage)
    → Stores rt content s (save_document rt o content s).1
unfolding save_document put_object
save_document-Stores rt o content s = elim (Bool-cases (ltb max_payload_bytes (length content))) [
  | inl big ↦ rw big (refl, inl refl)
  | inr small ↦ elim (Option-cases (lookup (file_path s.base_dir (rt.sha256 content)) s.blobs)) [
    | inr (old, stored) ↦ rw (small, stored) (refl, inl refl)
    | inl new ↦ elim (Bool-cases o.write_ok) [
      | inl written ↦ (ground arith, inr (new, ground arith))
      | inr failed ↦ (ground arith, inl (ground arith))
    ]
  ]
]

-- Each file of the directory has the name of its content's checksum.
IsAddressed : Runtime → Storage → Type 0
IsAddressed rt s =
    (path : String) (content : List ℕ)
    → lookup path s.blobs ≡ some content
    → path ≡ file_path s.base_dir (rt.sha256 content)

Stores-IsAddressed :
    (rt : Runtime) (content : List ℕ) (s s' : Storage)
    → Stores rt content s s'
    → IsAddressed rt s
    → IsAddressed rt s'
unfolding IsAddressed
Stores-IsAddressed rt content s s' (base, inl same) h path c found =
    rw base (h path c (rw same at found))
Stores-IsAddressed rt content s s' (base, inr (new, added)) h path c found =
    let p = file_path s.base_dir (rt.sha256 content) in
    let known : lookup path (insert p content s.blobs) ≡ some c = rw added at found in
    rw base (elim (Bool-cases (str_eq p path)) [
      | inl same ↦
          let this : content ≡ c = ground (arith, lookup-insert p path content s.blobs, known) in
          sym ((eq_iff p path).0 same) ∙ ap (λ c. file_path s.base_dir (rt.sha256 c)) this
      | inr other ↦ h path c (ground (arith, lookup-insert p path content s.blobs, known))
    ])

-- A file keeps its content.
Stores-kept :
    (rt : Runtime) (content : List ℕ) (s s' : Storage) (path : String) (c : List ℕ)
    → Stores rt content s s'
    → lookup path s.blobs ≡ some c
    → lookup path s'.blobs ≡ some c
Stores-kept rt content s s' path c (base, inl same) h = rw same h
Stores-kept rt content s s' path c (base, inr (new, added)) h =
    let p = file_path s.base_dir (rt.sha256 content) in
    rw added (ground (arith, lookup-insert p path content s.blobs, eq_iff p path, new, h))

-- The storage after saves, each with what it meets.
unfoldable pub save_all : Runtime → List (Outcomes × List ℕ) → Storage → Storage
save_all rt [] s = s
save_all rt ((o, content) ∷ rest) s = save_all rt rest (save_document rt o content s).1

save_all-base :
    (rt : Runtime) (saves : List (Outcomes × List ℕ)) (s : Storage)
    → (save_all rt saves s).base_dir ≡ s.base_dir
unfolding save_all
save_all-base rt [] s = refl
save_all-base rt ((o, c) ∷ rest) s =
    save_all-base rt rest (save_document rt o c s).1 ∙ (save_document-Stores rt o c s).0

save_all-IsAddressed :
    (rt : Runtime) (saves : List (Outcomes × List ℕ)) (s : Storage)
    → IsAddressed rt s
    → IsAddressed rt (save_all rt saves s)
unfolding save_all
save_all-IsAddressed rt [] s h = h
save_all-IsAddressed rt ((o, c) ∷ rest) s h =
    save_all-IsAddressed rt rest (save_document rt o c s).1
      (Stores-IsAddressed rt c s (save_document rt o c s).1 (save_document-Stores rt o c s) h)

save_all-kept :
    (rt : Runtime) (saves : List (Outcomes × List ℕ)) (s : Storage) (path : String) (c : List ℕ)
    → lookup path s.blobs ≡ some c
    → lookup path (save_all rt saves s).blobs ≡ some c
unfolding save_all
save_all-kept rt [] s path c h = h
save_all-kept rt ((o, content) ∷ rest) s path c h =
    save_all-kept rt rest (save_document rt o content s).1 path c (
      Stores-kept rt content s (save_document rt o content s).1 path c
        (save_document-Stores rt o content s) h)

-- A document within the limit is in its file after a save whose write succeeds.
save_document-lookup :
    (rt : Runtime) (put_ok : Bool) (content : List ℕ) (s : Storage)
    → length content ≤ max_payload_bytes
    → IsAddressed rt s
    → ((other : List ℕ) → rt.sha256 other ≡ rt.sha256 content → other ≡ content)
    → lookup
        (file_path s.base_dir (rt.sha256 content))
        (save_document rt (record { write_ok = true; put_ok = put_ok }) content s).1.blobs
      ≡ some content
unfolding save_document put_object IsAddressed
save_document-lookup rt put_ok content s small h free =
    let path = file_path s.base_dir (rt.sha256 content) in
    elim (Option-cases (lookup path s.blobs)) [
      | inr (old, stored) ↦
          let same = free old (sym (file_path_inj s.base_dir _ _ (h path old stored))) in
          ground (arith, same)
      | inl new ↦ ground (arith, lookup-insert_self path content s.blobs)
    ]

read_document-lookup :
    (sha256 : String) (s : Storage) (c : List ℕ)
    → lookup (file_path s.base_dir sha256) s.blobs ≡ some c
    → read_document sha256 s ≡ returned c
unfolding read_document
read_document-lookup sha256 s c h = rw (read_document, h) refl

-- From an empty directory, after any saves and whatever they met, a document within the limit is
-- saved, and the file system takes the write; no other content has the checksum of this one. Then
-- the document can be read under its checksum, whatever MinIO does and whatever is saved later.
pub read-save_document :
    (rt : Runtime) (put_ok : Bool) (content : List ℕ) (s : Storage)
    (earlier later : List (Outcomes × List ℕ))
    → s.blobs ≡ []
    → length content ≤ max_payload_bytes
    → ((other : List ℕ) → rt.sha256 other ≡ rt.sha256 content → other ≡ content)
    → read_document (rt.sha256 content) (
        save_all rt later
          (save_document rt
            (record { write_ok = true; put_ok = put_ok })
            content
            (save_all rt earlier s)).1)
      ≡ returned content
unfolding IsAddressed
read-save_document rt put_ok content s earlier later empty small free =
    let s1 = save_all rt earlier s in
    let o : Outcomes = record { write_ok = true; put_ok = put_ok } in
    let s2 = (save_document rt o content s1).1 in
    let named = save_all-IsAddressed rt earlier s (λ path c found. cc (rw empty at found)) in
    let base = save_all-base rt later s2 ∙ (save_document-Stores rt o content s1).0 in
    read_document-lookup (rt.sha256 content) (save_all rt later s2) content (
      rw base (
        save_all-kept rt later s2 _ content
          (save_document-lookup rt put_ok content s1 small named free)))

-- A failed write goes unnoticed: without MinIO a new document is reported as saved, and cannot be
-- read.
pub save_document_lost :
    (rt : Runtime) (put_ok : Bool) (content : List ℕ) (s : Storage)
    → length content ≤ max_payload_bytes
    → lookup (file_path s.base_dir (rt.sha256 content)) s.blobs ≡ none
    → s.remote_available ≡ false
    → let (r, s') = save_document rt (record { write_ok = false; put_ok = put_ok }) content s in
      (r ≡ returned (rt.sha256 content, length content, file_path s.base_dir (rt.sha256 content)))
      × (read_document (rt.sha256 content) s' ≡ raised file_not_found)
unfolding save_document read_document put_object
save_document_lost rt put_ok content s small new offline = (ground arith, ground arith)

-- A saved document is named by its checksum.
pub save_document-sha256 :
    (rt : Runtime) (o : Outcomes) (content : List ℕ) (s : Storage) (saved : String × ℕ × String)
    → (save_document rt o content s).0 ≡ returned saved
    → saved.0 ≡ rt.sha256 content
unfolding save_document put_object
save_document-sha256 rt o content s saved done = ground (arith, done)
