-- ===== src/Repository/Registry.antt =====
-- What the document table is for: a registry in which the first identifier claimed for an
-- idempotency key stands for ever. Any sequence of writes of the API refines it.
use mathlib.Core.Path.{fun_ext}
use highthroughputingestion.Base.{
  ℕ, ◌≡◌, refl, sym, ap, ◌∙◌, Bool, true, false, Option, none, some, String, str_eq, List, [], ◌∷◌,
  find, update_where,
}
use highthroughputingestion.Base.{
  arith, ◌⊎◌, inl, inr, Option-cases, Result, returned, raised, if◌then◌else◌,
}
use highthroughputingestion.Runtime.{Runtime}
use highthroughputingestion.Database.{
  Database, Document, has_key, has_id, insert_document, insert_event,
}
use highthroughputingestion.Database.Validity.{KeepsIdentity}
use highthroughputingestion.Repository.{
  Repository, Submission, create_or_get, connect-cases, found_or_new, insert_new, new_row,
}
use highthroughputingestion.Repository.History.{
  Write, create, set_metadata, log, perform, history, update_document_metadata-documents,
  append_event-documents, apply_metadata-KeepsIdentity, insert_new-documents, insert_new-key,
}

-- The abstract state: the identifier of each key that has one.
abbrev pub Registry : Type 0
Registry = String → Option String

abbrev pub assign : String → String → Registry → Registry
assign key id g other = if str_eq key other then some id else g other

-- A claim answers with the identifier of the key and whether it stood already.
unfoldable pub claim : String → String → Registry → (String × Bool) × Registry
claim key fresh g = elim (g key) [
  | some id ↦ ((id, true), g)
  | none ↦ ((fresh, false), assign key fresh g)
]

unfoldable pub claims : List (String × String) → Registry → List (String × Bool) × Registry
claims [] g = ([], g)
claims ((key, fresh) ∷ rest) g =
    let (a, g') = claim key fresh g in let (more, g'') = claims rest g' in (a ∷ more, g'')

-- What the table says.
unfoldable pub registry : List Document → Registry
registry ds key = elim (find (has_key key) ds) [ none ↦ none | some row ↦ some row.document_id ]

-- What a call of `create_or_get` returned, by the identifier; an exception and the other writes
-- answer nothing.
abbrev answer_of : Result (Document × Bool) → Option (String × Bool)
answer_of (returned (row, dup)) = some (row.document_id, dup)
answer_of (raised e) = none

unfoldable pub answer : Runtime → Write → Repository → Option (String × Bool)
answer rt (create s id now reachable) r = answer_of (create_or_get s id now reachable r).0
answer rt (set_metadata id m now reachable) r = none
answer rt (log e reachable) r = none

abbrev with_answer : Option (String × Bool) → List (String × Bool) → List (String × Bool)
with_answer none rest = rest
with_answer (some a) rest = a ∷ rest

unfoldable pub answers : Runtime → List Write → Repository → List (String × Bool)
answers rt [] r = []
answers rt (w ∷ ws) r = with_answer (answer rt w r) (answers rt ws (perform rt w r))

-- The claims that the writes amount to: one for each call that returned.
abbrev with_claim : Option (String × Bool) → Write → List (String × String) → List (String × String)
with_claim (some a) (create s id now reachable) rest = (s.idempotency_key, id) ∷ rest
with_claim _ _ rest = rest

unfoldable pub claimed : Runtime → List Write → Repository → List (String × String)
claimed rt [] r = []
claimed rt (w ∷ ws) r = with_claim (answer rt w r) w (claimed rt ws (perform rt w r))

-- Changes that keep what identifies a document do not show.
registry-update_where :
    (p : Document → Bool) (f : Document → Document) (ds : List Document)
    → KeepsIdentity f
    → registry (update_where p f ds) ≡ registry ds
unfolding registry
registry-update_where p f ds k = fun_ext (λ key. go key ds)
  where
    go : (key : String) (ds : List Document) → registry (update_where p f ds) key ≡ registry ds key
    go key [] = refl
    go key (d ∷ ds) = ground (arith, k.idempotency_key d, k.document_id d, go key ds)

registry-new :
    (row : Document) (key id : String) (ds : List Document)
    → row.idempotency_key ≡ key
    → row.document_id ≡ id
    → registry (row ∷ ds) ≡ assign key id (registry ds)
unfolding registry
registry-new row key id ds k i = fun_ext (λ other. ground arith)

insert_new-id :
    (s : Submission) (id : String) (now : ℕ) (db : Database) {row : Document} {db' : Database}
    → insert_new s id now db ≡ some (row, db')
    → row.document_id ≡ id
unfolding insert_new insert_document insert_event new_row
insert_new-id s id now db e = ground arith

claim_known :
    (key fresh id : String) (g : Registry) → g key ≡ some id → claim key fresh g ≡ ((id, true), g)
unfolding claim
claim_known key fresh id g e = rw (e, claim)

claim_new :
    (key fresh : String) (g : Registry)
    → g key ≡ none
    → claim key fresh g ≡ ((fresh, false), assign key fresh g)
unfolding claim
claim_new key fresh g e = rw (e, claim)

-- One call: it answered as a claim does, or it raised and changed nothing.
record IsClaim (s : Submission) (id : String) (ds ds' : List Document) (a : Option (String × Bool))
    : Type 0 where
  answered : a ≡ some (claim s.idempotency_key id (registry ds)).0
  changed : registry ds' ≡ (claim s.idempotency_key id (registry ds)).1

abbrev Refines :
    Submission → String → List Document → List Document → Option (String × Bool) → Type 0
Refines s id ds ds' a = IsClaim s id ds ds' a ⊎ ((a ≡ none) × (registry ds' ≡ registry ds))

claims_known :
    (s : Submission) (id : String) (row : Document) (ds : List Document)
    → find (has_key s.idempotency_key) ds ≡ some row
    → IsClaim s id ds ds (some (row.document_id, true))
unfolding registry
claims_known s id row ds known =
    let e = claim_known s.idempotency_key id row.document_id (registry ds) (rw (known, registry)) in
    record { answered = rw e; changed = rw e }

claims_new :
    (s : Submission) (id : String) (now : ℕ) (db : Database) (row : Document) (db' : Database)
    → find (has_key s.idempotency_key) db.documents ≡ none
    → insert_new s id now db ≡ some (row, db')
    → IsClaim s id db.documents db'.documents (some (row.document_id, false))
unfolding registry
claims_new s id now db row db' new done =
    let e = claim_new s.idempotency_key id (registry db.documents) (rw (new, registry)) in
    let named = insert_new-id s id now db done in
    record {
      answered = rw (e, named);
      changed =
          ap registry (insert_new-documents s id now db done).0
          ∙ registry-new row s.idempotency_key id db.documents (insert_new-key s id now db done)
              named
          ∙ sym (ap (λ (x : (String × Bool) × Registry). x.1) e);
    }

create_or_get-Refines :
    (s : Submission) (id : String) (now : ℕ) (reachable : Bool) (r : Repository)
    → Refines s id r.db.documents
        (create_or_get s id now reachable r).1.db.documents
        (answer_of (create_or_get s id now reachable r).0)
unfolding create_or_get
create_or_get-Refines s id now reachable r = elim (connect-cases reachable r) [
  | inr (e, down) ↦ rw down (inr (refl, refl))
  | inl up ↦ elim (Option-cases (find (has_key s.idempotency_key) r.db.documents)) [
    | inr (row, known) ↦
        rw (up, known, found_or_new) (inl (claims_known s id row r.db.documents known))
    | inl new ↦
        rw (up, new, found_or_new)
          (elim (Option-cases (insert_new s id now r.db)) [
            | inl refused ↦ rw refused (inr (refl, refl))
            | inr ((row, db'), done) ↦ rw done (inl (claims_new s id now r.db row db' new done))
          ])
  ]
]

-- A write is a claim with its answer, or it answers nothing and does not show.
abbrev Simulates : Write → List Document → List Document → Option (String × Bool) → Type 0
Simulates (create s id now reachable) ds ds' a = Refines s id ds ds' a
Simulates w ds ds' a = (a ≡ none) × (registry ds' ≡ registry ds)

perform-Simulates :
    (rt : Runtime) (w : Write) (r : Repository)
    → Simulates w r.db.documents (perform rt w r).db.documents (answer rt w r)
unfolding perform answer
perform-Simulates rt (create s id now up) r = create_or_get-Refines s id now up r
perform-Simulates rt (set_metadata id m now up) r = (
  refl,
  elim (update_document_metadata-documents rt id m now up r) [
    | inl same ↦ ap registry same
    | inr (key, e) ↦
        ap registry e
        ∙ registry-update_where (has_id key) _ r.db.documents (apply_metadata-KeepsIdentity m now)
  ],
)
perform-Simulates rt (log e up) r = (refl, ap registry (append_event-documents rt e up r))

answers_nothing :
    (w : Write) (a : Option (String × Bool)) (ds ds' : List Document) (cs : List (String × String))
    (xs : List (String × Bool)) (g : Registry)
    → (a ≡ none) × (registry ds' ≡ registry ds)
    → claims cs (registry ds') ≡ (xs, g)
    → claims (with_claim a w cs) (registry ds) ≡ (with_answer a xs, g)
answers_nothing w a ds ds' cs xs g (silent, same) ih = rw (silent, ← same) ih

answers_claim :
    (s : Submission) (id : String) (now : ℕ) (up : Bool) (a : Option (String × Bool))
    (ds ds' : List Document) (cs : List (String × String)) (xs : List (String × Bool))
    (g : Registry)
    → IsClaim s id ds ds' a
    → claims cs (registry ds') ≡ (xs, g)
    → claims (with_claim a (create s id now up) cs) (registry ds) ≡ (with_answer a xs, g)
unfolding claims
answers_claim s id now up a ds ds' cs xs g c ih =
    let rest = sym (ap (claims cs) c.changed) ∙ ih in rw (c.answered, rest)

extend :
    (w : Write) (a : Option (String × Bool)) (ds ds' : List Document) (cs : List (String × String))
    (xs : List (String × Bool)) (g : Registry)
    → Simulates w ds ds' a
    → claims cs (registry ds') ≡ (xs, g)
    → claims (with_claim a w cs) (registry ds) ≡ (with_answer a xs, g)
extend (create s id now up) a ds ds' cs xs g (inl c) ih =
    answers_claim s id now up a ds ds' cs xs g c ih
extend (create s id now up) a ds ds' cs xs g (inr n) ih =
    answers_nothing (create s id now up) a ds ds' cs xs g n ih
extend (set_metadata id m now up) a ds ds' cs xs g n ih =
    answers_nothing (set_metadata id m now up) a ds ds' cs xs g n ih
extend (log e up) a ds ds' cs xs g n ih = answers_nothing (log e up) a ds ds' cs xs g n ih

-- Run on the claims that a list of writes amounts to, the abstract registry gives the answers of
-- the writes, in their order, and ends as the registry that the table shows.
pub history-claims :
    (rt : Runtime) (ws : List Write) (r : Repository)
    → claims (claimed rt ws r) (registry r.db.documents)
      ≡ (answers rt ws r, registry (history rt ws r).db.documents)
unfolding claims claimed answers history
history-claims rt [] r = refl
history-claims rt (w ∷ ws) r =
    extend w (answer rt w r) r.db.documents (perform rt w r).db.documents
      (claimed rt ws (perform rt w r)) _ _ (perform-Simulates rt w r)
      (history-claims rt ws (perform rt w r))
