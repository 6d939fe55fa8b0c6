-- ===== src/Api/Request.antt =====
-- What `ingest_audit_report` (api/src/main.py) reads from a request. The agency, the audit type and
-- the auditor of a JSON body are texts where they are present, and its key is a text or null, as the
-- API documents them: a body in which they are something else is not modelled. A missing field and,
-- for the key and the content, a null are `none`.
use text.Mathlib.Text.{find?}
use highthroughputingestion.Base.{
  ℕ, ℤ, pos, String, Bool, Option, none, some, List, [], ◌∷◌, is_some, or_default, if◌then◌else◌,
}
use highthroughputingestion.Base.{Result, returned, raised, value_error, bad_request}

pub record JsonBody : Type 0 where
  pub agency_id : Option String
  pub audit_type : Option String
  -- `int(...)` of the field, and `none` where that raises
  pub report_year : Option (Option ℤ)
  pub auditor_org : Option String
  pub idempotency_key : Option String
  -- the bytes of `content_raw`, if it is there and not null, and `some none` where `encode` raises
  pub content_raw : Option (Option (List ℕ))
  -- the bytes of the body dumped with sorted keys
  pub dumped : List ℕ

pub record FormBody : Type 0 where
  pub agency_id : Option String
  pub audit_type : Option String
  pub report_year : Option (Option ℤ)
  pub auditor_org : Option String
  pub idempotency_key : Option String
  -- the bytes of the uploaded `file`
  pub file : Option (List ℕ)
  -- the bytes of "agency:audit type:year"
  pub described : List ℕ

pub record Request : Type 0 where
  pub content_type : String
  -- `await request.json()`, and `none` where that raises
  pub json : Option JsonBody
  -- `await request.form()`, and `none` where that raises
  pub form : Option FormBody
  pub body : List ℕ
  pub query_agency : Option String

-- The variables of the handler after the request has been read.
pub record Parsed : Type 0 where
  pub agency_id : String
  pub audit_type : String
  pub report_year : ℤ
  pub auditor_org : String
  pub idempotency_key : Option String
  pub content : List ℕ

-- `b"{}"`
abbrev pub empty_object : List ℕ
empty_object = b'{' ∷ b'}' ∷ []

abbrev pub defaults : Parsed
defaults = record {
  agency_id = "agency_default";
  audit_type = "ISO_27001";
  report_year = pos 2026;
  auditor_org = "Global Cyber Auditing Practice";
  idempotency_key = none;
  content = [];
}

-- `needle in text`
abbrev pub is_in : String → String → Bool
is_in needle text = is_some (find? text needle)

-- The rest of the JSON branch, from the value of `int(body.get("report_year", 2026))`. What was
-- assigned before an exception stays assigned.
unfoldable pub json_year : JsonBody → Option ℤ → Parsed
json_year b none = record defaults {
  agency_id = or_default b.agency_id "agency_default";
  audit_type = or_default b.audit_type "ISO_27001";
  content = empty_object;
}
json_year b (some year) = record {
  agency_id = or_default b.agency_id "agency_default";
  audit_type = or_default b.audit_type "ISO_27001";
  report_year = year;
  auditor_org = or_default b.auditor_org "Global Cyber Auditing Practice";
  idempotency_key = b.idempotency_key;
  content = or_default (or_default b.content_raw (some b.dumped)) empty_object;
}

unfoldable pub parse_json : Option JsonBody → Parsed
unfolding json_year
parse_json none = record defaults { content = empty_object }
parse_json (some b) = json_year b (or_default b.report_year (some (pos 2026)))

unfoldable pub form_year : FormBody → Option ℤ → Result Parsed
form_year b none = raised value_error
form_year b (some year) = returned (record {
  agency_id = or_default b.agency_id "agency_default";
  audit_type = or_default b.audit_type "ISO_27001";
  report_year = year;
  auditor_org = or_default b.auditor_org "Global Cyber Auditing Practice";
  idempotency_key = b.idempotency_key;
  content = or_default b.file b.described;
})

-- A body that is no form is answered with 400.
unfoldable pub parse_form : Option FormBody → Result Parsed
unfolding form_year
parse_form none = raised bad_request
parse_form (some b) = form_year b (or_default b.report_year (some (pos 2026)))

-- `raw_body or b"{}"`
unfoldable pub raw_content : List ℕ → List ℕ
raw_content [] = empty_object
raw_content (b ∷ bs) = b ∷ bs

unfoldable pub parse_request : Request → Result Parsed
unfolding parse_json parse_form raw_content
parse_request q =
    if is_in "application/json" q.content_type
    then returned (parse_json q.json)
    else if is_in "multipart/form-data" q.content_type
    then parse_form q.form
    else returned (record defaults {
      content = raw_content q.body;
      agency_id = or_default q.query_agency "agency_default";
    })
