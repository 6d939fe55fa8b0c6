-- ===== src/Worker/Analyzer/Report.antt =====
-- `AuditBenchmarkAnalyzer.analyze` of worker/src/analyzer.py, from the text of a report to its
-- analysis. A text is the list of its code points. Where Python raises an exception the result is
-- `none`.
use highthroughputingestion.Base.{
  ℕ, zero, suc, ◌+◌, ℤ, pos, Bool, Option, none, some, String, str_eq, List, [], ◌∷◌, length, take,
  codes, ◌++◌, if◌then◌else◌,
}
use highthroughputingestion.Float.{Float, of_ℕ, min, max}
use highthroughputingestion.Pdf.{decimal}
use highthroughputingestion.Worker.Analyzer.{
  Framework, framework_standard, SeverityCounts, severity_counts, no_findings, risk_penalty, Grade,
  grade, compliance_score,
}

abbrev pub Text : Type 0
Text = List ℕ

-- A value of `json.loads`; a number with a fraction by its text. `Items` and `Fields` are the lists
-- inside a list and a dict.
mutual
  pub data Json : Type 0 where
    null : Json
    boolean : Bool → Json
    integer : ℤ → Json
    real : Text → Json
    text : Text → Json
    array : Items → Json
    object : Fields → Json

  pub data Items : Type 0 where
    no_items : Items
    item : Json → Items → Items

  pub data Fields : Type 0 where
    no_fields : Fields
    field : String → Json → Fields → Fields

-- What `analyze` uses of Python's library.
pub record TextLibrary : Type 0 where
  -- `json.loads`, and `none` where that raises
  pub loads : Text → Option Json
  pub splitlines : Text → List Text
  -- `not line.strip()`
  pub is_blank : Text → Bool
  pub upper : Text → String

-- `data.get(key, default)`
unfoldable pub get_field : String → Json → Fields → Json
get_field key default no_fields = default
get_field key default (field k v rest) = if str_eq k key then v else get_field key default rest

abbrev pub count_items : Items → ℕ
count_items no_items = 0
count_items (item x xs) = suc (count_items xs)

abbrev pub take_items : ℕ → Items → Items
take_items zero xs = no_items
take_items (suc n) no_items = no_items
take_items (suc n) (item x xs) = item x (take_items n xs)

abbrev pub count_fields : Fields → ℕ
count_fields no_fields = 0
count_fields (field k v rest) = suc (count_fields rest)

-- `len(value)`
unfoldable pub len : Json → Option ℕ
len (text s) = some (length s)
len (array xs) = some (count_items xs)
len (object fs) = some (count_fields fs)
len _ = none

-- `value[:n]`
unfoldable pub prefix : ℕ → Json → Option Json
prefix n (text s) = some (text (take n s))
prefix n (array xs) = some (array (take_items n xs))
prefix n _ = none

-- The variables that the first part of `analyze` assigns.
pub record Contents : Type 0 where
  pub findings : Json
  pub controls_evaluated : Json
  pub executive_summary : Json

abbrev pub default_summary : Text
default_summary = codes "Automated cybersecurity posture audit analysis."

module _ (L : TextLibrary) where
  -- A finding of the text without structure: the line `i`.
  unfoldable pub line_finding : ℕ → Text → Json
  line_finding i line = object (
      field "id" (text (codes "FIND-" ++ decimal (i + 1))) (
        field "severity" (text (codes "MEDIUM")) (
          field "category" (text (codes "General Security"))
            (field "description" (text (take 80 line)) no_fields))))

  unfoldable pub line_findings : ℕ → List Text → Items
  line_findings i [] = no_items
  line_findings i (line ∷ rest) =
      let findings = line_findings (i + 1) rest in
      if L.is_blank line then findings else item (line_finding i line) findings

  unfoldable pub fallback : Text → Framework → Contents
  fallback raw_content f = record {
    findings = array (line_findings 0 (take 3 (L.splitlines raw_content)));
    controls_evaluated = integer (pos f.total_controls);
    executive_summary = text default_summary;
  }

  -- Only a dict has the method `get`.
  unfoldable pub contents_of : Text → Framework → Option Json → Contents
  contents_of raw_content f (some (object report)) = record {
    findings = get_field "findings" (array no_items) report;
    controls_evaluated = get_field "controls_evaluated" (integer (pos f.total_controls)) report;
    executive_summary = get_field "executive_summary" (text default_summary) report;
  }
  contents_of raw_content f _ = fallback raw_content f

  unfoldable pub read_report : Text → Framework → Contents
  read_report raw_content f = contents_of raw_content f (L.loads raw_content)

  -- `f.get("severity", "MEDIUM").upper()`
  abbrev pub upper_of : Json → Option String
  upper_of (text s) = some (L.upper s)
  upper_of _ = none

  unfoldable pub severity_of : Json → Option String
  severity_of (object f) = upper_of (get_field "severity" (text (codes "MEDIUM")) f)
  severity_of _ = none

  abbrev pub before : Option String → Option (List String) → Option (List String)
  before (some sev) (some sevs) = some (sev ∷ sevs)
  before _ _ = none

  unfoldable pub severities : Items → Option (List String)
  severities no_items = some []
  severities (item f rest) = before (severity_of f) (severities rest)

  -- `for f in findings`: the elements of a text and of a dict are texts, without a method `get`.
  unfoldable pub severities_of : Json → Option (List String)
  severities_of (array xs) = severities xs
  severities_of (text []) = some []
  severities_of (object no_fields) = some []
  severities_of _ = none

module _ (F : Float) where
  pub record Analysis : Type 0 where
    pub agency_id : String
    pub audit_type : String
    pub compliance_benchmark_score : F.Carrier
    pub posture_grade : Grade
    pub evidence_sufficiency_score : F.Carrier
    pub total_controls_in_scope : Json
    pub total_findings : ℕ
    pub counts : SeverityCounts
    pub findings_details : Json
    pub executive_summary_excerpt : Json

  -- From the numbers of findings and of characters of the summary.
  unfoldable pub evidence_sufficiency : ℕ → ℕ → F.Carrier
  evidence_sufficiency findings summary =
      let detail_score = min F (F.decimal 1000 1) (
        F.add (F.add (F.decimal 500 1) (F.mul (of_ℕ F findings) (F.decimal 100 1)))
          (F.div (of_ℕ F summary) (F.decimal 100 1))) in
      F.round (min F (F.decimal 1000 1) (max F (F.decimal 200 1) detail_score)) 1

  unfoldable pub analyze_contents :
      Framework → String → String → Contents → List String → ℕ → ℕ → Json → Json → Analysis
  analyze_contents f audit_type agency_id c sevs findings summary details excerpt =
      let counts = severity_counts sevs no_findings in
      let score = compliance_score F (risk_penalty counts f) in
      record {
        agency_id = agency_id;
        audit_type = audit_type;
        compliance_benchmark_score = score;
        posture_grade = grade F score;
        evidence_sufficiency_score = evidence_sufficiency findings summary;
        total_controls_in_scope = c.controls_evaluated;
        total_findings = findings;
        counts = counts;
        findings_details = details;
        executive_summary_excerpt = excerpt;
      }

  abbrev and_then : {A B : Type 0} → Option A → (A → Option B) → Option B
  and_then none f = none
  and_then (some a) f = f a

  unfoldable pub analyze : TextLibrary → Text → String → String → Option Analysis
  analyze L raw_content audit_type agency_id =
      let f = framework_standard audit_type in
      let c = read_report L raw_content f in
      and_then (severities_of L c.findings) λ sevs. and_then (len c.findings) λ findings.
        and_then (len c.executive_summary) λ summary. and_then (prefix 10 c.findings) λ details.
          and_then (prefix 200 c.executive_summary) λ excerpt.
            some (analyze_contents f audit_type agency_id c sevs findings summary details excerpt)
