-- ===== src/Worker/Analyzer/Bounds.antt =====
-- The scores of a report lie in their ranges, and its findings are all counted.
use highthroughputingestion.Base.{
  ℕ, zero, suc, ◌+◌, ◌≤◌, ◌≡◌, refl, sym, ◌∙◌, true, Option, none, some, String, List, [], ◌∷◌,
  length, take, codes, arith, ap, count-le-length, count, not, replicate, length-replicate, inl,
  inr, Bool-cases,
}
use highthroughputingestion.Float.{Float, of_ℕ, IsIeee}
use highthroughputingestion.Worker.Analyzer.{
  Framework, framework_standard, SeverityCounts, count_severity, severity_counts, no_findings,
  risk_penalty, findings_counted,
}
use highthroughputingestion.Worker.Analyzer.Report.{
  Json, null, boolean, integer, real, text, array, object, Items, no_items, item, Text, TextLibrary,
  get_field, count_items, take_items, len, prefix, Contents, default_summary, line_finding,
  line_findings, fallback, contents_of, read_report, severity_of, severities, severities_of,
  Analysis, analyze_contents, analyze,
}
use highthroughputingestion.Worker.Analyzer.Scores.{
  evidence_sufficiency-Within, compliance_score-Within,
}

-- The findings of a report can be counted: each is a dict whose severity, if it has one, is a text.
abbrev pub IsFinding : Json → Type 0
IsFinding (object f) = (s : Text) × (get_field "severity" (text (codes "MEDIUM")) f ≡ text s)
IsFinding _ = ⊥

abbrev pub AllFindings : Items → Type 0
AllFindings no_items = Unit {0}
AllFindings (item f rest) = IsFinding f × AllFindings rest

-- Sound numbers of an analysis.
pub record IsSound {F : Float} (a : Analysis F) : Type 0 where
  pub counted : let c = a.counts in c.critical + c.high + c.medium + c.low ≡ a.total_findings
  pub compliance_low : F.le (of_ℕ F 5) a.compliance_benchmark_score ≡ true
  pub compliance_high : F.le a.compliance_benchmark_score (of_ℕ F 100) ≡ true
  pub evidence_low : F.le (of_ℕ F 20) a.evidence_sufficiency_score ≡ true
  pub evidence_high : F.le a.evidence_sufficiency_score (of_ℕ F 100) ≡ true

module _ (F : Float) (L : TextLibrary) (raw_content : Text) (audit_type agency_id : String) where
  abbrev contents : Contents
  contents = read_report L raw_content (framework_standard audit_type)

  -- The analysis of a report with these findings, by their severities.
  abbrev pub HasAnalysis : Items → List String → Type 0
  HasAnalysis findings sevs =
      (a : Analysis F) × (analyze F L raw_content audit_type agency_id ≡ some a)
      × (a.total_findings ≡ count_items findings)
      × (a.counts ≡ severity_counts sevs no_findings)
      × (a.findings_details ≡ array (take_items 10 findings))
      × IsSound a

  contents-HasAnalysis :
      (I : IsIeee F) (findings : Items) (summary : Text) (sevs : List String)
      → contents.findings ≡ array findings
      → contents.executive_summary ≡ text summary
      → severities L findings ≡ some sevs
      → length sevs ≡ count_items findings
      → HasAnalysis findings sevs
  unfolding analyze analyze_contents severities_of len prefix
  contents-HasAnalysis I findings summary sevs is_list is_text readable counted =
      let score =
        compliance_score-Within F I
          (risk_penalty (severity_counts sevs no_findings) (framework_standard audit_type)) in
      let evidence = evidence_sufficiency-Within F I (count_items findings) (length summary) in
      rw (is_list, is_text, readable)
        (
          _,
          refl,
          refl,
          refl,
          refl,
          record {
            counted = findings_counted sevs ∙ counted;
            compliance_low = score.0;
            compliance_high = score.1;
            evidence_low = evidence.0;
            evidence_high = evidence.1;
          },
        )

-- A text that is not a JSON object.
abbrev pub IsUnstructured : Option Json → Type 0
IsUnstructured (some (object _)) = ⊥
IsUnstructured _ = Unit {0}

fallback-contents :
    (L : TextLibrary) (raw_content : Text) (f : Framework) (parsed : Option Json)
    → IsUnstructured parsed
    → contents_of L raw_content f parsed ≡ fallback L raw_content f
unfolding contents_of
fallback-contents L raw f none h = refl
fallback-contents L raw f (some (object _)) h = absurd h
fallback-contents L raw f (some null) h = refl
fallback-contents L raw f (some (boolean _)) h = refl
fallback-contents L raw f (some (integer _)) h = refl
fallback-contents L raw f (some (real _)) h = refl
fallback-contents L raw f (some (text _)) h = refl
fallback-contents L raw f (some (array _)) h = refl

module _ (L : TextLibrary) where
  abbrev filled : List Text → ℕ
  filled lines = count (λ line. not (L.is_blank line)) lines

  count-line_findings :
      (i : ℕ) (lines : List Text) → count_items (line_findings L i lines) ≡ filled lines
  unfolding line_findings
  count-line_findings i [] = refl
  count-line_findings i (line ∷ rest) = ground (arith, count-line_findings (i + 1) rest)

  severities-line_findings :
      (i : ℕ) (lines : List Text)
      → severities L (line_findings L i lines)
        ≡ some (replicate (filled lines) (L.upper (codes "MEDIUM")))
  unfolding severities line_findings line_finding severity_of get_field
  severities-line_findings i [] = refl
  severities-line_findings i (line ∷ rest) = elim (Bool-cases (L.is_blank line)) [
    | inl blank ↦ rw blank (severities-line_findings (i + 1) rest)
    | inr shown ↦ rw (shown, severities-line_findings (i + 1) rest) refl
  ]

medium_only :
    (n : ℕ) (c : SeverityCounts)
    → severity_counts (replicate n "MEDIUM") c ≡ record c { medium = c.medium + n }
unfolding severity_counts count_severity
medium_only zero c =
    let e : c.medium ≡ c.medium + 0 = omega arith in ap (λ m. record c { medium = m }) e
medium_only (suc n) c =
    let e : c.medium + 1 + n ≡ c.medium + suc n = omega arith in
    medium_only n (record c { medium = c.medium + 1 }) ∙ ap (λ m. record c { medium = m }) e

take-le : {A : Type 0} (n : ℕ) (xs : List A) → length (take n xs) ≤ n
take-le zero xs = omega arith
take-le (suc n) [] = omega arith
take-le (suc n) (x ∷ xs) = omega (arith, take-le n xs)

-- A text that is not a JSON object is analysed too: each line with content among its first three is
-- a finding of medium severity, there is no other finding, and the scores lie in their ranges. Of
-- Python's `upper` it is assumed that it keeps MEDIUM.
pub plain_text_analyzed :
    (F : Float) (I : IsIeee F) (L : TextLibrary) (raw_content : Text)
    (audit_type agency_id : String)
    → IsUnstructured (L.loads raw_content)
    → L.upper (codes "MEDIUM") ≡ "MEDIUM"
    → let n = filled L (take 3 (L.splitlines raw_content)) in
      (a : Analysis F) × (analyze F L raw_content audit_type agency_id ≡ some a)
      × (a.total_findings ≡ n)
      × (n ≤ 3)
      × (a.counts ≡ record { critical = 0; high = 0; medium = n; low = 0 })
      × IsSound a
unfolding read_report fallback
plain_text_analyzed F I L raw_content audit_type agency_id plain upper =
    let f = framework_standard audit_type in
    let lines = take 3 (L.splitlines raw_content) in
    let read = fallback-contents L raw_content f (L.loads raw_content) plain in
    let found =
      contents-HasAnalysis F L raw_content audit_type agency_id I (line_findings L 0 lines)
        default_summary (replicate (filled L lines) (L.upper (codes "MEDIUM"))) (rw read refl)
        (rw read refl) (severities-line_findings L 0 lines)
        (length-replicate _ _ ∙ sym (count-line_findings L 0 lines)) in
    let sum : 0 + filled L lines ≡ filled L lines = omega arith in
    let few = take-le 3 (L.splitlines raw_content) in
    let counts = ap (λ sev. severity_counts (replicate (filled L lines) sev) no_findings) upper in
    (
      found.0,
      found.1,
      found.2 ∙ count-line_findings L 0 lines,
      omega (arith, few, count-le-length (λ line. not (L.is_blank line)) lines),
      found.3
          ∙ counts
          ∙ medium_only (filled L lines) no_findings
          ∙ ap (λ m. record no_findings { medium = m }) sum,
      found.5,
    )
