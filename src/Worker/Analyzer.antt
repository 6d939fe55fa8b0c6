-- ===== src/Worker/Analyzer.antt =====
-- The scores of `AuditBenchmarkAnalyzer` in worker/src/analyzer.py, once a report has been parsed.
pub mod Report
pub mod Scores
pub mod Bounds
mod Tests
use highthroughputingestion.Base.{
  ℕ, ◌+◌, ◌*◌, ◌≤◌, ◌≡◌, true, String, List, [], ◌∷◌, length, str_eq, if◌then◌else◌, arith,
}
use highthroughputingestion.Float.{Float, of_ℕ, min, max, IsIeee}

pub record Framework : Type 0 where
  pub total_controls : ℕ
  pub critical_weight : ℕ
  pub high_weight : ℕ
  pub med_weight : ℕ
  pub low_weight : ℕ

-- `FRAMEWORK_STANDARDS.get(audit_type, FRAMEWORK_STANDARDS["ISO_27001"])`
unfoldable pub framework_standard : String → Framework
framework_standard audit_type =
    if str_eq audit_type "SOC_2_TYPE_II"
    then record {
      total_controls = 64;
      critical_weight = 30;
      high_weight = 18;
      med_weight = 6;
      low_weight = 1;
    }
    else if str_eq audit_type "FEDRAMP_HIGH"
    then record {
      total_controls = 325;
      critical_weight = 40;
      high_weight = 20;
      med_weight = 8;
      low_weight = 2;
    }
    else if str_eq audit_type "PCI_DSS_V4"
    then record {
      total_controls = 250;
      critical_weight = 35;
      high_weight = 18;
      med_weight = 5;
      low_weight = 1;
    }
    else if str_eq audit_type "NIST_CSF"
    then record {
      total_controls = 108;
      critical_weight = 25;
      high_weight = 15;
      med_weight = 5;
      low_weight = 1;
    }
    else record {
      total_controls = 114;
      critical_weight = 25;
      high_weight = 15;
      med_weight = 5;
      low_weight = 1;
    }

pub record SeverityCounts : Type 0 where
  pub critical : ℕ
  pub high : ℕ
  pub medium : ℕ
  pub low : ℕ

-- One finding, by its severity in upper case, which is MEDIUM if it has none.
unfoldable pub count_severity : String → SeverityCounts → SeverityCounts
count_severity sev c =
    if str_eq sev "CRITICAL"
    then record c { critical = c.critical + 1 }
    else if str_eq sev "HIGH"
    then record c { high = c.high + 1 }
    else if str_eq sev "MEDIUM"
    then record c { medium = c.medium + 1 }
    else if str_eq sev "LOW"
    then record c { low = c.low + 1 }
    else record c { medium = c.medium + 1 }

unfoldable pub severity_counts : List String → SeverityCounts → SeverityCounts
severity_counts [] c = c
severity_counts (sev ∷ rest) c = severity_counts rest (count_severity sev c)

unfoldable pub risk_penalty : SeverityCounts → Framework → ℕ
risk_penalty c f =
    c.critical * f.critical_weight
    + c.high * f.high_weight
    + c.medium * f.med_weight
    + c.low * f.low_weight

pub data Grade : Type 0 where
  resilient strong satisfactory remediation_required critical_non_compliance : Grade

module _ (F : Float) where
  unfoldable pub compliance_score : ℕ → F.Carrier
  compliance_score penalty =
      let normalized =
        min F (F.decimal 1000 1)
          (F.mul (F.div (of_ℕ F penalty) (F.decimal 1500 1)) (F.decimal 1000 1)) in
      max F (F.decimal 50 1) (F.round (F.sub (F.decimal 1000 1) normalized) 2)

  unfoldable pub grade : F.Carrier → Grade
  grade score =
      if F.le (of_ℕ F 90) score
      then resilient
      else if F.le (of_ℕ F 80) score
      then strong
      else if F.le (of_ℕ F 70) score
      then satisfactory
      else if F.le (of_ℕ F 60) score
      then remediation_required
      else critical_non_compliance

abbrev pub no_findings : SeverityCounts
no_findings = record { critical = 0; high = 0; medium = 0; low = 0 }

severity_counts-total :
    (sevs : List String) (c : SeverityCounts)
    → let c' = severity_counts sevs c in
      c'.critical + c'.high + c'.medium + c'.low
      ≡ c.critical + c.high + c.medium + c.low + length sevs
unfolding severity_counts count_severity
severity_counts-total [] c = omega arith
severity_counts-total (sev ∷ rest) c =
    ground (arith, severity_counts-total rest (count_severity sev c))

-- Every finding of a report is counted under one severity.
pub findings_counted :
    (sevs : List String)
    → let c = severity_counts sevs no_findings in
      c.critical + c.high + c.medium + c.low ≡ length sevs
findings_counted sevs = omega (arith, severity_counts-total sevs no_findings)

-- The grades from the worst to the best.
abbrev pub rank : Grade → ℕ
rank resilient = 4
rank strong = 3
rank satisfactory = 2
rank remediation_required = 1
rank critical_non_compliance = 0

module _ (F : Float) (I : IsIeee F) where
  -- A report whose score is higher has no worse grade.
  pub grade_mono : (a b : F.Carrier) → F.le a b ≡ true → rank (grade F a) ≤ rank (grade F b)
  unfolding grade
  grade_mono a b h = ground (
    arith,
    I.le_trans (of_ℕ F 90) a b,
    I.le_trans (of_ℕ F 80) a b,
    I.le_trans (of_ℕ F 70) a b,
    I.le_trans (of_ℕ F 60) a b,
  )
