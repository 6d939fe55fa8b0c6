-- ===== src/Pdf/Report.antt =====
-- scripts/generate_sample_reports.py: the sample reports and `report_as_pdf`. What the module
-- `random` answers is a parameter; a text is the list of its code points.
use highthroughputingestion.Base.{
  ℕ, zero, suc, ◌+◌, ◌-◌, List, [], ◌∷◌, ◌++◌, length, ltb, if◌then◌else◌, codes, Bytes, drop,
  replicate,
}
use highthroughputingestion.Pdf.{decimal, latin_1, join_lines, shown, pdf_objects, assemble}

pub data SampleFramework : Type 0 where
  iso_27001 soc_2_type_ii nist_csf fedramp_high pci_dss_v4 : SampleFramework

pub record Standard : Type 0 where
  pub title : Bytes
  pub controls : ℕ
  pub categories : List Bytes

-- `FRAMEWORKS`
unfoldable pub standard : SampleFramework → Standard
standard iso_27001 = record {
  title = codes "ISO/IEC 27001:2022 Information Security Management System Audit";
  controls = 114;
  categories =
      codes "Access Control"
      ∷ codes "Cryptography"
      ∷ codes "Physical Security"
      ∷ codes "Operations Security"
      ∷ codes "Supplier Relationships"
      ∷ [];
}
standard soc_2_type_ii = record {
  title = codes "SOC 2 Type II Security, Availability & Confidentiality Report";
  controls = 64;
  categories =
      codes "Common Criteria"
      ∷ codes "Logical Access"
      ∷ codes "Change Management"
      ∷ codes "Risk Assessment"
      ∷ [];
}
standard nist_csf = record {
  title = codes "NIST Cybersecurity Framework v2.0 Audit Assessment";
  controls = 108;
  categories =
      codes "Identify"
      ∷ codes "Protect"
      ∷ codes "Detect"
      ∷ codes "Respond"
      ∷ codes "Recover"
      ∷ codes "Govern"
      ∷ [];
}
standard fedramp_high = record {
  title = codes "FedRAMP High Baseline Security Assessment Report (SAR)";
  controls = 325;
  categories =
      codes "AC - Access Control"
      ∷ codes "AU - Audit & Accountability"
      ∷ codes "SC - System & Comms Protection"
      ∷ codes "SI - System Integrity"
      ∷ [];
}
standard pci_dss_v4 = record {
  title = codes "Payment Card Industry Data Security Standard (PCI DSS) v4.0 Report on Compliance";
  controls = 250;
  categories =
      codes "Network Security"
      ∷ codes "Cardholder Data Protection"
      ∷ codes "Vulnerability Management"
      ∷ codes "Strong Access Control"
      ∷ [];
}

pub data Level : Type 0 where
  critical high medium low : Level

-- An entry of `SAMPLE_FINDINGS`.
pub record SampleFinding : Type 0 where
  pub severity : Level
  pub description : Bytes

unfoldable pub sample_findings : List SampleFinding
sample_findings =
    record {
      severity = critical;
      description =
          codes "Unauthenticated API gateway endpoint exposes administrative user directory.";
    }
    ∷ record {
      severity = high;
      description = codes "MFA enforcement bypassed on internal service mesh ingress proxy.";
    }
    ∷ record {
      severity = high;
      description = codes "Database backup snapshots stored in unencrypted storage volume.";
    }
    ∷ record {
      severity = medium;
      description = codes "Password complexity policy lacks special character requirements.";
    }
    ∷ record {
      severity = medium;
      description =
          codes "Session expiration timeout set to 24 hours instead of recommended 15 minutes.";
    }
    ∷ record {
      severity = low;
      description =
          codes "Audit log rotation retention period configured for 90 days instead of 180 days.";
    }
    ∷ record {
      severity = low;
      description =
          codes
            "Minor formatting discrepancy in third-party vendor risk assessment questionnaires.";
    }
    ∷ []

pub record ReportFinding : Type 0 where
  pub id : Bytes
  pub level : Level
  pub category : Bytes
  pub description : Bytes
  pub remediation_sla_days : ℕ

pub record AuditReport : Type 0 where
  pub agency_id : Bytes
  pub audit_type : SampleFramework
  pub report_title : Bytes
  pub report_year : ℕ
  pub auditor_org : Bytes
  pub controls_evaluated : ℕ
  pub executive_summary : Bytes
  pub findings : List ReportFinding

-- The answers of `random` in one call of `generate_report`.
pub record Draws : Type 0 where
  -- `random.randint(0, 5)`
  pub num_findings : ℕ
  -- `random.sample`
  pub sample : List SampleFinding → ℕ → List SampleFinding
  -- `random.choice` for the finding at an index
  pub choice : ℕ → List Bytes → Bytes
  -- `random.randint(1, 20)`
  pub authority : ℕ

unfoldable pub sla_days : Level → ℕ
sla_days critical = 7
sla_days high = 30
sla_days medium = 90
sla_days low = 90

-- `f"{n:03d}"`
unfoldable pub three_digits : ℕ → Bytes
three_digits n = replicate (3 - length (decimal n)) b'0' ++ decimal n

-- `agency_id[-4:]`
unfoldable pub last_four : Bytes → Bytes
last_four text = drop (length text - 4) text

unfoldable pub numbered : Draws → Bytes → Standard → ℕ → List SampleFinding → List ReportFinding
numbered d agency_id fw idx [] = []
numbered d agency_id fw idx (f ∷ rest) =
    record {
      id = codes "FIND-" ++ (last_four agency_id ++ (codes "-" ++ three_digits (idx + 1)));
      level = f.severity;
      category = d.choice idx fw.categories;
      description = f.description;
      remediation_sla_days = sla_days f.severity;
    }
    ∷ numbered d agency_id fw (idx + 1) rest

unfoldable pub generate_report : Draws → Bytes → SampleFramework → AuditReport
generate_report d agency_id name =
    let fw = standard name in
    let wanted =
      if ltb (length sample_findings) d.num_findings
      then length sample_findings
      else d.num_findings in
    let findings = numbered d agency_id fw 0 (d.sample sample_findings wanted) in
    record {
      agency_id = agency_id;
      audit_type = name;
      report_title = fw.title;
      report_year = 2026;
      auditor_org = codes "Global Cybersecurity Audit Authority #" ++ decimal d.authority;
      controls_evaluated = fw.controls;
      executive_summary =
          codes "Independent cybersecurity assessment conducted for "
          ++ (agency_id
              ++ (codes ". Evaluated "
                  ++ (decimal fw.controls
                      ++ (codes " controls across standard domains with "
                          ++ (decimal (length findings)
                              ++ codes " non-conformances identified.")))));
      findings = findings;
    }

unfoldable pub level_name : Level → Bytes
level_name critical = codes "CRITICAL"
level_name high = codes "HIGH"
level_name medium = codes "MEDIUM"
level_name low = codes "LOW"

unfoldable pub finding_lines : List ReportFinding → List Bytes
finding_lines [] = []
finding_lines (f ∷ rest) =
    (level_name f.level ++ (codes ": " ++ f.description)) ∷ finding_lines rest

unfoldable pub no_finding_line : List ReportFinding → List Bytes
no_finding_line [] = codes "No findings identified in this sample assessment." ∷ []
no_finding_line (f ∷ rest) = []

unfoldable pub report_lines : AuditReport → List Bytes
report_lines r =
    (r.report_title
      ∷ (codes "Agency: " ++ r.agency_id)
      ∷ (codes "Auditor: " ++ r.auditor_org)
      ∷ (codes "Reporting year: " ++ decimal r.report_year)
      ∷ (codes "Controls evaluated: " ++ decimal r.controls_evaluated)
      ∷ []
      ∷ codes "Executive summary"
      ∷ r.executive_summary
      ∷ []
      ∷ codes "Findings"
      ∷ finding_lines r.findings)
    ++ no_finding_line r.findings

-- What the loop over the numbered lines appends to `content`.
unfoldable pub shown_lines : ℕ → List Bytes → List Bytes
shown_lines number [] = []
shown_lines zero (line ∷ rest) =
    shown line ∷ codes "0 -19 Td" ∷ codes "/F1 10 Tf" ∷ shown_lines 1 rest
shown_lines (suc number) (line ∷ rest) =
    shown line ∷ codes "0 -15 Td" ∷ shown_lines (suc (suc number)) rest

unfoldable pub report_content : AuditReport → Bytes
report_content r = latin_1 (
    join_lines (
      (codes "BT" ∷ codes "/F1 15 Tf" ∷ codes "54 748 Td" ∷ shown_lines 0 (report_lines r))
      ++ (codes "ET" ∷ [])))

unfoldable pub report_as_pdf : AuditReport → Bytes
report_as_pdf r = assemble (pdf_objects (report_content r))
