-- ===== src/Worker/Analyzer/Tests.antt =====
-- Concrete reports, analysed in the fixed-point arithmetic.
use highthroughputingestion.Base.{
  ◌≡◌, refl, Bool, true, false, Option, none, some, String, [], ◌∷◌, length, codes, ltb,
  if◌then◌else◌, ◌≤◌,
}
use highthroughputingestion.Float.Fixed.{fixed, fixed-IsIeee}
use highthroughputingestion.Worker.Analyzer.Report.{
  Json, text, array, object, Items, no_items, item, Fields, no_fields, field, Text, TextLibrary,
  Analysis, analyze,
}
use highthroughputingestion.Worker.Analyzer.Bounds.{IsSound, plain_text_analyzed}

-- The severities, told apart by their lengths.
abbrev upper_sample : Text → String
upper_sample s =
    if ltb 7 (length s)
    then "CRITICAL"
    else if ltb 4 (length s)
    then "MEDIUM"
    else if ltb 3 (length s)
    then "HIGH"
    else "LOW"

abbrev is_empty : Text → Bool
is_empty [] = true
is_empty (_ ∷ _) = false

abbrev library : Option Json → TextLibrary
library parsed = record {
  loads = λ raw. parsed;
  splitlines = λ raw. raw ∷ [] ∷ codes "second line" ∷ codes "third line" ∷ [];
  is_blank = is_empty;
  upper = upper_sample;
}

abbrev findings : Items
findings =
    item (object (field "severity" (text (codes "high")) no_fields))
      (item (object (field "id" (text (codes "FIND-9")) no_fields)) no_items)

abbrev sample_json : Fields
sample_json = field "findings" (array findings) no_fields

plain_text_analyzed_example :
    (a : Analysis fixed) × (analyze fixed (library none) (codes "first line") "ISO_27001" "agency-1"
      ≡ some a)
    × (a.total_findings ≡ 2)
    × (2 ≤ 3)
    × (a.counts ≡ record { critical = 0; high = 0; medium = 2; low = 0 })
    × IsSound a
plain_text_analyzed_example =
    plain_text_analyzed fixed fixed-IsIeee (library none) (codes "first line") "ISO_27001"
      "agency-1" tt refl
