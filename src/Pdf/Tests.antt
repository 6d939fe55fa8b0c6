-- ===== src/Pdf/Tests.antt =====
-- Concrete files.
use highthroughputingestion.Base.{
  ◌+◌, ◌≡◌, refl, List, [], ◌∷◌, ◌++◌, map, codes, Bytes, arith, length, ◌==◌, if◌then◌else◌,
}
use highthroughputingestion.Pdf.{
  latin_1, object_bytes, pdf_body, xref_head, assemble, content_stream, digits, decimal, written,
  replace, pdf_text, padded,
}
use highthroughputingestion.Pdf.Report.{
  Draws, generate_report, nist_csf, standard, sample_findings, numbered,
}
use highthroughputingestion.Pdf.Escape.{outside, strings, strings-content_stream}
use highthroughputingestion.Pdf.Xref.{find_object, find_object-assemble}

abbrev objects : List Bytes
objects = codes "<< >>" ∷ codes "endobj" ∷ []

find_object-assemble_example :
    (after : Bytes) × (find_object
        (length (pdf_body objects) + length (xref_head objects))
        1
        (assemble objects)
      ≡ object_bytes 2 (codes "endobj") ++ after)
unfolding pdf_body written object_bytes decimal digits
find_object-assemble_example = find_object-assemble objects 1 (codes "endobj") (omega arith) refl

abbrev lines : List Bytes
lines = codes "a (b) \\ c" ∷ codes ")" ∷ []

strings-content_stream_example :
    strings outside (content_stream (codes "Report (1)") lines)
    ≡ latin_1 (codes "Report (1)") ∷ map latin_1 lines
strings-content_stream_example = strings-content_stream (codes "Report (1)") lines

abbrev draws : Draws
draws = record {
  num_findings = 9;
  sample = λ all n. if n == 7 then all else [];
  choice = λ i all. [];
  authority = 7;
}

-- At most the seven sample findings are drawn.
findings_run : length (generate_report draws (codes "agency-gov-001") nist_csf).findings ≡ 7
unfolding generate_report standard sample_findings numbered
findings_run = refl

-- The padded numbers and the escapes of two small texts.
padded_run : padded 1042 ≡ codes "0000001042"
unfolding padded decimal digits
padded_run = refl

pdf_text_run : pdf_text (codes "(\\)") ≡ codes "\\(\\\\\\)"
unfolding pdf_text replace
pdf_text_run = refl
