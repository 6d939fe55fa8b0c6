-- ===== src/Pdf.antt =====
-- The PDF files that the dashboard and a script write without a library: `create_simple_pdf` of
-- dashboard/src/app.py and `report_as_pdf` of scripts/generate_sample_reports.py. A text is the
-- list of its code points. Both functions assemble the file by the same loop.
pub mod Decimal
pub mod Escape
pub mod Xref
pub mod Report
mod Tests
use highthroughputingestion.Base.{
  ℕ, zero, suc, ◌+◌, ◌-◌, ◌/◌, ◌%◌, String, List, [], ◌∷◌, ◌++◌, map, length, ltb, ◌==◌,
  if◌then◌else◌, codes, Bytes, replicate,
}

-- `str(n)`, by its digits; `n` rounds are enough.
abbrev digit : ℕ → ℕ
digit d = b'0' + d

unfoldable pub digits : ℕ → ℕ → Bytes
digits zero n = digit n ∷ []
digits (suc rounds) n =
    let high = digits rounds (n / 10) in
    if ltb n 10 then digit n ∷ [] else high ++ (digit (n % 10) ∷ [])

unfoldable pub decimal : ℕ → Bytes
decimal n = digits n n

-- `f"{offset:010}"`
unfoldable pub padded : ℕ → Bytes
padded n = replicate (10 - length (decimal n)) b'0' ++ decimal n

-- `value.replace(c, text)` for one character
unfoldable pub replace : ℕ → Bytes → Bytes → Bytes
replace c text [] = []
replace c text (x ∷ xs) = (if x == c then text else x ∷ []) ++ replace c text xs

-- The function `pdf_text` of the one file, `escape` of the other.
unfoldable pub pdf_text : Bytes → Bytes
pdf_text value =
    replace b')' (b'\\' ∷ b')' ∷ [])
      (replace b'(' (b'\\' ∷ b'(' ∷ []) (replace b'\\' (b'\\' ∷ b'\\' ∷ []) value))

-- `.encode("latin-1", "replace")`
unfoldable pub latin_1 : Bytes → Bytes
latin_1 text = map (λ c. if ltb c 256 then c else b'?') text

-- `"\n".join(lines)`
unfoldable pub join_lines : List Bytes → Bytes
join_lines [] = []
join_lines (line ∷ []) = line
join_lines (line ∷ next ∷ rest) = line ++ (b'\n' ∷ join_lines (next ∷ rest))

-- `f"({pdf_text(text)}) Tj"`
unfoldable pub shown : Bytes → Bytes
shown text = (b'(' ∷ pdf_text text) ++ codes ") Tj"

unfoldable pub line_parts : List Bytes → List Bytes
line_parts [] = []
line_parts (line ∷ rest) = codes "0 -22 Td" ∷ shown line ∷ line_parts rest

unfoldable pub content_stream : Bytes → List Bytes → Bytes
content_stream title lines = latin_1 (
    join_lines (
      (codes "BT"
        ∷ codes "/F1 18 Tf"
        ∷ codes "72 750 Td"
        ∷ shown title
        ∷ codes "/F1 10 Tf"
        ∷ line_parts lines)
      ++ (codes "ET" ∷ [])))

-- The five objects of a file, around its content stream.
unfoldable pub pdf_objects : Bytes → List Bytes
pdf_objects stream =
    codes "<< /Type /Catalog /Pages 2 0 R >>"
    ∷ codes "<< /Type /Pages /Kids [3 0 R] /Count 1 >>"
    ∷ codes
        "<< /Type /Page /Parent 2 0 R /MediaBox [0 0 612 792] /Resources << /Font << /F1 5 0 R >> >> /Contents 4 0 R >>"
    ∷ (codes "<< /Length "
        ++ decimal (length stream)
        ++ codes " >>\nstream\n"
        ++ stream
        ++ codes "\nendstream")
    ∷ codes "<< /Type /Font /Subtype /Type1 /BaseFont /Helvetica >>"
    ∷ []

-- `f"{index} 0 obj\n".encode() + obj + b"\nendobj\n"`
unfoldable pub object_bytes : ℕ → Bytes → Bytes
object_bytes index obj = decimal index ++ codes " 0 obj\n" ++ obj ++ codes "\nendobj\n"

-- What the loop appends to `output`, from an index on.
unfoldable pub written : ℕ → List Bytes → Bytes
written index [] = []
written index (obj ∷ rest) = object_bytes index obj ++ written (index + 1) rest

-- What it appends to `offsets`, where `at` is the length of `output`.
unfoldable pub offsets : ℕ → ℕ → List Bytes → List ℕ
offsets at index [] = []
offsets at index (obj ∷ rest) = at ∷ offsets (at + length (object_bytes index obj)) (index + 1) rest

abbrev pub header : Bytes
header = codes "%PDF-1.4\n"

-- `output` before the table
unfoldable pub pdf_body : List Bytes → Bytes
pdf_body objects = header ++ written 1 objects

-- `f"{offset:010} 00000 n \n"`
unfoldable pub xref_entry : ℕ → Bytes
xref_entry offset = padded offset ++ codes " 00000 n \n"

unfoldable pub xref_entries : List ℕ → Bytes
xref_entries [] = []
xref_entries (offset ∷ rest) = xref_entry offset ++ xref_entries rest

unfoldable pub xref_head : List Bytes → Bytes
xref_head objects =
    codes "xref\n0 " ++ decimal (length objects + 1) ++ codes "\n0000000000 65535 f \n"

unfoldable pub trailer : List Bytes → Bytes
trailer objects =
    codes "trailer\n<< /Size "
    ++ decimal (length objects + 1)
    ++ codes " /Root 1 0 R >>\nstartxref\n"
    ++ decimal (length (pdf_body objects))
    ++ codes "\n%%EOF"

-- The loop, the table and the trailer.
unfoldable pub assemble : List Bytes → Bytes
assemble objects =
    pdf_body objects
    ++ (xref_head objects ++ (xref_entries (offsets (length header) 1 objects) ++ trailer objects))

unfoldable pub create_simple_pdf : Bytes → List Bytes → Bytes
create_simple_pdf title lines = assemble (pdf_objects (content_stream title lines))
