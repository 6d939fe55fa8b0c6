-- ===== src/Pdf/Escape.antt =====
-- The texts in the content stream of a PDF file are read back as they were.
use mathlib.Core.List.{append_assoc, append-nil}
use highthroughputingestion.Base.{
  ℕ, zero, suc, ◌≡◌, refl, ap, ◌∙◌, List, [], ◌∷◌, ◌++◌, map, ltb, ◌==◌, if◌then◌else◌, codes,
  Bytes, arith,
}
use highthroughputingestion.Pdf.{
  replace, pdf_text, latin_1, shown, join_lines, line_parts, content_stream,
}
use highthroughputingestion.Pdf.Report.{AuditReport, shown_lines, report_lines, report_content}

-- Where a reader of a content stream stands: a literal string starts at a parenthesis, a backslash
-- takes the next character as it is, and a closing parenthesis ends the string.
pub data Mode : Type 0 where
  outside : Mode
  inside : Bytes → Mode
  escaped : Bytes → Mode
  broken : Mode

unfoldable step : Mode → ℕ → Mode
step outside c = if c == b'(' then inside [] else outside
step (inside read) c =
    if c == b'\\'
    then escaped read
    else if c == b')'
    then outside
    else if c == b'('
    then broken
    else inside (read ++ (c ∷ []))
step (escaped read) c = inside (read ++ (c ∷ []))
step broken c = broken

unfoldable ended : Mode → ℕ → List Bytes
ended (inside read) c = if c == b')' then read ∷ [] else []
ended mode c = []

-- The strings of a stream.
unfoldable pub strings : Mode → Bytes → List Bytes
unfolding step ended
strings mode [] = []
strings mode (c ∷ rest) = ended mode c ++ strings (step mode c) rest

-- One character of `pdf_text`.
hidden : ℕ → Bytes
hidden c =
    if c == b'\\'
    then b'\\' ∷ b'\\' ∷ []
    else if c == b'('
    then b'\\' ∷ b'(' ∷ []
    else if c == b')'
    then b'\\' ∷ b')' ∷ []
    else c ∷ []

-- The three replacements do not disturb each other.
pdf_text-cons : (c : ℕ) (text : Bytes) → pdf_text (c ∷ text) ≡ hidden c ++ pdf_text text
unfolding pdf_text replace hidden
pdf_text-cons c text = ground arith

latin_1-append : (xs ys : Bytes) → latin_1 (xs ++ ys) ≡ latin_1 xs ++ latin_1 ys
unfolding latin_1
latin_1-append [] ys = refl
latin_1-append (x ∷ xs) ys = cc (latin_1-append xs ys)

-- The character that Latin-1 writes.
abbrev written_as : ℕ → ℕ
written_as c = if ltb c 256 then c else b'?'

latin_1-hidden : (c : ℕ) → latin_1 (hidden c) ≡ hidden (written_as c)
unfolding latin_1 hidden
latin_1-hidden c = ground arith

strings-hidden :
    (c : ℕ) (rest read : Bytes)
    → strings (inside read) (hidden c ++ rest) ≡ strings (inside (read ++ (c ∷ []))) rest
unfolding strings hidden
strings-hidden c rest read = ground arith

strings-pdf_text :
    (text rest read : Bytes)
    → strings (inside read) (latin_1 (pdf_text text) ++ (b')' ∷ rest))
      ≡ (read ++ latin_1 text) ∷ strings outside rest
unfolding latin_1 pdf_text replace strings
strings-pdf_text [] rest read = rw (append-nil read)
strings-pdf_text (c ∷ text) rest read =
    let e = written_as c in
    ap (λ t. strings (inside read) (t ++ (b')' ∷ rest)))
      (ap latin_1 (pdf_text-cons c text)
        ∙ latin_1-append (hidden c) (pdf_text text)
        ∙ ap (λ t. t ++ latin_1 (pdf_text text)) (latin_1-hidden c))
    ∙ ap (strings (inside read)) (append_assoc (hidden e) (latin_1 (pdf_text text)) (b')' ∷ rest))
    ∙ strings-hidden e (latin_1 (pdf_text text) ++ (b')' ∷ rest)) read
    ∙ strings-pdf_text text rest (read ++ (e ∷ []))
    ∙ ap (λ t. t ∷ strings outside rest) (append_assoc read (e ∷ []) (latin_1 text))

strings-shown :
    (text rest : Bytes)
    → strings outside (latin_1 (shown text ++ rest)) ≡ latin_1 text ∷ strings outside (latin_1 rest)
unfolding shown strings latin_1
strings-shown text rest =
    ap (λ t. strings (inside []) t)
      (ap latin_1 (append_assoc (pdf_text text) (codes ") Tj") rest)
        ∙ latin_1-append (pdf_text text) (codes ") Tj" ++ rest))
    ∙ strings-pdf_text text (codes " Tj" ++ latin_1 rest) []

abbrev read_lines : Bytes → List Bytes
read_lines text = strings outside (latin_1 text)

join_lines-cons :
    (line last : Bytes) (lines : List Bytes)
    → join_lines (line ∷ (lines ++ (last ∷ [])))
      ≡ line ++ (b'\n' ∷ join_lines (lines ++ (last ∷ [])))
unfolding join_lines
join_lines-cons line last [] = refl
join_lines-cons line last (x ∷ lines) = refl

-- Lines of a stream that hold no string, and lines that show one.
strings-line :
    (text last : Bytes) (lines : List Bytes)
    → strings outside (latin_1 (join_lines (shown text ∷ (lines ++ (last ∷ [])))))
      ≡ latin_1 text ∷ strings outside (latin_1 (join_lines (lines ++ (last ∷ []))))
unfolding strings latin_1
strings-line text last lines =
    ap (λ t. strings outside (latin_1 t)) (join_lines-cons (shown text) last lines)
    ∙ strings-shown text (b'\n' ∷ join_lines (lines ++ (last ∷ [])))

strings-line_parts :
    (lines : List Bytes)
    → strings outside (latin_1 (join_lines (line_parts lines ++ (codes "ET" ∷ []))))
      ≡ map latin_1 lines
unfolding line_parts strings latin_1 join_lines
strings-line_parts [] = refl
strings-line_parts (line ∷ lines) =
    strings-line line (codes "ET") (line_parts lines)
    ∙ ap (λ t. latin_1 line ∷ t) (strings-line_parts lines)

-- The stream of `create_simple_pdf` shows the title and the lines, in this order and whatever
-- parentheses and backslashes they hold; a character that Latin-1 lacks is shown as `?`.
pub strings-content_stream :
    (title : Bytes) (lines : List Bytes)
    → strings outside (content_stream title lines) ≡ latin_1 title ∷ map latin_1 lines
unfolding content_stream strings latin_1 join_lines
strings-content_stream title lines =
    strings-line title (codes "ET") (codes "/F1 10 Tf" ∷ line_parts lines)
    ∙ ap (λ t. latin_1 title ∷ t)
        (ap read_lines (join_lines-cons (codes "/F1 10 Tf") (codes "ET") (line_parts lines))
          ∙ strings-line_parts lines)

strings-shown_lines :
    (number : ℕ) (lines : List Bytes)
    → strings outside (latin_1 (join_lines (shown_lines number lines ++ (codes "ET" ∷ []))))
      ≡ map latin_1 lines
unfolding shown_lines strings latin_1 join_lines
strings-shown_lines number [] = refl
strings-shown_lines zero (line ∷ lines) =
    strings-line line (codes "ET") (codes "0 -19 Td" ∷ codes "/F1 10 Tf" ∷ shown_lines 1 lines)
    ∙ ap (λ t. latin_1 line ∷ t)
        (ap read_lines (join_lines-cons (codes "/F1 10 Tf") (codes "ET") (shown_lines 1 lines))
          ∙ strings-shown_lines 1 lines)
strings-shown_lines (suc number) (line ∷ lines) =
    strings-line line (codes "ET") (codes "0 -15 Td" ∷ shown_lines (suc (suc number)) lines)
    ∙ ap (λ t. latin_1 line ∷ t)
        (ap read_lines
            (join_lines-cons (codes "0 -15 Td") (codes "ET") (shown_lines (suc (suc number)) lines))
          ∙ strings-shown_lines (suc (suc number)) lines)

-- The stream of `report_as_pdf` shows the lines of the report, in this order.
pub strings-report_content :
    (r : AuditReport) → strings outside (report_content r) ≡ map latin_1 (report_lines r)
unfolding report_content strings latin_1 join_lines
strings-report_content r =
    ap read_lines
      (join_lines-cons (codes "54 748 Td") (codes "ET") (shown_lines 0 (report_lines r)))
    ∙ strings-shown_lines 0 (report_lines r)
