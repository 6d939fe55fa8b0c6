-- ===== src/Pdf/Xref.antt =====
-- The cross-reference table of a PDF file leads to its objects.
use mathlib.Core.List.{append_assoc}
use highthroughputingestion.Base.{
  ℕ, zero, suc, ◌+◌, ◌*◌, ◌^◌, ◌<◌, ◌≡◌, sym, ap, ◌∙◌, some, List, [], ◌∷◌, ◌++◌, length,
  length-append, All, codes, Bytes, arith, take, drop, drop-append, drop-append_add, take-append,
  get_elem?,
}
use highthroughputingestion.Pdf.{
  decimal, padded, object_bytes, written, offsets, header, pdf_body, xref_entry, xref_entries,
  xref_head, trailer, assemble,
}
use highthroughputingestion.Pdf.Decimal.{read_number, read-decimal, read-padded, length-padded}

-- What a reader of the file does with the table at a position: the entry of the object `i + 1` is
-- at 20 bytes for each entry before it, and its first 10 bytes are the object's offset.
unfoldable pub entry_offset : ℕ → ℕ → Bytes → ℕ
entry_offset table i file = read_number (take 10 (drop (table + 20 * i) file))

unfoldable pub find_object : ℕ → ℕ → Bytes → Bytes
find_object table i file = drop (entry_offset table i file) file

-- An object stands in what the loop writes, behind as many bytes as its offset says.
record Placed (at index i : ℕ) (obj : Bytes) (objects : List Bytes) : Type 0 where
  before : Bytes
  after : Bytes
  placed : written index objects ≡ before ++ (object_bytes (index + i) obj ++ after)
  noted : get_elem? (offsets at index objects) i ≡ some (at + length before)

Placed-all :
    (at index i : ℕ) (obj : Bytes) (objects : List Bytes)
    → get_elem? objects i ≡ some obj
    → Placed at index i obj objects
unfolding written offsets
Placed-all at index i obj [] h = cc
Placed-all at index zero obj (x ∷ objects) h =
    let e : x ≡ obj = cc in
    let z : index + 0 ≡ index = omega arith in
    record {
      before = [];
      after = written (index + 1) objects;
      placed = rw (e, z);
      noted = ground arith;
    }
Placed-all at index (suc i) obj (x ∷ objects) h =
    let p = Placed-all (at + length (object_bytes index x)) (index + 1) i obj objects h in
    let z : index + suc i ≡ index + 1 + i = omega arith in
    record {
      before = object_bytes index x ++ p.before;
      after = p.after;
      placed = rw z (
          ap (λ t. object_bytes index x ++ t) p.placed
          ∙ sym (append_assoc (object_bytes index x) p.before _));
      noted = p.noted ∙ ap some (omega (arith, length-append (object_bytes index x) p.before));
    }

-- The entries before one take 20 bytes each.
record Entry (i o : ℕ) (all : List ℕ) : Type 0 where
  before : Bytes
  after : Bytes
  split : xref_entries all ≡ before ++ (xref_entry o ++ after)
  measured : length before ≡ 20 * i

length-xref_entry : (o : ℕ) → o < 10 ^ 10 → length (xref_entry o) ≡ 20
unfolding xref_entry
length-xref_entry o h = omega (arith, length-append {0}, length-padded o h)

Entry-All :
    (i o : ℕ) (all : List ℕ) → All (λ x. x < 10 ^ 10) all → get_elem? all i ≡ some o → Entry i o all
unfolding xref_entries
Entry-All i o [] b h = cc
Entry-All zero o (x ∷ all) b h =
    let e : x ≡ o = cc in
    record { before = []; after = xref_entries all; split = rw e; measured = omega arith }
Entry-All (suc i) o (x ∷ all) b h =
    let e = Entry-All i o all b.1 h in
    record {
      before = xref_entry x ++ e.before;
      after = e.after;
      split = ap (λ t. xref_entry x ++ t) e.split ∙ sym (append_assoc (xref_entry x) e.before _);
      measured =
          omega (arith, length-append (xref_entry x) e.before, length-xref_entry x b.0, e.measured);
    }

offsets-All :
    (at index : ℕ) (objects : List Bytes)
    → at + length (written index objects) < 10 ^ 10
    → All (λ x. x < 10 ^ 10) (offsets at index objects)
unfolding offsets written
offsets-All at index [] h = tt
offsets-All at index (x ∷ objects) h = (
  omega (arith, length-append {0}),
  offsets-All (at + length (object_bytes index x)) (index + 1) objects
      (omega (arith, length-append (object_bytes index x) (written (index + 1) objects))),
)

drop_exactly : (before rest : Bytes) (n : ℕ) → n ≡ length before → drop n (before ++ rest) ≡ rest
drop_exactly before rest n e = rw e (drop-append before rest)

take_exactly : (before rest : Bytes) (n : ℕ) → n ≡ length before → take n (before ++ rest) ≡ before
take_exactly before rest n e = rw e (take-append before rest)

-- The entry of an offset is found behind what stands before the table.
entry_offset-eq :
    (front back : Bytes) (all : List ℕ) (i o : ℕ)
    → All (λ x. x < 10 ^ 10) all
    → get_elem? all i ≡ some o
    → o < 10 ^ 10
    → entry_offset (length front) i (front ++ (xref_entries all ++ back)) ≡ o
unfolding entry_offset xref_entry
entry_offset-eq front back all i o b h small =
    let e = Entry-All i o all b h in
    let rest : Bytes = codes " 00000 n \n" ++ (e.after ++ back) in
    let located : xref_entries all ++ back ≡ e.before ++ (padded o ++ rest) =
      ap (λ t. t ++ back) e.split
      ∙ append_assoc e.before _ back
      ∙ ap (λ t. e.before ++ t)
          (append_assoc (xref_entry o) e.after back
            ∙ append_assoc (padded o) (codes " 00000 n \n") (e.after ++ back)) in
    ap (λ t. read_number (take 10 t))
      (drop-append_add front (xref_entries all ++ back) (20 * i)
        ∙ ap (λ t. drop (20 * i) t) located
        ∙ drop_exactly e.before (padded o ++ rest) (20 * i) (sym e.measured))
    ∙ ap read_number (take_exactly (padded o) rest 10 (sym (length-padded o small)))
    ∙ read-padded o

-- The table of a file leads to each of its objects, if the file's body is shorter than 10^10 bytes.
pub find_object-assemble :
    (objects : List Bytes) (i : ℕ) (obj : Bytes)
    → length (pdf_body objects) < 10 ^ 10
    → get_elem? objects i ≡ some obj
    → (after : Bytes) × (find_object
          (length (pdf_body objects) + length (xref_head objects))
          i
          (assemble objects)
        ≡ object_bytes (i + 1) obj ++ after)
unfolding find_object assemble pdf_body
find_object-assemble objects i obj short h =
    let p = Placed-all (length header) 1 i obj objects h in
    let tail : Bytes =
      xref_head objects ++ (xref_entries (offsets (length header) 1 objects) ++ trailer objects) in
    let body : Bytes = header ++ written 1 objects in
    let z : i + 1 ≡ 1 + i = omega arith in
    let small : length header + length p.before < 10 ^ 10 =
      omega
        (arith, ap length p.placed, length-append p.before (object_bytes (1 + i) obj ++ p.after)) in
    let at = length body + length (xref_head objects) in
    let offset : entry_offset at i (body ++ tail) ≡ length header + length p.before =
      ap (λ n. entry_offset n i (body ++ tail)) (sym (length-append body (xref_head objects)))
      ∙ ap (entry_offset (length (body ++ xref_head objects)) i)
          (sym (append_assoc body (xref_head objects) _))
      ∙ entry_offset-eq (body ++ xref_head objects) (trailer objects) _ i _
          (offsets-All (length header) 1 objects (omega arith)) p.noted small in
    let split : body ++ tail
        ≡ (header ++ p.before) ++ (object_bytes (i + 1) obj ++ (p.after ++ tail)) =
      rw z (
        ap (λ t. (header ++ t) ++ tail) p.placed
        ∙ append_assoc (header ++ p.before) (object_bytes (1 + i) obj ++ p.after) tail
        ∙ ap (λ t. (header ++ p.before) ++ t)
            (append_assoc (object_bytes (1 + i) obj) p.after tail)) in
    (
      p.after ++ tail,
      ap (λ n. drop n (body ++ tail)) offset
          ∙ ap (drop (length header + length p.before)) split
          ∙ drop_exactly (header ++ p.before) _ _ (sym (length-append header p.before)),
    )

-- Behind the word that announces it, the file gives the position of its table.
pub startxref-assemble :
    (objects : List Bytes)
    → (before : Bytes) × (table : Bytes) × (assemble objects
        ≡ before
          ++ (codes "startxref\n" ++ (decimal (length (pdf_body objects)) ++ codes "\n%%EOF")))
      × (drop (read_number (decimal (length (pdf_body objects)))) (assemble objects)
          ≡ codes "xref\n0 " ++ table)
unfolding assemble trailer xref_head
startxref-assemble objects =
    let entries = xref_entries (offsets (length header) 1 objects) in
    let start : Bytes =
      codes "trailer\n<< /Size " ++ (decimal (length objects + 1) ++ codes " /Root 1 0 R >>\n") in
    let body = pdf_body objects in
    (
      body ++ (xref_head objects ++ (entries ++ start)),
      _,
      simp append_assoc,
      ap (λ n. drop n (assemble objects)) (read-decimal (length body))
          ∙ drop-append body (xref_head objects ++ (entries ++ trailer objects)),
    )
