-- ===== src/Pdf/Decimal.antt =====
-- The numbers in a PDF file, read back by their digits.
use highthroughputingestion.Base.{
  ℕ, zero, suc, ◌+◌, ◌-◌, ◌*◌, ◌/◌, ◌^◌, ◌≤◌, ◌<◌, ◌≡◌, refl, ◌∙◌, inl, inr, Bool-cases, [], ◌∷◌,
  ◌++◌, length, length-append, ltb, Bytes, arith, replicate, length-replicate,
}
use highthroughputingestion.Pdf.{digits, decimal, padded}

-- `int(text)`, after a number that is read already.
abbrev pub read_on : ℕ → Bytes → ℕ
read_on n [] = n
read_on n (c ∷ cs) = read_on (10 * n + (c - b'0')) cs

abbrev pub read_number : Bytes → ℕ
read_number text = read_on 0 text

read_on-append : (n : ℕ) (xs ys : Bytes) → read_on n (xs ++ ys) ≡ read_on (read_on n xs) ys
read_on-append n [] ys = refl
read_on-append n (x ∷ xs) ys = read_on-append (10 * n + (x - b'0')) xs ys

read_zeros : (n : ℕ) (text : Bytes) → read_number (replicate n b'0' ++ text) ≡ read_number text
read_zeros zero text = refl
read_zeros (suc n) text = read_zeros n text

read-digits : (rounds n : ℕ) → read_number (digits rounds n) ≡ n
unfolding digits
read-digits zero n = omega arith
read-digits (suc rounds) n = elim (Bool-cases (ltb n 10)) [
  | inl short ↦ rw short (omega arith)
  | inr long ↦
      rw long
        (read_on-append 0 (digits rounds (n / 10)) _ ∙ omega (arith, read-digits rounds (n / 10)))
]

pub read-decimal : (n : ℕ) → read_number (decimal n) ≡ n
unfolding decimal
read-decimal n = read-digits n n

length-digits : (rounds k n : ℕ) → n < 10 ^ (suc k) → length (digits rounds n) ≤ suc k
unfolding digits
length-digits zero k n h = omega arith
length-digits (suc rounds) zero n h = ground arith
length-digits (suc rounds) (suc k) n h = elim (Bool-cases (ltb n 10)) [
  | inl short ↦ rw short (omega arith)
  | inr long ↦
      rw long (omega (arith, length-append {0}, length-digits rounds k (n / 10) (omega arith)))
]

pub length-padded : (n : ℕ) → n < 10 ^ 10 → length (padded n) ≡ 10
unfolding padded decimal
length-padded n h = omega (arith, length-append {0}, length-replicate {0}, length-digits n 9 n h)

-- A padded number is read back.
pub read-padded : (n : ℕ) → read_number (padded n) ≡ n
unfolding padded
read-padded n = read_zeros (10 - length (decimal n)) (decimal n) ∙ read-decimal n
