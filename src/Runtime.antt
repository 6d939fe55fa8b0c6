-- ===== src/Runtime.antt =====
-- The functions of Python's standard library and of third-party packages that the program calls
-- for a value, as parameters.
use highthroughputingestion.Base.{ℕ, ℤ, Option, String, List}

pub record Runtime : Type 0 where
  -- `hashlib.sha256(content).hexdigest()`
  pub sha256 : List ℕ → String
  -- the canonical text of `uuid.UUID(text)`, and `none` where that raises
  pub uuid : String → Option String
  -- `text.encode("utf-8")`
  pub encode : String → List ℕ
  -- `zlib.crc32`
  pub crc32 : List ℕ → ℕ
  -- `mmh3.hash`, if the package `mmh3` is installed
  pub mmh3 : Option (String → ℤ)
