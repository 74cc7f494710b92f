-- ===== src/Base/Results.antt =====
-- Python's exceptions as values: a call returns, or raises one of the classes that the code tells
-- apart in its `except` clauses.

pub data Exception : Type 0 where
  value_error index_error key_error unicode_error : Exception
  called_process_error timeout_expired file_not_found os_error other_error : Exception

pub data Result {ℓ} (A : Type ℓ) : Type ℓ where
  raise : Exception → Result A
  ok : A → Result A

-- An exception ends the block that it is raised in.
infixl 5 ◌>>=◌
abbrev pub ◌>>=◌ {ℓ κ} : {A : Type ℓ} {B : Type κ} → Result A → (A → Result B) → Result B
raise e >>= next = raise e
ok a >>= next = next a
