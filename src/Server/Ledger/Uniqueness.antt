-- ===== src/Server/Ledger/Uniqueness.antt =====
-- A table with a unique key: `INSERT OR IGNORE` of server/src/ledger.rs.
use sec_s_magik.Base.{Bool, false, List, [], ◌∷◌, ◌≡◌, any, Bool-cases, inl, inr}
use sec_s_magik.Server.Ledger.Tables.{insert_or_ignore}

-- No row has the key of another.
unfoldable pub IsUnique : {A : Type 0} → (A → A → Bool) → List A → Type 0
IsUnique same [] = Unit
IsUnique same (x ∷ xs) = (any (same x) xs ≡ false) × IsUnique same xs

pub insert_or_ignore-IsUnique :
    {A : Type 0} (same : A → A → Bool) (row : A) (rows : List A)
    → IsUnique same rows
    → IsUnique same (insert_or_ignore same row rows).0
unfolding IsUnique insert_or_ignore
insert_or_ignore-IsUnique same row rows h = elim (Bool-cases (any (same row) rows)) [
  | inl hit ↦ rw hit h
  | inr miss ↦ rw miss (miss, h)
]
