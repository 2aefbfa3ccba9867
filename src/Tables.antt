-- ===== src/Tables.antt =====
-- A map as an association list in the order of insertion, by a test of its keys: `find`, `insert`
-- (which keeps an entry that is there) and `erase` of the standard map.
use cpp_iocplib.Base.{Bool, List, [], ◌∷◌, ◌++◌, Option, none, some, if◌then◌else◌}

module _ {K V : Type 0} (same : K → K → Bool) where
  unfoldable pub find_entry : K → List (K × V) → Option V
  find_entry k [] = none
  find_entry k ((k', v) ∷ m) = let rest = find_entry k m in if same k k' then some v else rest

  unfoldable pub insert_entry : K → V → List (K × V) → List (K × V)
  insert_entry k v m = elim (find_entry k m) [ none ↦ m ++ (k, v) ∷ [] | some _ ↦ m ]

  unfoldable pub erase_entry : K → List (K × V) → List (K × V)
  erase_entry k [] = []
  erase_entry k ((k', v) ∷ m) =
      let rest = erase_entry k m in if same k k' then m else (k', v) ∷ rest
