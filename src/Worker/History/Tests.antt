-- ===== src/Worker/History/Tests.antt =====
-- A history of two entries, and the theorems at it.
use s19_lambda.Base.{
  ℕ, zero, suc, ◌≡◌, ◌≢◌, refl, true, false, some, [], ◌∷◌, get_elem?, arith, eq_iff,
}
use s19_lambda.Worker.History.{
  History, open_code, scan, cold_from, is_warm, apply_code, handler_access, csv_lines,
}
use s19_lambda.Worker.History.Access.{IsValid}
use s19_lambda.Worker.History.Warm.{IsNamed, warm_kept}

abbrev table : History
table = record { log_size = 2; hnames = "f" ∷ "g" ∷ []; present = true ∷ false ∷ [] }

table-IsValid : IsValid table
table-IsValid = record { names = refl; bits = refl }

table-IsNamed : IsNamed table
table-IsNamed = record { valid = table-IsValid; named = λ i w. table_named i w }
  where
    table_named : (i : ℕ) → is_warm table.present i ≡ true → get_elem? table.hnames i ≢ some ""
    table_named zero w = ground (arith, eq_iff "f" "")
    table_named (suc zero) w = cc
    table_named (suc (suc i)) w = cc

-- A new name takes the entry that is not warm, though the random number points at the other.
access_new :
    handler_access "h" open_code 6 table
    ≡ some (record { log_size = 2; hnames = "f" ∷ "h" ∷ []; present = true ∷ true ∷ [] }, 1)
unfolding handler_access scan cold_from apply_code
access_new = refl

csv_table : csv_lines ("f" ∷ "" ∷ []) (true ∷ false ∷ []) ≡ ("f", 1) ∷ ("[cold]", 0) ∷ []
unfolding csv_lines
csv_table = refl

abbrev opened_table : History
opened_table = record { log_size = 2; hnames = "f" ∷ "h" ∷ []; present = true ∷ true ∷ [] }

warm_kept_example : get_elem? opened_table.hnames 0 ≡ some "f"
warm_kept_example =
    warm_kept "h" open_code table (opened_table, 1) table-IsNamed 6 0 (omega arith) refl access_new
