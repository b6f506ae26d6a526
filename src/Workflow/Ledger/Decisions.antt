-- ===== src/Workflow/Ledger/Decisions.antt =====
-- What a later node reads of a run that has just completed.
use fineract_ai_reports.Prelude.{
  nat_eq, string_eq, find_last, ok, ℤ, int_eq, String, ◌≡◌, refl, Bool, true, false, some, List, [],
  ◌∷◌, ◌++◌, ==_refl,
}
use fineract_ai_reports.Json.{Json, text, object, end, field}
use fineract_ai_reports.Workflow.Contract.{node_id_eq, Cardinality, zero_rows, one_row, many_rows}
use fineract_ai_reports.Workflow.Ledger.{
  WorkflowNodeRun, completed_run, decode_cardinality, cardinality_for, completes,
}

pub find_last-snoc :
    {A : Type 0} (p : A → Bool) (xs : List A) (x : A)
    → p x ≡ true
    → find_last p (xs ++ x ∷ []) ≡ some x
find_last-snoc p [] x h = rw h
find_last-snoc p (y ∷ xs) x h = rw (find_last-snoc p xs x h)

pub find_last-snoc_ne :
    {A : Type 0} (p : A → Bool) (xs : List A) (x : A)
    → p x ≡ false
    → find_last p (xs ++ x ∷ []) ≡ find_last p xs
find_last-snoc_ne p [] x h = rw h
find_last-snoc_ne p (y ∷ xs) x h = rw (find_last-snoc_ne p xs x h)

-- The output of a branch node that decided `c` (`resolve_execution` of run.rs).
abbrev pub encode_cardinality : Cardinality → String
encode_cardinality zero_rows = "zero"
encode_cardinality one_row = "one"
encode_cardinality many_rows = "many"

abbrev pub branch_output : Cardinality → Json
branch_output c = object (field "cardinality" (text (encode_cardinality c)) end)

decode-encode : (c : Cardinality) → decode_cardinality (encode_cardinality c) ≡ ok c
decode-encode zero_rows = refl
decode-encode one_row = refl
decode-encode many_rows = refl

-- Once a branch node has recorded the cardinality that it decided, every edge that leaves it reads
-- that cardinality back, whatever the row count of the branch run is.
pub cardinality_for-branch_output :
    (runs : List WorkflowNodeRun) (run : WorkflowNodeRun) (duration rows : ℤ) (c : Cardinality)
    → cardinality_for (runs ++ completed_run run duration (branch_output c) rows ∷ []) run.node_id
      ≡ ok c
unfolding cardinality_for completed_run
cardinality_for-branch_output runs run duration rows c =
    rw
      (find_last-snoc (completes run.node_id) runs
        (completed_run run duration (branch_output c) rows) (rw (==_refl run.node_id)))
      (decode-encode c)
