-- ===== src/Persistence/Invocations.antt =====
-- libs/persistence/src/repositories/prisma/ai.ts: the table of the language model's calls. A new row goes to
-- the end; an id that is taken is refused by the table's key.
pub mod Listing
use fin_tech_ai.Base.{
  ℕ, Bool, Option, none, some, List, [], ◌∷◌, ◌++◌, map, str_eq, String, ltb, if◌then◌else◌, keep,
  exists, matches,
}
use fin_tech_ai.Contracts.Assistance.{AiUseCase, AiInvocationStatus, AiInvocationRecord}

-- `metadata` is what `safeMetadataJson` holds.
pub record InvocationRow : Type 0 where
  pub invocation : AiInvocationRecord
  pub metadata : List (String × String)
  pub case_id : Option String

abbrev pub is_invocation : String → InvocationRow → Bool
is_invocation id row = str_eq row.invocation.id id

abbrev pub invocation_row : AiInvocationRecord → List (String × String) → InvocationRow
invocation_row invocation metadata = record {
  invocation = invocation;
  metadata = metadata;
  case_id = none;
}

unfoldable pub record_ai_invocation :
    AiInvocationRecord → List (String × String) → List InvocationRow → Option (List InvocationRow)
record_ai_invocation invocation metadata rows =
    if exists (is_invocation invocation.id) rows
    then none
    else some (rows ++ invocation_row invocation metadata ∷ [])

pub record InvocationSummary : Type 0 where
  pub id : String
  pub use_case : AiUseCase
  pub status : AiInvocationStatus
  pub created_at : ℕ

abbrev summary_of : InvocationRow → InvocationSummary
summary_of row = record {
  id = row.invocation.id;
  use_case = row.invocation.use_case;
  status = row.invocation.status;
  created_at = row.invocation.created_at;
}

-- The newest first.
abbrev insert_newest : InvocationSummary → List InvocationSummary → List InvocationSummary
insert_newest x [] = x ∷ []
insert_newest x (y ∷ ys) =
    let rest = insert_newest x ys in if ltb x.created_at y.created_at then y ∷ rest else x ∷ y ∷ ys

abbrev newest_first : List InvocationSummary → List InvocationSummary
newest_first [] = []
newest_first (x ∷ xs) = insert_newest x (newest_first xs)

abbrev pub is_of_case : String → InvocationRow → Bool
is_of_case id row = matches (λ own. str_eq own id) row.case_id

unfoldable pub list_ai_invocations_for_case : String → List InvocationRow → List InvocationSummary
list_ai_invocations_for_case id rows = newest_first (map summary_of (keep (is_of_case id) rows))
