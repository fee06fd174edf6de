-- ===== src/Persistence/Invocations/Listing.antt =====
-- libs/persistence/src/repositories/prisma/ai.ts: what the list of a case's calls shows.
use fin_tech_ai.Base.{
  ◌≡◌, refl, inl, inr, some, List, [], ◌∷◌, ◌++◌, arith, String, Bool-cases, keep, exists,
}
use fin_tech_ai.Contracts.Assistance.{AiInvocationRecord}
use fin_tech_ai.Persistence.Invocations.{
  InvocationRow, invocation_row, is_of_case, is_invocation, record_ai_invocation,
  list_ai_invocations_for_case,
}

-- A row without a case is passed over at the end of the table.
keep-append :
    (id : String) (rows : List InvocationRow) (r : AiInvocationRecord)
    (metadata : List (String × String))
    → keep (is_of_case id) (rows ++ invocation_row r metadata ∷ []) ≡ keep (is_of_case id) rows
keep-append id [] r metadata = refl
keep-append id (row ∷ rows) r metadata = rw (keep-append id rows r metadata) refl

-- A call that is recorded appears in no case's list, whatever its metadata say: the list of every case is as
-- it was before.
pub list_ai_invocations_for_case-record_ai_invocation :
    (id : String) (r : AiInvocationRecord) (metadata : List (String × String))
    (rows rows' : List InvocationRow)
    → record_ai_invocation r metadata rows ≡ some rows'
    → list_ai_invocations_for_case id rows' ≡ list_ai_invocations_for_case id rows
unfolding record_ai_invocation list_ai_invocations_for_case
list_ai_invocations_for_case-record_ai_invocation id r metadata rows rows' done =
    elim (Bool-cases (exists (is_invocation r.id) rows)) [
      | inl taken ↦ ground (arith, done, taken)
      | inr free ↦ ground (arith, done, free, keep-append id rows r metadata)
    ]
