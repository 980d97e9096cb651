-- ===== src/Server/RequestHandler/Answers.antt =====
-- The answers that the handler's responses carry, for a cached record, a fresh outcome and an exception.
use console_calculator.Prelude.{
  ℕ, ◌==◌, ◌≡◌, ◌≢◌, refl, ap, ◌∙◌, inl, inr, false, Option, none, some, arith, Option-cases,
  if◌then◌else◌,
}
use console_calculator.Prelude.Int.{ℤ, pos, eqb_ℤ, eqb_ℤ_iff}
use console_calculator.Text.{Text, codes, is_empty}
use console_calculator.Protocol.{ProtocolStatus, ResultSource}
use console_calculator.Support.{
  Exception, of_int, to_uint8, Result, returned, thrown, undefined, calculator_exception,
  protocol_error, std_exception, foreign,
}
use console_calculator.Storage.{OperationRecord}
use console_calculator.Server.ProtocolLib.{ProtocolLib, IsLawful, Answer}
use console_calculator.Server.RequestHandler.{map_internal_error}
use console_calculator.Server.RequestHandler.Handle.{
  make_failure, with_field, recover, cached_response,
}
use console_calculator.Server.RequestHandler.Meaning.{Holds}
use console_calculator.Server.RequestHandler.Outcome.{fresh_response}

-- A failure without a request identifier names it so.
abbrev pub named : Text → Text
named id = if is_empty id then codes "unknown" else id

-- The status of the protocol for the number of an error of core, in the order of the numbers; a number
-- that is not in the table is a calculation error.
abbrev pub status_at : ℕ → ProtocolStatus
status_at n =
    if n == 0
    then ProtocolStatus.ok
    else if n == 2
    then ProtocolStatus.invalid_operands
    else if n == 3
    then ProtocolStatus.operands_count_mismatch
    else if n == 4
    then ProtocolStatus.operands_count_mismatch
    else if n == 5
    then ProtocolStatus.invalid_operation
    else if n == 6
    then ProtocolStatus.invalid_operation
    else if n == 7
    then ProtocolStatus.division_by_zero
    else if n == 8
    then ProtocolStatus.factorial_of_negative_number
    else if n == 9
    then ProtocolStatus.invalid_operands
    else if n == 10
    then ProtocolStatus.numeric_overflow
    else if n == 11
    then ProtocolStatus.invalid_json
    else if n == 12
    then ProtocolStatus.storage_error
    else ProtocolStatus.calculation_error

abbrev pub status_for : ℤ → ProtocolStatus
status_for c = status_at (to_uint8 c)

map_internal_error-status_for : (c : ℤ) → map_internal_error c ≡ status_for c
unfolding map_internal_error of_int
map_internal_error-status_for c = ground arith

-- The answer that an outcome deserves.
abbrev pub answer_of : Text → Result ℤ → Answer
answer_of id (returned v) = record { answers = id; status = ProtocolStatus.ok; value = some v }
answer_of id (thrown (protocol_error status what field)) = record {
  answers = named id;
  status = status;
  value = none;
}
answer_of id (thrown (calculator_exception c what)) = record {
  answers = named id;
  status = status_for c;
  value = none;
}
answer_of id (thrown (std_exception what)) = record {
  answers = named id;
  status = ProtocolStatus.internal_error;
  value = none;
}
answer_of id (thrown foreign) = record {
  answers = named id;
  status = ProtocolStatus.unknown_error;
  value = none;
}
answer_of id undefined = record {
  answers = named id;
  status = ProtocolStatus.unknown_error;
  value = none;
}

module _ {P : ProtocolLib} (lawful : IsLawful P) where
  -- The result is a response, and it carries this answer.
  abbrev pub Carries : Result P.Response → Answer → Type 0
  Carries (returned response) answer = lawful.answer response ≡ answer
  Carries _ answer = ⊥

  answer-make_failure :
      (id : Text) (status : ProtocolStatus) (message : Text)
      → lawful.answer (make_failure P id status message)
        ≡ record { answers = named id; status = status; value = none }
  unfolding make_failure
  answer-make_failure id status message = lawful.answer-failure (named id) status message

  answer-with_field :
      (field : Option Text) (r : P.Response)
      → lawful.answer (with_field P field r) ≡ lawful.answer r
  unfolding with_field
  answer-with_field none r = refl
  answer-with_field (some f) r = elim (Option-cases (P.error_info r)) [
    | inl n ↦ rw (n, with_field)
    | inr (info, e) ↦ rw (e, with_field) (lawful.answer-set_error_info (P.set_field f info) r)
  ]

  pub recover-Carries :
      (id : Text) (e : Exception) → Carries (recover P id (thrown e)) (answer_of id (thrown e))
  unfolding recover
  recover-Carries id (protocol_error status what field) =
      answer-with_field field _ ∙ answer-make_failure id status what
  recover-Carries id (calculator_exception c what) =
      rw (← map_internal_error-status_for c) (answer-make_failure id _ what)
  recover-Carries id (std_exception what) = answer-make_failure id _ what
  recover-Carries id foreign = answer-make_failure id _ _

  pub recover_cached-Carries :
      (id : Text) (r : OperationRecord) (o : Result ℤ)
      → Holds r o
      → Carries (recover P id (cached_response P id r)) (answer_of id o)
  unfolding recover cached_response
  recover_cached-Carries id r (returned v) h =
      rw (h.0, h.1)
        (lawful.answer-set_result_source ResultSource.cache _ ∙ lawful.answer-success id v)
  recover_cached-Carries id r (thrown (calculator_exception c what)) h =
      let differs : eqb_ℤ r.status (pos 0) ≡ false = ground (arith, eqb_ℤ_iff r.status (pos 0)) in
      let codes_agree : map_internal_error r.status ≡ map_internal_error c =
        ap map_internal_error h.0 in
      rw (differs, codes_agree, ← map_internal_error-status_for c)
        (lawful.answer-set_result_source ResultSource.cache _ ∙ answer-make_failure id _ _)
  recover_cached-Carries id r (thrown (protocol_error _ _ _)) h = absurd h
  recover_cached-Carries id r (thrown (std_exception _)) h = absurd h
  recover_cached-Carries id r (thrown foreign) h = absurd h
  recover_cached-Carries id r undefined h = absurd h

  pub recover_fresh-Carries :
      (id : Text) (o : Result ℤ)
      → o ≢ undefined
      → Carries (recover P id (fresh_response P id o)) (answer_of id o)
  recover_fresh-Carries id (returned v) h =
      unfold recover in
      (lawful.answer-set_result_source ResultSource.calculated _ ∙ lawful.answer-success id v)
  recover_fresh-Carries id (thrown e) h = recover-Carries id e
  recover_fresh-Carries id undefined h = absurd (h refl)
