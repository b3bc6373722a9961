-- ===== src/Query/Evaluate.antt =====
-- QEQuery.c: evaluation of a query on an object.
use kext_tools.Common.{
  String, Bool, true, false, not, Option, none, some, List, [], ◌∷◌, if◌then◌else◌, ◌&&◌, ◌||◌,
}
use kext_tools.Query.Data.{
  QueryError, no_evaluation_callback, no_error?, Element, Elements, group, test, nil, cons,
  append_value, Frame, frame_element, EvaluationCallback, Query, is_complete,
}

-- queryRoot: each open group is the last argument of the group that it was opened in.
unfoldable pub enclose : List Frame → Element → Element
enclose [] e = e
enclose (f ∷ fs) e = enclose fs (group f.and_flag f.negated (append_value f.elements e))

abbrev pub is_empty : Elements → Bool
is_empty nil = true
is_empty (cons e es) = false

-- The end of the function: a negated element flips the result, and an error makes it false.
abbrev pub conclude : Bool → Bool × QueryError → Bool × QueryError
conclude negated (result, error) =
    (if no_error? error then (if negated then not result else result) else false, error)

abbrev pub Callbacks : Type 0 → Type 0
Callbacks Object = String → Option (EvaluationCallback Object)

-- The query's last error is passed along; the callbacks, the flag and the object stay the same.
unfoldable mutual
  pub evaluate_element :
      {Object : Type 0}
      → Callbacks Object
      → Bool
      → Object
      → Element
      → QueryError
      → Bool × QueryError
  evaluate_element cs short object (group true negated es) error =
      conclude negated (evaluate_all cs short object es error)
  evaluate_element cs short object (group false negated es) error =
      conclude negated (evaluate_any cs short object es (is_empty es) error)
  evaluate_element cs short object (test predicate negated args) error = elim (cs predicate) [
    | none ↦ conclude negated (false, no_evaluation_callback)
    | some callback ↦ conclude negated (callback (test predicate negated args) object error)
  ]

  pub evaluate_all :
      {Object : Type 0}
      → Callbacks Object
      → Bool
      → Object
      → Elements
      → QueryError
      → Bool × QueryError
  evaluate_all cs short object nil error = (true, error)
  evaluate_all cs short object (cons e es) error =
      let (holds, error') = evaluate_element cs short object e error in
      let next = evaluate_all cs short object es error' in
      if not holds && short then (false, error') else next

  pub evaluate_any :
      {Object : Type 0}
      → Callbacks Object
      → Bool
      → Object
      → Elements
      → Bool
      → QueryError
      → Bool × QueryError
  evaluate_any cs short object nil result error = (result, error)
  evaluate_any cs short object (cons e es) result error =
      let (holds, error') = evaluate_element cs short object e error in
      let next = evaluate_any cs short object es (result || holds) error' in
      if holds && short then (true, error') else next

module _ {Object : Type 0} where
  unfoldable pub query_root : Query Object → Element
  unfolding enclose
  query_root q = enclose q.below (frame_element q.top)

  -- QEQueryEvaluate: the result, and the query with the error that the evaluation left.
  unfoldable pub evaluate : Query Object → Object → Bool × Query Object
  unfolding evaluate_element query_root is_complete
  evaluate q object =
      if not (is_complete q) || not (no_error? q.last_error)
      then (false, q)
      else (let (result, error) =
            evaluate_element q.words.evaluation_callbacks q.short_circuit_eval object (query_root q)
              q.last_error in
          (result, record q { last_error = error }))
