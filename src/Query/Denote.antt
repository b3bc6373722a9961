-- ===== src/Query/Denote.antt =====
-- What a query means: a Boolean function of the answers of its tests, and the evaluation that
-- computes it.
use kext_tools.Common.{
  ◌≡◌, refl, String, Bool, true, false, not, some, List, if◌then◌else◌, ◌&&◌, ◌||◌, arith,
}
use kext_tools.Query.Data.{
  QueryError, no_error, Element, Elements, group, test, nil, cons, EvaluationCallback, Query,
  is_complete,
}
use kext_tools.Query.Evaluate.{
  Callbacks, is_empty, evaluate_element, evaluate_all, evaluate_any, evaluate, query_root,
}

abbrev pub flip_if : Bool → Bool → Bool
flip_if negated b = if negated then not b else b

-- The meaning of an element, where `answer` tells what each test says of the object.
unfoldable mutual
  pub denote : (String → List String → Bool) → Element → Bool
  denote answer (group true negated es) = flip_if negated (denote_all answer es)
  denote answer (group false negated es) = flip_if negated (is_empty es || denote_any answer es)
  denote answer (test predicate negated args) = flip_if negated (answer predicate args)

  pub denote_all : (String → List String → Bool) → Elements → Bool
  denote_all answer nil = true
  denote_all answer (cons e es) = denote answer e && denote_all answer es

  pub denote_any : (String → List String → Bool) → Elements → Bool
  denote_any answer nil = false
  denote_any answer (cons e es) = denote answer e || denote_any answer es

-- Every test of the element has a callback, which answers without an error.
mutual
  pub data IsAnswered {Object : Type 0} (cs : Callbacks Object) (object : Object)
      (answer : String → List String → Bool) : Element → Type 0 where
    group_answered :
        {and_flag negated : Bool} {es : Elements}
        → AreAnswered cs object answer es
        → IsAnswered cs object answer (group and_flag negated es)
    test_answered :
        {predicate : String} {negated : Bool} {args : List String}
        (callback : EvaluationCallback Object)
        → cs predicate ≡ some callback
        → callback (test predicate negated args) object no_error ≡ (answer predicate args, no_error)
        → IsAnswered cs object answer (test predicate negated args)

  pub data AreAnswered {Object : Type 0} (cs : Callbacks Object) (object : Object)
      (answer : String → List String → Bool) : Elements → Type 0 where
    none_left : AreAnswered cs object answer nil
    and_answered :
        {e : Element} {es : Elements}
        → IsAnswered cs object answer e
        → AreAnswered cs object answer es
        → AreAnswered cs object answer (cons e es)

module _ {Object : Type 0} (cs : Callbacks Object) (object : Object)
    (answer : String → List String → Bool) where
  mutual
    unfolding evaluate_element denote

    evaluate_element-denote :
        (e : Element)
        → IsAnswered cs object answer e
        → evaluate_element cs true object e no_error ≡ (denote answer e, no_error)
    evaluate_element-denote (group true negated es) (group_answered h) =
        rw (evaluate_all-denote es h)
    evaluate_element-denote (group false negated es) (group_answered h) =
        rw (evaluate_any-denote es (is_empty es) h)
    evaluate_element-denote (test predicate negated args) (test_answered callback found says) =
        ground arith

    evaluate_all-denote :
        (es : Elements)
        → AreAnswered cs object answer es
        → evaluate_all cs true object es no_error ≡ (denote_all answer es, no_error)
    evaluate_all-denote nil none_left = refl
    evaluate_all-denote (cons e es) (and_answered h hs) =
        ground (arith, evaluate_element-denote e h, evaluate_all-denote es hs)

    evaluate_any-denote :
        (es : Elements) (result : Bool)
        → AreAnswered cs object answer es
        → evaluate_any cs true object es result no_error
          ≡ (result || denote_any answer es, no_error)
    evaluate_any-denote nil result none_left = ground arith
    evaluate_any-denote (cons e es) result (and_answered h hs) =
        ground (
          arith,
          evaluate_element-denote e h,
          evaluate_any-denote es (result || denote answer e) hs,
        )

module _ {Object : Type 0} where
  -- A complete query with short circuits on, whose tests all have answers, evaluates to its
  -- meaning, and the query is left without an error.
  pub evaluate-denote :
      (q : Query Object) (object : Object) (answer : String → List String → Bool)
      → is_complete q ≡ true
      → q.short_circuit_eval ≡ true
      → IsAnswered q.words.evaluation_callbacks object answer (query_root q)
      → ((evaluate q object).0 ≡ denote answer (query_root q))
        × ((evaluate q object).1.last_error ≡ no_error)
  unfolding evaluate is_complete
  evaluate-denote q object answer complete short answered = ground (
    arith,
    evaluate_element-denote q.words.evaluation_callbacks object answer (query_root q) answered,
  )

  evaluate_all-without_short :
      (cs : Callbacks Object) (object : Object) (es : Elements) (error : QueryError)
      → (evaluate_all cs false object es error).0 ≡ true
  unfolding evaluate_element
  evaluate_all-without_short cs object nil error = refl
  evaluate_all-without_short cs object (cons e es) error =
      ground (
        arith,
        evaluate_all-without_short cs object es (evaluate_element cs false object e error).1,
      )

  -- With short circuits off, an and-group evaluates to true, or to false if it is negated,
  -- whatever its elements are, if no error is left.
  pub evaluate-and_group-without_short :
      (cs : Callbacks Object) (object : Object) (negated : Bool) (es : Elements)
      (error : QueryError)
      → (evaluate_element cs false object (group true negated es) error).1 ≡ no_error
      → (evaluate_element cs false object (group true negated es) error).0 ≡ not negated
  unfolding evaluate_element
  evaluate-and_group-without_short cs object negated es error h =
      ground (arith, evaluate_all-without_short cs object es error)
