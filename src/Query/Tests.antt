-- ===== src/Query/Tests.antt =====
-- Tests of the query engine, and its theorems at concrete queries.
use kext_tools.Common.{
  ℕ, String, Bool, true, false, Option, none, some, List, [], ◌∷◌, str_eq, ◌≡◌, refl, ◌==◌, arith,
}
use kext_tools.Query.Data.{
  QueryError, no_error, Element, group, test, nil, cons, Parsed, EvaluationCallback, Words, Query,
  create, set_parse_callback, set_evaluation_callback, set_synonym, is_complete,
}
use kext_tools.Query.Stack.{
  append_element, append_and_operator, start_group, append_or_operator, end_group, end_or_group,
  pop_group_and_coalesce,
}
use kext_tools.Query.Args.{
  parse_query, append_element_from_args, predicate_for_string, create_element,
}
use kext_tools.Query.Evaluate.{query_root, evaluate}
use kext_tools.Query.Denote.{IsAnswered, group_answered, test_answered, none_left, and_answered}
use kext_tools.Query.Grammar.{
  Disjunction, single, paren, one, both, only, either, disjunction_words, disjunction_holds,
  disjunction_depth, disjunction_elements, ArePlain, IsKnown,
}
use kext_tools.Query.Meaning.{word_answer}
use kext_tools.Query.RoundTrip.{parse_query-evaluate, with_words}
use kext_tools.Query.Data.{append_value}
use kext_tools.Query.Stack.{append_element_at}
use kext_tools.Query.Append.{appended, append_element_at-appended}
use kext_tools.Query.Evaluate.{evaluate_element}
use kext_tools.Query.Denote.{denote, evaluate-denote, evaluate-and_group-without_short}
use kext_tools.Query.Grammar.{coalesced}
use kext_tools.Query.Close.{state, or_group}
use kext_tools.Query.Accepts.{
  and_operator_forgotten, or_operator_carried_out, not_before_end_ignored,
}
use kext_tools.Query.Invariant.{IsWellFormed, append_element_from_args-IsWellFormed}

-- A parse callback that takes its keyword and nothing more.
abbrev take_keyword : Element → List String → QueryError → Parsed
take_keyword e argv error = record { ok = true; element = e; num_used = 1; error = error }

abbrev is_number : ℕ → EvaluationCallback ℕ
is_number n e object error = (object == n, error)

-- An engine over numbers: `a` is the test for 1, `b` the test for 2, and `!` a synonym of `-not`.
unfoldable engine : Query ℕ
unfolding create set_parse_callback set_evaluation_callback set_synonym
engine =
    set_synonym
      (set_evaluation_callback
        (set_evaluation_callback
          (set_parse_callback (set_parse_callback (create ℕ) "a" (some take_keyword)) "b"
            (some take_keyword))
          "a" (some (is_number 1)))
        "b" (some (is_number 2)))
      "!" (some "-not")

built : List String → Option (Element × Bool × List String)
unfolding parse_query engine query_root is_complete append_element_from_args append_element
    append_and_operator start_group append_or_operator end_group end_or_group pop_group_and_coalesce
built argv = elim (parse_query 20 "-report" engine argv) [
  | none ↦ none
  | some (q, rest) ↦ some (query_root q, is_complete q, rest)
]

-- a -and ( b -or a ) -or ! ( b )
mixed :
    built (
      "a" ∷ "-and" ∷ "(" ∷ "b" ∷ "-or" ∷ "a" ∷ ")" ∷ "-or" ∷ "!" ∷ "(" ∷ "b" ∷ ")" ∷ "-report" ∷ [])
    ≡ some (
      group false false (
          cons
            (group true false (
              cons (test "a" false []) (
                cons
                  (group false false (cons (test "b" false []) (cons (test "a" false []) nil)))
                  nil)))
            (cons (test "b" true []) nil)),
      true,
      "-report" ∷ [],
    )
unfolding built
mixed = refl

-- An `and` that ends the command line after a single element is not missed.
trailing_and :
    built ("a" ∷ "-and" ∷ [])
    ≡ some
        (group false false (cons (group true false (cons (test "a" false []) nil)) nil), true, [])
unfolding built
trailing_and = refl

-- a -and ( b -or ! a ) -or b
abbrev sample : Disjunction
sample =
    either
      (only (
        both (one (single false "a" [])) true
          (paren false (either (only (one (single false "b" []))) (one (single true "a" []))))))
      (one (single false "b" []))

abbrev words : Words ℕ
unfolding engine
words = engine.words

words-ArePlain : ArePlain words
unfolding engine
words-ArePlain = record {
  not_plain = refl;
  and_plain = refl;
  or_plain = refl;
  start_plain = refl;
  end_plain = refl;
  and-ne-not = refl;
  or-ne-not = refl;
  start-ne-not = refl;
  end-ne-not = refl;
  or-ne-and = refl;
  start-ne-and = refl;
  end-ne-and = refl;
  start-ne-or = refl;
  end-ne-or = refl;
  end-ne-start = refl;
}

IsKnown-a : (negated : Bool) → IsKnown words negated "a" []
unfolding engine predicate_for_string create_element
IsKnown-a negated = record {
  ne-not = refl;
  ne-and = refl;
  ne-or = refl;
  ne-start = refl;
  ne-end = refl;
  callback = take_keyword;
  found = refl;
  takes = λ rest. refl;
}

IsKnown-b : (negated : Bool) → IsKnown words negated "b" []
unfolding engine predicate_for_string create_element
IsKnown-b negated = record {
  ne-not = refl;
  ne-and = refl;
  ne-or = refl;
  ne-start = refl;
  ne-end = refl;
  callback = take_keyword;
  found = refl;
  takes = λ rest. refl;
}

-- What the tests say of the number 2.
abbrev of_two : String → List String → Bool
of_two predicate args = str_eq predicate "b"

sample-IsAnswered :
    IsAnswered words.evaluation_callbacks 2 of_two
      (group false false (disjunction_elements words sample))
unfolding engine disjunction_elements predicate_for_string create_element
sample-IsAnswered = group_answered (
    and_answered
      (group_answered (
        and_answered (answer_a) (
          and_answered (group_answered (and_answered answer_b (and_answered answer_a none_left)))
            none_left)))
      (and_answered answer_b none_left))
  where
    answer_a :
        {negated : Bool} → IsAnswered words.evaluation_callbacks 2 of_two (test "a" negated [])
    answer_a = test_answered (is_number 1) refl refl

    answer_b :
        {negated : Bool} → IsAnswered words.evaluation_callbacks 2 of_two (test "b" negated [])
    answer_b = test_answered (is_number 2) refl refl

parse_query-evaluate_example :
    (q : Query ℕ) × (parse_query 20 "-report"
        (with_words "-report" words words-ArePlain)
        (disjunction_words words.operators sample [])
      ≡ some (q, []))
    × (is_complete q ≡ true)
    × ((evaluate q 2).0 ≡ disjunction_holds (word_answer words of_two) sample)
unfolding engine disjunction_words disjunction_depth
parse_query-evaluate_example =
    parse_query-evaluate "-report" words words-ArePlain sample 20 2 of_two (omega arith)
      ((IsKnown-a false, (IsKnown-b false, IsKnown-a true)), IsKnown-b false)
      (refl, (refl, (refl, (refl, (refl, (refl, (refl, (refl, (refl, (refl, tt))))))))))
      sample-IsAnswered (omega arith)

-- An engine with an element and an open group behind it.
abbrev element_a : Element
element_a = test "a" false []

and_operator_forgotten_example :
    let q = state true words 0 [] (or_group false (append_value nil element_a)) false in
    (is_complete (append_and_operator q).0 ≡ is_complete q)
    × ((append_and_operator (append_and_operator q).0).1 ≡ true)
and_operator_forgotten_example = and_operator_forgotten true words 0 [] false nil element_a

or_operator_carried_out_example :
    end_group
      (state true words 1 (or_group false nil ∷ []) (or_group true (cons element_a nil)) true)
    ≡ (
      state true words 0 []
          (or_group false (append_value nil (coalesced true (cons element_a nil))))
          true,
      true,
    )
or_operator_carried_out_example =
    or_operator_carried_out true words 0 [] false true nil element_a nil (omega arith)

open_group : Query ℕ
open_group =
    state true words 1 (or_group false nil ∷ []) (or_group false (cons element_a nil)) false

not_before_end_ignored_example :
    let without = append_element_from_args open_group (open_group.words.operators.group_end ∷ []) in
    let behind_not =
      append_element_from_args open_group
        (open_group.words.operators.not_token ∷ open_group.words.operators.group_end ∷ []) in
    (behind_not.query ≡ without.query) × (behind_not.ok ≡ without.ok)
unfolding open_group
not_before_end_ignored_example = not_before_end_ignored open_group [] words-ArePlain

append_element_from_args-IsWellFormed_example :
    IsWellFormed (append_element_from_args open_group (")" ∷ [])).query
unfolding open_group
append_element_from_args-IsWellFormed_example =
    append_element_from_args-IsWellFormed open_group (")" ∷ [])
      (record { stack = (refl, (refl, refl)); level = refl })

append_element_at-appended_example :
    append_element_at 2 element_a open_group ≡ (appended element_a open_group, true)
append_element_at-appended_example = append_element_at-appended 0 element_a open_group

evaluate-and_group-without_short_example :
    (evaluate_element words.evaluation_callbacks false 2
      (group true false (cons element_a nil))
      no_error).0
    ≡ true
unfolding engine evaluate_element
evaluate-and_group-without_short_example =
    evaluate-and_group-without_short words.evaluation_callbacks 2 false (cons element_a nil)
      no_error refl

-- The root holds the test that 2 meets.
matching : Query ℕ
matching = state true words 0 [] (or_group false (cons (test "b" false []) nil)) false

evaluate-denote_example :
    ((evaluate matching 2).0 ≡ denote of_two (query_root matching))
    × ((evaluate matching 2).1.last_error ≡ no_error)
unfolding matching engine query_root is_complete
evaluate-denote_example =
    evaluate-denote matching 2 of_two refl refl
      (group_answered (and_answered (test_answered (is_number 2) refl refl) none_left))
