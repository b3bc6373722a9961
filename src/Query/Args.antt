-- ===== src/Query/Args.antt =====
-- QEQuery.c: QEQueryAppendElementFromArgs, which reads one query element or operator from the
-- command line, and the loop of kextfind_main.c that calls it.
use kext_tools.Common.{
  ℕ, zero, suc, ◌+◌, String, Bool, true, false, Option, none, some, List, [], ◌∷◌, str_eq,
  if◌then◌else◌, drop,
}
use kext_tools.Query.Data.{syntax, no_parse_callback, Element, test, Parsed, Words, Query}
use kext_tools.Query.Stack.{
  Op, fail_with, append_element, append_and_operator, append_or_operator, start_group, end_group,
}

-- What a call leaves: the query, whether it succeeded, and how many words it used.
pub record Taken (Object : Type 0) : Type 0 where
  pub query : Query Object
  pub ok : Bool
  pub num_used : ℕ

-- Is there a next word, and is it the keyword?
abbrev pub at_keyword : String → List String → Bool
at_keyword keyword [] = false
at_keyword keyword (word ∷ rest) = str_eq word keyword

module _ {Object : Type 0} where
  unfoldable pub predicate_for_string : Words Object → String → String
  predicate_for_string w word = elim (w.synonyms word) [ none ↦ word | some synonym ↦ synonym ]

  unfoldable pub create_element : Words Object → String → List String → Bool → Element
  create_element w predicate args negated = elim (w.synonyms predicate) [
    | none ↦ test predicate negated args
    | some synonym ↦ test synonym negated args
  ]

  -- The end of the function, with `index` words read after a `not`, if there was one.
  abbrev pub finish : Bool → ℕ → Query Object × Bool → Taken Object
  finish negated index (q, true) = record {
    query = q;
    ok = true;
    num_used = if negated then index + 1 else index;
  }
  finish negated index (q, false) = record {
    query = q;
    ok = false;
    num_used = if negated then 1 else 0;
  }

  abbrev pub append_parsed : Bool → Query Object → Parsed → Taken Object
  append_parsed negated q p =
      let q' = record q { last_error = p.error } in
      finish negated p.num_used (if p.ok then append_element p.element q' else (q', false))

  abbrev pub unless_negated : Bool → Op Object → Op Object
  unless_negated negated op q = if negated then fail_with syntax q else op q

  -- The word behind an optional `not`, with its predicate, and the words after it.
  unfoldable pub append_predicate :
      Bool → String → String → List String → Query Object → Taken Object
  unfolding create_element
  append_predicate negated predicate word rest q =
      let ops = q.words.operators in
      if str_eq predicate ops.and_token
      then finish negated 1 (unless_negated negated append_and_operator q)
      else if str_eq predicate ops.or_token
      then finish negated 1 (unless_negated negated append_or_operator q)
      else if str_eq predicate ops.group_start
      then finish negated 1 (start_group negated q)
      else if str_eq predicate ops.group_end
      then finish negated 1 (end_group q)
      else elim (q.words.parse_callbacks predicate) [
        | none ↦ finish negated 0 (fail_with no_parse_callback q)
        | some callback ↦
            append_parsed negated q
              (callback (create_element q.words predicate [] negated) (word ∷ rest) q.last_error)
      ]

  unfoldable pub append_negatable : Bool → List String → Query Object → Taken Object
  unfolding predicate_for_string append_predicate
  append_negatable negated [] q = finish negated 0 (fail_with syntax q)
  append_negatable negated (word ∷ rest) q =
      append_predicate negated (predicate_for_string q.words word) word rest q

  unfoldable pub append_element_from_args : Query Object → List String → Taken Object
  unfolding append_negatable
  append_element_from_args q [] = record { query = q; ok = false; num_used = 0 }
  append_element_from_args q (word ∷ rest) =
      if str_eq (predicate_for_string q.words word) q.words.operators.not_token
      then append_negatable true rest q
      else append_negatable false (word ∷ rest) q

  -- The while loop of kextfind_main.c: it ends at a call that fails, or in front of the keyword
  -- that opens the report specification. It returns the query and the words that are left.
  unfoldable pub parse_args :
      ℕ → String → Query Object → List String → Option (Query Object × List String)
  parse_args zero keyword q argv = none
  parse_args (suc fuel) keyword q argv =
      let taken = append_element_from_args q argv in
      let argv' = drop taken.num_used argv in
      let next = parse_args fuel keyword taken.query argv' in
      if taken.ok
      then (if at_keyword keyword argv' then some (taken.query, argv') else next)
      else some (taken.query, argv')

  -- The loop is entered unless the first word is missing or is the keyword.
  unfoldable pub parse_query :
      ℕ → String → Query Object → List String → Option (Query Object × List String)
  unfolding parse_args
  parse_query fuel keyword q [] = some (q, [])
  parse_query fuel keyword q (word ∷ rest) =
      if str_eq word keyword then some (q, word ∷ rest) else parse_args fuel keyword q (word ∷ rest)
