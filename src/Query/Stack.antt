-- ===== src/Query/Stack.antt =====
-- QEQuery.c: the group stack and the operations that build a query. An operation returns the query and the source's Boolean result, since a
-- failed call leaves what it has changed.
use kext_tools.Common.{
  ℕ, zero, suc, ◌+◌, ◌-◌, ◌%◌, ◌^◌, Bool, true, false, not, Option, none, some, [], ◌∷◌,
  if◌then◌else◌, ◌==◌, ◌&&◌,
}
use kext_tools.Query.Data.{
  QueryError, group_nesting, empty_group, syntax, Element, count, append_value, split_last, first?,
  element_is_negated, element_negate, Frame, create_group, frame_element, Query, is_complete,
}

abbrev pub Op : Type 0 → Type 0
Op Object = Query Object → Query Object × Bool

module _ {Object : Type 0} where
  infixl 5 ◌>>◌
  abbrev pub ◌>>◌ : Op Object → Op Object → Op Object
  ◌>>◌ m k q = let (q', ok) = m q in if ok then k q' else (q', false)

  abbrev pub succeed : Op Object
  succeed q = (q, true)

  abbrev pub fail_with : QueryError → Op Object
  fail_with e q = (record q { last_error = e }, false)

  abbrev pub when : (Query Object → Bool) → Op Object → Op Object
  when test op q = if test q then op q else (q, true)

  abbrev pub set_logic_op : Bool → Op Object
  set_logic_op flag q = (record q { logic_op_active = flag }, true)

  unfoldable pub top_is_and_group : Query Object → Bool
  top_is_and_group q = q.top.and_flag

  unfoldable pub top_is_or_group : Query Object → Bool
  top_is_or_group q = not q.top.and_flag

  unfoldable pub top_has_count : ℕ → Query Object → Bool
  top_has_count n q = count q.top.elements == n

  abbrev pub append_to_top : Element → Query Object → Query Object
  append_to_top e q = record q { top = record (q.top) { elements = append_value q.top.elements e } }

  unfoldable pub yank_element : Query Object → Option Element × Query Object
  yank_element q = elim (split_last q.top.elements) [
    | none ↦ (none, q)
    | some (init, last) ↦ (some last, record q { top = record (q.top) { elements = init } })
  ]

  -- The new group goes on the stack; it joins its parent's arguments when it is popped.
  abbrev pub push_frame : Frame → Query Object → Query Object
  push_frame f q = record q { top = f; below = q.top ∷ q.below }

  unfoldable pub push_group : (Element → Op Object) → Bool → Bool → Op Object
  unfolding yank_element
  push_group append negated and_flag q =
      let new_group = record (create_group and_flag) { negated = negated } in
      if and_flag
      then (let (yanked, q') = yank_element q in
          elim yanked [
            | none ↦ (push_frame new_group q', true)
            | some e ↦ ((append e (push_frame new_group q')).0, true)
          ])
      else (
        push_frame new_group (record q { nesting_level = (q.nesting_level + 1) % 2 ^ 32 }),
        true,
      )

  unfoldable pub start_group_with : (Element → Op Object) → Bool → Bool → Op Object
  unfolding push_group top_is_or_group
  start_group_with append and_flag negated =
      when (λ q. not q.logic_op_active && top_is_or_group q) (push_group append false true)
      >> push_group append negated and_flag

  unfoldable pub append_and_operator_with : (Element → Op Object) → Op Object
  unfolding start_group_with
  append_and_operator_with append q =
      if q.logic_op_active
      then fail_with syntax q
      else (set_logic_op true >> when top_is_or_group (start_group_with append true false)) q

  -- The calls from append_element to append_and_operator and back take a depth, which two levels
  -- exhaust; a call beyond it would fail.
  unfoldable pub append_element_at : ℕ → Element → Op Object
  unfolding append_and_operator_with top_has_count
  append_element_at zero e q = (q, false)
  append_element_at (suc depth) e q =
      (when (λ r. not r.logic_op_active && not (top_has_count 0 r))
            (append_and_operator_with (append_element_at depth))
          >> λ r. set_logic_op false (append_to_top e r))
        q

  unfoldable pub append_element : Element → Op Object
  unfolding append_element_at
  append_element = append_element_at 2

  unfoldable pub append_and_operator : Op Object
  unfolding append_and_operator_with append_element
  append_and_operator = append_and_operator_with append_element

  unfoldable pub start_group : Bool → Op Object
  unfolding start_group_with append_element
  start_group negated = start_group_with append_element false negated

  unfoldable pub pop_group : Op Object
  pop_group q = elim q.below [
    | [] ↦ fail_with group_nesting q
    | parent ∷ rest ↦
        (append_to_top (frame_element q.top) (record q { top = parent; below = rest }), true)
  ]

  unfoldable pub append_or_operator : Op Object
  unfolding pop_group top_is_and_group
  append_or_operator q =
      if q.logic_op_active
      then fail_with syntax q
      else (set_logic_op true >> when top_is_and_group pop_group) q

  abbrev pub is_root : Query Object → Bool
  is_root q = elim q.below [ [] ↦ true | _ ↦ false ]

  -- The group of one gives way to its element, which takes over its negation.
  abbrev pub replace_group_by : Element → Op Object
  replace_group_by single q =
      let (yanked, q') = yank_element q in
      elim yanked [
        | none ↦ fail_with group_nesting q'
        | some group_of_one ↦ (
          append_to_top (if element_is_negated group_of_one then element_negate single else single)
              q',
          true,
        )
      ]

  unfoldable pub pop_group_and_coalesce : Bool → Op Object
  unfolding pop_group yank_element top_has_count
  pop_group_and_coalesce only_if_can_coalesce q =
      let can_coalesce = top_has_count 1 q && not (is_root q) in
      if only_if_can_coalesce && not can_coalesce
      then (q, true)
      else if can_coalesce
      then elim (first? q.top.elements) [
        | none ↦ (pop_group >> succeed) q
        | some single ↦ (pop_group >> replace_group_by single) q
      ]
      else pop_group q

  -- A call whose failure sets the error group_nesting.
  abbrev pub or_nesting_error : Op Object → Op Object
  or_nesting_error op q =
      let (q', ok) = op q in if ok then (q', true) else fail_with group_nesting q'

  abbrev pub leave_level : Op Object
  leave_level q = (record q { nesting_level = (q.nesting_level + 2 ^ 32 - 1) % 2 ^ 32 }, true)

  -- QEQueryEndGroup, from the point where an implicit and-group on top has been closed.
  unfoldable pub end_or_group : Op Object
  unfolding top_is_and_group top_is_or_group
  end_or_group =
      when top_is_and_group (fail_with group_nesting)
      >> when (λ q. not (top_is_or_group q)) (fail_with group_nesting)
      >> or_nesting_error (pop_group_and_coalesce false)
      >> leave_level
      >> when top_is_and_group (or_nesting_error (pop_group_and_coalesce true))

  unfoldable pub end_group : Op Object
  unfolding pop_group top_is_and_group
  end_group =
      when is_complete (fail_with group_nesting)
      >> when (top_has_count 0) (fail_with empty_group)
      >> when top_is_and_group pop_group
      >> end_or_group
