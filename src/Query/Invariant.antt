-- ===== src/Query/Invariant.antt =====
-- The group stack of a query: the root is an or-group, no and-group is opened in an and-group or
-- negated, and nestingLevel counts the or-groups that are open.
use kext_tools.Common.{
  ℕ, ◌+◌, ◌%◌, ◌^◌, ◌-◌, ◌≡◌, refl, ◌⊎◌, inl, inr, Bool, true, false, ◌&&◌, ◌||◌, Option, none,
  some, List, [], ◌∷◌, String, str_eq, if◌then◌else◌, arith, Bool-cases,
}
use kext_tools.Query.Data.{
  QueryError, group_nesting, syntax, no_parse_callback, ParseCallback, Element, Elements, group,
  nil, cons, append_value, element_negate, Frame, Parsed, Query, is_complete, create,
}
use kext_tools.Query.Stack.{
  Op, when, fail_with, append_element, append_and_operator, append_or_operator, start_group,
  end_group, end_or_group, pop_group_and_coalesce, leave_level, top_has_count, top_is_and_group,
  or_nesting_error, ◌>>◌,
}
use kext_tools.Query.Args.{
  Taken, finish, unless_negated, append_parsed, append_predicate, append_negatable,
  append_element_from_args, predicate_for_string, create_element,
}
use kext_tools.Query.Append.{appended, append_element_lem}
use kext_tools.Query.Close.{split_last-append_value, Snoc, empty, snoc, view-Snoc}

-- The or-groups that are open inside the root.
abbrev pub open_or_groups : Bool → List Frame → ℕ
open_or_groups and_flag [] = 0
open_or_groups and_flag (g ∷ gs) = (if and_flag then 0 else 1) + open_or_groups g.and_flag gs

abbrev pub IsStack : Bool → Bool → List Frame → Type 0
IsStack and_flag negated [] = (and_flag ≡ false) × (negated ≡ false)
IsStack and_flag negated (g ∷ gs) =
    ((and_flag && (g.and_flag || negated)) ≡ false) × IsStack g.and_flag g.negated gs

module _ {Object : Type 0} where
  pub record IsWellFormed (q : Query Object) : Type 0 where
    pub stack : IsStack q.top.and_flag q.top.negated q.below
    pub level : q.nesting_level ≡ open_or_groups q.top.and_flag q.below % 2 ^ 32

  pub create-IsWellFormed : IsWellFormed (create Object)
  unfolding create
  create-IsWellFormed = record { stack = (refl, refl); level = refl }

  appended-IsWellFormed :
      (e : Element) (q : Query Object) → IsWellFormed q → IsWellFormed (appended e q)
  unfolding appended
  appended-IsWellFormed e q h = ground arith

  append_element-IsWellFormed :
      (e : Element) (q : Query Object) → IsWellFormed q → IsWellFormed (append_element e q).0
  append_element-IsWellFormed e q h = rw append_element_lem (appended-IsWellFormed e q h)

  abbrev with_top : Query Object → Bool → Elements → Query Object
  with_top q and_flag es = record q { top = record (q.top) { and_flag = and_flag; elements = es } }

  and-IsWellFormed :
      (q : Query Object) (active and_flag : Bool) {es : Elements}
      → Snoc es
      → IsWellFormed (record (with_top q and_flag es) { logic_op_active = active })
      → IsWellFormed
          (append_and_operator (record (with_top q and_flag es) { logic_op_active = active })).0
  unfolding append_and_operator
  and-IsWellFormed q true and_flag s h = ground arith
  and-IsWellFormed q false true s h = ground arith
  and-IsWellFormed q false false empty h = ground arith
  and-IsWellFormed q false false (snoc es e) h = ground (arith, split_last-append_value es e)

  append_and_operator-IsWellFormed :
      (q : Query Object) → IsWellFormed q → IsWellFormed (append_and_operator q).0
  append_and_operator-IsWellFormed q h =
      and-IsWellFormed q q.logic_op_active q.top.and_flag (view-Snoc q.top.elements) h

  append_or_operator-IsWellFormed :
      (q : Query Object) → IsWellFormed q → IsWellFormed (append_or_operator q).0
  unfolding append_or_operator
  append_or_operator-IsWellFormed q h = or_cases q.below h
    where
      or_cases :
          (below : List Frame)
          → IsWellFormed (record q { below = below })
          → IsWellFormed (append_or_operator (record q { below = below })).0
      or_cases [] h = ground arith
      or_cases (g ∷ gs) h = ground arith

  start-IsWellFormed :
      (negated : Bool) (q : Query Object) (active and_flag : Bool) {es : Elements}
      → Snoc es
      → IsWellFormed (record (with_top q and_flag es) { logic_op_active = active })
      → IsWellFormed
          (start_group negated (record (with_top q and_flag es) { logic_op_active = active })).0
  unfolding start_group
  start-IsWellFormed negated q true and_flag s h = ground arith
  start-IsWellFormed negated q false true s h = ground arith
  start-IsWellFormed negated q false false empty h = ground arith
  start-IsWellFormed negated q false false (snoc es e) h =
      ground (arith, split_last-append_value es e)

  start_group-IsWellFormed :
      (negated : Bool) (q : Query Object) → IsWellFormed q → IsWellFormed (start_group negated q).0
  start_group-IsWellFormed negated q h =
      start-IsWellFormed negated q q.logic_op_active q.top.and_flag (view-Snoc q.top.elements) h

  abbrev on_stack : Query Object → Bool → Bool → Elements → List Frame → Query Object
  on_stack q and_flag negated es below = record q {
    top = record { and_flag = and_flag; negated = negated; elements = es };
    below = below;
  }

  -- Closing a group inside another leaves its parent on top, with other elements.
  pop_and_coalesce_lem :
      (q : Query Object) (and_flag negated : Bool) (es : Elements) (g : Frame) (gs : List Frame)
      → (xs : Elements) × (pop_group_and_coalesce false (on_stack q and_flag negated es (g ∷ gs))
          ≡ (on_stack q g.and_flag g.negated xs gs, true))
  unfolding pop_group_and_coalesce
  pop_and_coalesce_lem q and_flag negated nil g gs =
      (append_value g.elements (group and_flag negated nil), ground arith)
  pop_and_coalesce_lem q and_flag negated (cons e nil) g gs = (
    append_value g.elements (if negated then element_negate e else e),
    ground (arith, split_last-append_value g.elements (group and_flag negated (cons e nil))),
  )
  pop_and_coalesce_lem q and_flag negated (cons e (cons f es)) g gs =
      (append_value g.elements (group and_flag negated (cons e (cons f es))), ground arith)

  -- An and-group with one element gives way to it, another stays.
  coalesce_lem :
      (q : Query Object) (and_flag negated : Bool) (es : Elements) (g : Frame) (gs : List Frame)
      → let q' = on_stack q and_flag negated es (g ∷ gs) in
        (pop_group_and_coalesce true q' ≡ (q', true))
        ⊎ ((xs : Elements) × (pop_group_and_coalesce true q'
              ≡ (on_stack q g.and_flag g.negated xs gs, true)))
  unfolding pop_group_and_coalesce
  coalesce_lem q and_flag negated nil g gs = inl (ground arith)
  coalesce_lem q and_flag negated (cons e nil) g gs = inr (
    append_value g.elements (if negated then element_negate e else e),
    ground (arith, split_last-append_value g.elements (group and_flag negated (cons e nil))),
  )
  coalesce_lem q and_flag negated (cons e (cons f es)) g gs = inl (ground arith)

  -- The last step of end_group, on an and-group.
  last-IsWellFormed :
      (q : Query Object) (es : Elements) (below : List Frame)
      → IsWellFormed (on_stack q true false es below)
      → IsWellFormed
          (or_nesting_error (pop_group_and_coalesce true) (on_stack q true false es below)).0
  last-IsWellFormed q es [] h = ground arith
  last-IsWellFormed q es (g ∷ gs) h = elim (coalesce_lem q true false es g gs) [
    | inl stays ↦ rw stays h
    | inr (xs, closes) ↦ rw closes (ground arith)
  ]

  root_stays :
      (q : Query Object) (negated : Bool) (es : Elements)
      → pop_group_and_coalesce false (on_stack q false negated es [])
        ≡ (record (on_stack q false negated es []) { last_error = group_nesting }, false)
  unfolding pop_group_and_coalesce
  root_stays q negated es = ground arith

  -- What is left to do once a group has been closed in its parent.
  abbrev after_close : Op Object
  after_close =
      leave_level >> when top_is_and_group (or_nesting_error (pop_group_and_coalesce true))

  after_close-IsWellFormed :
      (q : Query Object) (and_flag negated : Bool) (xs : Elements) (gs : List Frame)
      → q.nesting_level ≡ (1 + open_or_groups and_flag gs) % 2 ^ 32
      → IsStack and_flag negated gs
      → IsWellFormed (after_close (on_stack q and_flag negated xs gs)).0
  unfolding top_is_and_group
  after_close-IsWellFormed q false negated xs gs level stack = ground arith
  after_close-IsWellFormed q true false xs gs level stack =
      last-IsWellFormed (record q { nesting_level = (q.nesting_level + 2 ^ 32 - 1) % 2 ^ 32 }) xs gs
        (record { stack = stack; level = omega arith })
  after_close-IsWellFormed q true true xs [] level stack = cc (stack.0)
  after_close-IsWellFormed q true true xs (g ∷ gs) level stack = ground arith

  end_or_group-on_stack :
      (q : Query Object) (and_flag negated : Bool) (es : Elements) (below : List Frame)
      → IsWellFormed (on_stack q and_flag negated es below)
      → IsWellFormed (end_or_group (on_stack q and_flag negated es below)).0
  unfolding end_or_group
  end_or_group-on_stack q true negated es below h = ground arith
  end_or_group-on_stack q false negated es [] h = rw (root_stays q negated es) (ground arith)
  end_or_group-on_stack q false negated es (g ∷ gs) h =
      let (xs, closes) = pop_and_coalesce_lem q false negated es g gs in
      rw closes (after_close-IsWellFormed q g.and_flag g.negated xs gs h.level h.stack.1)

  -- Past its first two tests, end_group closes an and-group on top and goes on.
  end-past_tests :
      (q : Query Object) (and_flag negated : Bool) (es : Elements) (below : List Frame)
      → is_complete (on_stack q and_flag negated es below) ≡ false
      → top_has_count 0 (on_stack q and_flag negated es below) ≡ false
      → IsWellFormed (on_stack q and_flag negated es below)
      → IsWellFormed (end_group (on_stack q and_flag negated es below)).0
  unfolding end_group
  end-past_tests q false negated es below open' filled h =
      rw (open', filled) (end_or_group-on_stack q false negated es below h)
  end-past_tests q true negated es [] open' filled h = cc (h.stack.0)
  end-past_tests q true negated es (g ∷ gs) open' filled h =
      rw (open', filled)
        (end_or_group-on_stack q g.and_flag g.negated
          (append_value g.elements (group true negated es)) gs (ground arith))

  end-on_stack :
      (q : Query Object) (and_flag negated : Bool) (es : Elements) (below : List Frame)
      → IsWellFormed (on_stack q and_flag negated es below)
      → IsWellFormed (end_group (on_stack q and_flag negated es below)).0
  end-on_stack q and_flag negated es below h =
      elim (Bool-cases (is_complete (on_stack q and_flag negated es below))) [
        | inl complete ↦ unfold end_group in rw complete (ground arith)
        | inr open' ↦ elim (Bool-cases (top_has_count 0 (on_stack q and_flag negated es below))) [
          | inl bare ↦ unfold end_group in rw (open', bare) (ground arith)
          | inr filled ↦ end-past_tests q and_flag negated es below open' filled h
        ]
      ]

  end_group-IsWellFormed : (q : Query Object) → IsWellFormed q → IsWellFormed (end_group q).0
  end_group-IsWellFormed q h = end-on_stack q q.top.and_flag q.top.negated q.top.elements q.below h

  finish-query :
      (negated : Bool) (n : ℕ) (r : Query Object × Bool) → (finish negated n r).query ≡ r.0
  finish-query negated n (q, true) = refl
  finish-query negated n (q, false) = refl

  append_parsed-IsWellFormed :
      (negated : Bool) (q : Query Object) (p : Parsed)
      → IsWellFormed q
      → IsWellFormed (append_parsed negated q p).query
  append_parsed-IsWellFormed negated q p h = rw finish-query (by_result p.ok)
    where
      q' : Query Object
      q' = record q { last_error = p.error }

      valid : IsWellFormed q'
      valid = record { stack = h.stack; level = h.level }

      by_result :
          (ok : Bool) → IsWellFormed (if ok then append_element p.element q' else (q', false)).0
      by_result true = append_element-IsWellFormed p.element q' valid
      by_result false = valid

  abbrev Leaves : Taken Object → Type 0
  Leaves t = IsWellFormed t.query

  if_both : (b : Bool) (x y : Taken Object) → Leaves x → Leaves y → Leaves (if b then x else y)
  if_both true x y hx hy = hx
  if_both false x y hx hy = hy

  finish-Leaves :
      (negated : Bool) (n : ℕ) (r : Query Object × Bool)
      → IsWellFormed r.0
      → Leaves (finish negated n r)
  finish-Leaves negated n r h = rw finish-query h

  with_error :
      (q : Query Object) (e : QueryError)
      → IsWellFormed q
      → IsWellFormed (record q { last_error = e })
  with_error q e h = record { stack = h.stack; level = h.level }

  operator-Leaves :
      (negated : Bool) (op : Op Object) (q : Query Object)
      → IsWellFormed q
      → IsWellFormed (op q).0
      → Leaves (finish negated 1 (unless_negated negated op q))
  operator-Leaves true op q h h' = finish-Leaves true 1 (fail_with syntax q) (with_error q syntax h)
  operator-Leaves false op q h h' = finish-Leaves false 1 (op q) h'

  test-Leaves :
      (negated : Bool) (q : Query Object) (found : Option ParseCallback) (e : Element)
      (argv : List String)
      → IsWellFormed q
      → Leaves (elim found [
        | none ↦ finish negated 0 (fail_with no_parse_callback q)
        | some callback ↦ append_parsed negated q (callback e argv q.last_error)
      ])
  test-Leaves negated q none e argv h =
      finish-Leaves negated 0 (fail_with no_parse_callback q) (with_error q no_parse_callback h)
  test-Leaves negated q (some callback) e argv h =
      append_parsed-IsWellFormed negated q (callback e argv q.last_error) h

  -- By the predicate, in the order of the source's tests.
  append_predicate-Leaves :
      (negated : Bool) (predicate word : String) (rest : List String) (q : Query Object)
      → IsWellFormed q
      → Leaves (append_predicate negated predicate word rest q)
  unfolding append_predicate
  append_predicate-Leaves negated predicate word rest q h =
      if_both (str_eq predicate q.words.operators.and_token) _ _
        (operator-Leaves negated append_and_operator q h (append_and_operator-IsWellFormed q h))
        (if_both (str_eq predicate q.words.operators.or_token) _ _
          (operator-Leaves negated append_or_operator q h (append_or_operator-IsWellFormed q h))
          (if_both (str_eq predicate q.words.operators.group_start) _ _
            (finish-Leaves negated 1 (start_group negated q) (start_group-IsWellFormed negated q h))
            (if_both (str_eq predicate q.words.operators.group_end) _ _
              (finish-Leaves negated 1 (end_group q) (end_group-IsWellFormed q h))
              (test-Leaves negated q (q.words.parse_callbacks predicate)
                (create_element q.words predicate [] negated) (word ∷ rest) h))))

  append_negatable-Leaves :
      (negated : Bool) (argv : List String) (q : Query Object)
      → IsWellFormed q
      → Leaves (append_negatable negated argv q)
  unfolding append_negatable
  append_negatable-Leaves negated [] q h =
      finish-Leaves negated 0 (fail_with syntax q) (with_error q syntax h)
  append_negatable-Leaves negated (word ∷ rest) q h =
      append_predicate-Leaves negated (predicate_for_string q.words word) word rest q h

  -- Whatever the words are, and whether or not the call succeeds, reading an element or operator
  -- from the command line keeps the group stack well-formed.
  pub append_element_from_args-IsWellFormed :
      (q : Query Object) (argv : List String)
      → IsWellFormed q
      → IsWellFormed (append_element_from_args q argv).query
  unfolding append_element_from_args
  append_element_from_args-IsWellFormed q [] h = h
  append_element_from_args-IsWellFormed q (word ∷ rest) h =
      if_both (str_eq (predicate_for_string q.words word) q.words.operators.not_token) _ _
        (append_negatable-Leaves true rest q h) (append_negatable-Leaves false (word ∷ rest) q h)
