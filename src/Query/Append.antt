-- ===== src/Query/Append.antt =====
-- QEQueryAppendElement against a description of its effect.
use kext_tools.Common.{
  ◌≡◌, refl, ℕ, suc, Bool, true, false, none, some, ◌∷◌, if◌then◌else◌, ◌||◌, arith,
}
use kext_tools.Query.Data.{Element, Elements, nil, cons, split_last, Query}
use kext_tools.Query.Stack.{append_to_top, append_element_at, append_element, push_frame}

module _ {Object : Type 0} where
  abbrev pub add_to_top : Element → Query Object → Query Object
  add_to_top e q = record (append_to_top e q) { logic_op_active = false }

  -- The last element of the or-group on top opens an and-group, which takes the new element.
  abbrev pub open_and_group : Element → Element → Elements → Query Object → Query Object
  open_and_group e last init q = record q {
    top = record { and_flag = true; negated = false; elements = cons last (cons e nil) };
    below = record (q.top) { elements = init } ∷ q.below;
    logic_op_active = false;
  }

  -- An operator that is pending, and a group that is empty or an and-group, take the element;
  -- otherwise it is joined to the last element by an `and` that binds tighter than the group.
  unfoldable pub appended : Element → Query Object → Query Object
  appended e q =
      if q.logic_op_active || q.top.and_flag
      then add_to_top e q
      else elim (split_last q.top.elements) [
        | none ↦ add_to_top e q
        | some (init, last) ↦ open_and_group e last init q
      ]

  append-to_empty :
      (d : ℕ) (e : Element) (and_flag negated : Bool) (q : Query Object)
      → append_element_at
          (suc d)
          e
          (push_frame (record { and_flag = and_flag; negated = negated; elements = nil }) q)
        ≡ (
          add_to_top e
              (push_frame (record { and_flag = and_flag; negated = negated; elements = nil }) q),
          true,
        )
  unfolding append_element_at
  append-to_empty d e and_flag negated q = ground arith

  -- By the cases of the operator flag, the kind of the top group, and its elements.
  append-cases :
      (d : ℕ) (e : Element) (active and_flag : Bool) (es : Elements) (q : Query Object)
      → let q' = record q {
        top = record (q.top) { and_flag = and_flag; elements = es };
        logic_op_active = active;
      } in
        append_element_at (suc (suc d)) e q' ≡ (appended e q', true)
  unfolding append_element_at appended
  append-cases d e true and_flag es q = refl
  append-cases d e false true nil q = refl
  append-cases d e false true (cons x es) q = ground arith
  append-cases d e false false nil q = refl
  append-cases d e false false (cons x es) q = ground arith

  -- At every depth of the mutual recursion from two on, appending an element succeeds and has the
  -- effect that `appended` describes.
  pub append_element_at-appended :
      (d : ℕ) (e : Element) (q : Query Object)
      → append_element_at (suc (suc d)) e q ≡ (appended e q, true)
  append_element_at-appended d e q =
      append-cases d e q.logic_op_active q.top.and_flag q.top.elements q

  pub append_element_lem :
      (e : Element) (q : Query Object) → append_element e q ≡ (appended e q, true)
  unfolding append_element
  append_element_lem e q = append_element_at-appended 0 e q
