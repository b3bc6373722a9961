-- ===== src/Query/After.antt =====
-- The states of the group stack behind the words of an expression, and what `or` and the end of a
-- group do there.
use kext_tools.Common.{ℕ, suc, ◌<◌, ◌^◌, ◌≡◌, refl, Bool, true, false, List, ◌∷◌}
use kext_tools.Query.Data.{Element, Elements, nil, cons, append_value, Frame, Words, Query}
use kext_tools.Query.Stack.{append_or_operator, end_group, end_or_group}
use kext_tools.Query.Grammar.{
  Conjunction, Disjunction, paren, one, both, only, either, primary_element, conjunction_elements,
  conjunction_element, disjunction_elements,
}
use kext_tools.Query.Close.{
  or_group, and_group, state, or-in_or_group, or-in_and_group, end-in_and_group, end-in_or_group,
  end-into_or_group, end-into_and_group, end-into_first,
}

-- The frames that an element may join: an and-group has one already.
pub data HasRoom : Frame → Type 0 where
  in_or_group : (negated : Bool) (es : Elements) → HasRoom (or_group negated es)
  in_and_group : (x : Element) (xs : Elements) → HasRoom (and_group (cons x xs))

module _ {Object : Type 0} (short : Bool) (w : Words Object) where
  -- The stack behind a chain of conjuncts that began in an or-group with elements `es`.
  abbrev pub conjunction_below : List Frame → Bool → Elements → Conjunction → List Frame
  conjunction_below below negated es (one p) = below
  conjunction_below below negated es (both c written p) = or_group negated es ∷ below

  abbrev pub conjunction_top : Bool → Elements → Conjunction → Frame
  conjunction_top negated es (one p) = or_group negated (append_value es (primary_element w p))
  conjunction_top negated es (both c written p) =
      and_group (append_value (conjunction_elements w c) (primary_element w p))

  abbrev pub after_conjunction : ℕ → List Frame → Bool → Elements → Conjunction → Query Object
  after_conjunction level below negated es c =
      state short w level (conjunction_below below negated es c) (conjunction_top negated es c)
        false

  -- The elements of the disjuncts before the last, and the last.
  abbrev pub earlier : Disjunction → Elements
  earlier (only c) = nil
  earlier (either d c) = disjunction_elements w d

  abbrev pub latest : Disjunction → Conjunction
  latest (only c) = c
  latest (either d c) = c

  abbrev pub after_disjunction : ℕ → List Frame → Bool → Disjunction → Query Object
  after_disjunction level below negated d =
      after_conjunction level below negated (earlier d) (latest d)

  pub append_value-cons :
      (es : Elements) (e : Element)
      → (x : Element) × (xs : Elements) × (append_value es e ≡ cons x xs)
  append_value-cons nil e = (e, nil, refl)
  append_value-cons (cons x xs) e = (x, append_value xs e, refl)

  -- `or` closes the and-group of the disjunct before it.
  pub or-after :
      (level : ℕ) (below : List Frame) (negated : Bool) (d : Disjunction)
      → append_or_operator (after_disjunction level below negated d)
        ≡ (state short w level below (or_group negated (disjunction_elements w d)) true, true)
  unfolding disjunction_elements
  or-after level below negated (only (one p)) =
      or-in_or_group short w level below negated (cons (primary_element w p) nil)
  or-after level below negated (only (both c written p)) =
      or-in_and_group short w level below negated nil
        (append_value (conjunction_elements w c) (primary_element w p))
  or-after level below negated (either d (one p)) =
      or-in_or_group short w level below negated
        (append_value (disjunction_elements w d) (primary_element w p))
  or-after level below negated (either d (both c written p)) =
      or-in_and_group short w level below negated (disjunction_elements w d)
        (append_value (conjunction_elements w c) (primary_element w p))

  pub disjunction_elements-cons :
      (d : Disjunction) → (x : Element) × (xs : Elements) × (disjunction_elements w d ≡ cons x xs)
  unfolding disjunction_elements
  disjunction_elements-cons (only c) = (conjunction_element w c, nil, refl)
  disjunction_elements-cons (either d c) =
      append_value-cons (disjunction_elements w d) (conjunction_element w c)

  -- The end of a group closes the and-group of its last disjunct.
  pub end-after :
      (level : ℕ) (below : List Frame) (negated : Bool) (d : Disjunction)
      → end_group (after_disjunction (suc level) below negated d)
        ≡ end_or_group
            (state short w (suc level) below (or_group negated (disjunction_elements w d)) false)
  unfolding disjunction_elements
  end-after level below negated (only (one p)) =
      end-in_or_group short w false level below negated (primary_element w p) nil
  end-after level below negated (either d (one p)) =
      let (x, xs, e) = append_value-cons (disjunction_elements w d) (primary_element w p) in
      rw e (end-in_or_group short w false level below negated x xs)
  end-after level below negated (only (both c written p)) =
      let (x, xs, e) = append_value-cons (conjunction_elements w c) (primary_element w p) in
      rw e (end-in_and_group short w level below negated nil x xs)
  end-after level below negated (either d (both c written p)) =
      let (x, xs, e) = append_value-cons (conjunction_elements w c) (primary_element w p) in
      rw e (end-in_and_group short w level below negated (disjunction_elements w d) x xs)

  -- Closing the group of a disjunction, by what it was opened in.
  pub closes-in_or :
      (level : ℕ) (below : List Frame) (outer : Bool) (es : Elements) (negated : Bool)
      (d : Disjunction)
      → suc level < 2 ^ 32
      → end_or_group (
          state short w
            (suc level)
            (or_group outer es ∷ below)
            (or_group negated (disjunction_elements w d))
            false)
        ≡ (
          state short w level below
              (or_group outer (append_value es (primary_element w (paren negated d))))
              false,
          true,
        )
  unfolding primary_element
  closes-in_or level below outer es negated d small =
      let (x, xs, e) = disjunction_elements-cons d in
      rw e (end-into_or_group short w false level outer es below negated x xs small)

  pub closes-in_and :
      (level : ℕ) (below : List Frame) (y : Element) (ys : Elements) (negated : Bool)
      (d : Disjunction)
      → suc level < 2 ^ 32
      → end_or_group (
          state short w
            (suc level)
            (and_group (cons y ys) ∷ below)
            (or_group negated (disjunction_elements w d))
            false)
        ≡ (
          state short w level below
              (and_group (cons y (append_value ys (primary_element w (paren negated d)))))
              false,
          true,
        )
  unfolding primary_element
  closes-in_and level below y ys negated d small =
      let (x, xs, e) = disjunction_elements-cons d in
      rw e (end-into_and_group short w level y ys below negated x xs small)

  pub closes-first :
      (level : ℕ) (below : List Frame) (outer : Bool) (negated : Bool) (d : Disjunction)
      → suc level < 2 ^ 32
      → end_or_group (
          state short w
            (suc level)
            (and_group nil ∷ or_group outer nil ∷ below)
            (or_group negated (disjunction_elements w d))
            false)
        ≡ (
          state short w level below
              (or_group outer (cons (primary_element w (paren negated d)) nil))
              false,
          true,
        )
  unfolding primary_element
  closes-first level below outer negated d small =
      let (x, xs, e) = disjunction_elements-cons d in
      rw e (end-into_first short w level (or_group outer nil) below negated x xs small)
