-- ===== src/Query/Close.antt =====
-- What the operators do to the group stack, in the states that a command line leads to.
use kext_tools.Common.{ℕ, suc, ◌<◌, ◌^◌, ◌≡◌, refl, ◌⊎◌, Bool, true, false, some, List, ◌∷◌, arith}
use kext_tools.Query.Data.{
  no_error, Element, Elements, group, nil, cons, append_value, split_last, Frame, Words, Query,
  is_complete,
}
use kext_tools.Query.Stack.{
  append_and_operator, append_or_operator, start_group, end_group, pop_group_and_coalesce,
  end_or_group, top_has_count,
}
use kext_tools.Query.Append.{appended}
use kext_tools.Query.Grammar.{coalesced}

abbrev pub or_group : Bool → Elements → Frame
or_group negated es = record { and_flag = false; negated = negated; elements = es }

abbrev pub and_group : Elements → Frame
and_group es = record { and_flag = true; negated = false; elements = es }

pub split_last-append_value :
    (es : Elements) (e : Element) → split_last (append_value es e) ≡ some (es, e)
split_last-append_value nil e = refl
split_last-append_value (cons x es) e = rw (split_last-append_value es e)

-- A list of elements by its last.
pub data Snoc : Elements → Type 0 where
  empty : Snoc nil
  snoc : (es : Elements) (e : Element) → Snoc (append_value es e)

pub view-Snoc : (es : Elements) → Snoc es
view-Snoc nil = empty
view-Snoc (cons x es) = grow x (view-Snoc es)
  where
    grow : (x : Element) {es : Elements} → Snoc es → Snoc (cons x es)
    grow x empty = snoc nil x
    grow x (snoc es e) = snoc (cons x es) e

module _ {Object : Type 0} (short : Bool) (words : Words Object) where
  -- A query without an error, with `f` on top of its stack.
  abbrev pub state : ℕ → List Frame → Frame → Bool → Query Object
  state level below f active = record {
    top = f;
    below = below;
    nesting_level = level;
    logic_op_active = active;
    short_circuit_eval = short;
    last_error = no_error;
    words = words;
  }

  -- An `and` after an element of an or-group moves that element to an and-group of its own.
  pub and-after_element :
      (level : ℕ) (below : List Frame) (negated : Bool) (es : Elements) (e : Element)
      → append_and_operator (state level below (or_group negated (append_value es e)) false)
        ≡ (state level (or_group negated es ∷ below) (and_group (cons e nil)) false, true)
  unfolding append_and_operator
  and-after_element level below negated es e = ground (arith, split_last-append_value es e)

  pub and-in_and_group :
      (level : ℕ) (below : List Frame) (es : Elements)
      → append_and_operator (state level below (and_group es) false)
        ≡ (state level below (and_group es) true, true)
  unfolding append_and_operator
  and-in_and_group level below es = refl

  pub or-in_or_group :
      (level : ℕ) (below : List Frame) (negated : Bool) (es : Elements)
      → append_or_operator (state level below (or_group negated es) false)
        ≡ (state level below (or_group negated es) true, true)
  unfolding append_or_operator
  or-in_or_group level below negated es = refl

  pub or-in_and_group :
      (level : ℕ) (below : List Frame) (negated : Bool) (es xs : Elements)
      → append_or_operator (state level (or_group negated es ∷ below) (and_group xs) false)
        ≡ (state level below (or_group negated (append_value es (group true false xs))) true, true)
  unfolding append_or_operator
  or-in_and_group level below negated es xs = refl

  pub appended-joins :
      (level : ℕ) (below : List Frame) (negated : Bool) (es : Elements) (last e : Element)
      → appended e (state level below (or_group negated (append_value es last)) false)
        ≡ state level (or_group negated es ∷ below) (and_group (cons last (cons e nil))) false
  unfolding appended
  appended-joins level below negated es last e = ground (arith, split_last-append_value es last)

  -- A group that opens inside an and-group, or behind an operator.
  pub start-inside :
      (level : ℕ) (below : List Frame) (f : Frame) (active negated : Bool)
      → suc level < 2 ^ 32
      → (f.and_flag ≡ true) ⊎ (active ≡ true)
      → start_group negated (state level below f active)
        ≡ (state (suc level) (f ∷ below) (or_group negated nil) active, true)
  unfolding start_group
  start-inside level below f active negated small inside = ground arith

  pub start-first :
      (level : ℕ) (below : List Frame) (outer negated : Bool)
      → suc level < 2 ^ 32
      → start_group negated (state level below (or_group outer nil) false) ≡ (
        state (suc level) (and_group nil ∷ or_group outer nil ∷ below) (or_group negated nil) false,
        true,
      )
  unfolding start_group
  start-first level below outer negated small = ground arith

  pub start-after_element :
      (level : ℕ) (below : List Frame) (outer negated : Bool) (es : Elements) (e : Element)
      → suc level < 2 ^ 32
      → start_group negated (state level below (or_group outer (append_value es e)) false) ≡ (
        state
            (suc level)
            (and_group (cons e nil) ∷ or_group outer es ∷ below)
            (or_group negated nil)
            false,
        true,
      )
  unfolding start_group
  start-after_element level below outer negated es e small =
      ground (arith, split_last-append_value es e)

  abbrev pub with_element : Frame → Element → Frame
  with_element f e = record f { elements = append_value f.elements e }

  open-not_complete :
      (level : ℕ) (below : List Frame) (f : Frame) (active : Bool)
      → is_complete (state (suc level) below f active) ≡ false
  unfolding is_complete
  open-not_complete level below f active = ground arith

  cons-has_elements :
      (level : ℕ) (below : List Frame) (and_flag negated : Bool) (x : Element) (xs : Elements)
      (active : Bool)
      → top_has_count 0 (
          state level below
            (record { and_flag = and_flag; negated = negated; elements = cons x xs })
            active)
        ≡ false
  unfolding top_has_count
  cons-has_elements level below and_flag negated x xs active = ground arith

  -- An and-group that is open on top is closed with the group around it.
  pub end-in_and_group :
      (level : ℕ) (below : List Frame) (negated : Bool) (es : Elements) (x : Element)
      (xs : Elements)
      → end_group (state (suc level) (or_group negated es ∷ below) (and_group (cons x xs)) false)
        ≡ end_or_group (
            state
              (suc level)
              below
              (or_group negated (append_value es (group true false (cons x xs))))
              false)
  unfolding end_group
  end-in_and_group level below negated es x xs = ground (
    arith,
    open-not_complete level (or_group negated es ∷ below) (and_group (cons x xs)) false,
    cons-has_elements (suc level) (or_group negated es ∷ below) true false x xs false,
  )

  pub end-in_or_group :
      (active : Bool) (level : ℕ) (below : List Frame) (negated : Bool) (x : Element)
      (xs : Elements)
      → end_group (state (suc level) below (or_group negated (cons x xs)) active)
        ≡ end_or_group (state (suc level) below (or_group negated (cons x xs)) active)
  unfolding end_group
  end-in_or_group active level below negated x xs = ground (
    arith,
    open-not_complete level below (or_group negated (cons x xs)) active,
    cons-has_elements (suc level) below false negated x xs active,
  )

  -- A group that closes gives its parent one element.
  pub close-or_group :
      (active : Bool) (g : Frame) (below : List Frame) (negated : Bool) (level : ℕ) (x : Element)
      (xs : Elements)
      → pop_group_and_coalesce false (state level (g ∷ below) (or_group negated (cons x xs)) active)
        ≡ (state level below (with_element g (coalesced negated (cons x xs))) active, true)
  unfolding pop_group_and_coalesce
  close-or_group active g below negated level x nil =
      ground (arith, split_last-append_value g.elements (group false negated (cons x nil)))
  close-or_group active g below negated level x (cons y ys) = ground arith

  -- An and-group with two elements or more stays open, one with a single element gives way to it.
  keep-and_group :
      (level : ℕ) (below : List Frame) (x : Element) (xs : Elements) (e : Element)
      → pop_group_and_coalesce true
          (state level below (and_group (cons x (append_value xs e))) false)
        ≡ (state level below (and_group (cons x (append_value xs e))) false, true)
  unfolding pop_group_and_coalesce
  keep-and_group level below x nil e = ground arith
  keep-and_group level below x (cons y ys) e = ground arith

  drop-and_group :
      (level : ℕ) (f : Frame) (below : List Frame) (e : Element)
      → pop_group_and_coalesce true (state level (f ∷ below) (and_group (cons e nil)) false)
        ≡ (state level below (with_element f e) false, true)
  unfolding pop_group_and_coalesce
  drop-and_group level f below e =
      ground (arith, split_last-append_value f.elements (group true false (cons e nil)))

  pub end-into_or_group :
      (active : Bool) (level : ℕ) (outer : Bool) (es : Elements) (below : List Frame)
      (negated : Bool) (x : Element) (xs : Elements)
      → suc level < 2 ^ 32
      → end_or_group
          (state (suc level) (or_group outer es ∷ below) (or_group negated (cons x xs)) active)
        ≡ (
          state level below
              (or_group outer (append_value es (coalesced negated (cons x xs))))
              active,
          true,
        )
  unfolding end_or_group
  end-into_or_group active level outer es below negated x xs small =
      ground (arith, close-or_group active (or_group outer es) below negated (suc level) x xs)

  pub end-into_and_group :
      (level : ℕ) (y : Element) (ys : Elements) (below : List Frame) (negated : Bool) (x : Element)
      (xs : Elements)
      → suc level < 2 ^ 32
      → end_or_group
          (state (suc level) (and_group (cons y ys) ∷ below) (or_group negated (cons x xs)) false)
        ≡ (
          state level below
              (and_group (cons y (append_value ys (coalesced negated (cons x xs)))))
              false,
          true,
        )
  unfolding end_or_group
  end-into_and_group level y ys below negated x xs small = ground (
    arith,
    close-or_group false (and_group (cons y ys)) below negated (suc level) x xs,
    keep-and_group level below y ys (coalesced negated (cons x xs)),
  )

  pub end-into_first :
      (level : ℕ) (f : Frame) (below : List Frame) (negated : Bool) (x : Element) (xs : Elements)
      → suc level < 2 ^ 32
      → end_or_group
          (state (suc level) (and_group nil ∷ f ∷ below) (or_group negated (cons x xs)) false)
        ≡ (state level below (with_element f (coalesced negated (cons x xs))) false, true)
  unfolding end_or_group
  end-into_first level f below negated x xs small = ground (
    arith,
    close-or_group false (and_group nil) (f ∷ below) negated (suc level) x xs,
    drop-and_group level f below (coalesced negated (cons x xs)),
  )
