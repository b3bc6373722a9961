-- ===== src/Query/Accepts.antt =====
-- Command lines that the query engine accepts though an operand is missing.
use kext_tools.Common.{
  ℕ, suc, ◌<◌, ◌^◌, ◌≡◌, refl, ◌∙◌, Bool, true, false, List, ◌∷◌, String, arith,
}
use kext_tools.Query.Data.{Element, Elements, cons, append_value, Words, Frame, Query, is_complete}
use kext_tools.Query.Stack.{append_and_operator, end_group}
use kext_tools.Query.Args.{append_element_from_args, append_negatable, finish}
use kext_tools.Query.Grammar.{ArePlain, coalesced}
use kext_tools.Query.Close.{or_group, state, and-after_element, end-in_or_group, end-into_or_group}
use text.Mathlib.TextPositions.{eq_refl}

module _ {Object : Type 0} (short : Bool) (w : Words Object) where
  -- In a query whose or-group on top has an element and no operator pending, two `and` operators in
  -- a row succeed, and a complete query is complete behind the first of them.
  pub and_operator_forgotten :
      (level : ℕ) (below : List Frame) (negated : Bool) (es : Elements) (e : Element)
      → let q = state short w level below (or_group negated (append_value es e)) false in
        (is_complete (append_and_operator q).0 ≡ is_complete q)
        × ((append_and_operator (append_and_operator q).0).1 ≡ true)
  unfolding is_complete
  and_operator_forgotten level below negated es e = (
    rw (and-after_element short w level below negated es e),
    rw (and-after_element short w level below negated es e) (unfold append_and_operator in refl),
  )

  -- An or-group inside an or-group, with an element and an `or` behind it, closes at its end when
  -- fewer than 2 ^ 32 groups are open, and the `or` stays pending in the parent.
  pub or_operator_carried_out :
      (level : ℕ) (below : List Frame) (outer negated : Bool) (es : Elements) (x : Element)
      (xs : Elements)
      → suc level < 2 ^ 32
      → end_group (
          state short w (suc level) (or_group outer es ∷ below) (or_group negated (cons x xs)) true)
        ≡ (
          state short w level below
              (or_group outer (append_value es (coalesced negated (cons x xs))))
              true,
          true,
        )
  or_operator_carried_out level below outer negated es x xs small =
      end-in_or_group short w true level (or_group outer es ∷ below) negated x xs
      ∙ end-into_or_group short w true level outer es below negated x xs small

module _ {Object : Type 0} where
  finish_negated :
      (r : Query Object × Bool)
      → ((finish true 1 r).query ≡ (finish false 1 r).query)
        × ((finish true 1 r).ok ≡ (finish false 1 r).ok)
  finish_negated (q, true) = (refl, refl)
  finish_negated (q, false) = (refl, refl)

  read_end :
      (negated : Bool) (q : Query Object) (rest : List String)
      → ArePlain q.words
      → append_negatable negated (q.words.operators.group_end ∷ rest) q
        ≡ finish negated 1 (end_group q)
  unfolding append_negatable
  read_end negated q rest plain = ground (
    arith,
    plain.end_plain,
    plain.end-ne-and,
    plain.end-ne-or,
    plain.end-ne-start,
    eq_refl q.words.operators.group_end,
  )

  -- When the five operators are different words that are no synonyms, a `not` in front of the end
  -- of a group changes neither the query nor the success of the call.
  pub not_before_end_ignored :
      (q : Query Object) (rest : List String)
      → ArePlain q.words
      → let without = append_element_from_args q (q.words.operators.group_end ∷ rest) in
        let behind_not =
          append_element_from_args q
            (q.words.operators.not_token ∷ q.words.operators.group_end ∷ rest) in
        (behind_not.query ≡ without.query) × (behind_not.ok ≡ without.ok)
  not_before_end_ignored q rest plain = rw (behind, without) (finish_negated (end_group q))
    where
      behind :
          append_element_from_args q
            (q.words.operators.not_token ∷ q.words.operators.group_end ∷ rest)
          ≡ finish true 1 (end_group q)
      behind =
          unfold append_element_from_args in
          ground (
            arith,
            plain.not_plain,
            eq_refl q.words.operators.not_token,
            read_end true q rest plain,
          )

      without :
          append_element_from_args q (q.words.operators.group_end ∷ rest)
          ≡ finish false 1 (end_group q)
      without =
          unfold append_element_from_args in
          ground (arith, plain.end_plain, plain.end-ne-not, read_end false q rest plain)
