-- ===== src/Query/Meaning.antt =====
-- The elements that an expression becomes mean what the expression means.
use kext_tools.Common.{◌≡◌, refl, ◌∙◌, ap, String, Bool, true, false, not, List, ◌&&◌, ◌||◌, arith}
use kext_tools.Query.Data.{
  Element, Elements, group, test, nil, cons, append_value, element_negate, Words,
}
use kext_tools.Query.Args.{predicate_for_string, create_element}
use kext_tools.Query.Evaluate.{is_empty}
use kext_tools.Query.Denote.{flip_if, denote, denote_all, denote_any}
use kext_tools.Query.Grammar.{
  Primary, Conjunction, Disjunction, single, paren, one, both, only, either, primary_holds,
  conjunction_holds, disjunction_holds, coalesced, primary_element, conjunction_elements,
  conjunction_element, disjunction_elements,
}

module _ {Object : Type 0} (w : Words Object) (answer : String → List String → Bool) where
  -- What a test's word and arguments say: the word goes through the synonyms, and so does the
  -- predicate that it comes to.
  abbrev pub word_answer : String → List String → Bool
  word_answer word args = denote answer (create_element w (predicate_for_string w word) args false)

  denote-test :
      (word : String) (args : List String) (negated : Bool)
      → denote answer (create_element w (predicate_for_string w word) args negated)
        ≡ flip_if negated (word_answer word args)
  unfolding denote create_element
  denote-test word args negated = ground arith

  denote-element_negate : (e : Element) → denote answer (element_negate e) ≡ not (denote answer e)
  unfolding denote
  denote-element_negate (group true negated es) = ground arith
  denote-element_negate (group false negated es) = ground arith
  denote-element_negate (test predicate negated args) = ground arith

  denote-coalesced :
      (negated : Bool) (es : Elements)
      → is_empty es ≡ false
      → denote answer (coalesced negated es) ≡ flip_if negated (denote_any answer es)
  unfolding denote
  denote-coalesced negated nil h = cc
  denote-coalesced negated (cons e nil) h = ground (arith, denote-element_negate e)
  denote-coalesced negated (cons e (cons f es)) h = refl

  denote_all-append_value :
      (es : Elements) (e : Element)
      → denote_all answer (append_value es e) ≡ (denote_all answer es && denote answer e)
  unfolding denote
  denote_all-append_value nil e = ground arith
  denote_all-append_value (cons x es) e = ground (arith, denote_all-append_value es e)

  denote_any-append_value :
      (es : Elements) (e : Element)
      → denote_any answer (append_value es e) ≡ (denote_any answer es || denote answer e)
  unfolding denote
  denote_any-append_value nil e = ground arith
  denote_any-append_value (cons x es) e = ground (arith, denote_any-append_value es e)

  pub append_value-is_empty : (es : Elements) (e : Element) → is_empty (append_value es e) ≡ false
  append_value-is_empty nil e = refl
  append_value-is_empty (cons x es) e = refl

  pub disjunction_elements-is_empty :
      (d : Disjunction) → is_empty (disjunction_elements w d) ≡ false
  unfolding disjunction_elements
  disjunction_elements-is_empty (only c) = refl
  disjunction_elements-is_empty (either d c) = append_value-is_empty _ _

  mutual
    unfolding primary_element primary_holds denote

    denote-primary :
        (p : Primary) → denote answer (primary_element w p) ≡ primary_holds word_answer p
    denote-primary (single negated word args) = denote-test word args negated
    denote-primary (paren negated d) =
        denote-coalesced negated (disjunction_elements w d) (disjunction_elements-is_empty d)
        ∙ ap (flip_if negated) (denote-disjunction d)

    denote_all-conjunction :
        (c : Conjunction)
        → denote_all answer (conjunction_elements w c) ≡ conjunction_holds word_answer c
    denote_all-conjunction (one p) = ground (arith, denote-primary p)
    denote_all-conjunction (both c written p) = ground (
      arith,
      denote_all-append_value (conjunction_elements w c) (primary_element w p),
      denote_all-conjunction c,
      denote-primary p,
    )

    denote-conjunction :
        (c : Conjunction)
        → denote answer (conjunction_element w c) ≡ conjunction_holds word_answer c
    denote-conjunction (one p) = denote-primary p
    denote-conjunction (both c written p) = ground (
      arith,
      denote_all-append_value (conjunction_elements w c) (primary_element w p),
      denote_all-conjunction c,
      denote-primary p,
    )

    denote-disjunction :
        (d : Disjunction)
        → denote_any answer (disjunction_elements w d) ≡ disjunction_holds word_answer d
    denote-disjunction (only c) = ground (arith, denote-conjunction c)
    denote-disjunction (either d c) = ground (
      arith,
      denote_any-append_value (disjunction_elements w d) (conjunction_element w c),
      denote-disjunction d,
      denote-conjunction c,
    )

  -- The or-group of an expression's elements means what the expression means.
  pub denote-group :
      (d : Disjunction)
      → denote answer (group false false (disjunction_elements w d))
        ≡ disjunction_holds word_answer d
  unfolding denote
  denote-group d = ground (arith, disjunction_elements-is_empty d, denote-disjunction d)
