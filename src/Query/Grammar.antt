-- ===== src/Query/Grammar.antt =====
-- The language of QEQuery.h: tests, `not`, parenthesised groups, `and` (written or implied), which
-- binds tighter, and `or`. Each expression has its command-line words, the elements that stand
-- for it, and its meaning.
use kext_tools.Common.{
  ℕ, suc, ◌≡◌, String, Bool, true, false, none, some, List, [], ◌∷◌, ◌++◌, str_eq, if◌then◌else◌,
  ◌&&◌, ◌||◌, length,
}
use kext_tools.Query.Data.{
  no_error, Element, Elements, group, nil, cons, append_value, element_negate, Operators,
  ParseCallback, Words,
}
use kext_tools.Query.Args.{predicate_for_string, create_element}
use kext_tools.Query.Denote.{flip_if}
use Prim.Native.Nat.{max}

-- A chain of conjuncts or disjuncts grows to the right, as it is read.
mutual
  pub data Primary : Type 0 where
    single : Bool → String → List String → Primary
    paren : Bool → Disjunction → Primary

  pub data Conjunction : Type 0 where
    one : Primary → Conjunction
    both : Conjunction → Bool → Primary → Conjunction

  pub data Disjunction : Type 0 where
    only : Conjunction → Disjunction
    either : Disjunction → Conjunction → Disjunction

abbrev pub optional : Bool → String → List String
optional true word = word ∷ []
optional false word = []

-- The words of an expression, in front of `rest`.
unfoldable mutual
  pub primary_words : Operators → Primary → List String → List String
  primary_words ops (single negated word args) rest =
      optional negated ops.not_token ++ word ∷ (args ++ rest)
  primary_words ops (paren negated d) rest =
      optional negated ops.not_token
      ++ ops.group_start ∷ disjunction_words ops d (ops.group_end ∷ rest)

  pub conjunction_words : Operators → Conjunction → List String → List String
  conjunction_words ops (one p) rest = primary_words ops p rest
  conjunction_words ops (both c written p) rest =
      conjunction_words ops c (optional written ops.and_token ++ primary_words ops p rest)

  pub disjunction_words : Operators → Disjunction → List String → List String
  disjunction_words ops (only c) rest = conjunction_words ops c rest
  disjunction_words ops (either d c) rest =
      disjunction_words ops d (ops.or_token ∷ conjunction_words ops c rest)

-- How deep the parentheses nest.
unfoldable mutual
  pub primary_depth : Primary → ℕ
  primary_depth (single negated word args) = 0
  primary_depth (paren negated d) = suc (disjunction_depth d)

  pub conjunction_depth : Conjunction → ℕ
  conjunction_depth (one p) = primary_depth p
  conjunction_depth (both c written p) = max (conjunction_depth c) (primary_depth p)

  pub disjunction_depth : Disjunction → ℕ
  disjunction_depth (only c) = conjunction_depth c
  disjunction_depth (either d c) = max (disjunction_depth d) (conjunction_depth c)

-- The meaning of an expression, where `answer` tells what a test's word and arguments say.
unfoldable mutual
  pub primary_holds : (String → List String → Bool) → Primary → Bool
  primary_holds answer (single negated word args) = flip_if negated (answer word args)
  primary_holds answer (paren negated d) = flip_if negated (disjunction_holds answer d)

  pub conjunction_holds : (String → List String → Bool) → Conjunction → Bool
  conjunction_holds answer (one p) = primary_holds answer p
  conjunction_holds answer (both c written p) = conjunction_holds answer c && primary_holds answer p

  pub disjunction_holds : (String → List String → Bool) → Disjunction → Bool
  disjunction_holds answer (only c) = conjunction_holds answer c
  disjunction_holds answer (either d c) = disjunction_holds answer d || conjunction_holds answer c

abbrev pub coalesced : Bool → Elements → Element
coalesced negated nil = group false negated nil
coalesced negated (cons e nil) = if negated then element_negate e else e
coalesced negated (cons e (cons f es)) = group false negated (cons e (cons f es))

-- The elements that an expression becomes: a group of one gives way to its element.
unfoldable mutual
  pub primary_element : {Object : Type 0} → Words Object → Primary → Element
  primary_element w (single negated word args) =
      create_element w (predicate_for_string w word) args negated
  primary_element w (paren negated d) = coalesced negated (disjunction_elements w d)

  pub conjunction_elements : {Object : Type 0} → Words Object → Conjunction → Elements
  conjunction_elements w (one p) = cons (primary_element w p) nil
  conjunction_elements w (both c written p) =
      append_value (conjunction_elements w c) (primary_element w p)

  pub conjunction_element : {Object : Type 0} → Words Object → Conjunction → Element
  conjunction_element w (one p) = primary_element w p
  conjunction_element w (both c written p) =
      group true false (append_value (conjunction_elements w c) (primary_element w p))

  pub disjunction_elements : {Object : Type 0} → Words Object → Disjunction → Elements
  disjunction_elements w (only c) = cons (conjunction_element w c) nil
  disjunction_elements w (either d c) =
      append_value (disjunction_elements w d) (conjunction_element w c)

module _ {Object : Type 0} where
  -- The operators are what the setter's clients leave them: five different words, none of which
  -- is a synonym.
  pub record ArePlain (w : Words Object) : Type 0 where
    pub not_plain : w.synonyms w.operators.not_token ≡ none
    pub and_plain : w.synonyms w.operators.and_token ≡ none
    pub or_plain : w.synonyms w.operators.or_token ≡ none
    pub start_plain : w.synonyms w.operators.group_start ≡ none
    pub end_plain : w.synonyms w.operators.group_end ≡ none
    pub and-ne-not : str_eq w.operators.and_token w.operators.not_token ≡ false
    pub or-ne-not : str_eq w.operators.or_token w.operators.not_token ≡ false
    pub start-ne-not : str_eq w.operators.group_start w.operators.not_token ≡ false
    pub end-ne-not : str_eq w.operators.group_end w.operators.not_token ≡ false
    pub or-ne-and : str_eq w.operators.or_token w.operators.and_token ≡ false
    pub start-ne-and : str_eq w.operators.group_start w.operators.and_token ≡ false
    pub end-ne-and : str_eq w.operators.group_end w.operators.and_token ≡ false
    pub start-ne-or : str_eq w.operators.group_start w.operators.or_token ≡ false
    pub end-ne-or : str_eq w.operators.group_end w.operators.or_token ≡ false
    pub end-ne-start : str_eq w.operators.group_end w.operators.group_start ≡ false

  -- A test's word is no operator, and its callback takes the word and exactly the arguments.
  pub record IsKnown (w : Words Object) (negated : Bool) (word : String) (args : List String)
      : Type 0 where
    pub ne-not : str_eq (predicate_for_string w word) w.operators.not_token ≡ false
    pub ne-and : str_eq (predicate_for_string w word) w.operators.and_token ≡ false
    pub ne-or : str_eq (predicate_for_string w word) w.operators.or_token ≡ false
    pub ne-start : str_eq (predicate_for_string w word) w.operators.group_start ≡ false
    pub ne-end : str_eq (predicate_for_string w word) w.operators.group_end ≡ false
    pub callback : ParseCallback
    pub found : w.parse_callbacks (predicate_for_string w word) ≡ some callback
    pub takes :
        (rest : List String)
        → callback
            (create_element w (predicate_for_string w word) [] negated)
            (word ∷ (args ++ rest))
            no_error
          ≡ record {
            ok = true;
            element = create_element w (predicate_for_string w word) args negated;
            num_used = suc (length args);
            error = no_error;
          }

-- Every test of an expression is known.
abbrev mutual
  pub PrimaryIsKnown : {Object : Type 0} → Words Object → Primary → Type 0
  PrimaryIsKnown w (single negated word args) = IsKnown w negated word args
  PrimaryIsKnown w (paren negated d) = DisjunctionIsKnown w d

  pub ConjunctionIsKnown : {Object : Type 0} → Words Object → Conjunction → Type 0
  ConjunctionIsKnown w (one p) = PrimaryIsKnown w p
  ConjunctionIsKnown w (both c written p) = ConjunctionIsKnown w c × PrimaryIsKnown w p

  pub DisjunctionIsKnown : {Object : Type 0} → Words Object → Disjunction → Type 0
  DisjunctionIsKnown w (only c) = ConjunctionIsKnown w c
  DisjunctionIsKnown w (either d c) = DisjunctionIsKnown w d × ConjunctionIsKnown w c
