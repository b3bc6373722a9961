-- ===== src/Query/Data.antt =====
-- QEQuery.c: the query object, its elements, and the setters. A query element is a dictionary in the source.
-- An element whose predicate is the and- or the or-group holds elements as its arguments, any
-- other holds the client's arguments.
use kext_tools.Common.{
  ℕ, suc, String, Bool, true, false, not, Option, none, some, List, [], str_eq, if◌then◌else◌, ◌==◌,
  ◌&&◌,
}

pub data QueryError : Type 0 where
  no_error unspecified no_memory group_nesting empty_group syntax : QueryError
  no_parse_callback no_evaluation_callback invalid_or_missing_argument : QueryError
  parse_callback_failed evaluation_callback_failed : QueryError

mutual
  pub data Element : Type 0 where
    group : Bool → Bool → Elements → Element
    test : String → Bool → List String → Element

  pub data Elements : Type 0 where
    nil : Elements
    cons : Element → Elements → Elements

abbrev pub no_error? : QueryError → Bool
no_error? no_error = true
no_error? _ = false

-- CFArrayGetCount, CFArrayAppendValue, and the removal of the last value, on an array of elements.
abbrev pub count : Elements → ℕ
count nil = 0
count (cons e es) = suc (count es)

abbrev pub append_value : Elements → Element → Elements
append_value nil x = cons x nil
append_value (cons e es) x = cons e (append_value es x)

abbrev pub split_last : Elements → Option (Elements × Element)
split_last nil = none
split_last (cons e es) = elim (split_last es) [
  | none ↦ some (nil, e)
  | some (init, last) ↦ some (cons e init, last)
]

abbrev pub first? : Elements → Option Element
first? nil = none
first? (cons e es) = some e

-- _QEQueryElementIsNegated and _QEQueryElementNegate.
abbrev pub element_is_negated : Element → Bool
element_is_negated (group and_flag negated es) = negated
element_is_negated (test predicate negated args) = negated

abbrev pub element_negate : Element → Element
element_negate (group and_flag negated es) = group and_flag (not negated) es
element_negate (test predicate negated args) = test predicate (not negated) args

-- An open group. The group that is open inside it is the last of its arguments in the source, and
-- stands above it on the stack here until it is closed.
pub record Frame : Type 0 where
  pub and_flag : Bool
  pub negated : Bool
  pub elements : Elements

abbrev pub create_group : Bool → Frame
create_group and_flag = record { and_flag = and_flag; negated = false; elements = nil }

abbrev pub frame_element : Frame → Element
frame_element f = group f.and_flag f.negated f.elements

pub record Operators : Type 0 where
  pub and_token : String
  pub or_token : String
  pub not_token : String
  pub group_start : String
  pub group_end : String

-- What a client's parse callback is given and hands back: whether it succeeds, the element with
-- its arguments, the number of words that it used, and the query's error.
pub record Parsed : Type 0 where
  pub ok : Bool
  pub element : Element
  pub num_used : ℕ
  pub error : QueryError

abbrev pub ParseCallback : Type 0
ParseCallback = Element → List String → QueryError → Parsed

abbrev pub EvaluationCallback : Type 0 → Type 0
EvaluationCallback Object = Element → Object → QueryError → Bool × QueryError

-- The tables that the client fills.
pub record Words (Object : Type 0) : Type 0 where
  pub operators : Operators
  pub synonyms : String → Option String
  pub parse_callbacks : String → Option ParseCallback
  pub evaluation_callbacks : String → Option (EvaluationCallback Object)

-- `top` and `below` are queryStackTop and the rest of queryStack; the last of `top ∷ below` is
-- queryRoot.
pub record Query (Object : Type 0) : Type 0 where
  pub top : Frame
  pub below : List Frame
  pub nesting_level : ℕ
  pub logic_op_active : Bool
  pub short_circuit_eval : Bool
  pub last_error : QueryError
  pub words : Words Object

abbrev pub token_or : Option String → String → String
token_or none token = token
token_or (some given) token = given

-- CFDictionarySetValue and CFDictionaryRemoveValue: `none` removes.
abbrev pub set_value {ℓ} :
    {V : Type ℓ} → String → Option V → (String → Option V) → String → Option V
set_value key v dict = λ k. if str_eq key k then v else dict k

abbrev pub operators_for :
    Option String → Option String → Option String → Option String → Option String → Operators
operators_for a o n s e = record {
  and_token = token_or a "-and";
  or_token = token_or o "-or";
  not_token = token_or n "-not";
  group_start = token_or s "(";
  group_end = token_or e ")";
}

module _ {Object : Type 0} where
  unfoldable pub set_operators :
      Query Object
      → Option String
      → Option String
      → Option String
      → Option String
      → Option String
      → Query Object
  set_operators q a o n s e = record q {
    words = record (q.words) { operators = operators_for a o n s e };
  }

  unfoldable pub set_parse_callback : Query Object → String → Option ParseCallback → Query Object
  set_parse_callback q predicate callback = record q {
    words = record (q.words) {
      parse_callbacks = set_value predicate callback q.words.parse_callbacks;
    };
  }

  unfoldable pub set_evaluation_callback :
      Query Object → String → Option (EvaluationCallback Object) → Query Object
  set_evaluation_callback q predicate callback = record q {
    words = record (q.words) {
      evaluation_callbacks = set_value predicate callback q.words.evaluation_callbacks;
    };
  }

  unfoldable pub set_synonym : Query Object → String → Option String → Query Object
  set_synonym q synonym predicate = record q {
    words = record (q.words) { synonyms = set_value synonym predicate q.words.synonyms };
  }

  unfoldable pub empty_parse_dictionaries : Query Object → Query Object
  empty_parse_dictionaries q = record q {
    words = record (q.words) {
      synonyms = λ _. none;
      parse_callbacks = λ _. none;
      evaluation_callbacks = λ _. none;
    };
  }

  unfoldable pub set_short_circuits : Query Object → Bool → Query Object
  set_short_circuits q flag = record q { short_circuit_eval = flag }

  unfoldable pub is_complete : Query Object → Bool
  is_complete q = (q.nesting_level == 0) && (not q.logic_op_active && no_error? q.last_error)

unfoldable pub create : (Object : Type 0) → Query Object
unfolding set_operators
create Object = set_operators fresh none none none none none
  where
    fresh : Query Object
    fresh = record {
      top = create_group false;
      below = [];
      nesting_level = 0;
      logic_op_active = false;
      short_circuit_eval = true;
      last_error = no_error;
      words = record {
        operators = operators_for none none none none none;
        synonyms = λ _. none;
        parse_callbacks = λ _. none;
        evaluation_callbacks = λ _. none;
      };
    }
