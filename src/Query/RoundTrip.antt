-- ===== src/Query/RoundTrip.antt =====
-- Whole command lines: from the words of an expression to the answer of the query.
use kext_tools.Common.{
  ℕ, zero, suc, ◌<◌, ◌^◌, ◌≡◌, ◌≢◌, refl, ◌∙◌, ap, String, Bool, true, false, some, List, [], ◌∷◌,
  str_eq, drop, length, arith,
}
use kext_tools.Query.Data.{group, Operators, Words, Query, create, is_complete}
use kext_tools.Query.Args.{at_keyword, append_element_from_args, parse_args, parse_query}
use kext_tools.Query.Evaluate.{query_root, evaluate}
use kext_tools.Query.Denote.{denote, IsAnswered, evaluate-denote}
use kext_tools.Query.Grammar.{
  Primary, Conjunction, Disjunction, single, paren, primary_words, conjunction_words, only, either,
  one, both, disjunction_words, disjunction_depth, disjunction_holds, disjunction_elements,
  ArePlain, DisjunctionIsKnown,
}
use kext_tools.Query.Runs.{Runs, Takes, done, next}
use kext_tools.Query.After.{after_disjunction}
use kext_tools.Query.Reads.{reads_disjunction}
use kext_tools.Query.Meaning.{word_answer, denote-group}

-- No word is the keyword that opens the report specification.
abbrev pub AvoidsKeyword : String → List String → Type 0
AvoidsKeyword keyword [] = Unit {0}
AvoidsKeyword keyword (word ∷ rest) = (str_eq word keyword ≡ false) × AvoidsKeyword keyword rest

AvoidsKeyword-drop :
    (keyword : String) (n : ℕ) (argv : List String)
    → AvoidsKeyword keyword argv
    → AvoidsKeyword keyword (drop n argv)
AvoidsKeyword-drop keyword zero argv h = h
AvoidsKeyword-drop keyword (suc n) [] h = h
AvoidsKeyword-drop keyword (suc n) (word ∷ rest) h = AvoidsKeyword-drop keyword n rest h.1

at_keyword-AvoidsKeyword :
    (keyword : String) (argv : List String)
    → AvoidsKeyword keyword argv
    → at_keyword keyword argv ≡ false
at_keyword-AvoidsKeyword keyword [] h = refl
at_keyword-AvoidsKeyword keyword (word ∷ rest) h = h.0

length-drop :
    (n : ℕ) (word : String) (argv : List String) → length (drop n argv) < suc (length argv)
length-drop zero word argv = omega arith
length-drop (suc n) word [] = omega arith
length-drop (suc n) word (x ∷ argv) = omega (arith, length-drop n x argv)

module _ {Object : Type 0} (keyword : String) where
  parse_args-next :
      (q : Query Object) (argv : List String) (fuel : ℕ) {q' : Query Object} {argv' : List String}
      → Takes q argv q' argv'
      → at_keyword keyword argv' ≡ false
      → parse_args (suc fuel) keyword q argv ≡ parse_args fuel keyword q' argv'
  unfolding parse_args
  parse_args-next q argv fuel t h = rw (t.call, t.left, h)

  Takes-shorter :
      {q q' : Query Object} (argv : List String) {argv' : List String}
      → Takes q argv q' argv'
      → length argv' < length argv
  unfolding append_element_from_args
  Takes-shorter [] t = cc (t.call)
  Takes-shorter (word ∷ rest) t = rw (← t.left) (length-drop t.used word rest)

  nothing_left :
      (q : Query Object) (argv : List String) (fuel : ℕ)
      → argv ≡ []
      → parse_args (suc fuel) keyword q argv ≡ some (q, [])
  unfolding parse_args append_element_from_args
  nothing_left q argv fuel e = rw e

  -- The loop follows the calls that succeed, up to the end of the command line.
  parse_args-Runs :
      {q q' : Query Object} {argv rest : List String}
      → Runs q argv q' rest
      → (fuel : ℕ) → rest ≡ []
      → length argv < fuel
      → AvoidsKeyword keyword argv
      → parse_args fuel keyword q argv ≡ some (q', [])
  parse_args-Runs r zero e h free = absurd (omega arith)
  parse_args-Runs {q} {argv} done (suc fuel) e h free = nothing_left q argv fuel e
  parse_args-Runs {q} {argv} (next {q' = after} {argv' = left} t r) (suc fuel) e h free =
      let free' = rw t.left at (AvoidsKeyword-drop keyword (suc t.used) argv free) in
      parse_args-next q argv fuel t (at_keyword-AvoidsKeyword keyword _ free')
      ∙ parse_args-Runs {q = after} {argv = left} r fuel e (omega (arith, Takes-shorter argv t))
          free'

mutual
  unfolding disjunction_words

  primary_words-nonempty :
      (ops : Operators) (p : Primary) (rest : List String) → primary_words ops p rest ≢ []
  primary_words-nonempty ops (single true word args) rest = cc
  primary_words-nonempty ops (single false word args) rest = cc
  primary_words-nonempty ops (paren true d) rest = cc
  primary_words-nonempty ops (paren false d) rest = cc

  conjunction_words-nonempty :
      (ops : Operators) (c : Conjunction) (rest : List String) → conjunction_words ops c rest ≢ []
  conjunction_words-nonempty ops (one p) rest = primary_words-nonempty ops p rest
  conjunction_words-nonempty ops (both c written p) rest = conjunction_words-nonempty ops c _

  disjunction_words-nonempty :
      (ops : Operators) (d : Disjunction) (rest : List String) → disjunction_words ops d rest ≢ []
  disjunction_words-nonempty ops (only c) rest = conjunction_words-nonempty ops c rest
  disjunction_words-nonempty ops (either d c) rest = disjunction_words-nonempty ops d _

module _ {Object : Type 0} (keyword : String) (w : Words Object) (plain : ArePlain w) where
  -- A new query whose tables the client has filled.
  abbrev pub with_words : Query Object
  with_words = record (create Object) { words = w }

  abbrev pub parsed : Disjunction → Query Object
  parsed d = after_disjunction true w 0 [] false d

  parsed-is_complete : (d : Disjunction) → is_complete (parsed d) ≡ true
  unfolding is_complete
  parsed-is_complete d = refl

  query_root-parsed :
      (d : Disjunction) → query_root (parsed d) ≡ group false false (disjunction_elements w d)
  unfolding query_root disjunction_elements
  query_root-parsed (only (one p)) = refl
  query_root-parsed (only (both c written p)) = refl
  query_root-parsed (either d (one p)) = refl
  query_root-parsed (either d (both c written p)) = refl

  with_words-Runs :
      (d : Disjunction)
      → disjunction_depth d < 2 ^ 32
      → DisjunctionIsKnown w d
      → Runs with_words (disjunction_words w.operators d []) (parsed d) []
  unfolding create
  with_words-Runs d small known =
      reads_disjunction true w plain d 0 [] false false [] (omega arith) known

  parse_query-parse_args :
      (fuel : ℕ) (q : Query Object) (argv : List String)
      → AvoidsKeyword keyword argv
      → argv ≢ []
      → parse_query fuel keyword q argv ≡ parse_args fuel keyword q argv
  unfolding parse_query
  parse_query-parse_args fuel q [] free nonempty = absurd (nonempty refl)
  parse_query-parse_args fuel q (word ∷ rest) free nonempty = rw free.0

  -- Let the five operators be different words that are no synonyms, each test of an expression
  -- a known word that takes exactly its arguments and has an answer, none of the words the report
  -- keyword, the expression nested less than 2 ^ 32 deep and the fuel above the number of words.
  -- Then parsing the words with a new query uses them all, and leaves a complete query that
  -- evaluates to the meaning of the expression.
  pub parse_query-evaluate :
      (d : Disjunction) (fuel : ℕ) (object : Object) (answer : String → List String → Bool)
      → disjunction_depth d < 2 ^ 32
      → DisjunctionIsKnown w d
      → AvoidsKeyword keyword (disjunction_words w.operators d [])
      → IsAnswered w.evaluation_callbacks object answer
          (group false false (disjunction_elements w d))
      → length (disjunction_words w.operators d []) < fuel
      → (q : Query Object) × (parse_query fuel keyword with_words
            (disjunction_words w.operators d [])
          ≡ some (q, []))
        × (is_complete q ≡ true)
        × ((evaluate q object).0 ≡ disjunction_holds (word_answer w answer) d)
  parse_query-evaluate d fuel object answer small known free answered enough = (
    parsed d,
    parse_query-parse_args fuel with_words (disjunction_words w.operators d []) free
          (disjunction_words-nonempty w.operators d [])
        ∙ parse_args-Runs keyword (with_words-Runs d small known) fuel refl enough free,
    parsed-is_complete d,
    (evaluate-denote (parsed d) object answer (parsed-is_complete d) refl
          (rw query_root-parsed answered)).0
        ∙ ap (denote answer) (query_root-parsed d)
        ∙ denote-group w answer d,
  )
