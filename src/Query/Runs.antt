-- ===== src/Query/Runs.antt =====
-- Sequences of successful calls of QEQueryAppendElementFromArgs, and one call for each kind of word.
use kext_tools.Common.{
  ℕ, suc, ◌≡◌, refl, ◌∙◌, String, Bool, true, false, List, ◌∷◌, ◌++◌, str_eq, if◌then◌else◌, drop,
  drop-length-append, length, arith,
}
use kext_tools.Query.Data.{no_error, Words, Query}
use kext_tools.Query.Stack.{append_and_operator, append_or_operator, start_group, end_group}
use kext_tools.Query.Args.{
  predicate_for_string, create_element, finish, append_predicate, append_element_from_args,
}
use kext_tools.Query.Append.{appended, append_element_lem}
use kext_tools.Query.Grammar.{optional, ArePlain, IsKnown}
use text.Mathlib.TextPositions.{eq_refl}

-- How many words a test takes, less one.
abbrev test_used : Bool → List String → ℕ
test_used negated args = if negated then suc (length args) else length args

module _ {Object : Type 0} where
  -- The call takes at least one word and succeeds.
  pub record Takes (q : Query Object) (argv : List String) (q' : Query Object) (rest : List String)
      : Type 0 where
    pub used : ℕ
    pub call :
        append_element_from_args q argv ≡ record { query = q'; ok = true; num_used = suc used }
    pub left : drop (suc used) argv ≡ rest

  pub data Runs : Query Object → List String → Query Object → List String → Type 0 where
    done : {q : Query Object} {argv : List String} → Runs q argv q argv
    next :
        {q q' q'' : Query Object} {argv argv' argv'' : List String}
        → Takes q argv q' argv'
        → Runs q' argv' q'' argv''
        → Runs q argv q'' argv''

  pub Runs-trans :
      {q q' q'' : Query Object} {argv argv' argv'' : List String}
      → Runs q argv q' argv'
      → Runs q' argv' q'' argv''
      → Runs q argv q'' argv''
  Runs-trans done s = s
  Runs-trans (next t r) s = next t (Runs-trans r s)

  pub Runs-take :
      {q q' : Query Object} {argv argv' : List String}
      → Takes q argv q' argv'
      → Runs q argv q' argv'
  Runs-take t = next t done

  -- The words behind an optional `not`.
  negatable :
      (q : Query Object) (plain : ArePlain q.words) (rest : List String) (negated : Bool)
      (word : String)
      → str_eq (predicate_for_string q.words word) q.words.operators.not_token ≡ false
      → append_element_from_args q (optional negated q.words.operators.not_token ++ word ∷ rest)
        ≡ append_predicate negated (predicate_for_string q.words word) word rest q
  unfolding append_element_from_args
  negatable q plain rest true word h =
      ground (arith, plain.not_plain, eq_refl q.words.operators.not_token)
  negatable q plain rest false word h = ground arith

  module _ (q : Query Object) {q' : Query Object} (plain : ArePlain q.words)
      (rest : List String) where
    pub Takes-and :
        append_and_operator q ≡ (q', true) → Takes q (q.words.operators.and_token ∷ rest) q' rest
    Takes-and h = record { used = 0; call = call; left = refl }
      where
        call :
            append_element_from_args q (q.words.operators.and_token ∷ rest)
            ≡ record { query = q'; ok = true; num_used = 1 }
        call =
            unfold append_element_from_args in
            ground (arith, plain.and_plain, plain.and-ne-not, eq_refl q.words.operators.and_token)

    pub Takes-or :
        append_or_operator q ≡ (q', true) → Takes q (q.words.operators.or_token ∷ rest) q' rest
    Takes-or h = record { used = 0; call = call; left = refl }
      where
        call :
            append_element_from_args q (q.words.operators.or_token ∷ rest)
            ≡ record { query = q'; ok = true; num_used = 1 }
        call =
            unfold append_element_from_args in
            ground (
              arith,
              plain.or_plain,
              plain.or-ne-not,
              plain.or-ne-and,
              eq_refl q.words.operators.or_token,
            )

    pub Takes-end : end_group q ≡ (q', true) → Takes q (q.words.operators.group_end ∷ rest) q' rest
    Takes-end h = record { used = 0; call = call; left = refl }
      where
        call :
            append_element_from_args q (q.words.operators.group_end ∷ rest)
            ≡ record { query = q'; ok = true; num_used = 1 }
        call =
            unfold append_element_from_args in
            ground (
              arith,
              plain.end_plain,
              plain.end-ne-not,
              plain.end-ne-and,
              plain.end-ne-or,
              plain.end-ne-start,
              eq_refl q.words.operators.group_end,
            )

    pub Takes-start :
        (negated : Bool)
        → start_group negated q ≡ (q', true)
        → Takes q
            (optional negated q.words.operators.not_token ++ q.words.operators.group_start ∷ rest)
            q'
            rest
    Takes-start negated h = record {
      used = if negated then 1 else 0;
      call = call negated h;
      left = left negated;
    }
      where
        start : String
        start = q.words.operators.group_start

        itself : predicate_for_string q.words start ≡ start
        itself = unfold predicate_for_string in ground (arith, plain.start_plain)

        here :
            (negated : Bool)
            → start_group negated q ≡ (q', true)
            → append_predicate negated start start rest q ≡ finish negated 1 (q', true)
        here negated h =
            unfold append_predicate in
            ground (arith, plain.start-ne-and, plain.start-ne-or, eq_refl start)

        call :
            (negated : Bool)
            → start_group negated q ≡ (q', true)
            → append_element_from_args q
                (optional negated q.words.operators.not_token ++ start ∷ rest)
              ≡ record { query = q'; ok = true; num_used = suc (if negated then 1 else 0) }
        call true h =
            rw (negatable q plain rest true start (rw itself plain.start-ne-not), itself)
              (here true h)
        call false h =
            rw (negatable q plain rest false start (rw itself plain.start-ne-not), itself)
              (here false h)

        left :
            (negated : Bool)
            → drop
                (suc (if negated then 1 else 0))
                (optional negated q.words.operators.not_token ++ start ∷ rest)
              ≡ rest
        left true = refl
        left false = refl

  test-left :
      (w : Words Object) (rest : List String) (negated : Bool) (word : String) (args : List String)
      → drop
          (suc (test_used negated args))
          (optional negated w.operators.not_token ++ word ∷ (args ++ rest))
        ≡ rest
  test-left w rest true word args = drop-length-append args rest
  test-left w rest false word args = drop-length-append args rest

  abbrev pub without_error : Query Object → Query Object
  without_error q = record q { last_error = no_error }

  test-call :
      (q : Query Object) (rest : List String) (negated : Bool) (word : String) (args : List String)
      (known : IsKnown q.words negated word args)
      → append_predicate negated
          (predicate_for_string q.words word)
          word
          (args ++ rest)
          (without_error q)
        ≡ record {
          query =
              appended
                (create_element q.words (predicate_for_string q.words word) args negated)
                (without_error q);
          ok = true;
          num_used = suc (test_used negated args);
        }
  unfolding append_predicate
  test-call q rest negated word args known = ground (
    arith,
    known.takes rest,
    append_element_lem (create_element q.words (predicate_for_string q.words word) args negated)
        (without_error q),
  )

  pub Takes-test :
      (q : Query Object) (plain : ArePlain q.words) (rest : List String) (negated : Bool)
      (word : String) (args : List String)
      → IsKnown q.words negated word args
      → Takes
          (without_error q)
          (optional negated q.words.operators.not_token ++ word ∷ (args ++ rest))
          (appended
            (create_element q.words (predicate_for_string q.words word) args negated)
            (without_error q))
          rest
  Takes-test q plain rest negated word args known = record {
    used = test_used negated args;
    call =
        negatable (without_error q) plain (args ++ rest) negated word known.ne-not
        ∙ test-call q rest negated word args known;
    left = test-left q.words rest negated word args;
  }
