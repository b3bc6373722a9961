-- ===== src/Query/Reads.antt =====
-- Reading the words of an expression from the command line builds the elements that stand for it.
use kext_tools.Common.{
  ℕ, suc, ◌+◌, ◌<◌, ◌^◌, ◌≡◌, refl, ◌∙◌, inl, inr, Bool, true, false, List, ◌∷◌, ◌++◌, String,
  arith,
}
use kext_tools.Query.Data.{Element, Elements, nil, cons, append_value, Frame, Words, Query}
use kext_tools.Query.Stack.{start_group, end_or_group}
use kext_tools.Query.Append.{appended}
use kext_tools.Query.Grammar.{
  Primary, Conjunction, Disjunction, single, paren, one, both, only, either, optional,
  primary_words, conjunction_words, disjunction_words, primary_depth, conjunction_depth,
  disjunction_depth, primary_element, conjunction_elements, disjunction_elements, ArePlain,
  PrimaryIsKnown, ConjunctionIsKnown, DisjunctionIsKnown,
}
use kext_tools.Query.Runs.{
  Runs, next, Runs-trans, Runs-take, Takes-and, Takes-or, Takes-end, Takes-start, Takes-test,
}
use kext_tools.Query.Close.{
  or_group, and_group, state, and-after_element, and-in_and_group, appended-joins, start-inside,
  start-first, start-after_element, Snoc, empty, snoc, view-Snoc,
}
use kext_tools.Query.After.{
  after_conjunction, after_disjunction, or-after, append_value-cons, end-after, closes-in_or,
  closes-in_and, closes-first, HasRoom, in_or_group, in_and_group,
}

module _ {Object : Type 0} (short : Bool) (w : Words Object) (plain : ArePlain w) where
  -- A group in parentheses, from what opening it, its contents and closing it do.
  paren-Runs :
      (level : ℕ) (below : List Frame) (f : Frame) (active : Bool) (level' : ℕ)
      (below' : List Frame) (active' : Bool) (negated : Bool) (d : Disjunction) (rest : List String)
      {q' : Query Object}
      → start_group negated (state short w level below f active)
        ≡ (state short w (suc level') below' (or_group negated nil) active', true)
      → Runs
          (state short w (suc level') below' (or_group negated nil) active')
          (disjunction_words w.operators d (w.operators.group_end ∷ rest))
          (after_disjunction short w (suc level') below' negated d)
          (w.operators.group_end ∷ rest)
      → end_or_group
          (state short w (suc level') below' (or_group negated (disjunction_elements w d)) false)
        ≡ (q', true)
      → Runs
          (state short w level below f active)
          (primary_words w.operators (paren negated d) rest)
          q'
          rest
  unfolding primary_words
  paren-Runs level below f active level' below' active' negated d rest opens reads closes =
      next
        (Takes-start (state short w level below f active) plain
          (disjunction_words w.operators d (w.operators.group_end ∷ rest)) negated opens)
        (Runs-trans reads (
          Runs-take (
            Takes-end (after_disjunction short w (suc level') below' negated d) plain rest
              (end-after short w level' below' negated d ∙ closes))))

  abbrev pub ReadsDisjunction : Disjunction → Type 0
  ReadsDisjunction d =
      (level : ℕ) (below : List Frame) (negated active : Bool) (rest : List String)
      → level + disjunction_depth d < 2 ^ 32
      → DisjunctionIsKnown w d
      → Runs (state short w level below (or_group negated nil) active)
          (disjunction_words w.operators d rest) (after_disjunction short w level below negated d)
          rest

  ReadsPrimary-paren :
      (negated : Bool) (d : Disjunction)
      → ReadsDisjunction d
      → (level : ℕ) (below : List Frame) (f : Frame) (active : Bool) (rest : List String)
      → HasRoom f
      → level + primary_depth (paren negated d) < 2 ^ 32
      → DisjunctionIsKnown w d
      → Runs
          (state short w level below f active)
          (primary_words w.operators (paren negated d) rest)
          (appended (primary_element w (paren negated d)) (state short w level below f active))
          rest
  unfolding primary_depth appended
  ReadsPrimary-paren negated d reads level below f active rest (in_and_group y ys) small known =
      rw (appended-active) (
        paren-Runs level below (and_group (cons y ys)) active level (and_group (cons y ys) ∷ below)
          active negated d rest
          (start-inside short w level below (and_group (cons y ys)) active negated (omega arith)
            (inl refl))
          (reads (suc level) (and_group (cons y ys) ∷ below) negated active
            (w.operators.group_end ∷ rest) (omega arith) known)
          (closes-in_and short w level below y ys negated d (omega arith)))
    where
      appended-active :
          appended
            (primary_element w (paren negated d))
            (state short w level below (and_group (cons y ys)) active)
          ≡ state short w level below
              (and_group (cons y (append_value ys (primary_element w (paren negated d)))))
              false
      appended-active = unfold appended in ground arith
  ReadsPrimary-paren negated d reads level below f true rest (in_or_group outer es) small known =
      paren-Runs level below (or_group outer es) true level (or_group outer es ∷ below) true negated
        d rest
        (start-inside short w level below (or_group outer es) true negated (omega arith) (inr refl))
        (reads (suc level) (or_group outer es ∷ below) negated true (w.operators.group_end ∷ rest)
          (omega arith) known)
        (closes-in_or short w level below outer es negated d (omega arith))
  ReadsPrimary-paren negated d reads level below f false rest (in_or_group outer es) small known =
      first_or_later (view-Snoc es)
    where
      first_or_later :
          {es : Elements}
          → Snoc es
          → Runs
              (state short w level below (or_group outer es) false)
              (primary_words w.operators (paren negated d) rest)
              (appended
                (primary_element w (paren negated d))
                (state short w level below (or_group outer es) false))
              rest
      first_or_later empty =
          paren-Runs level below (or_group outer nil) false level
            (and_group nil ∷ or_group outer nil ∷ below) false negated d rest
            (start-first short w level below outer negated (omega arith))
            (reads (suc level) (and_group nil ∷ or_group outer nil ∷ below) negated false
              (w.operators.group_end ∷ rest) (omega arith) known)
            (closes-first short w level below outer negated d (omega arith))
      first_or_later (snoc init last) =
          rw
            (appended-joins short w level below outer init last
              (primary_element w (paren negated d)))
            (paren-Runs level below (or_group outer (append_value init last)) false level
              (and_group (cons last nil) ∷ or_group outer init ∷ below) false negated d rest
              (start-after_element short w level below outer negated init last (omega arith))
              (reads (suc level) (and_group (cons last nil) ∷ or_group outer init ∷ below) negated
                false (w.operators.group_end ∷ rest) (omega arith) known)
              (closes-in_and short w level (or_group outer init ∷ below) last nil negated d
                (omega arith)))

  abbrev ReadsPrimary : Primary → Type 0
  ReadsPrimary p =
      (level : ℕ) (below : List Frame) (f : Frame) (active : Bool) (rest : List String)
      → HasRoom f
      → level + primary_depth p < 2 ^ 32
      → PrimaryIsKnown w p
      → Runs (state short w level below f active) (primary_words w.operators p rest)
          (appended (primary_element w p) (state short w level below f active)) rest

  -- A chain of conjuncts begins a group, or stands behind an `or`.
  data Begins : Elements → Bool → Type 0 where
    at_first : (active : Bool) → Begins nil active
    at_or : (es : Elements) → Begins es true

  appended-Begins :
      (level : ℕ) (below : List Frame) (negated : Bool) {es : Elements} {active : Bool}
      (e : Element)
      → Begins es active
      → appended e (state short w level below (or_group negated es) active)
        ≡ state short w level below (or_group negated (append_value es e)) false
  unfolding appended
  appended-Begins level below negated e (at_first true) = refl
  appended-Begins level below negated e (at_first false) = refl
  appended-Begins level below negated e (at_or es) = refl

  appended-in_and_group :
      (level : ℕ) (below : List Frame) (es : Elements) (active : Bool) (e : Element)
      → appended e (state short w level below (and_group es) active)
        ≡ state short w level below (and_group (append_value es e)) false
  unfolding appended
  appended-in_and_group level below es true e = refl
  appended-in_and_group level below es false e = refl

  HasRoom-append_value : (es : Elements) (e : Element) → HasRoom (and_group (append_value es e))
  HasRoom-append_value es e =
      let (x, xs, eq) = append_value-cons short w es e in rw eq (in_and_group x xs)

  -- One more conjunct, behind a written or an implied `and`.
  reads_next :
      (c : Conjunction) (written : Bool) (p : Primary)
      → ReadsPrimary p
      → (level : ℕ) (below : List Frame) (negated : Bool) (es : Elements) (rest : List String)
      → level + primary_depth p < 2 ^ 32
      → PrimaryIsKnown w p
      → Runs
          (after_conjunction short w level below negated es c)
          (optional written w.operators.and_token ++ primary_words w.operators p rest)
          (after_conjunction short w level below negated es (both c written p))
          rest
  unfolding conjunction_elements
  reads_next (one p') false p reads level below negated es rest small known =
      rw
        (← appended-joins short w level below negated es (primary_element w p')
          (primary_element w p))
        (reads level below (or_group negated (append_value es (primary_element w p'))) false rest
          (in_or_group _ _) small known)
  reads_next (one p') true p reads level below negated es rest small known =
      next
        (Takes-and (after_conjunction short w level below negated es (one p')) plain
          (primary_words w.operators p rest)
          (and-after_element short w level below negated es (primary_element w p')))
        (rw
          (← appended-in_and_group level (or_group negated es ∷ below)
            (cons (primary_element w p') nil) false (primary_element w p))
          (reads level (or_group negated es ∷ below) (and_group (cons (primary_element w p') nil))
            false rest (in_and_group _ _) small known))
  reads_next (both c b p') false p reads level below negated es rest small known =
      rw
        (← appended-in_and_group level (or_group negated es ∷ below)
          (append_value (conjunction_elements w c) (primary_element w p')) false
          (primary_element w p))
        (reads level (or_group negated es ∷ below) _ false rest (HasRoom-append_value _ _) small
          known)
  reads_next (both c b p') true p reads level below negated es rest small known =
      next
        (Takes-and (after_conjunction short w level below negated es (both c b p')) plain
          (primary_words w.operators p rest)
          (and-in_and_group short w level (or_group negated es ∷ below) _))
        (rw
          (← appended-in_and_group level (or_group negated es ∷ below)
            (append_value (conjunction_elements w c) (primary_element w p')) true
            (primary_element w p))
          (reads level (or_group negated es ∷ below) _ true rest (HasRoom-append_value _ _) small
            known))

  mutual
    unfolding primary_words primary_depth primary_element

    reads_primary : (p : Primary) → ReadsPrimary p
    reads_primary (single negated word args) level below f active rest room small known =
        Runs-take
          (Takes-test (state short w level below f active) plain rest negated word args known)
    reads_primary (paren negated d) level below f active rest room small known =
        ReadsPrimary-paren negated d (reads_disjunction d) level below f active rest room small
          known

    reads_conjunction :
        (c : Conjunction) (level : ℕ) (below : List Frame) (negated : Bool) (es : Elements)
        (active : Bool) (rest : List String)
        → Begins es active
        → level + conjunction_depth c < 2 ^ 32
        → ConjunctionIsKnown w c
        → Runs
            (state short w level below (or_group negated es) active)
            (conjunction_words w.operators c rest)
            (after_conjunction short w level below negated es c)
            rest
    reads_conjunction (one p) level below negated es active rest begins small known =
        rw (← appended-Begins level below negated (primary_element w p) begins) (
          reads_primary p level below (or_group negated es) active rest (in_or_group _ _) small
            known)
    reads_conjunction (both c written p) level below negated es active rest begins small known =
        Runs-trans
          (reads_conjunction c level below negated es active
            (optional written w.operators.and_token ++ primary_words w.operators p rest) begins
            (omega arith) known.0)
          (reads_next c written p (reads_primary p) level below negated es rest (omega arith)
            known.1)

    pub reads_disjunction : (d : Disjunction) → ReadsDisjunction d
    reads_disjunction (only c) level below negated active rest small known =
        reads_conjunction c level below negated nil active rest (at_first active) small known
    reads_disjunction (either d c) level below negated active rest small known =
        Runs-trans
          (reads_disjunction d level below negated active
            (w.operators.or_token ∷ conjunction_words w.operators c rest) (omega arith) known.0)
          (next
            (Takes-or (after_disjunction short w level below negated d) plain
              (conjunction_words w.operators c rest) (or-after short w level below negated d))
            (reads_conjunction c level below negated (disjunction_elements w d) true rest (at_or _)
              (omega arith) known.1))
