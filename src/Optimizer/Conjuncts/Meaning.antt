-- ===== src/Optimizer/Conjuncts/Meaning.antt =====
-- What taking conditions apart and together (src/optimizer/rule/predicate_pushdown.cpp) means.
use chicken_db.Base.{
  ℕ, ◌≡◌, refl, sym, ap, ◌∙◌, inl, inr, Bool, true, false, ◌&&◌, Option, none, some, List, [], ◌∷◌,
  ◌++◌, arith, Option-cases,
}
use chicken_db.Base.Int.{pos, int_eq}
use chicken_db.Binder.Numbers.{Numbers, nonzero, truth, KeepsZero}
use chicken_db.Binder.Expression.{BoundExpression, binary, and_op}
use chicken_db.Executor.Chunk.{Chunk, ColMap}
use chicken_db.Executor.Eval.{eval, eval_predicate}
use chicken_db.Optimizer.Conjuncts.{split_and, combine_onto, combine_and}

-- Both answers, where there are two.
abbrev pub both : Option Bool → Option Bool → Option Bool
both none b = none
both (some a) none = none
both (some a) (some b) = some (a && b)

both_assoc : (a b c : Option Bool) → both (both a b) c ≡ both a (both b c)
both_assoc none b c = refl
both_assoc (some a) none c = refl
both_assoc (some a) (some b) none = refl
both_assoc (some a) (some b) (some c) = ground arith

both_left : (a : Option Bool) → both (some true) a ≡ a
both_left none = refl
both_left (some a) = refl

both-true : (a : Option Bool) → both a (some true) ≡ a
both-true none = refl
both-true (some a) = ground arith

module _ {N : Numbers} (laws : KeepsZero N) (chunk : Chunk N) (row : ℕ) (cols : ColMap) where
  nonzero-truth : (b : Bool) → nonzero N (truth N b) ≡ b
  nonzero-truth true = laws.of_int_nonzero (pos 1)
  nonzero-truth false = laws.of_int_nonzero (pos 0)

  test : BoundExpression N → Option Bool
  test e = eval_predicate e chunk row cols

  test-and : (l r : BoundExpression N) → test (binary and_op l r) ≡ both (test l) (test r)
  unfolding test eval_predicate eval
  test-and l r = elim (Option-cases (eval l chunk row cols)) [
    | inl h ↦ rw (eval, eval_predicate, h) refl
    | inr (a, h) ↦ elim (Option-cases (eval r chunk row cols)) [
      | inl k ↦ rw (eval, eval_predicate, h, k) refl
      | inr (b, k) ↦
          rw (eval, eval_predicate, h, k) (ap some (nonzero-truth (nonzero N a && nonzero N b)))
    ]
  ]

  -- An AND is both of its sides.
  pub eval_predicate-and :
      (l r : BoundExpression N)
      → eval_predicate (binary and_op l r) chunk row cols
        ≡ both (eval_predicate l chunk row cols) (eval_predicate r chunk row cols)
  unfolding test
  eval_predicate-and l r = test-and l r

  -- The predicates one after another, each of them tested.
  all_hold : List (BoundExpression N) → Option Bool
  unfolding test
  all_hold [] = some true
  all_hold (p ∷ preds) = both (test p) (all_hold preds)

  all_hold-append :
      (ps qs : List (BoundExpression N)) → all_hold (ps ++ qs) ≡ both (all_hold ps) (all_hold qs)
  unfolding all_hold
  all_hold-append [] qs = sym (both_left (all_hold qs))
  all_hold-append (p ∷ ps) qs =
      ap (both (test p)) (all_hold-append ps qs)
      ∙ sym (both_assoc (test p) (all_hold ps) (all_hold qs))

  all_hold-split_and : (e : BoundExpression N) → all_hold (split_and e) ≡ test e
  unfolding split_and all_hold
  all_hold-split_and (binary and_op l r) =
      all_hold-append (split_and l) (split_and r)
      ∙ (rw (all_hold-split_and l, all_hold-split_and r) refl ∙ sym (test-and l r))
  all_hold-split_and e = both-true (test e)

  test-combine_onto :
      (result : BoundExpression N) (preds : List (BoundExpression N))
      → test (combine_onto result preds) ≡ both (test result) (all_hold preds)
  unfolding combine_onto all_hold
  test-combine_onto result [] = sym (both-true (test result))
  test-combine_onto result (p ∷ preds) =
      test-combine_onto (binary and_op result p) preds
      ∙ (ap (λ x. both x (all_hold preds)) (test-and result p)
          ∙ both_assoc (test result) (test p) (all_hold preds))

  Combined : List (BoundExpression N) → Type 0
  Combined ps = (e : BoundExpression N) × ((combine_and ps ≡ some e) × (test e ≡ all_hold ps))

  some-Combined : (p : BoundExpression N) (ps : List (BoundExpression N)) → Combined (p ∷ ps)
  unfolding Combined all_hold
  some-Combined p ps = (combine_onto p ps, (refl, test-combine_onto p ps))

  append-Combined : (ps qs : List (BoundExpression N)) → Combined ps → Combined (ps ++ qs)
  unfolding Combined
  append-Combined [] qs (e, (h, k)) = absurd (ground (arith, h))
  append-Combined (p ∷ ps) qs h = some-Combined p (ps ++ qs)

  split_and-Combined : (e : BoundExpression N) → Combined (split_and e)
  unfolding split_and
  split_and-Combined (binary and_op l r) =
      append-Combined (split_and l) (split_and r) (split_and-Combined l)
  split_and-Combined e = some-Combined e []

  -- Where conversions keep zero apart, a condition that is taken apart at its ANDs and put together
  -- again is a condition, with the same truth and the same failures at every row.
  pub split_combine :
      (e : BoundExpression N)
      → (e' : BoundExpression N) × ((combine_and (split_and e) ≡ some e')
          × (eval_predicate e' chunk row cols ≡ eval_predicate e chunk row cols))
  unfolding Combined test
  split_combine e = let (e', (h, k)) = split_and-Combined e in (e', (h, k ∙ all_hold-split_and e))
