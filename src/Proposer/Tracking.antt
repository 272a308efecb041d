-- ===== src/Proposer/Tracking.antt =====
-- What a run has counted in its current step: the fields that `fold` keeps, against the list of
-- the replies that it has counted.
use raxos.Prelude.{
  ℕ, zero, suc, ◌≤◌, ◌<◌, ◌≡◌, ◌≢◌, ◌⊎◌, inl, inr, refl, ap, ◌∙◌, Bool, true, false, ◌&&◌, ◌||◌,
  Option, none, some, List, [], ◌∷◌, length, length-set, replicate, length-replicate, get_elem?,
  set, IsU32, arith, ◌==◌, if◌then◌else◌, IsGreatest, IsGreatest-cons, is_none_or_less, Bool-cases,
}
use native.Mathlib.Decide.{dec_lt, ℕ_discrete}
use raxos.Types.{Proposal, priority_h, proposal_ord}
use raxos.Proposer.{
  Run, Folded, ignored, catch_up, quorum, fill_false, reset_tracking, fresh_run, count_reply, fold,
}

pub record Reply : Type 0 where
  pub from : ℕ
  pub first : Proposal
  pub agg : Option Proposal

unfoldable pub has_replied : ℕ → List Reply → Bool
has_replied i [] = false
has_replied i (c ∷ cs) = i == c.from || has_replied i cs

unfoldable pub firsts : List Reply → List Proposal
firsts [] = []
firsts (c ∷ cs) = c.first ∷ firsts cs

-- The aggregates that are not nil.
unfoldable pub aggs : List Reply → List Proposal
aggs [] = []
aggs (c ∷ cs) = elim c.agg [ none ↦ aggs cs | some a ↦ a ∷ aggs cs ]

unfoldable pub all_high : List Reply → Bool
all_high [] = true
all_high (c ∷ cs) = all_high cs && (c.first.priority == priority_h)

-- `run` has counted the replies `cs` of a group of `n` recorders, the latest first.
pub record Tracks (n : ℕ) (run : Run) (cs : List Reply) : Type 0 where
  pub size : length run.replied ≡ n
  pub marks : (i : ℕ) → i < n → get_elem? run.replied i ≡ some (has_replied i cs)
  pub count : run.reply_count ≡ length cs
  pub high : run.all_first_high ≡ all_high cs
  pub best_first : IsGreatest run.best_first (firsts cs)
  pub best_agg : IsGreatest run.best_agg (aggs cs)

get_elem?-replicate : (n i : ℕ) → i < n → get_elem? (replicate n false) i ≡ some false
get_elem?-replicate zero i h = absurd (omega arith)
get_elem?-replicate (suc n) zero h = refl
get_elem?-replicate (suc n) (suc i) h = get_elem?-replicate n i (omega arith)

fill_false_lem : (xs : List Bool) → fill_false xs ≡ replicate (length xs) false
fill_false_lem [] = refl
fill_false_lem (x ∷ xs) = ap (λ t. false ∷ t) (fill_false_lem xs)

get_elem?-set :
    (xs : List Bool) (j i : ℕ) {b : Bool}
    → get_elem? xs i ≡ some b
    → get_elem? (set xs j true) i ≡ some (i == j || b)
get_elem?-set [] j i e = cc
get_elem?-set (x ∷ xs) zero zero e = refl
get_elem?-set (x ∷ xs) zero (suc i) e = ground arith
get_elem?-set (x ∷ xs) (suc j) zero e = ground arith
get_elem?-set (x ∷ xs) (suc j) (suc i) e = ground (arith, get_elem?-set xs j i e)

-- A new run, and a run whose tracking is reset, has counted nothing.
pub fresh_run-Tracks : (value : _) (me n now : ℕ) → Tracks n (fresh_run value me n now) []
unfolding fresh_run firsts aggs has_replied all_high
fresh_run-Tracks value me n now = record {
  size = length-replicate n false;
  marks = get_elem?-replicate n;
  count = refl;
  high = refl;
  best_first = tt;
  best_agg = tt;
}

pub reset_tracking-Tracks : (run : Run) → Tracks (length run.replied) (reset_tracking run) []
unfolding reset_tracking firsts aggs has_replied all_high
reset_tracking-Tracks run = rw fill_false_lem (record {
  size = length-replicate (length run.replied) false;
  marks = get_elem?-replicate (length run.replied);
  count = refl;
  high = refl;
  best_first = tt;
  best_agg = tt;
})

agg_update :
    (best o : Option Proposal) (xs : List Proposal)
    → IsGreatest best xs
    → IsGreatest
        (elim o [ none ↦ best | some agg ↦ if is_none_or_less best agg then some agg else best ])
        (elim o [ none ↦ xs | some a ↦ a ∷ xs ])
agg_update best none xs h = h
agg_update best (some agg) xs h = IsGreatest-cons best agg xs h

pub count_reply-Tracks :
    (n q : ℕ) (run : Run) (c : Reply) (cs : List Reply)
    → Tracks n run cs
    → length cs < q
    → IsU32 q
    → Tracks n (count_reply run c.from c.first c.agg) (c ∷ cs)
unfolding count_reply firsts has_replied all_high
count_reply-Tracks n q run c cs t lt u = record {
  size = length-set run.replied c.from true ∙ t.size;
  marks = λ i h. get_elem?-set run.replied c.from i (t.marks i h);
  count = omega (arith, t.count);
  high = ap (λ b. b && (c.first.priority == priority_h)) t.high;
  best_first = IsGreatest-cons run.best_first c.first (firsts cs) t.best_first;
  best_agg = unfold aggs in agg_update run.best_agg c.agg (aggs cs) t.best_agg;
}

-- What `fold` does with a reply `c` to a request of step `req`, when `cs` have been counted.
pub data Folds (n q : ℕ) (run : Run) (cs : List Reply) (req rep : ℕ) (c : Reply)
    : Folded × Run → Type 0 where
  -- The recorder is ahead: its step and first proposal are handed on, and nothing is counted.
  ahead : run.step < rep → Folds n q run cs req rep c (catch_up rep c.first, run)
  -- An old request, an old reply or a second reply of one recorder changes nothing.
  skipped :
      rep ≤ run.step
      → (req ≢ run.step) ⊎ (rep ≢ run.step) ⊎ (has_replied c.from cs ≡ true)
      → Folds n q run cs req rep c (ignored, run)
  -- Any other reply is counted, and only the one that completes the quorum says so.
  counts :
      req ≡ run.step
      → rep ≡ run.step
      → has_replied c.from cs ≡ false
      → (answer : Folded) → answer ≡ (if suc (length cs) == q then quorum else ignored)
      → Tracks n (count_reply run c.from c.first c.agg) (c ∷ cs)
      → Folds n q run cs req rep c (answer, count_reply run c.from c.first c.agg)

module _ (run : Run) (c : Reply) (req rep q : ℕ) where
  fold_ahead :
      run.step < rep → fold run c.from req rep c.first c.agg q ≡ some (catch_up rep c.first, run)
  unfolding fold
  fold_ahead up = ground arith

  fold_other :
      rep ≤ run.step
      → (req ≢ run.step) ⊎ (rep ≢ run.step)
      → fold run c.from req rep c.first c.agg q ≡ some (ignored, run)
  unfolding fold
  fold_other le other = ground arith

  fold_seen :
      req ≡ run.step
      → rep ≡ run.step
      → get_elem? run.replied c.from ≡ some true
      → fold run c.from req rep c.first c.agg q ≡ some (ignored, run)
  unfolding fold
  fold_seen same_req same_rep seen = ground arith

  fold_new :
      req ≡ run.step
      → rep ≡ run.step
      → get_elem? run.replied c.from ≡ some false
      → fold run c.from req rep c.first c.agg q
        ≡ some (
          if (count_reply run c.from c.first c.agg).reply_count == q then quorum else ignored,
          count_reply run c.from c.first c.agg,
        )
  unfolding fold
  fold_new same_req same_rep new_one = ground arith

-- While the quorum is not yet there, `fold` neither panics nor miscounts: whatever the reply of
-- one of the `n` recorders, it does what `Folds` says, which keeps the fields of the run true to
-- the list of counted replies.
pub fold-Folds :
    (n q : ℕ) (run : Run) (cs : List Reply) (req rep : ℕ) (c : Reply)
    → Tracks n run cs
    → c.from < n
    → length cs < q
    → IsU32 q
    → (r : Folded × Run) × (fold run c.from req rep c.first c.agg q ≡ some r)
      × Folds n q run cs req rep c r
fold-Folds n q run cs req rep c t h lt u = elim (dec_lt run.step rep) [
  | yes up ↦ ((catch_up rep c.first, run), fold_ahead run c req rep q up, ahead up)
  | no le ↦ elim (ℕ_discrete req run.step) [
    | no other ↦ (
      (ignored, run),
      fold_other run c req rep q (omega arith) (inl other),
      skipped (omega arith) (inl other),
    )
    | yes same_req ↦ elim (ℕ_discrete rep run.step) [
      | no other ↦ (
        (ignored, run),
        fold_other run c req rep q (omega arith) (inr other),
        skipped (omega arith) (inr (inl other)),
      )
      | yes same_rep ↦ elim (Bool-cases (has_replied c.from cs)) [
        | inl seen ↦ (
          (ignored, run),
          fold_seen run c req rep q same_req same_rep (t.marks c.from h ∙ ap some seen),
          skipped (omega arith) (inr (inr seen)),
        )
        | inr new_one ↦
            let t' = count_reply-Tracks n q run c cs t lt u in
            let answer = if suc (length cs) == q then quorum else ignored in
            (
              (answer, count_reply run c.from c.first c.agg),
              fold_new run c req rep q same_req same_rep (t.marks c.from h ∙ ap some new_one)
                  ∙ ap
                      (λ k.
                        some (
                          if k == q then quorum else ignored,
                          count_reply run c.from c.first c.agg,
                        ))
                      t'.count,
              counts same_req same_rep new_one answer refl t',
            )
      ]
    ]
  ]
]
