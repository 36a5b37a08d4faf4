-- ===== src/Usage/Merge.antt =====
-- src/usage.rs: `merge_usage` over all the reports of one response.
use mathlib.Core.List.{append-nil, append_assoc}
use llm_conduit.Prelude.{
  ◌≤◌, ◌<◌, ◌≡◌, refl, List, [], ◌∷◌, ◌++◌, Option, none, some, arith, ltb, All, All-append,
  Bool-cases, inl, inr, ltb→lt,
}
use llm_conduit.Usage.Types.{TokenUsage, completeness, merge_usage}

-- The reports of a response, merged one after the other.
unfoldable pub merge_all : Option TokenUsage → List (Option TokenUsage) → Option TokenUsage
merge_all current [] = current
merge_all current (seen ∷ more) = merge_all (merge_usage current seen) more

abbrev pub NoBetter : TokenUsage → Option TokenUsage → Type 0
NoBetter best none = Unit
NoBetter best (some usage) = completeness usage ≤ completeness best

abbrev pub Worse : TokenUsage → Option TokenUsage → Type 0
Worse best none = Unit
Worse best (some usage) = completeness usage < completeness best

-- `best` is the last of the most complete reports.
pub record IsLastBest (reports : List (Option TokenUsage)) (best : TokenUsage) : Type 0 where
  pub before : List (Option TokenUsage)
  pub after : List (Option TokenUsage)
  pub splits : reports ≡ before ++ some best ∷ after
  pub no_better : All (NoBetter best) before
  pub worse : All (Worse best) after

abbrev pub Chosen : List (Option TokenUsage) → Option TokenUsage → Type 0
Chosen reports none = All (λ r. r ≡ none) reports
Chosen reports (some best) = IsLastBest reports best

NoBetter-weaken :
    (a b : TokenUsage) (rs : List (Option TokenUsage))
    → completeness a ≤ completeness b
    → All (NoBetter a) rs
    → All (NoBetter b) rs
NoBetter-weaken a b [] h k = tt
NoBetter-weaken a b (none ∷ rs) h k = (tt, NoBetter-weaken a b rs h k.1)
NoBetter-weaken a b (some u ∷ rs) h k = (omega arith, NoBetter-weaken a b rs h k.1)

NoBetter-of_Worse :
    (a b : TokenUsage) (rs : List (Option TokenUsage))
    → completeness a ≤ completeness b
    → All (Worse a) rs
    → All (NoBetter b) rs
NoBetter-of_Worse a b [] h k = tt
NoBetter-of_Worse a b (none ∷ rs) h k = (tt, NoBetter-of_Worse a b rs h k.1)
NoBetter-of_Worse a b (some u ∷ rs) h k = (omega arith, NoBetter-of_Worse a b rs h k.1)

NoBetter-of_none :
    (b : TokenUsage) (rs : List (Option TokenUsage)) → All (λ r. r ≡ none) rs → All (NoBetter b) rs
NoBetter-of_none b [] h = tt
NoBetter-of_none b (none ∷ rs) h = (tt, NoBetter-of_none b rs h.1)
NoBetter-of_none b (some u ∷ rs) h = cc

-- The newest report wins: it is at least as complete as the one that was kept.
Chosen-replace :
    (reports : List (Option TokenUsage)) (old new : TokenUsage)
    → completeness old ≤ completeness new
    → IsLastBest reports old
    → IsLastBest (reports ++ some new ∷ []) new
Chosen-replace reports old new h k = record {
  before = reports;
  after = [];
  splits = refl;
  no_better = rw k.splits (
      All-append (NoBetter new) k.before (some old ∷ k.after)
        (NoBetter-weaken old new k.before h k.no_better)
        (h, NoBetter-of_Worse old new k.after h k.worse));
  worse = tt;
}

Chosen-keep :
    (reports : List (Option TokenUsage)) (old : TokenUsage) (seen : Option TokenUsage)
    → Worse old seen
    → IsLastBest reports old
    → IsLastBest (reports ++ seen ∷ []) old
Chosen-keep reports old seen h k = record {
  before = k.before;
  after = k.after ++ seen ∷ [];
  splits = rw k.splits (append_assoc k.before (some old ∷ k.after) (seen ∷ []));
  no_better = k.no_better;
  worse = All-append (Worse old) k.after (seen ∷ []) k.worse (h, tt);
}

Chosen-step :
    (reports : List (Option TokenUsage)) (current seen : Option TokenUsage)
    → Chosen reports current
    → Chosen (reports ++ seen ∷ []) (merge_usage current seen)
unfolding merge_usage
Chosen-step reports none none h = All-append (λ r. r ≡ none) reports (none ∷ []) h (refl, tt)
Chosen-step reports (some old) none h = Chosen-keep reports old none tt h
Chosen-step reports none (some new) h = record {
  before = reports;
  after = [];
  splits = refl;
  no_better = NoBetter-of_none new reports h;
  worse = tt;
}
Chosen-step reports (some old) (some new) h =
    elim (Bool-cases (ltb (completeness new) (completeness old))) [
      | inl less ↦ rw less (Chosen-keep reports old (some new) (ltb→lt _ _ less) h)
      | inr more ↦ rw more (Chosen-replace reports old new (ground arith) h)
    ]

merge_all-from :
    (done reports : List (Option TokenUsage)) (current : Option TokenUsage)
    → Chosen done current
    → Chosen (done ++ reports) (merge_all current reports)
unfolding merge_all
merge_all-from done [] current h = rw append-nil h
merge_all-from done (seen ∷ more) current h = rw append_assoc at (
    merge_all-from (done ++ seen ∷ []) more (merge_usage current seen)
      (Chosen-step done current seen h))

pub merge_all-append :
    (xs ys : List (Option TokenUsage)) (current : Option TokenUsage)
    → merge_all current (xs ++ ys) ≡ merge_all (merge_all current xs) ys
unfolding merge_all
merge_all-append [] ys current = refl
merge_all-append (a ∷ xs) ys current = merge_all-append xs ys (merge_usage current a)

-- Of all the reports of one response the counters that are kept are the last of the most complete
-- ones: no earlier report is more complete, and every later one is less complete. They are absent
-- only if no report was seen.
pub merge_all-Chosen :
    (reports : List (Option TokenUsage)) → Chosen reports (merge_all none reports)
merge_all-Chosen reports = merge_all-from [] reports none tt
