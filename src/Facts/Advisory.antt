-- ===== src/Facts/Advisory.antt =====
-- What a language model advises has no part in the constraints of a request.
use fineract_ai_reports.Prelude.{
  Bool-cases, ◌==◌, string_eq, nat_eq, find, ok, >>=-eq-ok, int_eq, ℕ, ◌≡◌, refl, ◌⊎◌, inl, inr,
  true, false, Option, none, some, arith, filter, ℤ, sym, ap, ◌∙◌, Bool, not, List, [], ◌∷◌,
}
use fineract_ai_reports.Knowledge.{parameter_type_eq}
use fineract_ai_reports.Facts.{FactObservation, ConstraintContract, Entries, EffectiveConstraints}
use fineract_ai_reports.Facts.Ordered.{ordered}
use fineract_ai_reports.Facts.Merged.{
  value_beq, SeenFact, is_seen, seen_as, Merging, is_advisory, bad_confidence, take_fact, take_new,
  check_fact, merge_one, merge_all, merge_start, constraints_of, merge_observations,
}
use fineract_ai_reports.Facts.Filtered.{filter-ordered}

-- Two loops hold the same facts, and the same keys of facts that are not advice.
record Agrees (m m' : Merging) : Type 0 where
  values : m.values ≡ m'.values
  winners : m.winners ≡ m'.winners
  created : m.created_at ≡ m'.created_at
  seen :
      (o : FactObservation)
      → is_advisory o ≡ false
      → find (is_seen o) m.seen ≡ find (is_seen o) m'.seen

record Took (job : ℕ) (contracts : Entries ConstraintContract) (o : FactObservation)
    (m next : Merging) : Type 0 where
  job_matches : (o.job_id == job) ≡ true
  confident : bad_confidence o.confidence ≡ false
  checked : check_fact o contracts ≡ ok tt
  taken : take_new o m (find (is_seen o) m.seen) ≡ ok next

merge_one-Took :
    (job : ℕ) (contracts : Entries ConstraintContract) (o : FactObservation) (m next : Merging)
    → merge_one job contracts o m ≡ ok next
    → Took job contracts o m next
merge_one-Took job contracts o m next h = elim (Bool-cases (o.job_id == job)) [
  | inr other ↦ cc (rw other at h)
  | inl mine ↦ elim (Bool-cases (bad_confidence o.confidence)) [
    | inl bad ↦ cc (rw (mine, bad) at h)
    | inr good ↦
        let (u, checked, taken) =
          >>=-eq-ok (check_fact o contracts) (λ _. take_new o m (find (is_seen o) m.seen))
            (rw (mine, good) at h) in
        record { job_matches = mine; confident = good; checked = checked; taken = taken }
  ]
]

Took-merge_one :
    (job : ℕ) (contracts : Entries ConstraintContract) (o : FactObservation) (m next : Merging)
    → Took job contracts o m next
    → merge_one job contracts o m ≡ ok next
Took-merge_one job contracts o m next t = rw (t.job_matches, t.confident, t.checked) t.taken

take_new-cases :
    (o : FactObservation) (m next : Merging) (r : Option SeenFact)
    → take_new o m r ≡ ok next
    → ((r ≡ none) × (take_fact o m ≡ next))
      ⊎ ((old : SeenFact) × (r ≡ some old)
          × (value_beq old.value o.typed_value ≡ true)
          × (m ≡ next))
take_new-cases o m next none h = inl (refl, cc)
take_new-cases o m next (some old) h = elim (Bool-cases (value_beq old.value o.typed_value)) [
  | inl t ↦ inr (old, refl, t, cc (rw t at h))
  | inr f ↦ cc (rw f at h)
]

-- A key of advice is no key of another fact.
other_key :
    (o q : FactObservation)
    → is_advisory o ≡ true
    → is_advisory q ≡ false
    → is_seen q (seen_as o) ≡ false
other_key o q h k = ground arith

Agrees-take_fact :
    (o : FactObservation) (m m' : Merging) → Agrees m m' → Agrees (take_fact o m) (take_fact o m')
Agrees-take_fact o m m' a = record {
  values = rw a.values refl;
  winners = rw a.winners refl;
  created = rw a.created refl;
  seen = λ q k. rw (a.seen q k) refl;
}

Agrees-advice :
    (o : FactObservation) (m m' : Merging)
    → is_advisory o ≡ true
    → Agrees m m'
    → Agrees (take_fact o m) m'
Agrees-advice o m m' h a = record {
  values = rw h a.values;
  winners = rw h a.winners;
  created = rw h a.created;
  seen = λ q k. rw (other_key o q h k) (a.seen q k);
}

-- One round on a fact that is not advice goes the same way in both loops.
merge_one-Agrees :
    (job : ℕ) (contracts : Entries ConstraintContract) (o : FactObservation) (m m' next : Merging)
    → is_advisory o ≡ false
    → Agrees m m'
    → merge_one job contracts o m ≡ ok next
    → (next' : Merging) × (merge_one job contracts o m' ≡ ok next') × Agrees next next'
merge_one-Agrees job contracts o m m' next fact a h =
    let t = merge_one-Took job contracts o m next h in
    let again : (next' : Merging)
        → take_new o m' (find (is_seen o) m'.seen) ≡ ok next'
        → merge_one job contracts o m' ≡ ok next' =
      λ next' taken. Took-merge_one job contracts o m' next' (record {
        job_matches = t.job_matches;
        confident = t.confident;
        checked = t.checked;
        taken = taken;
      }) in
    elim (take_new-cases o m next (find (is_seen o) m.seen) t.taken) [
      | inl (new, e) ↦ (
        take_fact o m',
        again (take_fact o m') (rw (← a.seen o fact, new) refl),
        rw (← e) (Agrees-take_fact o m m' a),
      )
      | inr (old, known, equal, e) ↦
          (m', again m' (rw (← a.seen o fact, known, equal) refl), rw (← e) a)
    ]

advice_kept :
    (job : ℕ) (contracts : Entries ConstraintContract) (o : FactObservation) (m m' next : Merging)
    → is_advisory o ≡ true
    → Agrees m m'
    → merge_one job contracts o m ≡ ok next
    → Agrees next m'
advice_kept job contracts o m m' next advice a h =
    let t = merge_one-Took job contracts o m next h in
    elim (take_new-cases o m next (find (is_seen o) m.seen) t.taken) [
      | inl (new, e) ↦ rw (← e) (Agrees-advice o m m' advice a)
      | inr (old, known, equal, e) ↦ rw (← e) a
    ]

abbrev pub is_fact : FactObservation → Bool
is_fact o = not (is_advisory o)

merge_all-Agrees :
    (job : ℕ) (contracts : Entries ConstraintContract) (os : List FactObservation)
    (m m' last : Merging)
    → Agrees m m'
    → merge_all job contracts os m ≡ ok last
    → (last' : Merging) × (merge_all job contracts (filter is_fact os) m' ≡ ok last')
      × Agrees last last'
merge_all-Agrees job contracts [] m m' last a h = let e : m ≡ last = cc in (m', refl, rw (← e) a)
merge_all-Agrees job contracts (o ∷ os) m m' last a h =
    let (next, one, rest) =
      >>=-eq-ok (merge_one job contracts o m) (λ next. merge_all job contracts os next) h in
    elim (Bool-cases (is_advisory o)) [
      | inl advice ↦ rw advice (
          merge_all-Agrees job contracts os next m' last
            (advice_kept job contracts o m m' next advice a one) rest)
      | inr fact ↦
          let (next', one', a') = merge_one-Agrees job contracts o m m' next fact a one in
          let (last', rest', a'') = merge_all-Agrees job contracts os next next' last a' rest in
          rw fact (last', rw one' rest', a'')
    ]

constraints-Agrees :
    (job : ℕ) (revision : ℤ) (m m' : Merging)
    → Agrees m m'
    → constraints_of job revision m ≡ constraints_of job revision m'
constraints-Agrees job revision m m' a = rw (a.values, a.winners, a.created) refl

-- A merge that succeeds has the same result without the advice of a language model: it decides no
-- value, wins no field and moves no time.
pub merge_observations_advice :
    (job : ℕ) (revision : ℤ) (contracts : Entries ConstraintContract) (os : List FactObservation)
    (c : EffectiveConstraints)
    → merge_observations job revision os contracts ≡ ok c
    → merge_observations job revision (filter is_fact os) contracts ≡ ok c
unfolding merge_observations
merge_observations_advice job revision contracts os c h =
    let (last, merged, e) =
      >>=-eq-ok (merge_all job contracts (ordered os) merge_start)
        (λ m. ok (constraints_of job revision m)) h in
    let (last', merged', a) =
      merge_all-Agrees job contracts (ordered os) merge_start merge_start last
        (record { values = refl; winners = refl; created = refl; seen = λ o k. refl }) merged in
    let e' : constraints_of job revision last ≡ c = cc in
    rw (← filter-ordered is_fact os)
      (rw merged' (ap ok (sym (constraints-Agrees job revision last last' a) ∙ e')))
