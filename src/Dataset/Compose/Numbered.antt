-- ===== src/Dataset/Compose/Numbered.antt =====
-- Which placeholders the filters of a composed statement take.
use fineract_ai_reports.Prelude.{
  string_eq, nat_eq, length, filter, concat, ok, >>=-eq-ok, int_eq, ℕ, ◌+◌, String, ◌≡◌, refl, sym,
  ap, ◌∙◌, Option, some, List, [], ◌∷◌, ◌++◌, map, append-nil, append_assoc, inl, inr,
}
use fineract_ai_reports.Knowledge.{
  parameter_type_eq, FilterOperator, operator_eq, FilterSlot, ShapeOption, DatasetKnowledge, shape,
}
use fineract_ai_reports.Dataset.Compose.Branches.{compose-cases}
use fineract_ai_reports.Dataset.Compose.{
  FilterBind, ComposedSql, predicate, check_expr, bind_width, max_array_len_of, Composing,
  compose_operators, compose_filters, shape_parameters, compose, start,
}

-- The binds take the placeholders after `last` one after the other, a range taking two.

abbrev pub AreNumbered : ℕ → List FilterBind → Type 0
AreNumbered last [] = Unit {0}
AreNumbered last (b ∷ bs) =
    (b.placeholder ≡ last + 1) × AreNumbered (last + bind_width b.operator) bs

-- The last placeholder that binds take
abbrev pub last_after : ℕ → List FilterBind → ℕ
last_after last [] = last
last_after last (b ∷ bs) = last_after (last + bind_width b.operator) bs

abbrev pub slot_of : FilterBind → String × FilterOperator
slot_of b = (b.filter_id, b.operator)

abbrev pub slots_of : FilterSlot → List (String × FilterOperator)
slots_of filter = map (λ operator. (filter.id, operator)) filter.operators

AreNumbered-append :
    (last : ℕ) (bs : List FilterBind) (b : FilterBind)
    → AreNumbered last bs
    → b.placeholder ≡ last_after last bs + 1
    → AreNumbered last (bs ++ b ∷ [])
AreNumbered-append last [] b h e = (e, tt)
AreNumbered-append last (c ∷ cs) b h e =
    (h.0, AreNumbered-append (last + bind_width c.operator) cs b h.1 e)

last_after-append :
    (last : ℕ) (bs : List FilterBind) (b : FilterBind)
    → last_after last (bs ++ b ∷ []) ≡ last_after last bs + bind_width b.operator
last_after-append last [] b = refl
last_after-append last (c ∷ cs) b = last_after-append (last + bind_width c.operator) cs b

map-snoc :
    {A B : Type 0} (f : A → B) (xs : List A) (x : A) → map f (xs ++ x ∷ []) ≡ map f xs ++ f x ∷ []
map-snoc f [] x = refl
map-snoc f (y ∷ ys) x = ap (λ r. f y ∷ r) (map-snoc f ys x)

module _ (base : ℕ) (row_cap : Option ℕ) where
  record IsNumbered (s : Composing) : Type 0 where
    numbered : AreNumbered base s.binds
    at : s.last ≡ last_after base s.binds

  compose_operators-IsNumbered :
      (filter : FilterSlot) (operators : List FilterOperator) (s t : Composing)
      → IsNumbered s
      → compose_operators row_cap filter operators s ≡ ok t
      → IsNumbered t
        × (map slot_of t.binds
            ≡ map slot_of s.binds ++ map (λ operator. (filter.id, operator)) operators)
  compose_operators-IsNumbered filter [] s t n h =
      let same : s ≡ t = cc in rw (← same) (n, sym (append-nil (map slot_of s.binds)))
  compose_operators-IsNumbered filter (operator ∷ rest) s t n h =
      let (pieces, e, f) =
        >>=-eq-ok (predicate filter.expr operator filter.kind filter.case_insensitive (s.last + 1))
          _ h in
      let new : FilterBind = record {
        filter_id = filter.id;
        operator = operator;
        placeholder = s.last + 1;
        max_array_len = max_array_len_of operator row_cap;
      } in
      let (m, slots) =
        compose_operators-IsNumbered filter rest _ t
          (record {
            numbered = AreNumbered-append base s.binds new n.numbered (ap (λ k. k + 1) n.at);
            at = ap (λ k. k + bind_width operator) n.at ∙ sym (last_after-append base s.binds new);
          })
          f in
      (
        m,
        slots
            ∙ ap (λ r. r ++ map (λ o. (filter.id, o)) rest) (map-snoc slot_of s.binds new)
            ∙ append_assoc (map slot_of s.binds) ((filter.id, operator) ∷ [])
                (map (λ o. (filter.id, o)) rest),
      )

  compose_filters-IsNumbered :
      (filters : List FilterSlot) (s t : Composing)
      → IsNumbered s
      → compose_filters row_cap filters s ≡ ok t
      → IsNumbered t × (map slot_of t.binds ≡ map slot_of s.binds ++ concat (map slots_of filters))
  compose_filters-IsNumbered [] s t n h =
      let same : s ≡ t = cc in rw (← same) (n, sym (append-nil (map slot_of s.binds)))
  compose_filters-IsNumbered (filter ∷ rest) s t n h =
      let (u, valid, f) = >>=-eq-ok (check_expr filter.expr) _ h in
      let (r, e, g) = >>=-eq-ok (compose_operators row_cap filter filter.operators s) _ f in
      let (m, first) = compose_operators-IsNumbered filter filter.operators s r n e in
      let (k, others) = compose_filters-IsNumbered rest r t m g in
      (
        k,
        others
            ∙ ap (λ p. p ++ concat (map slots_of rest)) first
            ∙ append_assoc (map slot_of s.binds) (slots_of filter) (concat (map slots_of rest)),
      )

-- The binds of a composed statement are the dataset's filters with each of their operators, in
-- order, and take the placeholders after the shape's own parameters one after the other, a range
-- taking two. A statement that is the dataset's source as it stands has no binds.
pub compose_numbered :
    (dataset : DatasetKnowledge) (shape_id : String) (order_by_id : Option String) (source : String)
    (fragment : Option String) (composed : ComposedSql)
    → compose dataset shape_id order_by_id source fragment ≡ ok composed
    → (s : ShapeOption) × (shape dataset shape_id ≡ some s)
      × AreNumbered (length (shape_parameters s dataset)) composed.filter_binds
      × (map slot_of composed.filter_binds ≡ concat (map slots_of dataset.filters))
compose_numbered dataset shape_id order_by_id source fragment composed h =
    let (s, found, ways) = compose-cases dataset shape_id order_by_id source fragment composed h in
    elim ways [
      | inl w ↦ (s, found, rw (← w.verbatim) tt, rw (← w.verbatim, w.unfiltered) refl)
      | inr j ↦
          let (n, slots) =
            compose_filters-IsNumbered (length (shape_parameters s dataset)) s.row_cap
              dataset.filters (start s dataset) j.composing (record { numbered = tt; at = refl })
              j.filtered in
          (s, found, rw (← j.joined) n.numbered, rw (← j.joined) slots)
    ]
