-- ===== src/IdStore/Views.antt =====
-- What a client of a store sees.
use cri.Base.{
  String, ◌≡◌, refl, sym, ap, subst, ◌∙◌, ◌⊎◌, inl, inr, Option, none, some, arith, str_eq,
  if◌then◌else◌, Option-cases,
}
use cri.Base.GoMap.{lookup, lookup-insert, lookup-delete}
use cri.Base.Errors.{Error, Result, ok, err, already_exist, not_exist}
use cri.Label
use cri.Label.{LabelStore}
use cri.IdStore.Index.{TruncIndex, Found, found, missing, refused}
use cri.IdStore.{
  Stored, add, add_missing, label_item, index_item, get, get_found, remove, delete_found,
}
use cri.IdStore.Agreement.{S, Agree}

module _ (t : TruncIndex) (level_of : String → Result String) {A : Type 0} (e : Stored A) where
  get_found_cases :
      (s : S t level_of e) (x : String) (f : Found)
      → Agree t level_of e s
      → t.get s.index x ≡ f
      → ((a : A) × (get_found t level_of e f s ≡ ok a)
          × (lookup (e.id a) s.items ≡ some a)
          × (f ≡ found (e.id a)))
        ⊎ ((get_found t level_of e f s ≡ err not_exist) × (lookup x s.items ≡ none) × (f ≡ missing))
        ⊎ ((y : Error) × (t.get s.index x ≡ refused y) × (get_found t level_of e f s ≡ err y))
  unfolding get_found
  get_found_cases s x (refused y) v q = inr (inr (y, q, refl))
  get_found_cases s x missing v q =
      inr (inl (refl, ground (arith, t.get_missing s.index x q, v.indexed x), refl))
  get_found_cases s x (found id) v q = elim (Option-cases (lookup id s.items)) [
    | inl n ↦ absurd (ground (arith, t.get_found s.index x id q, v.indexed id))
    | inr (a, n) ↦
        let own = v.keyed id a n in
        inl (a, rw n, subst (λ k. lookup k s.items ≡ some a) (sym own) n, ap found (sym own))
  ]

  -- What `Get` returns, by what the index finds for the argument.
  pub get_resolved :
      (s : S t level_of e) (x : String)
      → Agree t level_of e s
      → ((a : A) × (get t level_of e x s ≡ ok a)
          × (lookup (e.id a) s.items ≡ some a)
          × (t.get s.index x ≡ found (e.id a)))
        ⊎ ((get t level_of e x s ≡ err not_exist)
            × (lookup x s.items ≡ none)
            × (t.get s.index x ≡ missing))
        ⊎ ((y : Error) × (t.get s.index x ≡ refused y) × (get t level_of e x s ≡ err y))
  unfolding get
  get_resolved s x v = get_found_cases s x (t.get s.index x) v refl

  -- On a store whose map and index agree, `Get` returns an element that is stored under its own id;
  -- or ErrNotExist, and then the argument is not the id of a stored element; or the error of an index
  -- that refuses the argument, as ambiguous for instance.
  pub get_stored :
      (s : S t level_of e) (x : String)
      → Agree t level_of e s
      → ((a : A) × (get t level_of e x s ≡ ok a) × (lookup (e.id a) s.items ≡ some a))
        ⊎ ((get t level_of e x s ≡ err not_exist) × (lookup x s.items ≡ none))
        ⊎ ((y : Error) × (t.get s.index x ≡ refused y) × (get t level_of e x s ≡ err y))
  get_stored s x v = elim (get_resolved s x v) [
    | inl (a, h, l, _) ↦ inl (a, h, l)
    | inr (inl (h, l, _)) ↦ inr (inl (h, l))
    | inr (inr h) ↦ inr (inr h)
  ]

  -- The element was added: it alone is new.
  abbrev pub Added : A → S t level_of e → S t level_of e × Option Error → Type 0
  Added a s r =
      (r.1 ≡ none)
      × (lookup (e.id a) s.items ≡ none)
      × ((k : String)
          → lookup k r.0.items ≡ (if str_eq (e.id a) k then some a else lookup k s.items))

  -- The labels with that of the element reserved, and the error of the reservation.
  abbrev pub reserved : A → S t level_of e → LabelStore × Option Error
  reserved a s = Label.reserve level_of (e.process_label a) s.labels

  -- What `Add` returns and leaves, with the conditions of each case.
  pub data AddOutcome (a : A) (s : S t level_of e) (r : S t level_of e × Option Error)
      : Type 0 where
    known :
        {b : A} → lookup (e.id a) s.items ≡ some b → r ≡ (s, some already_exist) → AddOutcome a s r
    -- The label cannot be reserved.
    unlabelled :
        {x : Error}
        → lookup (e.id a) s.items ≡ none
        → (reserved a s).1 ≡ some x
        → r ≡ (s, some x)
        → AddOutcome a s r
    -- The index refuses the id, and the label stays reserved.
    unindexed :
        {x : Error}
        → lookup (e.id a) s.items ≡ none
        → (reserved a s).1 ≡ none
        → t.add (e.id a) s.index ≡ err x
        → r ≡ (record s { labels = (reserved a s).0 }, some x)
        → AddOutcome a s r
    added :
        {i : t.Index}
        → (reserved a s).1 ≡ none
        → t.add (e.id a) s.index ≡ ok i
        → Added a s r
        → r.0.index ≡ i
        → r.0.labels ≡ (reserved a s).0
        → AddOutcome a s r

  index_item_outcome :
      (a : A) (s : S t level_of e) (q : Result t.Index)
      → lookup (e.id a) s.items ≡ none
      → (reserved a s).1 ≡ none
      → t.add (e.id a) s.index ≡ q
      → AddOutcome a s (index_item t level_of e a q (record s { labels = (reserved a s).0 }))
  unfolding index_item
  index_item_outcome a s (err x) n l q = unindexed n l q refl
  index_item_outcome a s (ok i) n l q =
      added l q (refl, n, λ k. lookup-insert (e.id a) k a s.items) refl refl

  label_item_outcome :
      (a : A) (s : S t level_of e) (q : LabelStore × Option Error)
      → lookup (e.id a) s.items ≡ none
      → reserved a s ≡ q
      → AddOutcome a s (label_item t level_of e a q s)
  unfolding label_item
  label_item_outcome a s (labels, some x) n q =
      let l : (reserved a s).1 ≡ some x = ap (λ (p : LabelStore × Option Error). p.1) q in
      let same : labels ≡ s.labels =
        sym (ap (λ (p : LabelStore × Option Error). p.0) q)
        ∙ Label.reserve-err level_of (e.process_label a) s.labels x l in
      unlabelled n l (rw same refl)
  label_item_outcome a s (labels, none) n q =
      subst
        (λ l.
          AddOutcome a s
            (index_item t level_of e a (t.add (e.id a) s.index) (record s { labels = l })))
        (ap (λ (p : LabelStore × Option Error). p.0) q)
        (index_item_outcome a s (t.add (e.id a) s.index) n
          (ap (λ (p : LabelStore × Option Error). p.1) q) refl)

  add_missing_outcome :
      (a : A) (s : S t level_of e) (o : Option A)
      → lookup (e.id a) s.items ≡ o
      → AddOutcome a s (add_missing t level_of e a o s)
  unfolding add_missing
  add_missing_outcome a s (some b) q = known q refl
  add_missing_outcome a s none q = label_item_outcome a s _ q refl

  -- `Add` returns ErrAlreadyExist and changes nothing exactly where the id is stored. Of another id it
  -- fails with the error of the label's reservation and changes nothing, or with that of an index that
  -- refuses the id, and then the map and the index stay and the label remains reserved; or it stores
  -- the element and leaves all others, with the id in the index and the label reserved.
  pub add_effect : (a : A) (s : S t level_of e) → AddOutcome a s (add t level_of e a s)
  unfolding add
  add_effect a s = add_missing_outcome a s (lookup (e.id a) s.items) refl

  -- The two ends of `Add`, by its result.
  pub add-err :
      (a : A) (s s' : S t level_of e) (x : Error)
      → add t level_of e a s ≡ (s', some x)
      → s'.items ≡ s.items
  add-err a s s' x q = elim (add_effect a s) [
    | known _ h ↦ ap (λ (p : S t level_of e × Option Error). p.0.items) (sym q ∙ h)
    | unlabelled _ _ h ↦ ap (λ (p : S t level_of e × Option Error). p.0.items) (sym q ∙ h)
    | unindexed _ _ _ h ↦ ap (λ (p : S t level_of e × Option Error). p.0.items) (sym q ∙ h)
    | added _ _ h _ _ ↦ absurd cc
  ]

  -- The index and the labels after `Add` failed: a label stays reserved if the index refuses the id.
  pub add-err_rest :
      (a : A) (s s' : S t level_of e) (x : Error)
      → add t level_of e a s ≡ (s', some x)
      → (s'.index ≡ s.index)
        × ((s'.labels ≡ s.labels)
            ⊎ ((y : Error) × (t.add (e.id a) s.index ≡ err y)
                × (s'.labels ≡ (Label.reserve level_of (e.process_label a) s.labels).0)))
  add-err_rest a s s' x q =
      let at : (r : S t level_of e × Option Error) → add t level_of e a s ≡ r → s' ≡ r.0 =
        λ r h. ap (λ (p : S t level_of e × Option Error). p.0) (sym q ∙ h) in
      elim (add_effect a s) [
        | known _ h ↦ (
          ap (λ (u : S t level_of e). u.index) (at _ h),
          inl (ap (λ (u : S t level_of e). u.labels) (at _ h)),
        )
        | unlabelled _ _ h ↦ (
          ap (λ (u : S t level_of e). u.index) (at _ h),
          inl (ap (λ (u : S t level_of e). u.labels) (at _ h)),
        )
        | unindexed {x = y} _ _ f h ↦ (
          ap (λ (u : S t level_of e). u.index) (at _ h),
          inr (y, f, ap (λ (u : S t level_of e). u.labels) (at _ h)),
        )
        | added _ _ h _ _ ↦ absurd cc
      ]

  pub add-ok :
      (a : A) (s s' : S t level_of e)
      → add t level_of e a s ≡ (s', none)
      → (lookup (e.id a) s.items ≡ none)
        × ((k : String)
            → lookup k s'.items ≡ (if str_eq (e.id a) k then some a else lookup k s.items))
  add-ok a s s' q = elim (add_effect a s) [
    | known _ h ↦ absurd cc
    | unlabelled _ _ h ↦ absurd cc
    | unindexed _ _ _ h ↦ absurd cc
    | added _ _ h _ _ ↦
        (h.1, λ k. sym (ap (λ (p : S t level_of e × Option Error). lookup k p.0.items) q) ∙ h.2 k)
  ]

  -- The element that `Get` returns for the argument was removed, and its label was released.
  abbrev pub IsRemoved : A → Result A → S t level_of e → S t level_of e → Type 0
  IsRemoved a got s s' =
      (lookup (e.id a) s.items ≡ some a)
      × (got ≡ ok a)
      × ((k : String) → lookup k s'.items ≡ (if str_eq (e.id a) k then none else lookup k s.items))
      × (s'.labels ≡ Label.release level_of (e.process_label a) s.labels)

  delete_found_cases :
      (s : S t level_of e) (x : String) (f : Found)
      → Agree t level_of e s
      → t.get s.index x ≡ f
      → ((a : A) × IsRemoved a (get_found t level_of e f s) s (delete_found t level_of e f s))
        ⊎ ((y : Error) × (get_found t level_of e f s ≡ err y) × (delete_found t level_of e f s ≡ s))
  unfolding get_found delete_found
  delete_found_cases s x missing v q = inr (not_exist, refl, refl)
  delete_found_cases s x (refused y) v q = inr (y, refl, refl)
  delete_found_cases s x (found id) v q = elim (Option-cases (lookup id s.items)) [
    | inl n ↦ absurd (ground (arith, t.get_found s.index x id q, v.indexed id))
    | inr (a, n) ↦
        let own = v.keyed id a n in
        inl (
          a,
          (
            subst (λ k. lookup k s.items ≡ some a) (sym own) n,
            rw n,
            (λ k. lookup-delete id k s.items ∙ rw own),
            rw n,
          ),
        )
  ]

  -- On a store whose map and index agree, `Delete` removes the element that `Get` would return for
  -- the argument and releases that element's label, and leaves all else; or `Get` returns an error for
  -- the argument, and `Delete` changes nothing.
  pub remove_effect :
      (s : S t level_of e) (x : String)
      → Agree t level_of e s
      → ((a : A) × IsRemoved a (get t level_of e x s) s (remove t level_of e x s))
        ⊎ ((y : Error) × (get t level_of e x s ≡ err y) × (remove t level_of e x s ≡ s))
  unfolding get remove
  remove_effect s x v = delete_found_cases s x (t.get s.index x) v refl
