-- ===== src/Creation/Rollback.antt =====
-- The frame of the creating handlers: what they leave where they fail, and where they succeed.
use cri.Base.{
  String, ◌≡◌, refl, sym, ◌∙◌, ap, subst, ◌⊎◌, inl, inr, Option, none, some, List, [], ◌∷◌, ◌++◌,
  map, reverse, All, if◌then◌else◌, str_eq,
}
use cri.Base.GoMap.{lookup}
use cri.Base.Errors.{Error, Result, ok, err}
use cri.Defers.{
  Event, finish, stored, acquired, released, Frame, continue, give_back_all, ◌>>=◌, ◌>>◌,
  record_event, hold_as,
}
use cri.Defers.Balance.{Grown, Grown-refl, Keeps, give_back_all-append, finish-err}
use mathlib.Core.List.{map-append}
use cri.IdStore.{Stored, Store, add}
use cri.IdStore.Index.{TruncIndex}
use cri.IdStore.Views.{add-err, add-err_rest, add-ok}
use cri.Label
use cri.Label.{LabelStore}
use cri.Registrar.Bijection.{IsBijection}
use cri.Registrar.Reservation.{reserve_effect, release-reserve}
use cri.Registrar.{Registrar, reserve, release_by_name}
use cri.Creation.{
  Resource, reserved_name, process_label, namespace, pod_network, containerd_container,
  root_directory, volatile_directory, sandbox_files, task, container_io, checkpoint, Service, Step,
  give_back, reserve_name, add_item, under_name, after_reserve, after_add,
}

-- What is taken after the name.
abbrev pub IsOther : Resource → Type 0
IsOther (reserved_name name) = ⊥
IsOther _ = Unit

module _ (t : TruncIndex) (level_of : String → Result String) {A : Type 0} (e : Stored A) where
  abbrev F : Type 0
  F = Frame (Service t level_of e) Resource

  abbrev back : List Resource → Service t level_of e → Service t level_of e
  back = give_back_all (give_back t level_of e)

  give_back-IsOther :
      (r : Resource) (s : Service t level_of e) → IsOther r → give_back t level_of e r s ≡ s
  unfolding give_back
  give_back-IsOther (reserved_name name) s h = absurd h
  give_back-IsOther (process_label label) s h = refl
  give_back-IsOther namespace s h = refl
  give_back-IsOther pod_network s h = refl
  give_back-IsOther containerd_container s h = refl
  give_back-IsOther root_directory s h = refl
  give_back-IsOther volatile_directory s h = refl
  give_back-IsOther sandbox_files s h = refl
  give_back-IsOther task s h = refl
  give_back-IsOther container_io s h = refl
  give_back-IsOther checkpoint s h = refl

  give_back_others :
      (rs : List Resource) (s : Service t level_of e) → All IsOther rs → back rs s ≡ s
  give_back_others [] s h = refl
  give_back_others (r ∷ rs) s (h, hs) =
      ap (back rs) (give_back-IsOther r s h) ∙ give_back_others rs s hs

  -- The labels of the store after a failure: those before it, or with one that `Add` reserved for an
  -- element whose id the index then refused.
  abbrev pub LabelsLeft : Service t level_of e → LabelStore → Type 0
  LabelsLeft s labels =
      (labels ≡ s.items.labels)
      ⊎ ((a : A) × (x : Error) × (t.add (e.id a) s.items.index ≡ err x)
          × (labels ≡ (Label.reserve level_of (e.process_label a) s.items.labels).0))

  module _ (undo : Resource → Resource) (s : Service t level_of e) where
    -- What a handler that failed leaves: what it took was released in the opposite order, every name
    -- and key is held as before, and the store has the items and the index that it had.
    pub record Undone (r : Service t level_of e × List (Event Resource)) : Type 0 where
      pub taken : List Resource
      pub journal : r.1 ≡ map released (reverse (map undo taken)) ++ map acquired taken
      pub names : (n : String) → lookup n r.0.names.name_to_key ≡ lookup n s.names.name_to_key
      pub keys : (k : String) → lookup k r.0.names.key_to_name ≡ lookup k s.names.key_to_name
      pub items : r.0.items.items ≡ s.items.items
      pub index : r.0.items.index ≡ s.items.index
      pub labels : LabelsLeft s r.0.items.labels

    pub start-Undone : Undone (s, [])
    start-Undone = record {
      taken = [];
      journal = refl;
      names = λ n. refl;
      keys = λ k. refl;
      items = refl;
      index = refl;
      labels = inl refl;
    }

  -- `undo` is the form in which the deferred functions release what was taken.
  module _ (undo : Resource → Resource)
      (undo-IsOther : (r : Resource) → IsOther r → IsOther (undo r)) where
    map-IsOther : (rs : List Resource) → All IsOther rs → All IsOther (map undo rs)
    map-IsOther [] h = tt
    map-IsOther (r ∷ rs) (h, hs) = (undo-IsOther r h, map-IsOther rs hs)

    -- The moment of a failure after the reservation.
    pub record Underway (name id : String) (s : Service t level_of e) (f : F) : Type 0 where
      pub taken : List Resource
      pub allowed : All IsOther taken
      pub deferred : f.deferred ≡ map undo taken ++ (reserved_name name ∷ [])
      pub journal : f.journal ≡ map acquired taken ++ (acquired (reserved_name name) ∷ [])
      pub reserved : (reserve name id s.names).1 ≡ none
      pub names : f.service.names ≡ (reserve name id s.names).0
      pub items : f.service.items.items ≡ s.items.items
      pub index : f.service.items.index ≡ s.items.index
      pub labels : LabelsLeft s f.service.items.labels

    -- The service before the first step.
    abbrev pub start : Service t level_of e → F
    start s = record { service = s; journal = []; deferred = [] }

    -- The moment after the addition to the store.
    pub record Added (make : Step t level_of e A) (s : Service t level_of e) (f : F) : Type 0 where
      pub item : A
      pub before : F
      pub made : (make before).0 ≡ ok item
      pub fresh : lookup (e.id item) s.items.items ≡ none
      pub items :
          (k : String)
          → lookup k f.service.items.items
            ≡ (if str_eq (e.id item) k then some item else lookup k s.items.items)

    -- The moment of a success.
    pub record Done (name id : String) (make : Step t level_of e A) (s : Service t level_of e)
        (f : F) : Type 0 where
      pub taken : List Resource
      pub allowed : All IsOther taken
      pub journal : f.journal ≡ stored ∷ map acquired taken ++ (acquired (reserved_name name) ∷ [])
      pub reserved : (reserve name id s.names).1 ≡ none
      pub names : f.service.names ≡ (reserve name id s.names).0
      pub added : Added make s f

    unfoldable pub Outcome :
        (name id : String) (make : Step t level_of e A) (s : Service t level_of e)
        → Result (Unit {0}) × F
        → Type 0
    Outcome name id make s (err x, f) = (f ≡ start s) ⊎ Underway name id s f
    Outcome name id make s (ok u, f) = Done name id make s f

    module _ (name id : String) (make : Step t level_of e A) (s : Service t level_of e) where
      -- The moment after the reservation.
      abbrev reserved : Registrar → F
      reserved names = record {
        service = record s { names = names };
        journal = acquired (reserved_name name) ∷ [];
        deferred = reserved_name name ∷ [];
      }

      left_by_add :
          (a : A) (f : F) (items : Store t level_of e) (x : Error)
          → add t level_of e a f.service.items ≡ (items, some x)
          → f.service.items ≡ s.items
          → LabelsLeft s items.labels
      left_by_add a f items x q same =
          let (_, labels) =
            add-err_rest t level_of e a s.items items x
              (ap (λ (u : Store t level_of e). add t level_of e a u) (sym same) ∙ q) in
          elim labels [ inl l ↦ inl l | inr (y, r, l) ↦ inr (a, y, r, l) ]

      -- What follows the addition.
      add_item-Outcome :
          (a : A) (before : F) (q : Store t level_of e × Option Error) (f : F)
          → (make before).0 ≡ ok a
          → add t level_of e a f.service.items ≡ q
          → Underway name id s f
          → f.service.items ≡ s.items
          → Outcome name id make s
              (continue (λ _. record_event stored) (after_add t level_of e q f))
      unfolding Outcome after_add record_event
      add_item-Outcome a before (items, some x) f m q u same = inr (record {
        taken = u.taken;
        allowed = u.allowed;
        deferred = u.deferred;
        journal = u.journal;
        reserved = u.reserved;
        names = u.names;
        items = add-err t level_of e a f.service.items items x q ∙ u.items;
        index = (add-err_rest t level_of e a f.service.items items x q).0 ∙ u.index;
        labels = left_by_add a f items x q same;
      })
      add_item-Outcome a before (items, none) f m q u same =
          let (fresh, added) = add-ok t level_of e a f.service.items items q in
          record {
            taken = u.taken;
            allowed = u.allowed;
            journal = ap (λ j. stored ∷ j) u.journal;
            reserved = u.reserved;
            names = u.names;
            added = record {
              item = a;
              before = before;
              made = m;
              fresh = rw⁻¹ u.items fresh;
              items = λ k. rw⁻¹ u.items (added k);
            };
          }

      Grown-Underway :
          (names : Registrar) (f : F)
          → reserve name id s.names ≡ (names, none)
          → Grown IsOther undo (reserved names) f
          → Underway name id s f
      Grown-Underway names f q g = record {
        taken = g.taken;
        allowed = g.allowed;
        deferred = g.deferred;
        journal = g.journal;
        reserved = ap (λ (p : Registrar × Option Error). p.1) q;
        names =
            ap (λ (x : Service t level_of e). x.names) g.service
            ∙ sym (ap (λ (p : Registrar × Option Error). p.0) q);
        items = ap (λ (x : Service t level_of e). x.items.items) g.service;
        index = ap (λ (x : Service t level_of e). x.items.index) g.service;
        labels = inl (ap (λ (x : Service t level_of e). x.items.labels) g.service);
      }

      make-Outcome :
          (names : Registrar) (p : Result A × F)
          → reserve name id s.names ≡ (names, none)
          → make (reserved names) ≡ p
          → Grown IsOther undo (reserved names) p.1
          → Outcome name id make s
              (continue (λ a. add_item t level_of e a >> record_event stored) p)
      unfolding Outcome ◌>>◌ ◌>>=◌ add_item
      make-Outcome names (err x, f) q m g = inr (Grown-Underway names f q g)
      make-Outcome names (ok a, f) q m g =
          add_item-Outcome a (reserved names) _ f (ap (λ (p : Result A × F). p.0) m) refl
            (Grown-Underway names f q g) (ap (λ (x : Service t level_of e). x.items) g.service)

      unchanged :
          (names : Registrar) (x : Error)
          → IsBijection s.names
          → reserve name id s.names ≡ (names, some x)
          → names ≡ s.names
      unchanged names x b q = elim (reserve_effect name id name id s.names b) [
        | inl h ↦ absurd cc
        | inr (y, h) ↦ ap (λ (p : Registrar × Option Error). p.0) (sym q ∙ h)
      ]

      after_reserve-Outcome :
          (q : Registrar × Option Error)
          → Keeps IsOther undo make
          → IsBijection s.names
          → reserve name id s.names ≡ q
          → Outcome name id make s (
              continue
                (λ _.
                  hold_as (reserved_name name) (reserved_name name)
                  >> (make >>= λ a. add_item t level_of e a >> record_event stored))
                (after_reserve t level_of e q (start s)))
      unfolding Outcome after_reserve hold_as ◌>>◌ ◌>>=◌
      after_reserve-Outcome (names, some x) keeps b q =
          inl (ap (λ (r : Registrar). start (record s { names = r })) (unchanged names x b q))
      after_reserve-Outcome (names, none) keeps b q =
          make-Outcome names _ q refl (keeps.grown _ _ (Grown-refl IsOther undo _))

      pub under_name-Outcome :
          Keeps IsOther undo make
          → IsBijection s.names
          → Outcome name id make s (under_name t level_of e name id make (start s))
      unfolding under_name reserve_name ◌>>◌ ◌>>=◌
      under_name-Outcome keeps b = after_reserve-Outcome (reserve name id s.names) keeps b refl

      given_back :
          (f : F)
          → Underway name id s f
          → back f.deferred f.service
            ≡ record f.service { names = release_by_name name (reserve name id s.names).0 }
      unfolding give_back
      given_back f u =
          ap (λ rs. back rs f.service) u.deferred
          ∙ give_back_all-append (give_back t level_of e) (map undo u.taken) _ f.service
          ∙ ap (back (reserved_name name ∷ []))
              (give_back_others (map undo u.taken) f.service (map-IsOther u.taken u.allowed))
          ∙ ap (λ r. record f.service { names = release_by_name name r }) u.names

      pub Underway-Undone :
          (f : F)
          → IsBijection s.names
          → lookup id s.names.key_to_name ≡ none
          → undo (reserved_name name) ≡ reserved_name name
          → Underway name id s f
          → Undone undo s
              (back f.deferred f.service, map released (reverse f.deferred) ++ f.journal)
      Underway-Undone f b fresh h u = record {
        taken = u.taken ++ (reserved_name name ∷ []);
        journal = rw (
          u.deferred,
          u.journal,
          map-append undo u.taken (reserved_name name ∷ []),
          map-append acquired u.taken (reserved_name name ∷ []),
          h,
        );
        names = λ n.
            ap (λ (x : Service t level_of e). lookup n x.names.name_to_key) (given_back f u)
            ∙ (release-reserve name id n n s.names b fresh u.reserved).0;
        keys = λ k.
            ap (λ (x : Service t level_of e). lookup k x.names.key_to_name) (given_back f u)
            ∙ (release-reserve name id k k s.names b fresh u.reserved).1;
        items = ap (λ (x : Service t level_of e). x.items.items) (given_back f u) ∙ u.items;
        index = ap (λ (x : Service t level_of e). x.items.index) (given_back f u) ∙ u.index;
        labels =
            subst (LabelsLeft s)
              (ap (λ (x : Service t level_of e). x.items.labels) (sym (given_back f u))) u.labels;
      }

      -- The return of a handler that failed in this frame.
      pub finish-Undone :
          (B : Type 0) (x : Error) (f : F)
          → IsBijection s.names
          → lookup id s.names.key_to_name ≡ none
          → undo (reserved_name name) ≡ reserved_name name
          → Outcome name id make s (err x, f)
          → Undone undo s (finish (give_back t level_of e) {A = B} (err x, f)).1
      unfolding Outcome
      finish-Undone B x f b fresh h (inl q) =
          rw (q, finish-err (give_back t level_of e) {A = B} x (start s)) (start-Undone undo s)
      finish-Undone B x f b fresh h (inr u) =
          rw (finish-err (give_back t level_of e) {A = B} x f) (Underway-Undone f b fresh h u)
