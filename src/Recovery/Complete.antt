-- ===== src/Recovery/Complete.antt =====
-- What a recovery that ends without error has recovered.
use mathlib.Core.List.{Memᴰ}
use cri.Base.{
  String, ◌≡◌, refl, sym, ap, subst, ◌∙◌, inl, inr, Option, none, some, List, [], ◌∷◌, arith,
  eq_iff,
}
use cri.Base.GoMap.{lookup, str_eq_refl}
use cri.Base.Errors.{Error, Result, ok, err}
use cri.Creation.{Service}
use cri.IdStore.{Stored, Store, add}
use cri.IdStore.Index.{TruncIndex}
use cri.IdStore.Views.{add-ok}
use cri.Registrar.{Registrar, reserve}
use cri.Registrar.Bijection.{IsBijection, reserve-IsBijection}
use cri.Registrar.Reservation.{reserve_succeeds, reserve_effect, IsReserved}
use cri.Recovery.{recover_items, after_add, after_reserve}

reserved :
    (name key n k : String) (r : Registrar)
    → IsBijection r
    → (reserve name key r).1 ≡ none
    → IsReserved name key n k r (reserve name key r).0
reserved name key n k r b h = elim (reserve_effect name key n k r b) [
  | inl (h', q) ↦ q
  | inr (x, q) ↦ absurd (cc)
]

-- After a reservation that succeeded the pair is held, and so is what was held before.
reserved_held :
    (name key : String) (r : Registrar)
    → IsBijection r
    → (reserve name key r).1 ≡ none
    → (lookup name (reserve name key r).0.name_to_key ≡ some key)
      × ((n k : String)
          → lookup n r.name_to_key ≡ some k
          → lookup n (reserve name key r).0.name_to_key ≡ some k)
reserved_held name key r b h =
    let free = ((reserve_succeeds name key r b).0 h).2 in
    (
      (reserved name key name key r b h).0 ∙ rw (str_eq_refl name) refl,
      λ n k q.
          let now = (reserved name key n key r b h).0 in grind (arith, eq_iff name n, free, now, q),
    )

module _ (t : TruncIndex) (level_of : String → Result String) {A : Type 0} (e : Stored A)
    (name_of : A → String) where
  -- The item is in the store under its id, which has its name.
  abbrev pub Holds : Service t level_of e → A → Type 0
  Holds s a =
      (lookup (e.id a) s.items.items ≡ some a)
      × (lookup (name_of a) s.names.name_to_key ≡ some (e.id a))

  -- From one service to a later one nothing is lost.
  pub record Preserved (s s' : Service t level_of e) : Type 0 where
    pub bijection : IsBijection s'.names
    pub held : (a : A) → Holds s a → Holds s' a

  Preserved-trans :
      (s s' s'' : Service t level_of e) → Preserved s s' → Preserved s' s'' → Preserved s s''
  Preserved-trans s s' s'' k l = record {
    bijection = l.bijection;
    held = λ a h. l.held a (k.held a h);
  }

  -- One item was added and its name reserved.
  item_kept :
      (a : A) (items : Store t level_of e) (s : Service t level_of e)
      → IsBijection s.names
      → add t level_of e a s.items ≡ (items, none)
      → (reserve (name_of a) (e.id a) s.names).1 ≡ none
      → let s' : Service t level_of e = record {
        names = (reserve (name_of a) (e.id a) s.names).0;
        items = items;
      } in
        Preserved s s' × Holds s' a
  item_kept a items s b q h =
      let (fresh, added) = add-ok t level_of e a s.items items q in
      let (now, before) = reserved_held (name_of a) (e.id a) s.names b h in
      (
        record {
          bijection = reserve-IsBijection (name_of a) (e.id a) s.names b;
          held = λ a' (here, there).
              let now' = added (e.id a') in
              (grind (arith, eq_iff (e.id a) (e.id a'), fresh, now', here), before _ _ there);
        },
        (added (e.id a) ∙ rw (str_eq_refl (e.id a)) refl, now),
      )

  -- What a recovery from `s` reached.
  pub record Recovered (loaded : List (Result A)) (s s' : Service t level_of e) : Type 0 where
    pub kept : Preserved s s'
    pub all : (a : A) → Memᴰ (ok a) loaded → Holds s' a

  abbrev Goal : List (Result A) → Service t level_of e → Type 0
  Goal rs s =
      IsBijection s.names
      → (recover_items t level_of e name_of rs s).1 ≡ none
      → Recovered rs s (recover_items t level_of e name_of rs s).0

  skip :
      (x : Error) (rs : List (Result A)) (s s' : Service t level_of e)
      → Recovered rs s s'
      → Recovered (err x ∷ rs) s s'
  skip x rs s s' r = record {
    kept = r.kept;
    all = λ a m. elim m [ Memᴰ.head q ↦ absurd cc | Memᴰ.tail m' ↦ r.all a m' ];
  }

  put :
      (a : A) (rs : List (Result A)) (s s₁ s' : Service t level_of e)
      → Preserved s s₁ × Holds s₁ a
      → Recovered rs s₁ s'
      → Recovered (ok a ∷ rs) s s'
  put a rs s s₁ s' (k, h) r = record {
    kept = Preserved-trans s s₁ s' k r.kept;
    all = λ a' m. elim m [
      | Memᴰ.head q ↦
          r.kept.held a'
            (subst (Holds s₁) (sym (ap (λ (x : Result A). elim x [ ok y ↦ y | err z ↦ a ]) q)) h)
      | Memᴰ.tail m' ↦ r.all a' m'
    ];
  }

  reserve_step :
      (a : A) (rs : List (Result A)) (s : Service t level_of e) (items : Store t level_of e)
      (p : Registrar × Option Error)
      → reserve (name_of a) (e.id a) s.names ≡ p
      → add t level_of e a s.items ≡ (items, none)
      → ((s' : Service t level_of e) → Goal rs s')
      → IsBijection s.names
      → (after_reserve t level_of e name_of p
          (recover_items t level_of e name_of rs)
          (record s { items = items })).1
        ≡ none
      → Recovered
          (ok a ∷ rs)
          s
          (after_reserve t level_of e name_of p
            (recover_items t level_of e name_of rs)
            (record s { items = items })).0
  unfolding after_reserve
  reserve_step a rs s items (names, some x) q i goal b h = absurd cc
  reserve_step a rs s items (names, none) q i goal b h =
      let same : (reserve (name_of a) (e.id a) s.names).0 ≡ names =
        ap (λ (p : Registrar × Option Error). p.0) q in
      let step = item_kept a items s b i (ap (λ (p : Registrar × Option Error). p.1) q) in
      let s₁ : Service t level_of e = record { names = names; items = items } in
      let step' : Preserved s s₁ × Holds s₁ a =
        subst
          (λ n.
            let s₂ : Service t level_of e = record { names = n; items = items } in
            Preserved s s₂ × Holds s₂ a)
          same step in
      put a rs s s₁ _ step' (goal s₁ step'.0.bijection h)

  add_step :
      (a : A) (rs : List (Result A)) (s : Service t level_of e)
      (r : Store t level_of e × Option Error)
      → add t level_of e a s.items ≡ r
      → ((s' : Service t level_of e) → Goal rs s')
      → IsBijection s.names
      → (after_add t level_of e name_of a r (recover_items t level_of e name_of rs) s).1 ≡ none
      → Recovered
          (ok a ∷ rs)
          s
          (after_add t level_of e name_of a r (recover_items t level_of e name_of rs) s).0
  unfolding after_add
  add_step a rs s (items, some x) q goal b h = absurd cc
  add_step a rs s (items, none) q goal b h = reserve_step a rs s items _ refl q goal b h

  -- A loop of `recover` that returns no error, on a service whose names and ids are inverse, leaves
  -- every item that could be loaded in the store under its id, with its name reserved for that id,
  -- loses nothing that the service held, and keeps names and ids inverse.
  pub recover_items_complete :
      (loaded : List (Result A)) (s : Service t level_of e)
      → IsBijection s.names
      → (recover_items t level_of e name_of loaded s).1 ≡ none
      → Recovered loaded s (recover_items t level_of e name_of loaded s).0
  unfolding recover_items
  recover_items_complete [] s b h = record {
    kept = record { bijection = b; held = λ a x. x };
    all = λ a m. elim m [ ];
  }
  recover_items_complete (err x ∷ rs) s b h = skip x rs s _ (recover_items_complete rs s b h)
  recover_items_complete (ok a ∷ rs) s b h =
      add_step a rs s _ refl (λ s' b' h'. recover_items_complete rs s' b' h') b h
