-- ===== src/Container/Status/Checkpointing.antt =====
-- Updates of a container's status are transactions, and a checkpoint can be read back.
use cri.Base.{◌≡◌, refl, ap, sym, subst, ◌⊎◌, inl, inr, Option, none, some, arith}
use cri.Base.Errors.{Error, Result, ok, err, ◌>>=◌, Result-cases}
use cri.Container.Status.{
  Status, Json, restored, encode, decode, Storage, update_sync, update, checkpoint, commit,
  load_status,
}

module _ (j : Json) where
  decode-encode :
      (s : Status) (b : j.Bytes) → encode j s ≡ ok b → decode j b ≡ ok (restored s.fields)
  unfolding encode decode
  decode-encode s b e = rw (j.unmarshal-marshal _ b e)

  -- A checkpoint that is written is the new file, and reads back without its transient flags.
  pub record Written (s : Status) (st : Storage j) : Type 0 where
    pub status : st.status ≡ s
    pub loads : load_status j st.file ≡ ok (restored s.fields)

  checkpoint-Written :
      (write : Option Error) (s : Status) (st st' : Storage j)
      → checkpoint j write s st ≡ ok st'
      → Written s st'
  unfolding checkpoint load_status
  checkpoint-Written none s st st' = elim (Result-cases (encode j s)) [
    | inl (b, e) ↦
        rw e λ h. record { status = ground arith; loads = ground (arith, decode-encode s b e) }
    | inr (x, e) ↦ rw e λ h. cc
  ]
  checkpoint-Written (some x) s st st' = elim (Result-cases (encode j s)) [
    | inl (b, e) ↦ rw e λ h. cc
    | inr (y, e) ↦ rw e λ h. cc
  ]

  commit-cases :
      (r : Result (Storage j)) (st : Storage j)
      → ((st' : Storage j) × (r ≡ ok st') × (commit j r st ≡ (st', none)))
        ⊎ ((e : Error) × (r ≡ err e) × (commit j r st ≡ (st, some e)))
  unfolding commit
  commit-cases (ok st') st = inl (st', refl, refl)
  commit-cases (err e) st = inr (e, refl, refl)

  update_sync_ok :
      (write : Option Error) (u : Result Status) (st st' : Storage j)
      → (u >>= λ s. checkpoint j write s st) ≡ ok st'
      → (s : Status) × (u ≡ ok s) × Written s st'
  update_sync_ok write (ok s) st st' e = (s, refl, checkpoint-Written write s st st' e)
  update_sync_ok write (err x) st st' e = cc

  -- `UpdateSync` either fails and leaves the status and the file as they were, or stores the status
  -- that its function returned, in memory and in a file that loads as that status with the fields
  -- `Starting`, `Removing` and `Unknown` cleared.
  pub update_sync_atomic :
      (write : Option Error) (u : Status → Result Status) (st : Storage j)
      → ((e : Error) × (update_sync j write u st ≡ (st, some e)))
        ⊎ ((s : Status) × (u st.status ≡ ok s)
            × ((update_sync j write u st).1 ≡ none)
            × Written s (update_sync j write u st).0)
  unfolding update_sync
  update_sync_atomic write u st =
      elim (commit-cases (u st.status >>= λ s. checkpoint j write s st) st) [
        | inl (st', e, c) ↦
            let found = update_sync_ok write (u st.status) st st' e in
            inr (
              found.0,
              found.1,
              ap (λ (p : Storage j × Option Error). p.1) c,
              subst (λ (p : Storage j × Option Error). Written found.0 p.0) (sym c) found.2,
            )
        | inr (x, e, c) ↦ inl (x, c)
      ]

  -- Where the encoding and the write succeed, `UpdateSync` succeeds with what its function returns.
  pub update_sync_succeeds :
      (u : Status → Result Status) (st : Storage j) (s : Status) (b : j.Bytes)
      → u st.status ≡ ok s
      → encode j s ≡ ok b
      → update_sync j none u st ≡ (record { status = s; file = some b }, none)
  unfolding update_sync
  update_sync_succeeds u st s b q e = rw (q, e)

  update_of :
      (u : Status → Result Status) (st : Storage j) (r : Result Status)
      → u st.status ≡ r
      → ((e : Error) × (r ≡ err e) × (update j u st ≡ (st, some e)))
        ⊎ ((s : Status) × (r ≡ ok s) × (update j u st ≡ (record st { status = s }, none)))
  unfolding update
  update_of u st (ok s) q = inr (s, refl, rw q)
  update_of u st (err e) q = inl (e, refl, rw q)

  -- `Update` fails with its function and changes nothing, or stores the status that it returned.
  pub update_cases :
      (u : Status → Result Status) (st : Storage j)
      → ((e : Error) × (u st.status ≡ err e) × (update j u st ≡ (st, some e)))
        ⊎ ((s : Status) × (u st.status ≡ ok s) × (update j u st ≡ (record st { status = s }, none)))
  update_cases u st = update_of u st (u st.status) refl
