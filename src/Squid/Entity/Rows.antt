-- ===== src/Squid/Entity/Rows.antt =====
-- The rows that the upsert of packages/indexer/squid-common/src/entity.ts leaves.
use predictor_common.Prelude.Text.{Text, text_eq, text_eq_iff}
use predictor_common.Prelude.{
  ◌≡◌, refl, sym, ap, ◌∙◌, Bool-cases, Option-cases, ◌⊎◌, Option, none, some, inl, inr,
  if◌then◌else◌,
}
use predictor_common.Squid.Entity.{
  EntityStore, Settled, fulfilled, rejected, taken, saved, get_or_create_and_update,
}

module _ {ℓ κ} {S : Type ℓ} {T : Type κ} (api : EntityStore S T) where
  -- The row with this id is the entity, and every other is what it was.
  abbrev pub Replaces : S → Text → T → S → Type κ
  Replaces s id entity s' =
      (other : Text)
      → api.find s' other ≡ (if text_eq id other then some entity else api.find s other)

  -- What an upsert must give: the row with the id as `mutate` makes it, or the fresh one if none has it.
  abbrev pub IsUpsert : S → Text → T → (T → T) → T → Type κ
  IsUpsert s id fresh mutate entity =
      ((api.find s id ≡ none) × (entity ≡ mutate fresh))
      ⊎ ((row : T) × (api.find s id ≡ some row) × (entity ≡ mutate row))

  taken-IsUpsert :
      (s : S) (id : Text) (fresh entity : T) (mutate : T → T)
      → entity ≡ mutate (taken api (api.find s id) fresh)
      → IsUpsert s id fresh mutate entity
  taken-IsUpsert s id fresh entity mutate is = elim (Option-cases (api.find s id)) [
    | inl e ↦ inl (e, is ∙ rw e refl)
    | inr (row, e) ↦ inr (row, e, is ∙ rw e refl)
  ]

  saved-eq :
      (s : S) (e : T) (o : Settled S) {s' : S} {entity : T}
      → saved api e o ≡ fulfilled (s', entity)
      → (o ≡ fulfilled s') × (e ≡ entity)
  saved-eq s e (fulfilled s'') h = (cc h, cc h)
  saved-eq s e (rejected message) h = absurd (cc h)

  taken-id :
      (s : S) (id : Text) (fresh : T)
      → api.id_of fresh ≡ id
      → (o : Option T) → api.find s id ≡ o
      → api.id_of (taken api o fresh) ≡ id
  taken-id s id fresh h none e = h
  taken-id s id fresh h (some entity) e = api.find-id s id entity e

  upsert_row :
      (s s' : S) (id : Text) (fresh entity : T) (mutate : T → T)
      → api.id_of fresh ≡ id
      → ((e : T) → api.id_of (mutate e) ≡ api.id_of e)
      → get_or_create_and_update api s (fulfilled (api.find s id)) fresh mutate
        ≡ fulfilled (s', entity)
      → (entity ≡ mutate (taken api (api.find s id) fresh)) × Replaces s id entity s'
  unfolding get_or_create_and_update
  upsert_row s s' id fresh entity mutate named keeps h =
      let row : T = mutate (taken api (api.find s id) fresh) in
      let (wrote, is) = saved-eq s row (api.save s row) h in
      let same : api.id_of row ≡ id =
        keeps (taken api (api.find s id) fresh) ∙ taken-id s id fresh named (api.find s id) refl in
      (sym is, λ other. rw (api.find-save s row s' other wrote, same, is) refl)

-- Where `make` gives the id that was loaded, `mutate` keeps ids and twice is as once, and neither of two
-- upserts fails: the first leaves the row with the id, or the fresh one where there was none, as
-- `mutate` makes it, and changes no other row; the second gives the same entity and leaves every row
-- as the first did.
pub get_or_create_and_update-again {ℓ κ} :
    {S : Type ℓ} {T : Type κ} (api : EntityStore S T) (s s' s'' : S) (id : Text)
    (fresh first second : T) (mutate : T → T)
    → api.id_of fresh ≡ id
    → ((e : T) → api.id_of (mutate e) ≡ api.id_of e)
    → ((e : T) → mutate (mutate e) ≡ mutate e)
    → get_or_create_and_update api s (fulfilled (api.find s id)) fresh mutate
      ≡ fulfilled (s', first)
    → get_or_create_and_update api s' (fulfilled (api.find s' id)) fresh mutate
      ≡ fulfilled (s'', second)
    → IsUpsert api s id fresh mutate first
      × Replaces api s id first s'
      × (second ≡ first)
      × ((other : Text) → api.find s'' other ≡ api.find s' other)
get_or_create_and_update-again api s s' s'' id fresh first second mutate named keeps once h k =
    let (is, row) = upsert_row api s s' id fresh first mutate named keeps h in
    let (is', row') = upsert_row api s' s'' id fresh second mutate named keeps k in
    let stands : api.find s' id ≡ some first = row id ∙ rw ((text_eq_iff id id).1 refl) refl in
    let again : second ≡ first =
      is' ∙ rw stands (ap mutate is ∙ once (taken api (api.find s id) fresh) ∙ sym is) in
    (
      taken-IsUpsert api s id fresh first mutate is,
      row,
      again,
      λ other. elim (Bool-cases (text_eq id other)) [
        | inl same ↦ row' other ∙ rw same (ap (λ e. some e) again ∙ sym (row other ∙ rw same refl))
        | inr differs ↦ row' other ∙ rw differs refl
      ],
    )
