-- ===== src/Documents/Marked.antt =====
-- gamesync_store.go: a set of names to delete, and the session that owns them.
use pokemon_violet.Base.{
  ◌≡◌, refl, sym, ap, ◌∙◌, subst, ◌≢◌, ◌⊎◌, inl, inr, Bool, true, false, none, some, [], ◌∷◌, arith,
  if◌then◌else◌, Bool-cases, ◌==◌, ==_iff, ==_ne, nat_eq, bytes_eq,
}
use pokemon_violet.Base.Dict.{
  Dict, lookup, delete, insert, lookup-insert, lookup-delete, lookup-insert_self, lookup-insert_ne,
  UniqueKeys,
}
use pokemon_violet.Base.Int.{int_eq}
use pokemon_violet.Base.Text.{Bytes}
use pokemon_violet.Documents.Writable.{is_some}
use pokemon_violet.Documents.Expire.{delete_all, owned_names}

-- The name is among those to delete.
abbrev pub Listed : Bytes → Dict Bytes Bool → Type 0
Listed name names = is_some (lookup name names) ≡ true

insert-Listed_self : (name : Bytes) (names : Dict Bytes Bool) → Listed name (insert name true names)
insert-Listed_self name names = rw (lookup-insert_self name true names) refl

insert-Listed :
    (name other : Bytes) (names : Dict Bytes Bool)
    → Listed name names
    → Listed name (insert other true names)
insert-Listed name other names listed =
    rw (lookup-insert other name true names) (ground (arith, listed))

insert-unlisted :
    (name other : Bytes) (names : Dict Bytes Bool)
    → other ≢ name
    → lookup name names ≡ none
    → lookup name (insert other true names) ≡ none
insert-unlisted name other names ne free = lookup-insert_ne other name true names ne ∙ free

delete_all-free {ℓ} :
    {A : Type ℓ} (name : Bytes) (names : Dict Bytes Bool) (m : Dict Bytes A)
    → lookup name m ≡ none
    → lookup name (delete_all names m) ≡ none
unfolding delete_all
delete_all-free name [] m free = free
delete_all-free name ((k, _) ∷ names) m free =
    delete_all-free name names (delete k m) (rw (lookup-delete k name m) (ground (arith, free)))

pub delete_all-Listed {ℓ} :
    {A : Type ℓ} (name : Bytes) (names : Dict Bytes Bool) (m : Dict Bytes A)
    → Listed name names
    → lookup name (delete_all names m) ≡ none
unfolding delete_all lookup
delete_all-Listed name [] m listed = cc
delete_all-Listed name ((k, v) ∷ names) m listed = elim (Bool-cases (k == name)) [
  | inl same ↦ delete_all-free name names (delete k m) (rw (lookup-delete k name m) (rw same refl))
  | inr other ↦ delete_all-Listed name names (delete k m) (ground (arith, other, listed))
]

pub delete_all-other {ℓ} :
    {A : Type ℓ} (name : Bytes) (names : Dict Bytes Bool) (m : Dict Bytes A)
    → lookup name names ≡ none
    → lookup name (delete_all names m) ≡ lookup name m
unfolding delete_all lookup
delete_all-other name [] m free = refl
delete_all-other name ((k, v) ∷ names) m free = elim (Bool-cases (k == name)) [
  | inl same ↦ ground (arith, same, free)
  | inr other ↦
      delete_all-other name names (delete k m) (ground (arith, other, free))
      ∙ rw (lookup-delete k name m) (rw other refl)
]

abbrev mark : Bool → Bytes → Dict Bytes Bool → Dict Bytes Bool
mark b name names = if b then insert name true names else names

pub mark-Listed :
    (b : Bool) (name other : Bytes) (names : Dict Bytes Bool)
    → Listed name names
    → Listed name (mark b other names)
mark-Listed true name other names listed = insert-Listed name other names listed
mark-Listed false name other names listed = listed

pub mark-unlisted :
    (b : Bool) (name other : Bytes) (names : Dict Bytes Bool)
    → (b ≡ false) ⊎ (other ≢ name)
    → lookup name names ≡ none
    → lookup name (mark b other names) ≡ none
mark-unlisted true name other names (inl e) free = cc
mark-unlisted true name other names (inr ne) free = insert-unlisted name other names ne free
mark-unlisted false name other names apart free = free

pub owned_names-Listed :
    (id name : Bytes) (owners : Dict Bytes Bytes) (names : Dict Bytes Bool)
    → Listed name names ⊎ (lookup name owners ≡ some id)
    → Listed name (owned_names id owners names)
unfolding owned_names lookup
owned_names-Listed id name [] names (inl listed) = listed
owned_names-Listed id name [] names (inr found) = cc
owned_names-Listed id name ((k, o) ∷ owners) names (inl listed) =
    owned_names-Listed id name owners (mark (o == id) k names)
      (inl (mark-Listed (o == id) name k names listed))
owned_names-Listed id name ((k, o) ∷ owners) names (inr found) = elim (Bool-cases (k == name)) [
  | inl same ↦
      let mine : some o ≡ some id = ground (arith, same, found) in
      let is_id : (o == id) ≡ true = (==_iff o id).1 (cc) in
      let at : Listed name (mark (o == id) k names) = rw is_id (
        subst (λ x. Listed name (insert x true names)) (sym ((==_iff k name).0 same))
          (insert-Listed_self name names)) in
      owned_names-Listed id name owners (mark (o == id) k names) (inl at)
  | inr other ↦
      owned_names-Listed id name owners (mark (o == id) k names)
        (inr (ground (arith, other, found)))
]

pub owned_names-unlisted :
    (id name : Bytes) (owners : Dict Bytes Bytes) (names : Dict Bytes Bool)
    → UniqueKeys owners
    → lookup name owners ≢ some id
    → lookup name names ≡ none
    → lookup name (owned_names id owners names) ≡ none
unfolding owned_names lookup
owned_names-unlisted id name [] names unique foreign free = free
owned_names-unlisted id name ((k, o) ∷ owners) names unique foreign free =
    elim (Bool-cases (k == name)) [
      | inl same ↦
          let its : k ≡ name = (==_iff k name).0 same in
          let later : lookup name owners ≡ none =
            subst (λ x. lookup x owners ≡ none) its unique.0 in
          let not_id : (o == id) ≡ false =
            ==_ne o id (λ e. foreign (rw same (ap (λ x. some x) e))) in
          owned_names-unlisted id name owners (mark (o == id) k names) unique.1
            (λ found. absurd (ground (arith, later, found)))
            (mark-unlisted (o == id) name k names (inl not_id) free)
      | inr other ↦
          let ne : k ≢ name = λ e. absurd (ground (arith, other, (==_iff k name).1 e)) in
          owned_names-unlisted id name owners (mark (o == id) k names) unique.1
            (λ found. foreign (rw other found)) (mark-unlisted (o == id) name k names (inr ne) free)
    ]
