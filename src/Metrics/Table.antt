-- ===== src/Metrics/Table.antt =====
-- The maps of the metric registries: from an ID, each kept at its first registration.
use go_concurrency_limits.Base.{
  ◌≡◌, refl, subst, Option-cases, Bool-cases, inl, inr, false, Option, none, some, List, [], ◌∷◌,
  if◌then◌else◌,
}
use go_concurrency_limits.Base.Bytes.{Bytes, bytes_eq, bytes_eq_refl, bytes_eq→eq}

abbrev pub find : {A : Type 0} → Bytes → List (Bytes × A) → Option A
find id [] = none
find id ((k, v) ∷ rest) = if bytes_eq id k then some v else find id rest

-- if v, ok := m[id]; ok { return v }; m[id] = new; return m[id]
abbrev pub find_or_add : {A : Type 0} → Bytes → A → List (Bytes × A) → List (Bytes × A) × A
find_or_add id new table = elim (find id table) [
  | some v ↦ (table, v)
  | none ↦ ((id, new) ∷ table, new)
]

-- The first of two that is there.
abbrev pub either : {A : Type 0} → Option A → Option A → Option A
either none w = w
either (some v) w = some v

pub either-none : {A : Type 0} (o : Option A) → o ≡ either o none
either-none none = refl
either-none (some v) = refl

module _ {A : Type 0} where
  find-find_or_add_at :
      (id : Bytes) (new : A) (table : List (Bytes × A))
      → find id (find_or_add id new table).0 ≡ either (find id table) (some new)
  find-find_or_add_at id new table = elim (Option-cases (find id table)) [
    | inl e ↦ rw (e, find_or_add, bytes_eq_refl id) refl
    | inr (v, e) ↦ rw (e, find_or_add) e
  ]

  find-find_or_add_elsewhere :
      (id key : Bytes) (new : A) (table : List (Bytes × A))
      → bytes_eq id key ≡ false
      → find id (find_or_add key new table).0 ≡ either (find id table) none
  find-find_or_add_elsewhere id key new table ne = elim (Option-cases (find key table)) [
    | inl e ↦ rw (e, find_or_add, ne) (either-none (find id table))
    | inr (v, e) ↦ rw (e, find_or_add) (either-none (find id table))
  ]

  -- After an addition the table has what it had, and the new value at the key if it had none there.
  pub find-find_or_add :
      (id key : Bytes) (new : Bytes → A) (table : List (Bytes × A))
      → find id (find_or_add key (new key) table).0
        ≡ either (find id table) (if bytes_eq id key then some (new id) else none)
  find-find_or_add id key new table = elim (Bool-cases (bytes_eq id key)) [
    | inl e ↦ rw e (
        subst
          (λ k. find id (find_or_add k (new k) table).0 ≡ either (find id table) (some (new id)))
          (bytes_eq→eq id key e) (find-find_or_add_at id (new id) table))
    | inr e ↦ rw e (find-find_or_add_elsewhere id key (new key) table e)
  ]

  pub find_or_add-find :
      (key : Bytes) (v : A) (table : List (Bytes × A))
      → some (find_or_add key v table).1 ≡ either (find key table) (some v)
  find_or_add-find key v table = elim (Option-cases (find key table)) [
    | inl e ↦ rw (e, find_or_add) refl
    | inr (w, e) ↦ rw (e, find_or_add) refl
  ]
