-- ===== src/Metrics/Prometheus/Tags.antt =====
-- Tags are the labels, printed with a colon.
use go_concurrency_limits.Base.{
  ◌≡◌, refl, ap, ◌∙◌, false, Bool-cases, none, some, List, [], ◌∷◌, ◌++◌, map, inl, inr, arith, All,
  ◌==◌,
}
use go_concurrency_limits.Base.Bytes.{Bytes, bytes_eq}
use go_concurrency_limits.Metrics.Table.{find}
use go_concurrency_limits.Metrics.Prometheus.{split, assign, parse_tags, parse_tags_from, colon}

abbrev Labels : Type 0
Labels = List (Bytes × Bytes)

-- "key:value"
abbrev pub print : Bytes × Bytes → Bytes
print (k, v) = k ++ (colon ∷ v)

abbrev pub HasNoColon : Bytes → Type 0
HasNoColon k = All (λ b. b == colon ≡ false) k

-- No two labels have the same key.
abbrev pub Distinct : List (Bytes × Bytes) → Type 0
Distinct [] = Unit
Distinct ((k, v) ∷ labels) = All (λ e. bytes_eq e.0 k ≡ false) labels × Distinct labels

split-print : (k v : Bytes) → HasNoColon k → split (print (k, v)) ≡ some (k, v)
split-print [] v h = refl
split-print (b ∷ k) v (h, t) = rw (h, split-print k v t) refl

assign-new :
    (k v : Bytes) (labels : Labels)
    → find k labels ≡ none
    → assign k v labels ≡ labels ++ ((k, v) ∷ [])
assign-new k v [] h = refl
assign-new k v ((k', v') ∷ labels) h = elim (Bool-cases (bytes_eq k k')) [
  | inl e ↦ absurd (ground arith)
  | inr e ↦ rw (e, assign-new k v labels (ground arith)) refl
]

find-append :
    (id k v : Bytes) (labels : Labels)
    → find id labels ≡ none
    → bytes_eq id k ≡ false
    → find id (labels ++ ((k, v) ∷ [])) ≡ none
find-append id k v [] h ne = rw ne refl
find-append id k v ((k', v') ∷ labels) h ne = elim (Bool-cases (bytes_eq id k')) [
  | inl e ↦ absurd (ground arith)
  | inr e ↦ rw e (find-append id k v labels (ground arith) ne)
]

-- None of the keys is among the labels.
abbrev Fresh : Labels → Labels → Type 0
Fresh labels more = All (λ e. find e.0 labels ≡ none) more

append-Fresh :
    (labels more : Labels) (k v : Bytes)
    → Fresh labels more
    → All (λ e. bytes_eq e.0 k ≡ false) more
    → Fresh (labels ++ ((k, v) ∷ [])) more
append-Fresh labels [] k v h ne = tt
append-Fresh labels (e ∷ more) k v h ne =
    (find-append e.0 k v labels h.0 ne.0, append-Fresh labels more k v h.1 ne.1)

empty-Fresh : (more : Labels) → Fresh [] more
empty-Fresh [] = tt
empty-Fresh (e ∷ more) = (refl, empty-Fresh more)

append_append :
    (xs : Labels) (y : Bytes × Bytes) (ys : Labels) → (xs ++ (y ∷ [])) ++ ys ≡ xs ++ (y ∷ ys)
append_append [] y ys = refl
append_append (x ∷ xs) y ys = ap (λ zs. x ∷ zs) (append_append xs y ys)

append_empty : (xs : Labels) → xs ≡ xs ++ []
append_empty [] = refl
append_empty (x ∷ xs) = ap (λ zs. x ∷ zs) (append_empty xs)

parse-print :
    (labels more : Labels)
    → Fresh labels more
    → All (λ e. HasNoColon e.0) more
    → Distinct more
    → parse_tags_from labels (map print more) ≡ labels ++ more
unfolding parse_tags_from
parse-print labels [] f c d = append_empty labels
parse-print labels ((k, v) ∷ more) (f, fs) (c, cs) (d, ds) =
    rw (split-print k v c, parse_tags_from, assign-new k v labels f)
      (parse-print (labels ++ ((k, v) ∷ [])) more (append-Fresh labels more k v fs d) cs ds
        ∙ append_append labels (k, v) more)

-- Labels whose keys are distinct and have no colon come back from their tags, in their order.
pub parse_tags-print :
    (labels : List (Bytes × Bytes))
    → All (λ e. HasNoColon e.0) labels
    → Distinct labels
    → parse_tags (map print labels) ≡ labels
unfolding parse_tags
parse_tags-print labels c d = parse-print [] labels (empty-Fresh labels) c d
