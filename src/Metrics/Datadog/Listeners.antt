-- ===== src/Metrics/Datadog/Listeners.antt =====
-- Which listener a registration returns.
use go_concurrency_limits.Base.{
  ℕ, ◌≡◌, refl, ap, ◌∙◌, Bool, true, false, Option, some, none, List, [], ◌∷◌, ◌++◌, arith,
  if◌then◌else◌,
}
use go_concurrency_limits.Base.Int.{ℤ}
use go_concurrency_limits.Base.Bytes.{Bytes, bytes_eq, trim_dot}
use go_concurrency_limits.Metrics.Table.{
  find, find_or_add, either, find-find_or_add, find_or_add-find, either-none,
}
use go_concurrency_limits.Middleware.Options.{or_else}
use mathlib.Core.Option.{some-injective}
use go_concurrency_limits.Metrics.Datadog.{
  MetricRegistry, MetricSampleListener, new_metric_registry, register_distribution, register_timing,
  register_count,
}

pub data Kind : Type 0 where
  distribution timing count : Kind

abbrev pub type_of : Kind → ℕ
type_of distribution = 0
type_of timing = 1
type_of count = 2

-- The kind of the first registration whose ID, less a dot in front, is the given one.
abbrev pub first_kind : Bytes → List (Kind × Bytes) → Option Kind
first_kind id [] = none
first_kind id ((k, ID) ∷ calls) = if bytes_eq id (trim_dot ID) then some k else first_kind id calls

abbrev pub listener : Bytes → Kind → Bytes → MetricSampleListener
listener prefix k id = record { id = prefix ++ id; metric_type = type_of k }

abbrev listener_of : Bytes → Bytes → Option Kind → Option MetricSampleListener
listener_of prefix id none = none
listener_of prefix id (some k) = some (listener prefix k id)

merge :
    (prefix id : Bytes) (b : Bool) (k : Kind) (o : Option MetricSampleListener) (rest : Option Kind)
    → either
        (either o (if b then some (listener prefix k id) else none))
        (listener_of prefix id rest)
      ≡ either o (listener_of prefix id (if b then some k else rest))
merge prefix id true k none rest = refl
merge prefix id true k (some l) rest = refl
merge prefix id false k none rest = refl
merge prefix id false k (some l) rest = refl

module _ {S : Type 0} where
  -- A registration of the ID.
  unfoldable pub register :
      Kind → Bytes → MetricRegistry S → MetricRegistry S × MetricSampleListener
  unfolding register_distribution register_timing register_count
  register distribution ID r = register_distribution ID r
  register timing ID r = register_timing ID r
  register count ID r = register_count ID r

  unfoldable pub register_all : List (Kind × Bytes) → MetricRegistry S → MetricRegistry S
  register_all [] r = r
  register_all ((k, ID) ∷ calls) r = register_all calls (register k ID r).0

  record IsRegistered (k : Kind) (ID : Bytes) (r : MetricRegistry S)
      (t : MetricRegistry S × MetricSampleListener) : Type 0 where
    prefix : t.0.prefix ≡ r.prefix
    table :
        t.0.registered_listeners
        ≡ (find_or_add (trim_dot ID) (listener r.prefix k (trim_dot ID)) r.registered_listeners).0
    result :
        t.1
        ≡ (find_or_add (trim_dot ID) (listener r.prefix k (trim_dot ID)) r.registered_listeners).1

  register-IsRegistered :
      (k : Kind) (ID : Bytes) (r : MetricRegistry S) → IsRegistered k ID r (register k ID r)
  unfolding register register_distribution register_timing register_count
  register-IsRegistered distribution ID r = record { prefix = refl; table = refl; result = refl }
  register-IsRegistered timing ID r = record { prefix = refl; table = refl; result = refl }
  register-IsRegistered count ID r = record { prefix = refl; table = refl; result = refl }

  find-register :
      (k : Kind) (ID id : Bytes) (r : MetricRegistry S)
      → find id (register k ID r).0.registered_listeners
        ≡ either
            (find id r.registered_listeners)
            (if bytes_eq id (trim_dot ID) then some (listener r.prefix k id) else none)
  find-register k ID id r =
      ap (find id) (register-IsRegistered k ID r).table
      ∙ find-find_or_add id (trim_dot ID) (listener r.prefix k) r.registered_listeners

  find-register_all :
      (calls : List (Kind × Bytes)) (id : Bytes) (r : MetricRegistry S)
      → (find id (register_all calls r).registered_listeners
          ≡ either (find id r.registered_listeners) (listener_of r.prefix id (first_kind id calls)))
        × ((register_all calls r).prefix ≡ r.prefix)
  unfolding register_all
  find-register_all [] id r = (either-none (find id r.registered_listeners), refl)
  find-register_all ((k, ID) ∷ calls) id r =
      let (f, p) = find-register_all calls id (register k ID r).0 in
      let q = (register-IsRegistered k ID r).prefix in
      (
        f
            ∙ ap
                (λ z.
                  either (find id (register k ID r).0.registered_listeners)
                    (listener_of z id (first_kind id calls)))
                q
            ∙ ap (λ z. either z (listener_of r.prefix id (first_kind id calls)))
                (find-register k ID id r)
            ∙ merge r.prefix id (bytes_eq id (trim_dot ID)) k (find id r.registered_listeners)
                (first_kind id calls),
        p ∙ q,
      )

  new_empty :
      {C : Type 0} (client : Option C) (prefix : Bytes) (frequency : ℤ) (r : MetricRegistry S)
      (id : Bytes)
      → new_metric_registry client prefix frequency ≡ some r
      → find id r.registered_listeners ≡ none
  unfolding new_metric_registry
  new_empty none prefix frequency r id e = absurd (ground arith)
  new_empty (some client) [] frequency r id e =
      let h : r.registered_listeners ≡ [] = ground arith in rw h refl
  new_empty (some client) (b ∷ prefix) frequency r id e =
      let h : r.registered_listeners ≡ [] = ground arith in rw h refl

  -- After any registrations in a new registry, a registration returns the listener with the prefix and
  -- the ID less a dot in front, and with the kind of the first registration of that ID, which need not
  -- be the kind that it asks for.
  pub register-first :
      {C : Type 0} (client : Option C) (prefix : Bytes) (frequency : ℤ) (r : MetricRegistry S)
      (calls : List (Kind × Bytes)) (k : Kind) (ID : Bytes)
      → new_metric_registry client prefix frequency ≡ some r
      → (register k ID (register_all calls r)).1
        ≡ listener r.prefix (or_else k (first_kind (trim_dot ID) calls)) (trim_dot ID)
  register-first client prefix frequency r calls k ID e =
      let id = trim_dot ID in
      let s = register_all calls r in
      let (f, p) = find-register_all calls id r in
      let t = register-IsRegistered k ID s in
      some-injective _ _ (
        ap some t.result
        ∙ find_or_add-find id (listener s.prefix k id) s.registered_listeners
        ∙ ap (λ z. either z (some (listener s.prefix k id))) f
        ∙ ap
            (λ z.
              either (either z (listener_of r.prefix id (first_kind id calls)))
                (some (listener s.prefix k id)))
            (new_empty client prefix frequency r id e)
        ∙ ap (λ z. either (listener_of r.prefix id (first_kind id calls)) (some (listener z k id)))
            p
        ∙ chosen r.prefix id k (first_kind id calls))
    where
      chosen :
          (prefix id : Bytes) (k : Kind) (o : Option Kind)
          → either (listener_of prefix id o) (some (listener prefix k id))
            ≡ some (listener prefix (or_else k o) id)
      chosen prefix id k none = refl
      chosen prefix id k (some k') = refl
