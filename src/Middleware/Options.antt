-- ===== src/Middleware/Options.antt =====
-- The functional options of http/option.go and grpc/option_*.go: a configuration is made by running
-- every option over one that holds the defaults, from the first to the last.
use go_concurrency_limits.Base.{◌≡◌, refl, ap, ◌∙◌, Option, none, some, List, [], ◌∷◌}
use go_concurrency_limits.Base.Bytes.{Bytes}

-- A field of a configuration: nil, what the package puts there (made from a D), or the caller's X.
pub data Setting (D X : Type 0) : Type 0 where
  unset : Setting D X
  built_in : D → Setting D X
  custom : X → Setting D X

-- A limiter, where the built-in one is NewDefaultLimiterWithDefaults of a name and of tags, over
-- SimpleStrategy with the limit 1000.
abbrev pub LimiterSetting : Type 0 → Type 0
LimiterSetting L = Setting (Bytes × List Bytes) L

abbrev pub FunctionSetting : Type 0 → Type 0
FunctionSetting X = Setting (Unit {0}) X

-- if name == "" { name = default }
abbrev pub name_or : Bytes → Bytes → Bytes
name_or default [] = default
name_or default (b ∷ name) = b ∷ name

abbrev pub tags_or_empty : Option (List Bytes) → List Bytes
tags_or_empty none = []
tags_or_empty (some tags) = tags

-- for _, o := range opts { o(cfg) }
abbrev pub apply_all : {O C : Type 0} → (O → C → C) → List O → C → C
apply_all apply [] cfg = cfg
apply_all apply (o ∷ opts) cfg = apply_all apply opts (apply o cfg)

-- What the last option that sets a field sets it to.
abbrev pub last_given : {O V : Type 0} → (O → Option V) → List O → Option V
last_given given [] = none
last_given given (o ∷ opts) = elim (last_given given opts) [ none ↦ given o | some v ↦ some v ]

abbrev pub or_else : {V : Type 0} → V → Option V → V
or_else default none = default
or_else default (some v) = v

or_else-last :
    {V : Type 0} (v : V) (x y : Option V)
    → or_else (or_else v x) y ≡ or_else v (elim y [ none ↦ x | some w ↦ some w ])
or_else-last v x none = refl
or_else-last v x (some w) = refl

-- A field that an option either sets or leaves ends as the last option that sets it says.
pub apply_all-field :
    {O C V : Type 0} (apply : O → C → C) (field : C → V) (given : O → Option V)
    → ((o : O) (cfg : C) → field (apply o cfg) ≡ or_else (field cfg) (given o))
    → (opts : List O) (cfg : C)
    → field (apply_all apply opts cfg) ≡ or_else (field cfg) (last_given given opts)
apply_all-field apply field given step [] cfg = refl
apply_all-field apply field given step (o ∷ opts) cfg =
    apply_all-field apply field given step opts (apply o cfg)
    ∙ ap (λ v. or_else v (last_given given opts)) (step o cfg)
    ∙ or_else-last (field cfg) (given o) (last_given given opts)
