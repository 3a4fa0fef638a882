-- ===== src/Strategy/Matchers.antt =====
-- strategy/matchers/string.go. A context is what its method Value gives for the keys of this package, and
-- equal_fold is strings.EqualFold.
use go_concurrency_limits.Base.{
  ◌≡◌, refl, Bool, true, false, Option, none, some, [], arith, if◌then◌else◌,
}
use go_concurrency_limits.Base.Bytes.{Bytes, bytes_eq, bytes_eq→eq}

-- The keys StringPredicateContextKey and LookupPartitionContextKey.
pub data ContextKey : Type 0 where
  string_predicate string_lookup : ContextKey

-- A value of a context: a string, or a value of another type.
pub data Value : Type 0 where
  text : Bytes → Value
  other_value : Value

abbrev pub Context : Type 0
Context = ContextKey → Option Value

unfoldable pub string_predicate_matcher : (Bytes → Bytes → Bool) → Bytes → Bool → Context → Bool
string_predicate_matcher equal_fold match_string case_insensitive ctx =
    elim (ctx string_predicate) [
      | some (text s) ↦
          if case_insensitive then equal_fold s match_string else bytes_eq s match_string
      | some other_value ↦ false
      | none ↦ false
    ]

unfoldable pub default_string_lookup_func : Context → Bytes
default_string_lookup_func ctx = elim (ctx string_lookup) [
  | some (text s) ↦ s
  | some other_value ↦ []
  | none ↦ []
]

-- A case-sensitive predicate holds only where the context has the string that it matches.
pub string_predicate_matcher_lem :
    (equal_fold : Bytes → Bytes → Bool) (match_string : Bytes) (ctx : Context)
    → string_predicate_matcher equal_fold match_string false ctx ≡ true
    → (s : Bytes) × (ctx string_predicate ≡ some (text s)) × (s ≡ match_string)
unfolding string_predicate_matcher
string_predicate_matcher_lem equal_fold match_string ctx h = matched (ctx string_predicate) h
  where
    matched :
        (o : Option Value)
        → elim o [
          | some (text s) ↦ if false then equal_fold s match_string else bytes_eq s match_string
          | some other_value ↦ false
          | none ↦ false
        ]
          ≡ true
        → (s : Bytes) × (o ≡ some (text s)) × (s ≡ match_string)
    matched (some (text s)) k = (s, refl, bytes_eq→eq s match_string k)
    matched (some other_value) k = absurd (ground arith)
    matched none k = absurd (ground arith)
