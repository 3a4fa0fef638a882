-- ===== src/Middleware/Http/Options.antt =====
-- http/option.go: the configuration that the options make for the server middleware and the client
-- round tripper.
use go_concurrency_limits.Base.{◌≡◌, Option, none, some, List, [], ◌∷◌, arith}
use go_concurrency_limits.Base.Bytes.{Bytes}
use go_concurrency_limits.Middleware.Options.{
  unset, built_in, custom, LimiterSetting, FunctionSetting, name_or, tags_or_empty, apply_all,
  last_given, or_else, apply_all-field,
}

-- The bytes of "default".
abbrev pub default_name : Bytes
default_name = 100 ∷ 101 ∷ 102 ∷ 97 ∷ 117 ∷ 108 ∷ 116 ∷ []

-- L, X, S and C are the types core.Limiter, LimitExceededHandler, ServerResponseClassifier and
-- ClientResponseClassifier.
module _ (L X S C : Type 0) where
  pub record InterceptorConfig : Type 0 where
    pub name : Bytes
    pub tags : Option (List Bytes)
    pub limiter : LimiterSetting L
    pub limit_exceeded_handler : FunctionSetting X
    pub server_response_classifier : FunctionSetting S
    pub client_response_classifier : FunctionSetting C

  -- The options are closures; each is what its closure captures.
  pub data InterceptorOption : Type 0 where
    with_name : Bytes → InterceptorOption
    with_tags : List Bytes → InterceptorOption
    with_limiter : L → InterceptorOption
    with_limit_exceeded_handler : X → InterceptorOption
    with_server_response_classifier : S → InterceptorOption
    with_client_response_classifier : C → InterceptorOption

  unfoldable pub apply_option : InterceptorOption → InterceptorConfig → InterceptorConfig
  apply_option (with_name a) cfg = record cfg { name = a }
  apply_option (with_tags a) cfg = record cfg { tags = some a }
  apply_option (with_limiter a) cfg = record cfg { limiter = custom a }
  apply_option (with_limit_exceeded_handler a) cfg = record cfg {
    limit_exceeded_handler = custom a;
  }
  apply_option (with_server_response_classifier a) cfg = record cfg {
    server_response_classifier = custom a;
  }
  apply_option (with_client_response_classifier a) cfg = record cfg {
    client_response_classifier = custom a;
  }

  -- new(interceptorConfig)
  abbrev pub zero_config : InterceptorConfig
  zero_config = record {
    name = [];
    tags = none;
    limiter = unset;
    limit_exceeded_handler = unset;
    server_response_classifier = unset;
    client_response_classifier = unset;
  }

  unfoldable pub apply_defaults : InterceptorConfig → InterceptorConfig
  apply_defaults cfg = record cfg {
    limiter = built_in (name_or default_name cfg.name, tags_or_empty cfg.tags);
    limit_exceeded_handler = built_in tt;
    server_response_classifier = built_in tt;
    client_response_classifier = built_in tt;
  }

  -- What NewServerMiddleware, NewClientRoundTripper and NewClientRoundTripperWithBase begin with.
  unfoldable pub configure : List InterceptorOption → InterceptorConfig
  unfolding apply_option apply_defaults
  configure opts = apply_all apply_option opts (apply_defaults zero_config)

  abbrev pub name_of : InterceptorOption → Option (Bytes)
  name_of (with_name a) = some (a)
  name_of _ = none

  abbrev pub tags_of : InterceptorOption → Option (Option (List Bytes))
  tags_of (with_tags a) = some (some a)
  tags_of _ = none

  abbrev pub limiter_of : InterceptorOption → Option (LimiterSetting L)
  limiter_of (with_limiter a) = some (custom a)
  limiter_of _ = none

  abbrev pub limit_exceeded_handler_of : InterceptorOption → Option (FunctionSetting X)
  limit_exceeded_handler_of (with_limit_exceeded_handler a) = some (custom a)
  limit_exceeded_handler_of _ = none

  abbrev pub server_response_classifier_of : InterceptorOption → Option (FunctionSetting S)
  server_response_classifier_of (with_server_response_classifier a) = some (custom a)
  server_response_classifier_of _ = none

  abbrev pub client_response_classifier_of : InterceptorOption → Option (FunctionSetting C)
  client_response_classifier_of (with_client_response_classifier a) = some (custom a)
  client_response_classifier_of _ = none

  pub record IsLastWins (opts : List InterceptorOption) (cfg : InterceptorConfig) : Type 0 where
    pub name : cfg.name ≡ or_else ([]) (last_given name_of opts)
    pub tags : cfg.tags ≡ or_else (none) (last_given tags_of opts)
    pub limiter : cfg.limiter ≡ or_else (built_in (default_name, [])) (last_given limiter_of opts)
    pub limit_exceeded_handler :
        cfg.limit_exceeded_handler
        ≡ or_else (built_in tt) (last_given limit_exceeded_handler_of opts)
    pub server_response_classifier :
        cfg.server_response_classifier
        ≡ or_else (built_in tt) (last_given server_response_classifier_of opts)
    pub client_response_classifier :
        cfg.client_response_classifier
        ≡ or_else (built_in tt) (last_given client_response_classifier_of opts)

  -- Whatever the options and their order: the name and the tags are those of the last WithName and the
  -- last WithTags, and without one empty; the limiter is that of the last WithLimiter, and without one it
  -- is the default limiter with the name "default" and no tags, whatever names and tags the options give;
  -- the handler and each classifier is that of its last option, and without one the package's.
  pub configure-IsLastWins : (opts : List InterceptorOption) → IsLastWins opts (configure opts)
  unfolding configure apply_option apply_defaults
  configure-IsLastWins opts =
      let start = apply_defaults zero_config in
      record {
        name =
            apply_all-field apply_option (λ cfg. cfg.name) name_of (λ o cfg. ground arith) opts
              start;
        tags =
            apply_all-field apply_option (λ cfg. cfg.tags) tags_of (λ o cfg. ground arith) opts
              start;
        limiter =
            apply_all-field apply_option (λ cfg. cfg.limiter) limiter_of (λ o cfg. ground arith)
              opts start;
        limit_exceeded_handler =
            apply_all-field apply_option (λ cfg. cfg.limit_exceeded_handler)
              limit_exceeded_handler_of (λ o cfg. ground arith) opts start;
        server_response_classifier =
            apply_all-field apply_option (λ cfg. cfg.server_response_classifier)
              server_response_classifier_of (λ o cfg. ground arith) opts start;
        client_response_classifier =
            apply_all-field apply_option (λ cfg. cfg.client_response_classifier)
              client_response_classifier_of (λ o cfg. ground arith) opts start;
      }
