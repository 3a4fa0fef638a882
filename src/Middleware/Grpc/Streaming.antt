-- ===== src/Middleware/Grpc/Streaming.antt =====
-- grpc/option_streaming.go: the configuration that the options make for the stream interceptor.
-- WithStreamTags returns an option of the unary interceptors, so no stream option sets the tags.
use go_concurrency_limits.Base.{◌≡◌, Option, none, some, List, [], ◌∷◌, arith}
use go_concurrency_limits.Base.Bytes.{Bytes}
use go_concurrency_limits.Middleware.Options.{
  unset, built_in, custom, LimiterSetting, FunctionSetting, name_or, tags_or_empty, apply_all,
  last_given, or_else, apply_all-field,
}

-- The bytes of "default-recv".
abbrev pub default_recv : Bytes
default_recv = 100 ∷ 101 ∷ 102 ∷ 97 ∷ 117 ∷ 108 ∷ 116 ∷ 45 ∷ 114 ∷ 101 ∷ 99 ∷ 118 ∷ []

-- The bytes of "default-send".
abbrev pub default_send : Bytes
default_send = 100 ∷ 101 ∷ 102 ∷ 97 ∷ 117 ∷ 108 ∷ 116 ∷ 45 ∷ 115 ∷ 101 ∷ 110 ∷ 100 ∷ []

-- L, X, S and C are the types core.Limiter, LimitExceededResponseClassifier,
-- StreamServerResponseClassifier and StreamClientResponseClassifier.
module _ (L X S C : Type 0) where
  pub record StreamInterceptorConfig : Type 0 where
    pub recv_name : Bytes
    pub send_name : Bytes
    pub tags : Option (List Bytes)
    pub recv_limiter : LimiterSetting L
    pub send_limiter : LimiterSetting L
    pub recv_limit_exceeded_response_classifier : FunctionSetting X
    pub send_limit_exceeded_response_classifier : FunctionSetting X
    pub server_response_classifer : FunctionSetting S
    pub client_response_classifer : FunctionSetting C

  -- The options are closures; each is what its closure captures.
  pub data StreamInterceptorOption : Type 0 where
    with_stream_send_name : Bytes → StreamInterceptorOption
    with_stream_recv_name : Bytes → StreamInterceptorOption
    with_stream_send_limiter : L → StreamInterceptorOption
    with_stream_recv_limiter : L → StreamInterceptorOption
    with_stream_send_limit_exceeded_response_classifier : X → StreamInterceptorOption
    with_stream_recv_limit_exceeded_response_classifier : X → StreamInterceptorOption
    with_stream_client_response_type_classifier : C → StreamInterceptorOption
    with_stream_server_response_type_classifier : S → StreamInterceptorOption

  unfoldable pub apply_option :
      StreamInterceptorOption → StreamInterceptorConfig → StreamInterceptorConfig
  apply_option (with_stream_send_name a) cfg = record cfg { send_name = a }
  apply_option (with_stream_recv_name a) cfg = record cfg { recv_name = a }
  apply_option (with_stream_send_limiter a) cfg = record cfg { send_limiter = custom a }
  apply_option (with_stream_recv_limiter a) cfg = record cfg { recv_limiter = custom a }
  apply_option (with_stream_send_limit_exceeded_response_classifier a) cfg = record cfg {
    send_limit_exceeded_response_classifier = custom a;
  }
  apply_option (with_stream_recv_limit_exceeded_response_classifier a) cfg = record cfg {
    recv_limit_exceeded_response_classifier = custom a;
  }
  apply_option (with_stream_client_response_type_classifier a) cfg = record cfg {
    client_response_classifer = custom a;
  }
  apply_option (with_stream_server_response_type_classifier a) cfg = record cfg {
    server_response_classifer = custom a;
  }

  -- new(streamInterceptorConfig)
  abbrev pub zero_config : StreamInterceptorConfig
  zero_config = record {
    recv_name = [];
    send_name = [];
    tags = none;
    recv_limiter = unset;
    send_limiter = unset;
    recv_limit_exceeded_response_classifier = unset;
    send_limit_exceeded_response_classifier = unset;
    server_response_classifer = unset;
    client_response_classifer = unset;
  }

  unfoldable pub stream_defaults : StreamInterceptorConfig → StreamInterceptorConfig
  stream_defaults cfg = record cfg {
    recv_limiter = built_in (name_or default_recv cfg.recv_name, tags_or_empty cfg.tags);
    send_limiter = built_in (name_or default_send cfg.send_name, tags_or_empty cfg.tags);
    recv_limit_exceeded_response_classifier = built_in tt;
    send_limit_exceeded_response_classifier = built_in tt;
    client_response_classifer = built_in tt;
    server_response_classifer = built_in tt;
  }

  -- What StreamServerInterceptor begins with.
  unfoldable pub stream_config : List StreamInterceptorOption → StreamInterceptorConfig
  unfolding apply_option stream_defaults
  stream_config opts = apply_all apply_option opts (stream_defaults zero_config)

  abbrev pub recv_name_of : StreamInterceptorOption → Option (Bytes)
  recv_name_of (with_stream_recv_name a) = some (a)
  recv_name_of _ = none

  abbrev pub send_name_of : StreamInterceptorOption → Option (Bytes)
  send_name_of (with_stream_send_name a) = some (a)
  send_name_of _ = none

  abbrev pub tags_of : StreamInterceptorOption → Option (Option (List Bytes))
  tags_of _ = none

  abbrev pub recv_limiter_of : StreamInterceptorOption → Option (LimiterSetting L)
  recv_limiter_of (with_stream_recv_limiter a) = some (custom a)
  recv_limiter_of _ = none

  abbrev pub send_limiter_of : StreamInterceptorOption → Option (LimiterSetting L)
  send_limiter_of (with_stream_send_limiter a) = some (custom a)
  send_limiter_of _ = none

  abbrev pub recv_limit_exceeded_response_classifier_of :
      StreamInterceptorOption → Option (FunctionSetting X)
  recv_limit_exceeded_response_classifier_of
        (with_stream_recv_limit_exceeded_response_classifier a) =
      some (custom a)
  recv_limit_exceeded_response_classifier_of _ = none

  abbrev pub send_limit_exceeded_response_classifier_of :
      StreamInterceptorOption → Option (FunctionSetting X)
  send_limit_exceeded_response_classifier_of
        (with_stream_send_limit_exceeded_response_classifier a) =
      some (custom a)
  send_limit_exceeded_response_classifier_of _ = none

  abbrev pub client_response_classifer_of : StreamInterceptorOption → Option (FunctionSetting C)
  client_response_classifer_of (with_stream_client_response_type_classifier a) = some (custom a)
  client_response_classifer_of _ = none

  abbrev pub server_response_classifer_of : StreamInterceptorOption → Option (FunctionSetting S)
  server_response_classifer_of (with_stream_server_response_type_classifier a) = some (custom a)
  server_response_classifer_of _ = none

  pub record IsStreamLastWins (opts : List StreamInterceptorOption) (cfg : StreamInterceptorConfig)
      : Type 0 where
    pub recv_name : cfg.recv_name ≡ or_else ([]) (last_given recv_name_of opts)
    pub send_name : cfg.send_name ≡ or_else ([]) (last_given send_name_of opts)
    pub tags : cfg.tags ≡ or_else (none) (last_given tags_of opts)
    pub recv_limiter :
        cfg.recv_limiter ≡ or_else (built_in (default_recv, [])) (last_given recv_limiter_of opts)
    pub send_limiter :
        cfg.send_limiter ≡ or_else (built_in (default_send, [])) (last_given send_limiter_of opts)
    pub recv_limit_exceeded_response_classifier :
        cfg.recv_limit_exceeded_response_classifier
        ≡ or_else (built_in tt) (last_given recv_limit_exceeded_response_classifier_of opts)
    pub send_limit_exceeded_response_classifier :
        cfg.send_limit_exceeded_response_classifier
        ≡ or_else (built_in tt) (last_given send_limit_exceeded_response_classifier_of opts)
    pub client_response_classifer :
        cfg.client_response_classifer
        ≡ or_else (built_in tt) (last_given client_response_classifer_of opts)
    pub server_response_classifer :
        cfg.server_response_classifer
        ≡ or_else (built_in tt) (last_given server_response_classifer_of opts)

  -- Whatever the options and their order, each setting is that of its last option, and without one the
  -- package's, where the names and the tags of the default limiters are never those of the options.
  pub stream_config-IsLastWins :
      (opts : List StreamInterceptorOption) → IsStreamLastWins opts (stream_config opts)
  unfolding stream_config apply_option stream_defaults
  stream_config-IsLastWins opts =
      let start = stream_defaults zero_config in
      record {
        recv_name =
            apply_all-field apply_option (λ cfg. cfg.recv_name) recv_name_of (λ o cfg. ground arith)
              opts start;
        send_name =
            apply_all-field apply_option (λ cfg. cfg.send_name) send_name_of (λ o cfg. ground arith)
              opts start;
        tags =
            apply_all-field apply_option (λ cfg. cfg.tags) tags_of (λ o cfg. ground arith) opts
              start;
        recv_limiter =
            apply_all-field apply_option (λ cfg. cfg.recv_limiter) recv_limiter_of
              (λ o cfg. ground arith) opts start;
        send_limiter =
            apply_all-field apply_option (λ cfg. cfg.send_limiter) send_limiter_of
              (λ o cfg. ground arith) opts start;
        recv_limit_exceeded_response_classifier =
            apply_all-field apply_option (λ cfg. cfg.recv_limit_exceeded_response_classifier)
              recv_limit_exceeded_response_classifier_of (λ o cfg. ground arith) opts start;
        send_limit_exceeded_response_classifier =
            apply_all-field apply_option (λ cfg. cfg.send_limit_exceeded_response_classifier)
              send_limit_exceeded_response_classifier_of (λ o cfg. ground arith) opts start;
        client_response_classifer =
            apply_all-field apply_option (λ cfg. cfg.client_response_classifer)
              client_response_classifer_of (λ o cfg. ground arith) opts start;
        server_response_classifer =
            apply_all-field apply_option (λ cfg. cfg.server_response_classifer)
              server_response_classifer_of (λ o cfg. ground arith) opts start;
      }
