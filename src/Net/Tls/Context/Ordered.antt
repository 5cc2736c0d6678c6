-- ===== src/Net/Tls/Context/Ordered.antt =====
-- SSLContext.cc, Init: no event means that every call was made, in order, and succeeded.
use mathlib.Core.Path.{subst}
use ip_utils.Base.{
  ◌≡◌, refl, sym, ap, ◌∙◌, inl, inr, Bool, true, false, ◌||◌, none, some, List, [], ◌∷◌, ◌++◌,
  append_assoc, if◌then◌else◌, Bool-cases, ltb, Bytes, codes, take, cstr, ◌-◌,
}
use ip_utils.ErrorHandler.{ErrorHandler}
use ip_utils.File.{File}
use ip_utils.File.Names.{path}
use ip_utils.Net.{software_event}
use ip_utils.Net.Tls.Handshake.Up.{true_not_false, event_set}
use ip_utils.Net.Tls.Context.{
  CtxCall, ctx_new, check_private_key, session_id_context, use_certificate, use_private_key,
  verify_locations, CtxSetting, load_strings, partial_write, Contexts, Args, Progress, go, stop,
  and_then, left, given, file_of, tried, try_call, present, with_password, load_key,
  load_certificate, certify, load_cas, settled, started, configured, printed, init_context,
}
use ip_utils.Net.Tls.Context.Calls.{
  Action, tries, sets, when, password_actions, key_actions, certificate_actions, start_actions,
  last_actions, actions, run_actions, Ran, widen-Ran, and_then-Ran, tried-Ran, present-Ran,
  password-Ran, file_of-path,
}

module _ {K : Type 0} (lib : Contexts K) (a : Args) where
  tries_one :
      (text : Bytes) (c : CtxCall) (k : K) (e : ErrorHandler)
      → Ran lib (tries c ∷ []) k (tried lib e text (lib.call k c))
  tries_one text c k e = tried-Ran lib text c k e (lib.call k c) refl

  key-Ran :
      (f : File) (e : ErrorHandler) (k : K)
      → Ran lib
          (password_actions a.pass_phrase
            ++ (tries (use_private_key (path f none) a.keyfile_type)
                ∷ tries check_private_key
                ∷ []))
          k
          (load_key lib a (f, e) k)
  key-Ran f e k =
      let key = use_private_key (path f none) a.keyfile_type in
      let pass = password_actions a.pass_phrase in
      let load : K → ErrorHandler → Progress K = λ k' e'.
        try_call lib (codes "SSL_CTX_use_PrivateKey_file()") key
          (with_password lib a.pass_phrase k') e' in
      let check : K → ErrorHandler → Progress K =
        try_call lib (codes "SSL_CTX_check_private_key()") check_private_key in
      let loaded =
        and_then-Ran lib [] (pass ++ (tries key ∷ [])) k (present lib (codes "keyfile: ") f k e)
          load (present-Ran lib (codes "keyfile: ") f k e)
          (λ k' e'.
            widen-Ran lib pass (tries key ∷ []) k' (with_password lib a.pass_phrase k') (load k' e')
              (password-Ran lib a.pass_phrase k')
              (tries_one
                (codes "SSLContext::Init(): "
                  ++ (codes "SSL_CTX_use_PrivateKey_file()" ++ codes " failed: "))
                key (with_password lib a.pass_phrase k') e')) in
      subst (λ (xs : List Action). Ran lib xs k (load_key lib a (f, e) k))
        (append_assoc pass (tries key ∷ []) (tries check_private_key ∷ []))
        (and_then-Ran lib (pass ++ (tries key ∷ [])) (tries check_private_key ∷ []) k
          (and_then (present lib (codes "keyfile: ") f k e) load) check loaded
          (λ k' e'.
            tries_one
              (codes "SSLContext::Init(): "
                ++ (codes "SSL_CTX_check_private_key()" ++ codes " failed: "))
              check_private_key k' e'))

  named_key-Ran :
      (e : ErrorHandler) (k : K)
      → Ran lib (key_actions a) k (load_key lib a (file_of e a.keyfile_name a.keyfile_dir) k)
  named_key-Ran e k =
      let (f, e') = file_of e a.keyfile_name a.keyfile_dir in
      subst
        (λ (p : Bytes).
          Ran lib
            (password_actions a.pass_phrase
              ++ (tries (use_private_key p a.keyfile_type) ∷ tries check_private_key ∷ []))
            k (load_key lib a (file_of e a.keyfile_name a.keyfile_dir) k))
        (file_of-path e a.keyfile_name a.keyfile_dir) (key-Ran f e' k)

  stay-Ran : (k : K) (e : ErrorHandler) → Ran lib [] k (go k e)
  unfolding run_actions
  stay-Ran k e = refl

  when-Ran :
      (b : Bool) (xs : List Action) (k : K) (e : ErrorHandler) (p : Progress K)
      → Ran lib xs k p
      → Ran lib (when b xs) k (if b then p else go k e)
  when-Ran true xs k e p ran = ran
  when-Ran false xs k e p ran = stay-Ran k e

  certificate-Ran :
      (e : ErrorHandler) (k : K)
      → Ran lib
          (certificate_actions a)
          k
          (load_certificate lib a (file_of e a.certfile_name a.certfile_dir) k)
  certificate-Ran e k =
      let f = (file_of e a.certfile_name a.certfile_dir).0 in
      let e0 = (file_of e a.certfile_name a.certfile_dir).1 in
      let cert = use_certificate (path f none) a.certfile_type in
      let load : K → ErrorHandler → Progress K =
        try_call lib (codes "SSL_CTX_use_certificate_file()") cert in
      let with_key : K → ErrorHandler → Progress K = λ k' e'.
        if given a.keyfile_name
        then load_key lib a (file_of e' a.keyfile_name a.keyfile_dir) k'
        else go k' e' in
      let loaded =
        and_then-Ran lib [] (tries cert ∷ []) k (present lib (codes "certfile: ") f k e0) load
          (present-Ran lib (codes "certfile: ") f k e0)
          (λ k' e'.
            tries_one
              (codes "SSLContext::Init(): "
                ++ (codes "SSL_CTX_use_certificate_file()" ++ codes " failed: "))
              cert k' e') in
      subst
        (λ (p : Bytes).
          Ran lib
            (tries (use_certificate p a.certfile_type)
              ∷ when (given a.keyfile_name) (key_actions a))
            k (load_certificate lib a (file_of e a.certfile_name a.certfile_dir) k))
        (file_of-path e a.certfile_name a.certfile_dir)
        (and_then-Ran lib (tries cert ∷ []) (when (given a.keyfile_name) (key_actions a)) k
          (and_then (present lib (codes "certfile: ") f k e0) load) with_key loaded
          (λ k' e'.
            when-Ran (given a.keyfile_name) (key_actions a) k' e'
              (load_key lib a (file_of e' a.keyfile_name a.keyfile_dir) k') (named_key-Ran e' k')))

  certify-Ran :
      (k : K) (e : ErrorHandler)
      → Ran lib (when (given a.certfile_name) (certificate_actions a)) k (certify lib a k e)
  certify-Ran k e =
      when-Ran (given a.certfile_name) (certificate_actions a) k e
        (load_certificate lib a (file_of e a.certfile_name a.certfile_dir) k) (certificate-Ran e k)

  cas-Ran :
      (k : K) (e : ErrorHandler)
      → Ran lib
          (when
            (given a.ca_file || given a.ca_path)
            (tries (verify_locations a.ca_file a.ca_path) ∷ []))
          k
          (load_cas lib a k e)
  cas-Ran k e =
      let text =
        codes "SSLContext::SSL_CTX_load_verify_locations(): CAfile ("
        ++ (printed a.ca_file ++ (codes "), CApath(" ++ (printed a.ca_path ++ codes "): "))) in
      when-Ran (given a.ca_file || given a.ca_path)
        (tries (verify_locations a.ca_file a.ca_path) ∷ []) k e
        (tried lib e text (lib.call k (verify_locations a.ca_file a.ca_path)))
        (tries_one text (verify_locations a.ca_file a.ca_path) k e)

  set_one :
      (s : CtxSetting) (xs : List Action) (k : K) (p : Progress K)
      → Ran lib xs (lib.set k s) p
      → Ran lib (sets s ∷ xs) k p
  unfolding run_actions
  set_one s xs k (go k' e) ran = ran
  set_one s xs k (stop k' e) ran = ran

  settled-Ran : (k : K) (e : ErrorHandler) → Ran lib (last_actions a) k (go (settled lib a k) e)
  unfolding run_actions
  settled-Ran k e = elim (Bool-cases (ltb 0 a.bits)) [
    | inl some_bits ↦ rw some_bits refl
    | inr no_bits ↦ rw no_bits refl
  ]

  started-Ran :
      (k : K) (e : ErrorHandler) → Ran lib (start_actions a lib.id_length) k (started lib a k e)
  started-Ran k e =
      let name = session_id_context (take (lib.id_length - 1) (cstr a.session_id)) in
      let first = try_call lib (codes "SSL_CTX_new()") ctx_new (lib.set k load_strings) e in
      set_one load_strings (tries ctx_new ∷ sets partial_write ∷ tries name ∷ []) k
        (started lib a k e)
        (and_then-Ran lib (tries ctx_new ∷ []) (sets partial_write ∷ tries name ∷ [])
          (lib.set k load_strings) first
          (λ k' e'.
            try_call lib (codes "SSL_CTX_set_session_id_context()") name (lib.set k' partial_write)
              e')
          (tries_one (codes "SSLContext::Init(): " ++ (codes "SSL_CTX_new()" ++ codes " failed: "))
            ctx_new (lib.set k load_strings) e)
          (λ k' e'.
            set_one partial_write (tries name ∷ []) k'
              (try_call lib (codes "SSL_CTX_set_session_id_context()") name
                (lib.set k' partial_write) e')
              (tries_one
                (codes "SSLContext::Init(): "
                  ++ (codes "SSL_CTX_set_session_id_context()" ++ codes " failed: "))
                name (lib.set k' partial_write) e')))

  configured-Ran :
      (k : K) (e : ErrorHandler) → Ran lib (actions a lib.id_length) k (configured lib a k e)
  configured-Ran k e =
      let start = start_actions a lib.id_length in
      let certs = when (given a.certfile_name) (certificate_actions a) in
      let cas =
        when (given a.ca_file || given a.ca_path)
          (tries (verify_locations a.ca_file a.ca_path) ∷ []) in
      let certified = and_then (started lib a k e) (certify lib a) in
      let certified-Ran =
        and_then-Ran lib start certs k (started lib a k e) (certify lib a) (started-Ran k e)
          certify-Ran in
      let trusted-Ran =
        and_then-Ran lib (start ++ certs) cas k certified (load_cas lib a) certified-Ran cas-Ran in
      and_then-Ran lib ((start ++ certs) ++ cas) (last_actions a) k
        (and_then certified (load_cas lib a)) (λ k' e'. go (settled lib a k') e') trusted-Ran
        settled-Ran

  left-Ran :
      (xs : List Action) (k : K) (p : Progress K)
      → Ran lib xs k p
      → (left p).1.event_flag ≡ false
      → run_actions lib k xs ≡ some (left p).0
  left-Ran xs k (go k' e) ran quiet = ran
  left-Ran xs k (stop k' e) ran quiet = absurd (true_not_false (sym ran ∙ quiet))

  with_method :
      (k : K) (e : ErrorHandler)
      → a.method ≡ true
      → init_context lib a k e ≡ left (configured lib a k e)
  unfolding init_context
  with_method k e method =
      ap
        (λ (b : Bool).
          if b
          then left (configured lib a k e)
          else (k, software_event e (codes "SSLContext::Init(): SSL_METHOD* is NULL")))
        method

  without_method :
      (k : K) (e : ErrorHandler) → a.method ≡ false → (init_context lib a k e).1.event_flag ≡ true
  unfolding init_context
  without_method k e none_given =
      rw none_given (event_set e (codes "SSLContext::Init(): SSL_METHOD* is NULL"))

  -- When `SSLContext::Init` leaves no event, it was given a method, and OpenSSL is where it stands
  -- after all the calls that the arguments ask for, in their order, each of which succeeded: the
  -- certificate is read before the key, and the key is checked.
  pub init_context-actions :
      (k : K) (e : ErrorHandler)
      → (init_context lib a k e).1.event_flag ≡ false
      → (a.method ≡ true)
        × (run_actions lib k (actions a lib.id_length) ≡ some (init_context lib a k e).0)
  init_context-actions k e quiet = elim (Bool-cases a.method) [
    | inl method ↦
        let same = with_method k e method in
        (
          method,
          left-Ran (actions a lib.id_length) k (configured lib a k e) (configured-Ran k e)
                (ap (λ (r : K × ErrorHandler). r.1.event_flag) (sym same) ∙ quiet)
              ∙ ap (λ (r : K × ErrorHandler). some r.0) (sym same),
        )
    | inr none_given ↦ absurd (true_not_false (sym (without_method k e none_given) ∙ quiet))
  ]
