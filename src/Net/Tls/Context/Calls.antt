-- ===== src/Net/Tls/Context/Calls.antt =====
-- SSLContext.cc, Init: the calls of OpenSSL that a context takes.
use ip_utils.Base.{
  ℕ, ◌≡◌, refl, sym, ap, ◌∙◌, inl, inr, Bool, true, false, not, ◌&&◌, ◌||◌, Option, none, some,
  List, [], ◌∷◌, ◌++◌, if◌then◌else◌, Bool-cases, some-none, ltb, Bytes, codes, take, cstr,
  is_empty, ◌-◌,
}
use ip_utils.ErrorHandler.{ErrorHandler, no_error}
use ip_utils.File.{File}
use ip_utils.File.Names
use ip_utils.File.Names.{path}
use ip_utils.Net.Tls.Handshake.Up.{event_set}
use ip_utils.Net.Tls.Context.{
  CtxCall, ctx_new, check_private_key, session_id_context, use_certificate, use_private_key,
  verify_locations, CtxSetting, load_strings, partial_write, password, verify_mode, verify_depth,
  cache_mode, options, Contexts, Args, ssl_err_str, Progress, go, stop, and_then, given, file_of,
  tried, present, with_password,
}

pub data Action : Type 0 where
  tries : CtxCall → Action
  sets : CtxSetting → Action

abbrev pub when : Bool → List Action → List Action
when true xs = xs
when false xs = []

-- The path of a file that the arguments name.
unfoldable pub path_of : Option Bytes → Option Bytes → Bytes
unfolding path file_of
path_of name dir = path (file_of no_error name dir).0 none

abbrev pub password_actions : Option Bytes → List Action
password_actions none = []
password_actions (some text) = when (given (some text)) (sets (password text) ∷ [])

abbrev pub key_actions : Args → List Action
key_actions a =
    password_actions a.pass_phrase
    ++ (tries (use_private_key (path_of a.keyfile_name a.keyfile_dir) a.keyfile_type)
        ∷ tries check_private_key
        ∷ [])

abbrev pub certificate_actions : Args → List Action
certificate_actions a =
    tries (use_certificate (path_of a.certfile_name a.certfile_dir) a.certfile_type)
    ∷ when (given a.keyfile_name) (key_actions a)

abbrev pub start_actions : Args → ℕ → List Action
start_actions a id_length =
    sets load_strings
    ∷ tries ctx_new
    ∷ sets partial_write
    ∷ tries (session_id_context (take (id_length - 1) (cstr a.session_id)))
    ∷ []

abbrev pub last_actions : Args → List Action
last_actions a =
    sets (verify_mode a.mode)
    ∷ sets (verify_depth a.depth)
    ∷ sets (cache_mode a.cache)
    ∷ when (ltb 0 a.bits) (sets (options a.bits) ∷ [])

-- What a context takes, in order.
abbrev pub actions : Args → ℕ → List Action
actions a id_length =
    ((start_actions a id_length ++ when (given a.certfile_name) (certificate_actions a))
      ++ when (given a.ca_file || given a.ca_path)
          (tries (verify_locations a.ca_file a.ca_path) ∷ []))
    ++ last_actions a

-- Which file Init looks at does not depend on the error record.
set_name-file :
    (f : File) (e e' : ErrorHandler) (name : Option Bytes)
    → (Names.set_name f e name).0 ≡ (Names.set_name f e' name).0
unfolding Names.set_name
set_name-file f e e' none = refl
set_name-file f e e' (some text) = elim (Bool-cases (Names.is_path_tainted (some text))) [
  | inl tainted ↦ rw tainted refl
  | inr clean ↦ rw clean refl
]

set_dir-file :
    (f : File) (e e' : ErrorHandler) (dir : Option Bytes)
    → (Names.set_dir f e dir).0 ≡ (Names.set_dir f e' dir).0
unfolding Names.set_dir
set_dir-file f e e' none = refl
set_dir-file f e e' (some dir) = refl

file_of-file :
    (e e' : ErrorHandler) (name dir : Option Bytes)
    → (file_of e name dir).0 ≡ (file_of e' name dir).0
unfolding file_of Names.init
file_of-file e e' name none =
    let f : File = record { name = []; dir = []; descriptor = 0 } in
    ap (λ (x : File). record x { dir = [] }) (set_name-file f e e' name)
file_of-file e e' name (some dir) =
    let f : File = record { name = []; dir = []; descriptor = 0 } in
    ap (λ (x : File). (Names.set_dir x (Names.set_name f e name).1 (some dir)).0)
      (set_name-file f e e' name)
    ∙ set_dir-file (Names.set_name f e' name).0 (Names.set_name f e name).1
        (Names.set_name f e' name).1 (some dir)

pub file_of-path :
    (e : ErrorHandler) (name dir : Option Bytes)
    → path (file_of e name dir).0 none ≡ path_of name dir
unfolding path_of
file_of-path e name dir = ap (λ (x : File). path x none) (file_of-file e no_error name dir)

module _ {K : Type 0} (lib : Contexts K) where
  -- All of them succeed, and the state that they leave.
  unfoldable pub run_actions : K → List Action → Option K
  run_actions k [] = some k
  run_actions k (sets s ∷ xs) = run_actions (lib.set k s) xs
  run_actions k (tries c ∷ xs) =
      let rest = run_actions (lib.call k c).0 xs in if (lib.call k c).1 then rest else none

  run_actions-append :
      (xs ys : List Action) (k k' : K)
      → run_actions k xs ≡ some k'
      → run_actions k (xs ++ ys) ≡ run_actions k' ys
  unfolding run_actions
  run_actions-append [] ys k k' h = let same : k ≡ k' = cc in ap (λ (x : K). run_actions x ys) same
  run_actions-append (sets s ∷ xs) ys k k' h = run_actions-append xs ys (lib.set k s) k' h
  run_actions-append (tries c ∷ xs) ys k k' h = elim (Bool-cases (lib.call k c).1) [
    | inl did ↦
        simp (run_actions, did)
          (run_actions-append xs ys (lib.call k c).0 k' (simp (run_actions, did) at h))
    | inr failed ↦ absurd (some-none (sym (simp (run_actions, failed) at h)))
  ]

  -- A part of Init that went on has run these actions; one that returned has left an event.
  abbrev pub Ran : List Action → K → Progress K → Type 0
  Ran xs k (go k' e) = run_actions k xs ≡ some k'
  Ran xs k (stop k' e) = e.event_flag ≡ true

  pub widen-Ran :
      (xs ys : List Action) (k k' : K) (p : Progress K)
      → run_actions k xs ≡ some k'
      → Ran ys k' p
      → Ran (xs ++ ys) k p
  widen-Ran xs ys k k' (go k'' e) before ran = run_actions-append xs ys k k' before ∙ ran
  widen-Ran xs ys k k' (stop k'' e) before ran = ran

  pub and_then-Ran :
      (xs ys : List Action) (k : K) (p : Progress K) (next : K → ErrorHandler → Progress K)
      → Ran xs k p
      → ((k' : K) (e : ErrorHandler) → Ran ys k' (next k' e))
      → Ran (xs ++ ys) k (and_then p next)
  and_then-Ran xs ys k (go k' e) next before after =
      widen-Ran xs ys k k' (next k' e) before (after k' e)
  and_then-Ran xs ys k (stop k' e) next before after = before

  pub tried-Ran :
      (text : Bytes) (c : CtxCall) (k : K) (e : ErrorHandler) (r : K × Bool)
      → lib.call k c ≡ r
      → Ran (tries c ∷ []) k (tried lib e text r)
  unfolding run_actions
  tried-Ran text c k e (k', true) h = simp (run_actions, h) refl
  tried-Ran text c k e (k', false) h = event_set e (text ++ ssl_err_str [] (lib.errors k').1)

  pub present-Ran :
      (text : Bytes) (f : File) (k : K) (e : ErrorHandler) → Ran [] k (present lib text f k e)
  unfolding run_actions
  present-Ran text f k e = elim (Bool-cases (not (is_empty f.name) && lib.exists k (path f none))) [
    | inl there ↦ rw there refl
    | inr missing ↦ rw missing (
        event_set e
          (codes "SSLContext::Init(): " ++ (text ++ (path f none ++ codes ", does not exist!"))))
  ]

  pub password-Ran :
      (text : Option Bytes) (k : K)
      → run_actions k (password_actions text) ≡ some (with_password lib text k)
  unfolding run_actions
  password-Ran none k = refl
  password-Ran (some text) k = elim (Bool-cases (given (some text))) [
    | inl set ↦ rw set refl
    | inr unset ↦ rw unset refl
  ]
