-- ===== src/Net/Tls/Context.antt =====
-- SSLContext.cc: Init, the password callback and the text of OpenSSL's errors. The calls of OpenSSL
-- and stat(2) are parameters.
pub mod Calls
pub mod Ordered
use ip_utils.Base.{
  ℕ, ◌-◌, Bool, true, false, not, ◌&&◌, ◌||◌, Option, none, some, List, [], ◌∷◌, ◌++◌,
  if◌then◌else◌, ltb, leb, Bytes, codes, length, take, cstr, is_empty, snprintf,
}
use ip_utils.ErrorHandler.{ErrorHandler}
use ip_utils.File.{File}
use ip_utils.File.Names
use ip_utils.File.Names.{path}
use ip_utils.Net.{software_event}

-- The calls that can fail, and those that cannot; a type of a file and a mode are numbers.
pub data CtxCall : Type 0 where
  ctx_new check_private_key : CtxCall
  session_id_context : Bytes → CtxCall
  use_certificate use_private_key : Bytes → ℕ → CtxCall
  verify_locations : Option Bytes → Option Bytes → CtxCall

pub data CtxSetting : Type 0 where
  load_strings partial_write : CtxSetting
  password : Bytes → CtxSetting
  verify_mode verify_depth cache_mode options : ℕ → CtxSetting

pub record Contexts (K : Type 0) : Type 0 where
  pub call : K → CtxCall → K × Bool
  pub set : K → CtxSetting → K
  -- stat(2): whether there is a file.
  pub exists : K → Bytes → Bool
  -- ERR_get_error(3) until there is none, and ERR_error_string_n(3) of each.
  pub errors : K → K × List Bytes
  -- SSL_MAX_SSL_SESSION_ID_LENGTH
  pub id_length : ℕ

-- The arguments of Init; `method` is whether there is one.
pub record Args : Type 0 where
  pub method : Bool
  pub session_id : Bytes
  pub keyfile_name : Option Bytes
  pub keyfile_dir : Option Bytes
  pub keyfile_type : ℕ
  pub pass_phrase : Option Bytes
  pub certfile_name : Option Bytes
  pub certfile_dir : Option Bytes
  pub certfile_type : ℕ
  pub ca_file : Option Bytes
  pub ca_path : Option Bytes
  pub mode : ℕ
  pub depth : ℕ
  pub cache : ℕ
  -- The options, and 0 where they are not positive.
  pub bits : ℕ

-- `ssl_err_str`: the loop, on the text so far.
abbrev err_text : Bytes → Bytes → Bytes
err_text out m = if ltb (length out) 1024 then snprintf 1024 out m else out

unfoldable pub ssl_err_str : Bytes → List Bytes → Bytes
ssl_err_str out [] = out
ssl_err_str out (m ∷ []) = err_text out m
ssl_err_str out (m ∷ n ∷ ms) =
    let out' = err_text out m in
    ssl_err_str (if ltb (length out') 1024 then out' ++ (32 ∷ []) else out') (n ∷ ms)

-- `pem_passwd_cb`: the text in the buffer of `size` bytes, and its length.
unfoldable pub pem_passwd_cb : ℕ → Bytes → Bytes × ℕ
pem_passwd_cb size userdata = let text = take (size - 1) (cstr userdata) in (text, length text)

-- Init between two of its parts, or where it has returned.
pub data Progress (K : Type 0) : Type 0 where
  go : K → ErrorHandler → Progress K
  stop : K → ErrorHandler → Progress K

module _ {K : Type 0} where
  abbrev pub and_then : Progress K → (K → ErrorHandler → Progress K) → Progress K
  and_then (stop k e) next = stop k e
  and_then (go k e) next = next k e

  abbrev pub left : Progress K → K × ErrorHandler
  left (go k e) = (k, e)
  left (stop k e) = (k, e)

-- `text != NULL && strlen(text) > 0`
abbrev pub given : Option Bytes → Bool
given none = false
given (some text) = not (is_empty (cstr text))

-- `%s` of a string, or of NULL as the C library prints it.
abbrev pub printed : Option Bytes → Bytes
printed none = codes "(null)"
printed (some text) = cstr text

-- A local File that Init sets.
unfoldable pub file_of : ErrorHandler → Option Bytes → Option Bytes → File × ErrorHandler
unfolding Names.init
file_of e name dir = Names.init (record { name = []; dir = []; descriptor = 0 }) e name dir

module _ {K : Type 0} (lib : Contexts K) where
  -- The event of a call that failed.
  abbrev pub failed_with : ErrorHandler → Bytes → K × List Bytes → Progress K
  failed_with e text (k, ms) = stop k (software_event e (text ++ ssl_err_str [] ms))

  abbrev pub tried : ErrorHandler → Bytes → K × Bool → Progress K
  tried e text (k, true) = go k e
  tried e text (k, false) = failed_with e text (lib.errors k)

  abbrev pub try_call : Bytes → CtxCall → K → ErrorHandler → Progress K
  try_call text call k e =
      tried e (codes "SSLContext::Init(): " ++ (text ++ codes " failed: ")) (lib.call k call)

  -- `Exists(NULL)`, with the event where it does not.
  abbrev pub present : Bytes → File → K → ErrorHandler → Progress K
  present text f k e =
      if not (is_empty f.name) && lib.exists k (path f none)
      then go k e
      else stop k (
          software_event e
            (codes "SSLContext::Init(): " ++ (text ++ (path f none ++ codes ", does not exist!"))))

  abbrev pub with_password : Option Bytes → K → K
  with_password none k = k
  with_password (some text) k = if given (some text) then lib.set k (password text) else k

  -- The key of the certificate.
  abbrev pub load_key : Args → File × ErrorHandler → K → Progress K
  load_key a (f, e) k =
      and_then
        (and_then (present (codes "keyfile: ") f k e) (λ k e.
          try_call (codes "SSL_CTX_use_PrivateKey_file()")
            (use_private_key (path f none) a.keyfile_type) (with_password a.pass_phrase k) e))
        (try_call (codes "SSL_CTX_check_private_key()") check_private_key)

  abbrev pub load_certificate : Args → File × ErrorHandler → K → Progress K
  load_certificate a (f, e) k =
      and_then
        (and_then (present (codes "certfile: ") f k e) (
          try_call (codes "SSL_CTX_use_certificate_file()")
            (use_certificate (path f none) a.certfile_type)))
        (λ k e.
          if given a.keyfile_name
          then load_key a (file_of e a.keyfile_name a.keyfile_dir) k
          else go k e)

  abbrev pub certify : Args → K → ErrorHandler → Progress K
  certify a k e =
      if given a.certfile_name
      then load_certificate a (file_of e a.certfile_name a.certfile_dir) k
      else go k e

  abbrev pub load_cas : Args → K → ErrorHandler → Progress K
  load_cas a k e =
      if given a.ca_file || given a.ca_path
      then tried e
          (codes "SSLContext::SSL_CTX_load_verify_locations(): CAfile ("
            ++ (printed a.ca_file ++ (codes "), CApath(" ++ (printed a.ca_path ++ codes "): "))))
          (lib.call k (verify_locations a.ca_file a.ca_path))
      else go k e

  abbrev pub settled : Args → K → K
  settled a k =
      let k' =
        lib.set (lib.set (lib.set k (verify_mode a.mode)) (verify_depth a.depth))
          (cache_mode a.cache) in
      if ltb 0 a.bits then lib.set k' (options a.bits) else k'

  -- The context, with its mode and the name of its sessions.
  abbrev pub started : Args → K → ErrorHandler → Progress K
  started a k e =
      and_then (try_call (codes "SSL_CTX_new()") ctx_new (lib.set k load_strings) e) (λ k e.
        try_call (codes "SSL_CTX_set_session_id_context()")
          (session_id_context (take (lib.id_length - 1) (cstr a.session_id)))
          (lib.set k partial_write) e)

  abbrev pub configured : Args → K → ErrorHandler → Progress K
  configured a k e =
      and_then (and_then (and_then (started a k e) (certify a)) (load_cas a))
        (λ k e. go (settled a k) e)

  -- `SSLContext::Init`
  unfoldable pub init_context : Args → K → ErrorHandler → K × ErrorHandler
  unfolding path file_of ssl_err_str
  init_context a k e =
      if a.method
      then left (configured a k e)
      else (k, software_event e (codes "SSLContext::Init(): SSL_METHOD* is NULL"))
