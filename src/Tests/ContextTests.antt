-- ===== src/Tests/ContextTests.antt =====
-- SSLContext.cc, Init: the theorem on concrete arguments.
use ip_utils.Base.{ℕ, suc, ◌≡◌, refl, true, false, none, some, [], codes}
use ip_utils.ErrorHandler.{no_error}
use ip_utils.File.Names
use ip_utils.File.Names.{path}
use ip_utils.Net.Tls.Context.{file_of, init_context, Args, Contexts}
use ip_utils.Net.Tls.Context.Calls.{actions, run_actions}
use ip_utils.Net.Tls.Context.Ordered.{init_context-actions}

-- The state is the count of calls.
abbrev counting : Contexts ℕ
counting = record {
  call = λ k c. (suc k, true);
  set = λ k s. suc k;
  exists = λ k p. true;
  errors = λ k. (k, []);
  id_length = 32;
}

abbrev host_args : Args
host_args = record {
  method = true;
  session_id = codes "web";
  keyfile_name = some (codes "key.pem");
  keyfile_dir = some (codes "etc");
  keyfile_type = 1;
  pass_phrase = some (codes "pw");
  certfile_name = some (codes "cert.pem");
  certfile_dir = some (codes "etc");
  certfile_type = 1;
  ca_file = none;
  ca_path = some (codes "ca");
  mode = 1;
  depth = 2;
  cache = 3;
  bits = 4;
}

host-quiet : (init_context counting host_args 0 no_error).1.event_flag ≡ false
unfolding init_context path file_of Names.init Names.set_name Names.set_dir Names.is_path_tainted
host-quiet = refl

init_context-actions_example :
    (host_args.method ≡ true)
    × (run_actions counting 0 (actions host_args 32)
        ≡ some (init_context counting host_args 0 no_error).0)
init_context-actions_example = init_context-actions counting host_args 0 no_error host-quiet
