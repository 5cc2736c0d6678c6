-- ===== src/Tests/FileTests.antt =====
-- File.cc and Descriptor.cc on concrete inputs.
use ip_utils.Base.{
  ℕ, ◌≡◌, refl, true, false, none, some, List, [], ◌∷◌, arith, ◌==◌, if◌then◌else◌, codes, length,
  kept_nul, strncasecmp_eq,
}
use ip_utils.File.{clear_file, File, Heap}
use ip_utils.File.Counts.{holders, IsCounted}
use ip_utils.File.Runs.{
  run_all, run_all-IsCounted, Command, construct, copy_of, assign_to, destroy, clear_at,
}
use ip_utils.File.Close.{opened, clear_file_leaks}
use ip_utils.File.Names.{ends_in_slash, means_stdin, init_from_buf, path}
use ip_utils.File.Paths.{init_from_buf-path}
use ip_utils.File.Names
use ip_utils.ErrorHandler.{no_error}

abbrev pub empty_heap : Heap
empty_heap = record { cells = λ a. none; fresh = 0; closed = []; fclosed = []; error = no_error }

pub empty_heap-IsCounted : IsCounted empty_heap []
unfolding holders
empty_heap-IsCounted = record { held = λ a. refl; unused = λ a beyond. refl }

abbrev copy_and_clear : List Command
copy_and_clear = construct ∷ copy_of 0 ∷ construct ∷ assign_to 0 0 ∷ clear_at 1 ∷ destroy 0 ∷ []

run_all-IsCounted_example :
    (gs : List File) × (v : Heap) × (run_all copy_and_clear [] empty_heap ≡ some (gs, v))
    × IsCounted v gs
run_all-IsCounted_example =
    run_all-IsCounted copy_and_clear [] empty_heap (omega arith) empty_heap-IsCounted

abbrev log_file : File
log_file = record { name = codes "log"; dir = []; descriptor = 0 }

abbrev one_open : ℕ → Heap
one_open cnt = record empty_heap {
  cells = λ a. if a == 0 then some (opened 5 cnt) else none;
  fresh = 1;
}

clear_file_leaks_example :
    (g : File) × (v : Heap) × (clear_file log_file (one_open 1) ≡ some (g, v))
    × (v.closed ≡ [])
    × (v.cells 0 ≡ none)
    × (v.error.event_flag ≡ true)
clear_file_leaks_example = clear_file_leaks log_file (one_open 1) 5 refl (omega arith)

tmp_path : (ends_in_slash (codes "tmp/a.txt") ≡ false) × (means_stdin (codes "tmp/a.txt") ≡ false)
unfolding ends_in_slash strncasecmp_eq
tmp_path = (refl, refl)

init_from_buf-path_example :
    let r = Names.init_from_buf log_file no_error (some (codes "tmp/a.txt")) in
    (path r.0 none ≡ codes "tmp/a.txt") × (r.1 ≡ no_error) × (r.2 ≡ length (codes "tmp/a.txt"))
init_from_buf-path_example =
    init_from_buf-path log_file no_error (codes "tmp/a.txt") (kept_nul (codes "tmp/a.txt") refl)
      (omega arith) tmp_path.0 tmp_path.1
