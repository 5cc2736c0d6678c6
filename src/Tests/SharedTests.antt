-- ===== src/Tests/SharedTests.antt =====
-- IPComm.cc, SSLConn.cc: programs over connections that are copied.
use ip_utils.Base.{◌≡◌, true, false, some, List, [], ◌∷◌, arith}
use ip_utils.Net.Shared.{Handle, World}
use ip_utils.Net.Shared.Counts.{IsShared}
use ip_utils.Net.Shared.Runs.{
  run_all, run_all-IsShared, Command, construct_one, copy_of, assign_to, destroy_at, close_at,
  open_at,
}
use ip_utils.Tests.FileTests.{empty_heap, empty_heap-IsCounted}

abbrev empty_world : World
empty_world = record { heap = empty_heap; alive = λ x. false; next = 0 }

empty_world-IsShared : IsShared empty_world []
empty_world-IsShared = record { counted = empty_heap-IsCounted; owner = λ x. 0; tls = tt }

-- Two connections with TLS, one of them copied, assigned to and closed, and two that end.
abbrev accept_and_drop : List Command
accept_and_drop =
    construct_one
    ∷ open_at 0 5 true
    ∷ construct_one
    ∷ open_at 0 6 true
    ∷ copy_of 0
    ∷ assign_to 2 0
    ∷ close_at 0
    ∷ destroy_at 1
    ∷ destroy_at 0
    ∷ []

run_all-IsShared_example :
    (gs : List Handle) × (v : World) × (run_all (λ x. true) accept_and_drop [] empty_world
      ≡ some (gs, v))
    × IsShared v gs
run_all-IsShared_example =
    run_all-IsShared (λ x. true) accept_and_drop [] empty_world (omega arith) empty_world-IsShared
