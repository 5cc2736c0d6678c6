-- ===== src/Net/Shared/Runs.antt =====
-- Programs over connections that are copied.
use ip_utils.Base.{
  ℕ, zero, suc, ◌+◌, ◌-◌, ◌^◌, ◌≤◌, ◌<◌, ◌≡◌, refl, ap, ◌∙◌, Bool, Option, none, some, List, [],
  ◌∷◌, arith, ◌==◌, if◌then◌else◌, length,
}
use ip_utils.File.Runs.{behind, pick}
use ip_utils.File.Counts.{holders}
use ip_utils.Net.Shared.{construct, destroy, clear, close, open_socket, copy, assign, Handle, World}
use ip_utils.Net.Shared.Counts.{files, AllHold, IsShared}
use ip_utils.Net.Shared.Keeps.{
  Left, construct-IsShared, destroy-IsShared, clear-Left, close-Left, open_socket-Left, copy-Left,
  assign-Left,
}

-- A connection is named by its place among those that are alive; the source of an assignment by
-- its place among the others. `open_at` is a Socket that gets a descriptor, with TLS or without.
pub data Command : Type 0 where
  construct_one : Command
  copy_of : ℕ → Command
  assign_to : ℕ → ℕ → Command
  destroy_at : ℕ → Command
  clear_at : ℕ → Command
  close_at : ℕ → Command
  open_at : ℕ → ℕ → Bool → Command

abbrev pub Conns : Type 0
Conns = List Handle × World

-- What an operation makes of a connection, with the others.
abbrev keep_front : List Handle → Option (Handle × World) → Option Conns
keep_front rest none = none
keep_front rest (some (g, w)) = some (g ∷ rest, w)

abbrev keep_rest : List Handle → Option World → Option Conns
keep_rest rest none = none
keep_rest rest (some w) = some (rest, w)

-- A command for a place where no connection is does nothing.
abbrev with_picked :
    Conns → (Handle → List Handle → Option Conns) → Option (Handle × List Handle) → Option Conns
with_picked c op none = some c
with_picked c op (some (h, rest)) = op h rest

module _ (peer_has_one : ℕ → Bool) where
  unfoldable pub run : Command → List Handle → World → Option Conns
  run construct_one hs w = let (h, w') = construct w in some (h ∷ hs, w')
  run (copy_of i) hs w =
      with_picked (hs, w) (λ h rest. keep_front (h ∷ rest) (copy peer_has_one h w)) (pick i hs)
  run (assign_to i j) hs w =
      with_picked (hs, w)
        (λ h rest.
          with_picked (hs, w)
            (λ src others. keep_front (src ∷ others) (assign peer_has_one h src w)) (pick j rest))
        (pick i hs)
  run (destroy_at i) hs w = with_picked (hs, w) (λ h rest. keep_rest rest (destroy h w)) (pick i hs)
  run (clear_at i) hs w = with_picked (hs, w) (λ h rest. keep_front rest (clear h w)) (pick i hs)
  run (close_at i) hs w = with_picked (hs, w) (λ h rest. keep_front rest (close h w)) (pick i hs)
  run (open_at i fd tls) hs w =
      with_picked (hs, w) (λ h rest. keep_front rest (open_socket h w fd tls)) (pick i hs)

  abbrev then_run : Option Conns → (List Handle → World → Option Conns) → Option Conns
  then_run none f = none
  then_run (some (hs, w)) f = f hs w

  unfoldable pub run_all : List Command → List Handle → World → Option Conns
  run_all [] hs w = some (hs, w)
  run_all (c ∷ cs) hs w = then_run (run c hs w) (run_all cs)

-- A run that reads no deleted Descriptor and no freed SSL object, with at most `n` connections.
abbrev Good : ℕ → Option Conns → Type 0
Good n r = (hs : List Handle) × (w : World) × (r ≡ some (hs, w)) × IsShared w hs × (length hs ≤ n)

-- What is picked and the others are the same connections.
abbrev Picked : List Handle → Option (Handle × List Handle) → Type 0
Picked hs none = Unit
Picked hs (some (h, rest)) =
    ((a : ℕ) → holders a (files (h ∷ rest)) ≡ holders a (files hs))
    × ((owner : ℕ → ℕ) (w : World) → AllHold owner w hs → AllHold owner w (h ∷ rest))
    × (suc (length rest) ≡ length hs)

swap_holders :
    (a : ℕ) (f g : Handle) (gs : List Handle)
    → holders a (files (g ∷ f ∷ gs)) ≡ holders a (files (f ∷ g ∷ gs))
unfolding holders
swap_holders a f g gs = ground arith

behind-Picked :
    (f : Handle) (hs : List Handle) (r : Option (Handle × List Handle))
    → Picked hs r
    → Picked (f ∷ hs) (behind f r)
unfolding holders
behind-Picked f hs none p = tt
behind-Picked f hs (some (g, gs)) (same, tls, size) = (
  λ a. swap_holders a f g gs ∙ ap (λ (k : ℕ). if f.descriptor == a then suc k else k) (same a),
  λ owner w (here, there). let (g_holds, others) = tls owner w there in (g_holds, (here, others)),
  omega (arith, size),
)

pick-Picked : (i : ℕ) (hs : List Handle) → Picked hs (pick i hs)
unfolding pick
pick-Picked i [] = tt
pick-Picked zero (f ∷ fs) = (λ a. refl, λ owner w h. h, refl)
pick-Picked (suc i) (f ∷ fs) = behind-Picked f fs (pick i fs) (pick-Picked i fs)

Picked-IsShared :
    (w : World) (hs : List Handle) (h : Handle) (rest : List Handle)
    → Picked hs (some (h, rest))
    → IsShared w hs
    → IsShared w (h ∷ rest)
Picked-IsShared w hs h rest (same, tls, size) s = record {
  counted = record { held = λ a. rw (same a) (s.counted.held a); unused = s.counted.unused };
  owner = s.owner;
  tls = tls s.owner w s.tls;
}

-- A pick among what another pick left.
under :
    (w : World) (f : Handle) (hs : List Handle) (g : Handle) (gs : List Handle)
    → Picked hs (some (g, gs))
    → IsShared w (f ∷ hs)
    → IsShared w (f ∷ g ∷ gs)
unfolding holders
under w f hs g gs (same, tls, size) s = record {
  counted = record {
    held = λ a.
        rw (ap (λ (k : ℕ). if f.descriptor == a then suc k else k) (same a)) (s.counted.held a);
    unused = s.counted.unused;
  };
  owner = s.owner;
  tls = (s.tls.0, tls s.owner w s.tls.1);
}

keep_front-Good :
    (rest : List Handle) (n : ℕ) (r : Option (Handle × World))
    → length rest < suc n
    → Left rest r
    → Good (suc n) (keep_front rest r)
keep_front-Good rest n r size (g, v, res, s) = rw res (g ∷ rest, v, refl, s, omega arith)

module _ (hs : List Handle) (w : World) (n : ℕ) (bound : length hs ≤ n) (small : n < 2 ^ 32 - 1)
    (s : IsShared w hs) where
  with_picked-Good :
      (op : Handle → List Handle → Option Conns) (others : List Handle)
      (r : Option (Handle × List Handle))
      → Picked others r
      → ((h : Handle) (rest : List Handle)
          → Picked others (some (h, rest))
          → Good (suc n) (op h rest))
      → Good (suc n) (with_picked (hs, w) op r)
  with_picked-Good op others none p good = (hs, w, refl, s, omega arith)
  with_picked-Good op others (some (h, rest)) p good = good h rest p

  run-Good :
      (peer_has_one : ℕ → Bool) (command : Command) → Good (suc n) (run peer_has_one command hs w)
  unfolding run
  run-Good peer_has_one construct_one = (_, _, refl, construct-IsShared hs w s, omega arith)
  run-Good peer_has_one (copy_of i) =
      with_picked-Good (λ h rest. keep_front (h ∷ rest) (copy peer_has_one h w)) hs (pick i hs)
        (pick-Picked i hs)
        (λ h rest p.
          keep_front-Good (h ∷ rest) n (copy peer_has_one h w) (omega (arith, p.2)) (
            copy-Left peer_has_one h rest w (omega (arith, p.2)) (Picked-IsShared w hs h rest p s)))
  run-Good peer_has_one (assign_to i j) =
      with_picked-Good
        (λ h rest.
          with_picked (hs, w)
            (λ src others. keep_front (src ∷ others) (assign peer_has_one h src w)) (pick j rest))
        hs (pick i hs) (pick-Picked i hs)
        (λ h rest p.
          with_picked-Good (λ src others. keep_front (src ∷ others) (assign peer_has_one h src w))
            rest (pick j rest) (pick-Picked j rest)
            (λ src others q.
              keep_front-Good (src ∷ others) n (assign peer_has_one h src w)
                (omega (arith, p.2, q.2))
                (assign-Left peer_has_one h src others w (omega (arith, p.2, q.2))
                  (under w h rest src others q (Picked-IsShared w hs h rest p s)))))
  run-Good peer_has_one (destroy_at i) =
      with_picked-Good (λ h rest. keep_rest rest (destroy h w)) hs (pick i hs) (pick-Picked i hs)
        (λ h rest p.
          let (v, gone, left) =
            destroy-IsShared h rest w (omega (arith, p.2)) (Picked-IsShared w hs h rest p s) in
          rw gone (rest, v, refl, left, omega (arith, p.2)))
  run-Good peer_has_one (clear_at i) =
      with_picked-Good (λ h rest. keep_front rest (clear h w)) hs (pick i hs) (pick-Picked i hs)
        (λ h rest p.
          keep_front-Good rest n (clear h w) (omega (arith, p.2))
            (clear-Left h rest w (omega (arith, p.2)) (Picked-IsShared w hs h rest p s)))
  run-Good peer_has_one (close_at i) =
      with_picked-Good (λ h rest. keep_front rest (close h w)) hs (pick i hs) (pick-Picked i hs)
        (λ h rest p.
          keep_front-Good rest n (close h w) (omega (arith, p.2))
            (close-Left h rest w (Picked-IsShared w hs h rest p s)))
  run-Good peer_has_one (open_at i fd tls) =
      with_picked-Good (λ h rest. keep_front rest (open_socket h w fd tls)) hs (pick i hs)
        (pick-Picked i hs)
        (λ h rest p.
          keep_front-Good rest n (open_socket h w fd tls) (omega (arith, p.2))
            (open_socket-Left h rest w fd tls (Picked-IsShared w hs h rest p s)))

run_all-Good :
    (peer_has_one : ℕ → Bool) (cs : List Command) (hs : List Handle) (w : World) (n : ℕ)
    → length hs ≤ n
    → n + length cs < 2 ^ 32 - 1
    → IsShared w hs
    → Good (n + length cs) (run_all peer_has_one cs hs w)
unfolding run_all
run_all-Good peer_has_one [] hs w n bound small s = (hs, w, refl, s, omega arith)
run_all-Good peer_has_one (command ∷ cs) hs w n bound small s =
    let (gs, v, res, shared, size) = run-Good hs w n bound (omega arith) s peer_has_one command in
    let (ks, u, res', shared', size') =
      run_all-Good peer_has_one cs gs v (suc n) size (omega arith) shared in
    rw (res, res') (ks, u, refl, shared', omega arith)

-- Any program of constructions, copies, assignments between two objects, clears, closes, opened
-- sockets and destructions of SSLConn objects, started where the counts and the SSL objects are
-- right for the connections that are alive, with fewer than 2 ^ 32 - 1 connections and commands
-- in all, reads no deleted Descriptor and neither uses nor frees a freed SSL object. It ends where
-- each count is the number of the connections that hold the Descriptor, and every SSL object that a
-- connection holds is alive and goes with one Descriptor.
pub run_all-IsShared :
    (peer_has_one : ℕ → Bool) (cs : List Command) (hs : List Handle) (w : World)
    → length hs + length cs < 2 ^ 32 - 1
    → IsShared w hs
    → (gs : List Handle) × (v : World) × (run_all peer_has_one cs hs w ≡ some (gs, v))
      × IsShared v gs
run_all-IsShared peer_has_one cs hs w small s =
    let (gs, v, res, shared, size) =
      run_all-Good peer_has_one cs hs w (length hs) (omega arith) small s in
    (gs, v, res, shared)
