-- ===== src/Net/Shared/Keeps.antt =====
-- Each operation on connections that are copied keeps the counts and the SSL objects right.
use mathlib.Core.Path.{subst}
use ip_utils.Base.{
  ℕ, suc, ◌+◌, ◌-◌, ◌^◌, ◌<◌, ◌≡◌, refl, sym, ap, ◌∙◌, Bool, true, false, Option, none, some, List,
  [], ◌∷◌, ◌++◌, arith, ◌==◌, if◌then◌else◌, length,
}
use ip_utils.File.{put, new_file, Descriptor, Heap}
use ip_utils.File.Counts.{
  holders, holders_here, used_below, put-IsCounted, same_address, HeldBy, share-IsCounted,
  new_file-IsCounted, IsCounted,
}
use ip_utils.Net.Shared.{
  construct, close_fd, destroy, clear, close, opening, open_socket, asked, copy, assign, Handle,
  World,
}
use ip_utils.Net.Shared.Counts.{
  as_file, files, held_cell, release-IsCounted, free_last-IsLoose, heap-AllHold, Holds, AllHold,
  IsShared,
}

length-files : (hs : List Handle) → length (files hs) ≡ length hs
length-files [] = refl
length-files (h ∷ hs) = ap suc (length-files hs)

abbrev pub Few : List Handle → Type 0
Few hs = length hs < 2 ^ 32 - 1

-- What an operation leaves: the connections `hs` and their world.
abbrev pub Left : List Handle → Option (Handle × World) → Type 0
Left hs r = (g : Handle) × (v : World) × (r ≡ some (g, v)) × IsShared v (g ∷ hs)

pub construct-IsShared :
    (hs : List Handle) (w : World) → IsShared w hs → IsShared (construct w).1 ((construct w).0 ∷ hs)
unfolding construct new_file
construct-IsShared hs w s = record {
  counted = new_file-IsCounted (files hs) w.heap s.counted;
  owner = s.owner;
  tls = (tt, heap-AllHold s.owner w (new_file w.heap).1 hs s.tls);
}

pub destroy-IsShared :
    (h : Handle) (hs : List Handle) (w : World)
    → Few hs
    → IsShared w (h ∷ hs)
    → (v : World) × (destroy h w ≡ some v) × IsShared v hs
unfolding destroy
destroy-IsShared h hs w small s =
    let (u, ssl_gone, l) = free_last-IsLoose h hs w s in
    let (heap, gone, counted) =
      release-IsCounted (as_file h) (files hs) u.heap (omega (arith, length-files hs)) l.counted in
    rw (ssl_gone, gone)
      (
        record u { heap = heap },
        refl,
        record { counted = counted; owner = l.owner; tls = heap-AllHold l.owner u heap hs l.tls },
      )

pub clear-Left :
    (h : Handle) (hs : List Handle) (w : World) → Few hs → IsShared w (h ∷ hs) → Left hs (clear h w)
unfolding clear
clear-Left h hs w small s =
    let (v, gone, left) = destroy-IsShared h hs w small s in
    rw gone ((construct v).0, (construct v).1, refl, construct-IsShared hs v left)

-- A write to the cell of a Descriptor that keeps its count.
write-IsCounted :
    (h : Handle) (hs : List Handle) (w u : Heap) (d e : Descriptor)
    → IsCounted w (files (h ∷ hs))
    → w.cells h.descriptor ≡ some d
    → (u.cells ≡ w.cells) × (u.fresh ≡ w.fresh)
    → e.cnt ≡ d.cnt
    → IsCounted (put u h.descriptor (some e)) (files (h ∷ hs))
write-IsCounted h hs w u d e c at (cells, fresh) same =
    let a = h.descriptor in
    let (count, positive) = subst (HeldBy (holders a (files (h ∷ hs)))) at (c.held a) in
    put-IsCounted w u (files (h ∷ hs)) (files (h ∷ hs)) a (some e) c
      (λ b other. ap (λ (f : ℕ → Option Descriptor). f b) cells, fresh)
      (used_below w (files (h ∷ hs)) a d c at) (same ∙ count, positive) (λ b other. refl)

close_fd-IsCounted :
    (h : Handle) (hs : List Handle) (w : Heap) (d : Descriptor) (fd : Option ℕ)
    → IsCounted w (files (h ∷ hs))
    → w.cells h.descriptor ≡ some d
    → IsCounted (close_fd h.descriptor w d fd) (files (h ∷ hs))
close_fd-IsCounted h hs w d none c at = c
close_fd-IsCounted h hs w d (some fd) c at =
    write-IsCounted h hs w (record w { closed = w.closed ++ (fd ∷ []) }) d (record d { fd = none })
      c at (refl, refl) refl

pub close-Left :
    (h : Handle) (hs : List Handle) (w : World) → IsShared w (h ∷ hs) → Left hs (close h w)
unfolding close
close-Left h hs w s =
    let (d, at, count) = held_cell (as_file h) (files hs) w.heap s.counted in
    let heap = close_fd h.descriptor w.heap d d.fd in
    rw at (
      record h { connected = false; listening = false },
      record w { heap = heap },
      refl,
      record {
        counted = close_fd-IsCounted h hs w.heap d d.fd s.counted at;
        owner = s.owner;
        tls = heap-AllHold s.owner w heap (h ∷ hs) s.tls;
      },
    )

-- A new SSL object, for the connections that held the others.
owned_too : (ℕ → ℕ) → ℕ → ℕ → ℕ → ℕ
owned_too owner x a y = if y == x then a else owner y

abbrev opened : World → Heap → World
opened w heap = record {
  heap = heap;
  alive = λ y. if y == w.next then true else w.alive y;
  next = w.next + 1;
}

opened-Holds :
    (owner : ℕ → ℕ) (w : World) (heap : Heap) (a : ℕ) (ssl : Option ℕ) (b : ℕ)
    → Holds owner w ssl b
    → Holds (owned_too owner w.next a) (opened w heap) ssl b
unfolding owned_too
opened-Holds owner w heap a none b h = tt
opened-Holds owner w heap a (some y) b (alive, owned, below) =
    let other : (y == w.next) ≡ false = ground arith in
    (rw other alive, rw other owned, omega arith)

opened-AllHold :
    (owner : ℕ → ℕ) (w : World) (heap : Heap) (a : ℕ) (hs : List Handle)
    → AllHold owner w hs
    → AllHold (owned_too owner w.next a) (opened w heap) hs
opened-AllHold owner w heap a [] h = tt
opened-AllHold owner w heap a (g ∷ gs) (here, there) =
    (opened-Holds owner w heap a g.ssl g.descriptor here, opened-AllHold owner w heap a gs there)

new_ssl-Holds :
    (owner : ℕ → ℕ) (w : World) (heap : Heap) (a : ℕ)
    → Holds (owned_too owner w.next a) (opened w heap) (some w.next) a
unfolding owned_too
new_ssl-Holds owner w heap a =
    let same = same_address w.next in (rw same refl, rw same refl, omega arith)

opening-Left :
    (h : Handle) (hs : List Handle) (w : World) (fd : ℕ) (tls : Bool) (d : Descriptor)
    → IsShared w (h ∷ hs)
    → w.heap.cells h.descriptor ≡ some d
    → Left hs (opening h w fd tls (some d))
opening-Left h hs w fd true d s at =
    let heap = put w.heap h.descriptor (some (record d { fd = some fd })) in
    (
      record h { ssl = some w.next },
      opened w heap,
      refl,
      record {
        counted =
            write-IsCounted h hs w.heap w.heap d (record d { fd = some fd }) s.counted at
              (refl, refl) refl;
        owner = owned_too s.owner w.next h.descriptor;
        tls = (
          new_ssl-Holds s.owner w heap h.descriptor,
          opened-AllHold s.owner w heap h.descriptor hs s.tls.1,
        );
      },
    )
opening-Left h hs w fd false d s at =
    let heap = put w.heap h.descriptor (some (record d { fd = some fd })) in
    (
      h,
      record w { heap = heap },
      refl,
      record {
        counted =
            write-IsCounted h hs w.heap w.heap d (record d { fd = some fd }) s.counted at
              (refl, refl) refl;
        owner = s.owner;
        tls = heap-AllHold s.owner w heap (h ∷ hs) s.tls;
      },
    )

pub open_socket-Left :
    (h : Handle) (hs : List Handle) (w : World) (fd : ℕ) (tls : Bool)
    → IsShared w (h ∷ hs)
    → Left hs (open_socket h w fd tls)
unfolding open_socket
open_socket-Left h hs w fd tls s =
    let (d, at, count) = held_cell (as_file h) (files hs) w.heap s.counted in
    subst (λ (cell : Option Descriptor). Left hs (opening h w fd tls cell)) (sym at)
      (opening-Left h hs w fd tls d s at)

asked-some :
    (peer_has_one : ℕ → Bool) (owner : ℕ → ℕ) (w : World) (ssl : Option ℕ) (a : ℕ)
    → Holds owner w ssl a
    → (b : Bool) × (asked peer_has_one ssl w ≡ some b)
asked-some peer_has_one owner w none a h = (false, refl)
asked-some peer_has_one owner w (some x) a (alive, owned, below) = (peer_has_one x, rw alive refl)

module _ (peer_has_one : ℕ → Bool) where
  pub copy-Left :
      (src : Handle) (hs : List Handle) (w : World)
      → Few (src ∷ hs)
      → IsShared w (src ∷ hs)
      → Left (src ∷ hs) (copy peer_has_one src w)
  unfolding copy
  copy-Left src hs w small s =
      let (heap, shared, counted) =
        share-IsCounted (as_file src) (files (src ∷ hs)) w.heap (omega (arith, length-files hs))
          s.counted (omega (arith, holders_here (as_file src) (files hs))) in
      let tls = heap-AllHold s.owner w heap (src ∷ hs) s.tls in
      let (b, answer) =
        asked-some peer_has_one s.owner (record w { heap = heap }) src.ssl src.descriptor tls.0 in
      rw (shared, answer)
        (
          record src { certificate = b },
          record w { heap = heap },
          refl,
          record { counted = counted; owner = s.owner; tls = (tls.0, tls) },
        )

  pub assign-Left :
      (h src : Handle) (hs : List Handle) (w : World)
      → Few (src ∷ hs)
      → IsShared w (h ∷ src ∷ hs)
      → Left (src ∷ hs) (assign peer_has_one h src w)
  unfolding assign
  assign-Left h src hs w small s =
      let (u, ssl_gone, l) = free_last-IsLoose h (src ∷ hs) w s in
      let (b, answer) = asked-some peer_has_one l.owner u src.ssl src.descriptor l.tls.0 in
      let (heap, gone, left) =
        release-IsCounted (as_file h) (files (src ∷ hs)) u.heap (omega (arith, length-files hs))
          l.counted in
      let (heap', shared, counted) =
        share-IsCounted (as_file src) (files (src ∷ hs)) heap (omega (arith, length-files hs)) left
          (omega (arith, holders_here (as_file src) (files hs))) in
      let tls = heap-AllHold l.owner u heap' (src ∷ hs) l.tls in
      rw (ssl_gone, answer, gone, shared)
        (
          record src { certificate = b },
          record u { heap = heap' },
          refl,
          record { counted = counted; owner = l.owner; tls = (tls.0, tls) },
        )
