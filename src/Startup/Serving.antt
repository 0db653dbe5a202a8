-- ===== src/Startup/Serving.antt =====
-- The server is started on a socket that is bound and listens, with a usable list of blacklists.
use mathlib.Core.List.{cons-ne-nil}
use rblpolicyd.Prelude.{
  ap, ℕ, ◌≡◌, ◌≢◌, refl, sym, ◌∙◌, Bool, true, false, Option, List, [], ◌∷◌, Bytes, if◌then◌else◌,
  arith,
}
use rblpolicyd.Prelude.Int.{ℤ}
use rblpolicyd.CfgFile.{CfgItem, cfg_read, cfg_pointer}
use rblpolicyd.PidFile.{Check, checked, undefined, pid_check}
use rblpolicyd.Startup.{
  Step, goes, exits, crashes, and_then, Flags, defaults, option_loop, port_argument, Address,
  Machine, pidfile_free, configured, opened_socket, address_of, bound, listening, background, Ready,
  open_server, start, main, usage, initial,
}
use rblpolicyd.Server.Loop.{Good, cfg_pointer-IsItem}
use rblpolicyd.Server.Kept.{Kept}
use rblpolicyd.Globals.{is_run}
use rblpolicyd.ThrMgr.{Heap}

-- a step that goes on came through its first part
came_through {ℓ κ} :
    {A : Type ℓ} {B : Type κ} (s : Step A) (f : A → Step B) {b : B}
    → and_then s f ≡ goes b
    → (a : A) × (s ≡ goes a) × (f a ≡ goes b)
came_through (goes a) f e = (a, refl, e)
came_through (exits n) f e = absurd (ground (arith, e))
came_through crashes f e = absurd (ground (arith, e))

pidfile-allows :
    (c : Check) (u : Unit)
    → pidfile_free c ≡ goes u
    → (unlinked : Bool) × (c ≡ checked true unlinked)
unfolding pidfile_free
pidfile-allows (checked true unlinked) u e = (unlinked, refl)
pidfile-allows (checked false unlinked) u e = absurd (ground (arith, e))
pidfile-allows undefined u e = absurd (ground (arith, e))

configured-ne :
    (items : List CfgItem) {rblist : List CfgItem}
    → configured items ≡ goes rblist
    → (rblist ≡ items) × (rblist ≢ [])
unfolding configured
configured-ne [] e = absurd (ground (arith, e))
configured-ne (it ∷ items) {rblist} e =
    let same : rblist ≡ it ∷ items = cc in (same, λ n. cons-ne-nil it items (sym same ∙ n))

bound-binds :
    (m : Machine) (sock : Option ℕ) (sa : Address) {sa' : Address}
    → bound m sock sa ≡ goes sa'
    → (sa ≡ sa') × (m.bind sock sa ≡ true)
unfolding bound
bound-binds m sock sa e = ground (arith, e)

listening-listens :
    (m : Machine) (sock : Option ℕ) {sock' : Option ℕ}
    → listening m sock ≡ goes sock'
    → (sock ≡ sock') × (m.listen sock ≡ true)
unfolding listening
listening-listens m sock e = ground (arith, e)

port_argument-one :
    (arguments : List Bytes) {port : Bytes}
    → port_argument arguments ≡ goes port
    → arguments ≡ port ∷ []
unfolding port_argument usage
port_argument-one [] e = absurd (ground (arith, e))
port_argument-one (port ∷ []) e = cc
port_argument-one (port ∷ next ∷ more) e = absurd (ground (arith, e))

-- What holds of the socket and the address that the server is called with.
abbrev Listens : Machine → Bytes → Ready → Type 0
Listens m port r =
    (address_of m port ≡ goes r.address)
    × (m.bind r.sock r.address ≡ true)
    × (m.listen r.sock ≡ true)

ready-Listens :
    (m : Machine) (port : Bytes) (o : Flags) (rblist : List CfgItem) {sock sock' : Option ℕ}
    {sa sa' : Address} {r : Ready}
    → goes (record { flags = o; rblist = rblist; sock = sock'; address = sa' }) ≡ goes r
    → (sock ≡ sock') × (m.listen sock ≡ true)
    → (sa ≡ sa') × (m.bind sock sa ≡ true)
    → address_of m port ≡ goes sa
    → Listens m port r × (r.flags ≡ o) × (r.rblist ≡ rblist)
ready-Listens m port o rblist {sock} {sock'} {sa} {sa'} {r} e (same_sock, listens) (same_sa, binds)
      at =
    let same : record { flags = o; rblist = rblist; sock = sock'; address = sa' } ≡ r = cc in
    rw (sym same, sym same_sock, sym same_sa) ((at, binds, listens), refl, refl)

open_server-Listens :
    (m : Machine) (o : Flags) (rblist : List CfgItem) (port : Bytes) {r : Ready}
    → open_server m o rblist port ≡ goes r
    → Listens m port r × (r.flags ≡ o) × (r.rblist ≡ rblist)
unfolding open_server
open_server-Listens m o rblist port {r} e =
    let (sock, _, e₁) = came_through (opened_socket m.socket) _ e in
    let (sa, at, e₂) = came_through (address_of m port) _ e₁ in
    let (sa', bd, e₃) = came_through (bound m sock sa) _ e₂ in
    let (sock', ls, e₄) = came_through (listening m sock) _ e₃ in
    let (_, _, e₅) = came_through (background m o) _ e₄ in
    ready-Listens m port o rblist e₅ (listening-listens m sock ls) (bound-binds m sock sa bd) at

-- What holds when the daemon comes to its accept loop.
abbrev pub Serves : Machine → (Bytes → ℤ) → List (ℕ × Bytes) → List Bytes → Ready → Type 0
Serves m atoi options arguments r =
    (port : Bytes) × (arguments ≡ port ∷ [])
    × Listens m port r
    × (option_loop atoi options defaults ≡ goes r.flags)
    × (r.rblist ≡ cfg_pointer (cfg_read m.calloc (m.read r.flags.cfgpath)))
    × Good r.rblist
    × ((unlinked : Bool) × (pid_check (m.files r.flags.pidfile) ≡ checked true unlinked))

resolver_ready {ℓ} :
    {A : Type ℓ} (ready : Bool) (s : Step A) {a : A}
    → (if ready then s else exits 1) ≡ goes a
    → s ≡ goes a
resolver_ready true s e = e
resolver_ready false s e = absurd (ground (arith, e))

start-Serves :
    (m : Machine) (o : Flags) (port : Bytes) {r : Ready}
    → start m o port ≡ goes r
    → Listens m port r
      × (r.flags ≡ o)
      × (r.rblist ≡ cfg_pointer (cfg_read m.calloc (m.read o.cfgpath)))
      × (r.rblist ≢ [])
      × ((unlinked : Bool) × (pid_check (m.files o.pidfile) ≡ checked true unlinked))
unfolding start
start-Serves m o port {r} e =
    let (u, pf, e₁) = came_through (pidfile_free (pid_check (m.files o.pidfile))) _ e in
    let (rblist, cf, e₂) =
      came_through (configured (cfg_pointer (cfg_read m.calloc (m.read o.cfgpath)))) _ e₁ in
    let (same, ne) = configured-ne (cfg_pointer (cfg_read m.calloc (m.read o.cfgpath))) cf in
    let (ls, fl, li) = open_server-Listens m o rblist port (resolver_ready m.res_init _ e₂) in
    (ls, fl, li ∙ same, (λ n. ne (sym li ∙ n)), pidfile-allows _ u pf)

-- When `main` comes to the accept loop: one argument was given, the options were accepted, no living
-- process is recorded in the file for it, the blacklists are those that `cfg_read` returned, at least
-- one of them, all valid, and the socket is bound to the address that the argument names and listens.
pub main-Serves :
    (m : Machine) (atoi : Bytes → ℤ) (options : List (ℕ × Bytes)) (arguments : List Bytes)
    {r : Ready}
    → main m atoi options arguments ≡ goes r
    → Serves m atoi options arguments r
unfolding main
main-Serves m atoi options arguments {r} e =
    let (o, op, e₁) = came_through (option_loop atoi options defaults) _ e in
    let (port, pt, e₂) = came_through (port_argument arguments) _ e₁ in
    let (ls, fl, li, ne, pf) = start-Serves m o port e₂ in
    (
      port,
      port_argument-one arguments pt,
      ls,
      rw fl op,
      rw fl li,
      (ne, rw li (cfg_pointer-IsItem m.calloc (m.read o.cfgpath))),
      rw fl pf,
    )

pub begin-Kept : (h : Heap) (r : Ready) → Kept r.rblist (initial h r)
unfolding initial is_run
begin-Kept h r = (refl, λ e. ground (arith, ap is_run e))
