-- ===== src/Startup/Starts.antt =====
-- What is enough for the daemon to come to its accept loop.
use rblpolicyd.Prelude.{
  ℕ, ◌<◌, ◌≡◌, refl, ap, ◌∙◌, Bool-cases, inl, inr, Bool, true, false, Option, some, List, [], ◌∷◌,
  Bytes, ◌==◌, ◌&&◌, if◌then◌else◌, arith,
}
use rblpolicyd.Prelude.Int.{ℤ}
use rblpolicyd.CfgFile.{CfgItem, cfg_read, cfg_pointer}
use rblpolicyd.PidFile.{Check, checked, pid_check}
use rblpolicyd.Startup.{
  Step, goes, exits, and_then, Flags, defaults, option_loop, port_argument, Address, child, Machine,
  pidfile_free, configured, opened_socket, address_of, bound, listening, background, open_server,
  start, main,
}

goes_through {ℓ κ} :
    {A : Type ℓ} {B : Type κ} (s : Step A) (f : A → Step B) {a : A} {b : B}
    → s ≡ goes a
    → f a ≡ goes b
    → and_then s f ≡ goes b
goes_through s f e g = rw e g

opened_socket-goes :
    (sock : Option ℕ) (fd : ℕ) → sock ≡ some fd → 0 < fd → opened_socket sock ≡ goes (some fd)
unfolding opened_socket
opened_socket-goes sock fd e l =
    let real : (fd == 0) ≡ false = ground arith in rw (e, opened_socket, real) refl

background-goes : (m : Machine) (o : Flags) → m.fork ≡ child → background m o ≡ goes tt
unfolding background
background-goes m o e = elim (Bool-cases ((o.foreground == 0) && (o.debug == 0))) [
  | inl behind ↦ rw (behind, e) refl
  | inr front ↦ rw front refl
]

open_server-goes :
    (m : Machine) (o : Flags) (rblist : List CfgItem) (port : Bytes) (fd : ℕ) (sa : Address)
    → m.socket ≡ some fd
    → 0 < fd
    → address_of m port ≡ goes sa
    → m.bind (some fd) sa ≡ true
    → m.listen (some fd) ≡ true
    → m.fork ≡ child
    → open_server m o rblist port
      ≡ goes (record { flags = o; rblist = rblist; sock = some fd; address = sa })
unfolding open_server bound listening
open_server-goes m o rblist port fd sa sk l at bd ls fk =
    goes_through (opened_socket m.socket) _ (opened_socket-goes m.socket fd sk l) (
      goes_through (address_of m port) _ at (
        goes_through (bound m (some fd) sa) _ (rw bd refl) (
          goes_through (listening m (some fd)) _ (rw ls refl)
            (goes_through (background m o) _ (background-goes m o fk) refl))))

pidfile_free-goes :
    (c : Check) (unlinked : Bool) → c ≡ checked true unlinked → pidfile_free c ≡ goes tt
unfolding pidfile_free
pidfile_free-goes c unlinked e = rw (e, pidfile_free) refl

configured-goes :
    (items : List CfgItem) (it : CfgItem) (rest : List CfgItem)
    → items ≡ it ∷ rest
    → configured items ≡ goes (it ∷ rest)
unfolding configured
configured-goes items it rest e = rw (e, configured) refl

-- What is enough: options that all set something, one argument that names an address, no living
-- process in the file with its id, a configuration with an item, a resolver, and a socket with a
-- descriptor other than 0 that can be bound and listened on. In the background the process goes on as
-- the child of `fork`. Then `main` comes to its accept loop with these.
main-goes :
    (m : Machine) (atoi : Bytes → ℤ) (options : List (ℕ × Bytes)) (port : Bytes) (o : Flags)
    (it : CfgItem) (rblist : List CfgItem) (fd : ℕ) (sa : Address) (unlinked : Bool)
    → option_loop atoi options defaults ≡ goes o
    → pid_check (m.files o.pidfile) ≡ checked true unlinked
    → cfg_pointer (cfg_read m.calloc (m.read o.cfgpath)) ≡ it ∷ rblist
    → m.res_init ≡ true
    → m.socket ≡ some fd
    → 0 < fd
    → address_of m port ≡ goes sa
    → m.bind (some fd) sa ≡ true
    → m.listen (some fd) ≡ true
    → m.fork ≡ child
    → main m atoi options (port ∷ [])
      ≡ goes (record { flags = o; rblist = it ∷ rblist; sock = some fd; address = sa })
unfolding main start port_argument
main-goes m atoi options port o it rblist fd sa unlinked op pid cf res sk l at bd ls fk =
    goes_through (option_loop atoi options defaults) _ op (
      goes_through (pidfile_free (pid_check (m.files o.pidfile))) _
        (pidfile_free-goes _ unlinked pid)
        (goes_through (configured (cfg_pointer (cfg_read m.calloc (m.read o.cfgpath)))) _
          (configured-goes _ it rblist cf)
          (ap (λ b. if b then open_server m o (it ∷ rblist) port else exits 1) res
            ∙ open_server-goes m o (it ∷ rblist) port fd sa sk l at bd ls fk)))
