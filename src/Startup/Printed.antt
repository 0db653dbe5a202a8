-- ===== src/Startup/Printed.antt =====
-- rblpolicyd.c: `usage`, and what `main` prints on its standard output.
use rblpolicyd.Prelude.{
  ℕ, ◌≡◌, ◌≢◌, refl, Bool, true, false, not, ◌&&◌, append-nil, List, [], ◌∷◌, ◌++◌, Bytes, codes,
  All, ◌==◌, if◌then◌else◌, length, arith,
}
use rblpolicyd.Prelude.Int.{ℤ}
use rblpolicyd.Startup.{
  Step, goes, exits, crashes, usage, Flags, defaults, option, option_loop, port_argument, Machine,
  main,
}
use rblpolicyd.Startup.Options.{
  Given, AreChars, sets, last_of, exit_code, applied, option-applied, option-exits,
  option_loop-exits, option_loop-SetBy,
}

-- the text, which names the files in use
unfoldable pub usage_text : Bytes → Bytes → Bytes → Bytes
usage_text progname cfgpath pidfile =
    progname
    ++ codes " - a policy daemon for Postfix which allows combining different RBLs with weights.\n"
    ++ codes "Usage: "
    ++ progname
    ++ codes " [OPTION]... <port>\n"
    ++ codes
        "<port> may be either a UNIX socket path, a host:port pair, or a plain\nport name oder -number.\n"
    ++ codes "Options:\n"
    ++ codes "  -v, --verbose              verbose output\n"
    ++ codes "  -d, --debug                show debug output\n"
    ++ codes "  -f, --foreground           keep program in foreground\n"
    ++ codes "  -m, --maxthreads n         create up to N worker threads (0=disable threads)\n"
    ++ codes "  -c FILE, --cfgfile FILE    use config file FILE (current: "
    ++ cfgpath
    ++ codes ")\n"
    ++ codes "  -p FILE, --pidfile FILE    use file FILE to store pid (current: "
    ++ pidfile
    ++ codes ")\n"
    ++ codes "  -h, --help                 display this help and exit\n"
    ++ codes "  -V, --version              output version information and exit\n"

-- `argv[0]` and `VERSION`
pub record Program : Type 0 where
  pub progname : Bytes
  pub version : Bytes

unfoldable pub usage_printed : Program → Flags → Bytes
usage_printed p o = usage_text p.progname o.cfgpath o.pidfile

-- what an option prints that ends the process; the message on an unknown one goes to `stderr`
unfoldable pub option_printed : Program → ℕ → Flags → Bytes
option_printed p c o =
    if c == b'V' then codes "rblpolicyd " ++ p.version ++ codes "\n" else usage_printed p o

abbrev printed_by : Step Flags → (Flags → Bytes) → Bytes → Bytes
printed_by (goes o) later last = later o
printed_by (exits code) later last = last
printed_by crashes later last = []

-- the loop over the options: up to the one that ends the process
unfoldable pub options_printed : Program → (atoi : Bytes → ℤ) → Given → Flags → Bytes
options_printed p atoi [] o = []
options_printed p atoi ((c, optarg) ∷ rest) o =
    printed_by (option atoi c optarg o) (options_printed p atoi rest) (option_printed p c o)

-- `argc - optind != 1`
unfoldable pub argument_printed : Program → List Bytes → Flags → Bytes
argument_printed p [] o = usage_printed p o
argument_printed p (port ∷ []) o = []
argument_printed p (port ∷ next ∷ more) o = usage_printed p o

unfoldable pub printed : Program → (atoi : Bytes → ℤ) → Given → List Bytes → Bytes
printed p atoi options arguments =
    printed_by (option_loop atoi options defaults) (argument_printed p arguments)
      (options_printed p atoi options defaults)

AreChars-defaults : AreChars defaults
unfolding defaults
AreChars-defaults = (omega arith, omega arith, omega arith)

-- The usage written out, with the files that the last options `-c` and `-p` name, or those of `o`.
abbrev pub usage_with : Program → Given → Flags → Bytes
usage_with p given o =
    p.progname
    ++ codes " - a policy daemon for Postfix which allows combining different RBLs with weights.\n"
    ++ codes "Usage: "
    ++ p.progname
    ++ codes " [OPTION]... <port>\n"
    ++ codes
        "<port> may be either a UNIX socket path, a host:port pair, or a plain\nport name oder -number.\n"
    ++ codes "Options:\n"
    ++ codes "  -v, --verbose              verbose output\n"
    ++ codes "  -d, --debug                show debug output\n"
    ++ codes "  -f, --foreground           keep program in foreground\n"
    ++ codes "  -m, --maxthreads n         create up to N worker threads (0=disable threads)\n"
    ++ codes "  -c FILE, --cfgfile FILE    use config file FILE (current: "
    ++ last_of b'c' given o.cfgpath
    ++ codes ")\n"
    ++ codes "  -p FILE, --pidfile FILE    use file FILE to store pid (current: "
    ++ last_of b'p' given o.pidfile
    ++ codes ")\n"
    ++ codes "  -h, --help                 display this help and exit\n"
    ++ codes "  -V, --version              output version information and exit\n"

options_printed-usage :
    (p : Program) (atoi : Bytes → ℤ) (given : Given) (o : Flags) (c : ℕ) (arg : Bytes)
    (rest : Given)
    → All (λ g. sets g ≡ true) given
    → sets (c, arg) ≡ false
    → c ≢ b'V'
    → options_printed p atoi (given ++ (c, arg) ∷ rest) o ≡ usage_with p given o
unfolding options_printed option_printed usage_printed usage_text
options_printed-usage p atoi [] o c arg rest all s nv =
    let other : (c == b'V') ≡ false = ground (arith, nv) in
    rw (options_printed, option-exits atoi c arg o s) (rw other refl)
options_printed-usage p atoi ((c', arg') ∷ given) o c arg rest (s', all) s nv =
    rw (options_printed, option-applied atoi c' arg' o s')
      (options_printed-usage p atoi given (applied atoi c' arg' o) c arg rest all s nv)

argument_printed-usage :
    (p : Program) (arguments : List Bytes) (o : Flags)
    → length arguments ≢ 1
    → argument_printed p arguments o ≡ usage_text p.progname o.cfgpath o.pidfile
unfolding argument_printed usage_printed
argument_printed-usage p [] o ne = refl
argument_printed-usage p (port ∷ []) o ne = absurd (ne refl)
argument_printed-usage p (port ∷ next ∷ more) o ne = refl

port_argument-exits :
    (arguments : List Bytes) → length arguments ≢ 1 → port_argument arguments ≡ exits 1
unfolding port_argument usage
port_argument-exits [] ne = refl
port_argument-exits (port ∷ []) ne = absurd (ne refl)
port_argument-exits (port ∷ next ∷ more) ne = refl

-- `main` comes to `usage`: at an option that sets nothing and is not `-V`, or behind the options.
abbrev comes_to_usage : Given → List Bytes → Bool
comes_to_usage [] arguments = not (length arguments == 1)
comes_to_usage ((c, arg) ∷ rest) arguments = not (sets (c, arg)) && not (c == b'V')

abbrev pub usage_code : Given → ℕ
usage_code [] = 1
usage_code ((c, arg) ∷ rest) = exit_code c

-- Behind options that all set something the usage is printed, with the files that the last of them
-- named, and the process ends: at a next option that is `-h`, with 0; at one that is not known, with
-- 1; and where none is left, with 1 unless exactly one argument is.
pub printed-usage :
    (m : Machine) (p : Program) (atoi : Bytes → ℤ) (given rest : Given) (arguments : List Bytes)
    → All (λ g. sets g ≡ true) given
    → comes_to_usage rest arguments ≡ true
    → (main m atoi (given ++ rest) arguments ≡ exits (usage_code rest))
      × (printed p atoi (given ++ rest) arguments ≡ usage_with p given defaults)
unfolding main printed usage_text
printed-usage m p atoi given [] arguments all h =
    let (o, e, (_, _, _, path, file, _)) =
      option_loop-SetBy atoi given defaults all AreChars-defaults in
    let ne : length arguments ≢ 1 = ground (arith, h) in
    rw (append-nil given, e)
      (
        rw (port_argument-exits arguments ne) refl,
        rw (argument_printed-usage p arguments o ne, path, file) refl,
      )
printed-usage m p atoi given ((c, arg) ∷ rest) arguments all h =
    let ends : sets (c, arg) ≡ false = ground (arith, h) in
    let other : c ≢ b'V' = λ e. ground (arith, h, e) in
    rw (option_loop-exits atoi given defaults c arg rest all ends)
      (refl, options_printed-usage p atoi given defaults c arg rest all ends other)
