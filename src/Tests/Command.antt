-- ===== src/Tests/Command.antt =====
-- The command line, the signals, and the printed configuration at concrete inputs.
use rblpolicyd.Prelude.{
  ℕ, ◌≡◌, ◌≢◌, refl, Bool, true, false, not, ◌&&◌, some, List, [], ◌∷◌, ◌++◌, Bytes, codes, All,
  ◌==◌, if◌then◌else◌, arith,
}
use rblpolicyd.Globals.{app_exit}
use rblpolicyd.Server.Signals.{
  Numbers, Signals, by_default, shutting_down, begun, delivered, delivered-begun,
}
use rblpolicyd.Stats.{Stats, cleared}
use rblpolicyd.Startup.{goes, exits, Flags, defaults, option_loop, main}
use rblpolicyd.Startup.Printed.{Program, printed, usage_code, usage_with, printed-usage}
use rblpolicyd.Startup.Options.{SetBy, option_loop-SetBy, option_loop-exits}
use rblpolicyd.Startup.Arguments.{
  LongOption, is_prefix, up_to_equals, Getopt, Documented, invoked, invoked-long_option,
}
use rblpolicyd.Tests.Daemon.{machine, options, atoi, server}

option_loop-SetBy_example :
    (o : Flags) × (option_loop atoi options defaults ≡ goes o) × SetBy atoi options defaults o
unfolding defaults
option_loop-SetBy_example =
    option_loop-SetBy atoi options defaults (refl, (refl, tt))
      (omega arith, omega arith, omega arith)

-- `-v -c c -h` ends with 0.
help_ends : option_loop atoi (options ++ (b'h', []) ∷ (b'x', []) ∷ []) defaults ≡ exits 0
help_ends =
    option_loop-exits atoi options defaults b'h' [] ((b'x', []) ∷ []) (refl, (refl, tt)) refl

-- the name `s` is not in the table
abbrev is_unknown : Bytes → List LongOption → Bool
is_unknown s [] = true
is_unknown s (o ∷ table) = not (is_prefix (up_to_equals s) o.name) && is_unknown s table

-- A `getopt_long` that looks at the first argument only.
abbrev getopt : Getopt
getopt ((x ∷ y ∷ c ∷ cs) ∷ rest) short table =
    if (x == b'-') && (y == b'-') && is_unknown (c ∷ cs) table
    then ((b'?', []) ∷ [], rest)
    else ([], (x ∷ y ∷ c ∷ cs) ∷ rest)
getopt argv short table = ([], argv)

is_unknown-All :
    (s : Bytes) (table : List LongOption)
    → All (λ o. is_prefix (up_to_equals s) o.name ≡ false) table
    → is_unknown s table ≡ true
is_unknown-All s [] all = refl
is_unknown-All s (o ∷ table) (e, all) = ground (arith, e, is_unknown-All s table all)

getopt-Documented : Documented getopt
getopt-Documented = record { unknown = unknown }
  where
    unknown :
        (s : Bytes) (rest : List Bytes) (short : Bytes) (table : List LongOption)
        → s ≢ []
        → All (λ o. is_prefix (up_to_equals s) o.name ≡ false) table
        → (others : List (ℕ × Bytes)) × ((getopt ((b'-' ∷ b'-' ∷ s) ∷ rest) short table).0
            ≡ (b'?', []) ∷ others)
    unknown [] rest short table ne all = absurd (ne refl)
    unknown (c ∷ cs) rest short table ne all = ([], rw (is_unknown-All (c ∷ cs) table all) refl)

-- `rblpolicyd --help`
invoked-long_option_example : invoked machine atoi getopt (codes "--help" ∷ []) ≡ exits 1
invoked-long_option_example =
    invoked-long_option machine atoi getopt b'h' (codes "elp") [] getopt-Documented (omega arith)
      (omega arith)

-- Linux
abbrev numbers : Numbers
numbers = record { term = 15; int = 2; usr1 = 10; kill = 9; stop = 19 }

abbrev untouched : Signals
untouched = record { handler = λ s. by_default; mask = λ s s'. false; blocked = λ s. false }

abbrev unused : Stats
unused = record {
  workers = record { num = 0; now = 0; most = 0 };
  solvers = record { num = 0; now = 0; most = 0 };
  workertime = record { init = false; ring = cleared };
  solvertime = record { init = false; ring = cleared };
  start = 0;
  requests = 0;
}

-- SIGTERM
delivered-begun_example :
    delivered (begun numbers 1000 untouched unused).signals 15 (λ _. true) 2000 unused server
    ≡ some (record server { appstate = app_exit }, some (shutting_down 15))
delivered-begun_example =
    delivered-begun numbers untouched (λ _. true) 15 1000 2000 unused unused server (omega arith)
      (omega arith) (omega arith) (omega arith)

abbrev program : Program
program = record { progname = codes "rblpolicyd"; version = codes "1.0" }

-- `-v -c c -h` prints the usage with the file `c`.
printed-usage_example :
    (main machine atoi (options ++ (b'h', []) ∷ []) [] ≡ exits (usage_code ((b'h', []) ∷ [])))
    × (printed program atoi (options ++ (b'h', []) ∷ []) [] ≡ usage_with program options defaults)
printed-usage_example =
    printed-usage machine program atoi options ((b'h', []) ∷ []) [] (refl, (refl, tt)) refl
