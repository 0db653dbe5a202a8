-- ===== src/Startup/Arguments.antt =====
-- The command line: the table of long options in rblpolicyd.c, and what `getopt_long` makes of it.
use rblpolicyd.Prelude.{
  ℕ, ◌≡◌, ◌≢◌, refl, Bool, true, false, ◌&&◌, List, [], ◌∷◌, Bytes, codes, All, ◌==◌, if◌then◌else◌,
  arith,
}
use rblpolicyd.Prelude.Int.{ℤ}
use rblpolicyd.Startup.{Step, exits, Machine, Ready, defaults, main}
use rblpolicyd.Startup.Options.{option_loop-exits}

-- `struct option`, less the flag, which is always NULL
pub record LongOption : Type 0 where
  pub name : Bytes
  pub has_arg : ℕ
  pub val : ℕ

abbrev long_option : Bytes → ℕ → ℕ → LongOption
long_option s a v = record { name = s; has_arg = a; val = v }

unfoldable pub long_options : List LongOption
long_options =
    long_option (codes "--verbose") 0 b'v'
    ∷ long_option (codes "--debug") 0 b'd'
    ∷ long_option (codes "--foreground") 0 b'f'
    ∷ long_option (codes "--cfgfile") 1 b'c'
    ∷ long_option (codes "--pidfile") 1 b'p'
    ∷ long_option (codes "--max-children") 1 b'm'
    ∷ long_option (codes "--help") 0 b'h'
    ∷ long_option (codes "--version") 0 b'V'
    ∷ []

abbrev optstring : Bytes
optstring = codes "vdfc:p:m:hV"

-- The results of `getopt_long` up to -1, each with `optarg`, and the arguments that are left.
abbrev pub Getopt : Type 0
Getopt = List Bytes → Bytes → List LongOption → List (ℕ × Bytes) × List Bytes

-- `main` with the arguments of the process
unfoldable pub invoked : Machine → (atoi : Bytes → ℤ) → Getopt → List Bytes → Step Ready
invoked m atoi getopt_long argv =
    let (options, arguments) = getopt_long argv optstring long_options in
    main m atoi options arguments

-- `s` up to a `=`
abbrev pub up_to_equals : Bytes → Bytes
up_to_equals [] = []
up_to_equals (c ∷ cs) = if c == b'=' then [] else c ∷ up_to_equals cs

abbrev pub is_prefix : Bytes → Bytes → Bool
is_prefix [] s = true
is_prefix (p ∷ ps) [] = false
is_prefix (p ∷ ps) (c ∷ cs) = (p == c) && is_prefix ps cs

-- Documented of `getopt_long`: an argument `--s` names the long option of which `s`, up to a `=`, is
-- the name or its beginning; where there is none the result is `?`.
pub record Documented (getopt_long : Getopt) : Type 0 where
  pub unknown :
      (s : Bytes) (rest : List Bytes) (short : Bytes) (table : List LongOption)
      → s ≢ []
      → All (λ o. is_prefix (up_to_equals s) o.name ≡ false) table
      → (others : List (ℕ × Bytes)) × ((getopt_long ((b'-' ∷ b'-' ∷ s) ∷ rest) short table).0
          ≡ (b'?', []) ∷ others)

no_entry :
    (c : ℕ) (cs : Bytes)
    → c ≢ b'-'
    → c ≢ b'='
    → All (λ o. is_prefix (up_to_equals (c ∷ cs)) o.name ≡ false) long_options
unfolding long_options
no_entry c cs dash equals = ground arith

main-unknown :
    (m : Machine) (atoi : Bytes → ℤ) (options others : List (ℕ × Bytes)) (arguments : List Bytes)
    → options ≡ (b'?', []) ∷ others
    → main m atoi options arguments ≡ exits 1
unfolding main
main-unknown m atoi options others arguments e =
    rw (e, option_loop-exits atoi [] defaults b'?' [] others tt refl) refl

-- No long option works: the names in the table begin with `--`, so that a first argument of the form
-- `--name`, the documented ones among them, is unknown and ends the process with 1. `name` does not
-- begin with `-` or `=`.
pub invoked-long_option :
    (m : Machine) (atoi : Bytes → ℤ) (getopt_long : Getopt) (c : ℕ) (cs : Bytes) (rest : List Bytes)
    → Documented getopt_long
    → c ≢ b'-'
    → c ≢ b'='
    → invoked m atoi getopt_long ((b'-' ∷ b'-' ∷ c ∷ cs) ∷ rest) ≡ exits 1
unfolding invoked
invoked-long_option m atoi getopt_long c cs rest documented dash equals =
    let (others, e) =
      documented.unknown (c ∷ cs) rest optstring long_options (λ n. cc)
        (no_entry c cs dash equals) in
    main-unknown m atoi _ others _ e
