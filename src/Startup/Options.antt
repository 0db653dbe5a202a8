-- ===== src/Startup/Options.antt =====
-- The options: the last of a kind counts, the flags are counted.
use rblpolicyd.Prelude.{
  ℕ, suc, ◌+◌, ◌%◌, ◌<◌, ◌≡◌, refl, Bool, true, false, ◌||◌, List, [], ◌∷◌, ◌++◌, Bytes, All, ◌==◌,
  if◌then◌else◌, arith,
}
use rblpolicyd.Prelude.Int.{ℤ}
use rblpolicyd.Startup.{goes, exits, usage, Flags, char_mod, option, option_loop}

abbrev pub Given : Type 0
Given = List (ℕ × Bytes)

-- the argument of the last option of a kind, or what was there before
abbrev pub last_of : ℕ → Given → Bytes → Bytes
last_of k [] old = old
last_of k ((c, arg) ∷ rest) old = last_of k rest (if c == k then arg else old)

abbrev last_number : (Bytes → ℤ) → Given → ℤ → ℤ
last_number atoi [] old = old
last_number atoi ((c, arg) ∷ rest) old = last_number atoi rest (if c == b'm' then atoi arg else old)

abbrev times_given : ℕ → Given → ℕ
times_given k [] = 0
times_given k ((c, arg) ∷ rest) = if c == k then suc (times_given k rest) else times_given k rest

-- an option that does not end the process
abbrev pub sets : ℕ × Bytes → Bool
sets (c, arg) =
    (c == b'v') || (c == b'd') || (c == b'f') || (c == b'c') || (c == b'p') || (c == b'm')

-- The flags after options, from those before.
abbrev pub SetBy : (Bytes → ℤ) → Given → Flags → Flags → Type 0
SetBy atoi given o o' =
    (o'.verbose ≡ (o.verbose + times_given b'v' given) % char_mod)
    × (o'.debug ≡ (o.debug + times_given b'd' given) % char_mod)
    × (o'.foreground ≡ (o.foreground + times_given b'f' given) % char_mod)
    × (o'.cfgpath ≡ last_of b'c' given o.cfgpath)
    × (o'.pidfile ≡ last_of b'p' given o.pidfile)
    × (o'.maxthreads ≡ last_number atoi given o.maxthreads)

abbrev pub AreChars : Flags → Type 0
AreChars o = (o.verbose < char_mod) × (o.debug < char_mod) × (o.foreground < char_mod)

-- the flags after one option, field by field
abbrev pub applied : (Bytes → ℤ) → ℕ → Bytes → Flags → Flags
applied atoi c arg o = record {
  verbose = if c == b'v' then (o.verbose + 1) % char_mod else o.verbose;
  debug = if c == b'd' then (o.debug + 1) % char_mod else o.debug;
  foreground = if c == b'f' then (o.foreground + 1) % char_mod else o.foreground;
  cfgpath = if c == b'c' then arg else o.cfgpath;
  pidfile = if c == b'p' then arg else o.pidfile;
  maxthreads = if c == b'm' then atoi arg else o.maxthreads;
}

pub option-applied :
    (atoi : Bytes → ℤ) (c : ℕ) (arg : Bytes) (o : Flags)
    → sets (c, arg) ≡ true
    → option atoi c arg o ≡ goes (applied atoi c arg o)
unfolding option
option-applied atoi c arg o s = ground arith

applied-AreChars :
    (atoi : Bytes → ℤ) (c : ℕ) (arg : Bytes) (o : Flags)
    → AreChars o
    → AreChars (applied atoi c arg o)
applied-AreChars atoi c arg o small = ground (arith, small)

-- the exit code of an option that ends the process
abbrev pub exit_code : ℕ → ℕ
exit_code c = if c == b'h' || c == b'V' then 0 else 1

pub option-exits :
    (atoi : Bytes → ℤ) (c : ℕ) (arg : Bytes) (o : Flags)
    → sets (c, arg) ≡ false
    → option atoi c arg o ≡ exits (exit_code c)
unfolding option usage
option-exits atoi c arg o s = ground arith

-- Options that all set something: each flag counts how often it was given, modulo 256, and of each
-- option with an argument the last counts.
pub option_loop-SetBy :
    (atoi : Bytes → ℤ) (given : Given) (o : Flags)
    → All (λ g. sets g ≡ true) given
    → AreChars o
    → (o' : Flags) × (option_loop atoi given o ≡ goes o') × SetBy atoi given o o'
unfolding option_loop
option_loop-SetBy atoi [] o all small =
    (o, refl, (omega (arith, small), omega (arith, small), omega (arith, small), refl, refl, refl))
option_loop-SetBy atoi ((c, arg) ∷ given) o (s, all) small =
    let (o', e, (v, d, f, path, file, limit)) =
      option_loop-SetBy atoi given (applied atoi c arg o) all
        (applied-AreChars atoi c arg o small) in
    (
      o',
      rw (option-applied atoi c arg o s) e,
      (ground (arith, v), ground (arith, d), ground (arith, f), path, file, limit),
    )

-- The first option that sets nothing ends the process at once, whatever follows it: with 0 for help
-- and version, with 1 for one that is not known.
pub option_loop-exits :
    (atoi : Bytes → ℤ) (given : Given) (o : Flags) (c : ℕ) (arg : Bytes) (rest : Given)
    → All (λ g. sets g ≡ true) given
    → sets (c, arg) ≡ false
    → option_loop atoi (given ++ (c, arg) ∷ rest) o ≡ exits (exit_code c)
unfolding option_loop
option_loop-exits atoi [] o c arg rest all s = rw (option-exits atoi c arg o s) refl
option_loop-exits atoi ((c', arg') ∷ given) o c arg rest (s', all) s =
    rw (option-applied atoi c' arg' o s') (option_loop-exits atoi given _ c arg rest all s)
