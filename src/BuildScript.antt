-- ===== src/BuildScript.antt =====
-- packages/iroh_quic/rust/build.rs: the version of iroh in a lock file. The text is ASCII, as far
-- as white space goes.
pub mod Laws
pub mod Tests
use iroh_dart.Prelude.{
  ℕ, Bool, true, false, ◌&&◌, ◌||◌, Option, none, some, List, [], ◌∷◌, ◌++◌, map, Str, codes, ◌==◌,
  leb, if◌then◌else◌,
}

abbrev pub is_white : ℕ → Bool
is_white c = (c == 32) || (leb 9 c && leb c 13)

-- `str::lines`; the carriage return of a line is white space, which `trim` takes off.
abbrev pub prepend : ℕ → List Str → List Str
prepend c [] = (c ∷ []) ∷ []
prepend c (l ∷ ls) = (c ∷ l) ∷ ls

abbrev pub lines : Str → List Str
lines [] = []
lines (c ∷ cs) = let rest = lines cs in if c == 10 then [] ∷ rest else prepend c rest

abbrev pub trim_start : Str → Str
trim_start [] = []
trim_start (c ∷ cs) = let rest = trim_start cs in if is_white c then rest else c ∷ cs

abbrev pub keep_end : ℕ → Str → Str
keep_end c [] = if is_white c then [] else c ∷ []
keep_end c (d ∷ ds) = c ∷ d ∷ ds

abbrev pub trim_end : Str → Str
trim_end [] = []
trim_end (c ∷ cs) = keep_end c (trim_end cs)

abbrev pub trim : Str → Str
trim s = trim_end (trim_start s)

abbrev pub same_text : Str → Str → Bool
same_text [] [] = true
same_text (c ∷ cs) (d ∷ ds) = (c == d) && same_text cs ds
same_text _ _ = false

abbrev pub strip_prefix : Str → Str → Option Str
strip_prefix [] s = some s
strip_prefix (p ∷ ps) [] = none
strip_prefix (p ∷ ps) (c ∷ cs) = let rest = strip_prefix ps cs in if p == c then rest else none

-- `strip_suffix('"')`
abbrev pub keep_front : ℕ → Option Str → Option Str
keep_front c none = none
keep_front c (some s) = some (c ∷ s)

abbrev pub strip_quote : Str → Option Str
strip_quote [] = none
strip_quote (c ∷ []) = if c == 34 then some [] else none
strip_quote (c ∷ d ∷ ds) = keep_front c (strip_quote (d ∷ ds))

abbrev pub package_line : Str
package_line = codes "[[package]]"

abbrev pub iroh_line : Str
iroh_line = codes "name = \"iroh\""

abbrev pub version_start : Str
version_start = codes "version = \""

-- One turn of the loop: go on with this `in_iroh`, or return.
pub data Turn : Type 0 where
  on : Bool → Turn
  return : Option Str → Turn

abbrev version_turn : Option Str → Turn
version_turn none = on true
version_turn (some rest) = return (strip_quote rest)

abbrev pub turn : Bool → Str → Turn
turn in_iroh line =
    if same_text line package_line
    then on false
    else if same_text line iroh_line
    then on true
    else if in_iroh
    then version_turn (strip_prefix version_start line)
    else on false

unfoldable pub scan : Bool → List Str → Option Str
scan in_iroh [] = none
scan in_iroh (line ∷ rest) = elim (turn in_iroh (trim line)) [
  | on next ↦ scan next rest
  | return version ↦ version
]

unfoldable pub iroh_version_from_lock : Str → Option Str
iroh_version_from_lock lock = scan false (lines lock)

-- What the script finds around it: the environment, paths, and files, of which `.ok()` keeps the
-- text.
pub record Surroundings : Type 1 where
  pub FilePath : Type 0
  pub manifest_dir : Option Str
  pub join : Str → Str → FilePath
  pub display : FilePath → Str
  pub read_to_string : FilePath → Option Str

abbrev pub rerun_prefix : Str
rerun_prefix = codes "cargo:rerun-if-changed="

abbrev pub env_prefix : Str
env_prefix = codes "cargo:rustc-env=IROH_CRATE_VERSION="

abbrev pub unwrap_or : Str → Option Str → Str
unwrap_or other none = other
unwrap_or other (some text) = text

abbrev pub and_then : Option Str → (Str → Option Str) → Option Str
and_then none f = none
and_then (some text) f = f text

module _ (b : Surroundings) where
  abbrev pub lock_path : b.FilePath
  lock_path = b.join (unwrap_or [] b.manifest_dir) (codes "Cargo.lock")

  abbrev pub version : Str
  version = unwrap_or (codes "1.4") (and_then (b.read_to_string lock_path) iroh_version_from_lock)

  -- The lines that `main` prints, for cargo.
  pub main : List Str
  main = (rerun_prefix ++ b.display lock_path) ∷ (env_prefix ++ version) ∷ []
