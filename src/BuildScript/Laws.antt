-- ===== src/BuildScript/Laws.antt =====
-- Which version the build script finds.
use mathlib.Core.List.{append_cancel_left, head-eq_of_cons-eq, tail-eq_of_cons-eq}
use iroh_dart.Prelude.{
  ◌⊎◌, inl, inr, codes, ◌≡◌, refl, sym, ap, ◌∙◌, append-nil, Bool, true, false, Option, none, some,
  List, [], ◌∷◌, ◌++◌, Str, All, arith,
}
use iroh_dart.BuildScript.{
  lines, trim, same_text, strip_prefix, strip_quote, keep_front, package_line, iroh_line,
  version_start, Surroundings, lock_path, version, main, unwrap_or, and_then, env_prefix, on,
  return, turn, scan, iroh_version_from_lock,
}

strip_quote-append : (v : Str) → strip_quote (v ++ (34 ∷ [])) ≡ some v
strip_quote-append [] = refl
strip_quote-append (c ∷ []) = refl
strip_quote-append (c ∷ d ∷ ds) = ap (keep_front c) (strip_quote-append (d ∷ ds))

-- A line that is not the name line of iroh.
abbrev pub IsOther : Str → Type 0
IsOther line = same_text (trim line) iroh_line ≡ false

-- A line between iroh's name and its version.
abbrev pub IsBetween : Str → Type 0
IsBetween line =
    (same_text (trim line) package_line ≡ false) × (strip_prefix version_start (trim line) ≡ none)

turn-other : (line : Str) → same_text line iroh_line ≡ false → turn false line ≡ on false
turn-other line h = ground (arith, h)

scan-on :
    (b next : Bool) (line : Str) (rest : List Str)
    → turn b (trim line) ≡ on next
    → scan b (line ∷ rest) ≡ scan next rest
unfolding scan
scan-on b next line rest e = rw (e, scan)

scan-return :
    (b : Bool) (line : Str) (rest : List Str) (out : Option Str)
    → turn b (trim line) ≡ return out
    → scan b (line ∷ rest) ≡ out
unfolding scan
scan-return b line rest out e = rw (e, scan)

scan-others :
    (before rest : List Str) → All IsOther before → scan false (before ++ rest) ≡ scan false rest
unfolding scan
scan-others [] rest h = refl
scan-others (l ∷ ls) rest (o, os) =
    scan-on false false l (ls ++ rest) (turn-other (trim l) o) ∙ scan-others ls rest os

turn-between :
    (line : Str)
    → same_text line package_line ≡ false
    → strip_prefix version_start line ≡ none
    → turn true line ≡ on true
turn-between line p s = ground (arith, p, s)

scan-between :
    (between rest : List Str) → All IsBetween between → scan true (between ++ rest) ≡ scan true rest
unfolding scan
scan-between [] rest h = refl
scan-between (l ∷ ls) rest (b, bs) =
    scan-on true true l (ls ++ rest) (turn-between (trim l) b.0 b.1) ∙ scan-between ls rest bs

turn-version : (v : Str) → turn true (version_start ++ (v ++ (34 ∷ []))) ≡ return (some v)
turn-version v = ap return (strip_quote-append v)

turn-iroh : (in_iroh : Bool) (line : Str) → line ≡ iroh_line → turn in_iroh line ≡ on true
turn-iroh in_iroh line e = rw e refl

scan_nil : scan false [] ≡ none
unfolding scan
scan_nil = refl

-- In a lock file whose lines are some other lines, then iroh's name line (with white space around
-- it or not), then lines that neither start a package nor give a version, then a version line, the
-- version is the text between the quotes of that line, whatever follows.
pub iroh_version_from_lock_found :
    (lock : Str) (before between after : List Str) (name version : Str) (v : Str)
    → lines lock ≡ before ++ (name ∷ (between ++ (version ∷ after)))
    → All IsOther before
    → trim name ≡ iroh_line
    → All IsBetween between
    → trim version ≡ version_start ++ (v ++ (34 ∷ []))
    → iroh_version_from_lock lock ≡ some v
unfolding iroh_version_from_lock
iroh_version_from_lock_found lock before between after name version v split others n betweens e =
    ap (scan false) split
    ∙ scan-others before (name ∷ (between ++ (version ∷ after))) others
    ∙ scan-on false true name (between ++ (version ∷ after)) (turn-iroh false (trim name) n)
    ∙ scan-between between (version ∷ after) betweens
    ∙ scan-return true version after (some v) (ap (turn true) e ∙ turn-version v)

-- A lock file without a name line of iroh has no version of it.
pub iroh_version_from_lock-none :
    (lock : Str) → All IsOther (lines lock) → iroh_version_from_lock lock ≡ none
unfolding iroh_version_from_lock
iroh_version_from_lock-none lock h =
    ap (scan false) (sym (append-nil (lines lock))) ∙ scan-others (lines lock) [] h ∙ scan_nil

-- The lock file can be read: it has a name line of iroh, with white space around it or not, after
-- other lines, then lines that neither start a package nor give a version, then a version line with
-- `v` between the quotes.
pub record Locked (b : Surroundings) (v : Str) : Type 0 where
  pub lock : Str
  pub before : List Str
  pub between : List Str
  pub after : List Str
  pub name : Str
  pub line : Str
  pub read : b.read_to_string (lock_path b) ≡ some lock
  pub split : lines lock ≡ before ++ (name ∷ (between ++ (line ∷ after)))
  pub others : All IsOther before
  pub named : trim name ≡ iroh_line
  pub betweens : All IsBetween between
  pub versioned : trim line ≡ version_start ++ (v ++ (34 ∷ []))

-- The script's version is that of the lock file; where there is none to read, it is 1.4.
pub version_lem :
    (b : Surroundings) (v : Str)
    → Locked b v ⊎ ((b.read_to_string (lock_path b) ≡ none) × (v ≡ codes "1.4"))
    → version b ≡ v
version_lem b v (inl l) =
    ap (λ o. unwrap_or (codes "1.4") (and_then o iroh_version_from_lock)) l.read
    ∙ ap (unwrap_or (codes "1.4")) (
        iroh_version_from_lock_found l.lock l.before l.between l.after l.name l.line v l.split
          l.others l.named l.betweens l.versioned)
version_lem b v (inr (unread, e)) =
    ap (λ o. unwrap_or (codes "1.4") (and_then o iroh_version_from_lock)) unread ∙ sym e

-- What the compiler was told of the version is what the script printed.
pub main-version :
    (b : Surroundings) (first told : Str)
    → main b ≡ first ∷ (env_prefix ++ told) ∷ []
    → told ≡ version b
unfolding main
main-version b first told e =
    append_cancel_left env_prefix told (version b) (sym (head-eq_of_cons-eq (tail-eq_of_cons-eq e)))
