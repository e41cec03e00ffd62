-- ===== src/Wire/Reads.antt =====
-- What it means that a decoder reads a value off a list of bytes, and how such readings chain.
use iroh_dart.Prelude.{
  ℕ, ◌≡◌, ap, ◌∙◌, append_assoc, ◌<◌, ◌^◌, some, true, List, ◌++◌, Str, length, All,
}
use iroh_dart.Wire.{Decoder, ◌>>=◌, pure}
use iroh_dart.Wire.Scalars.{is_utf8}

-- `bytes` decodes to `a`, whatever follows.
pub record Reads {A : Type 0} (dec : Decoder A) (bytes : List ℕ) (a : A) : Type 0 where
  pub at : (rest : List ℕ) → dec (bytes ++ rest) ≡ some (a, rest)

bind_read :
    {A B : Type 0} (m : Decoder A) (f : A → Decoder B) (x : List ℕ) (a : A) (rest : List ℕ)
    → m (x ++ rest) ≡ some (a, rest)
    → (m >>= f) (x ++ rest) ≡ f a rest
unfolding ◌>>=◌
bind_read m f x a rest e = rw (e, ◌>>=◌)

-- A field that is not the last: the bytes of the others follow.
pub Reads-then :
    {A B : Type 0} (m : Decoder A) (f : A → Decoder B) (x y : List ℕ) (a : A) (z : B)
    → Reads m x a
    → Reads (f a) y z
    → Reads (m >>= f) (x ++ y) z
Reads-then m f x y a z h k = record {
  at = λ rest.
      ap (m >>= f) (append_assoc x y rest)
      ∙ bind_read m f x a (y ++ rest) (h.at (y ++ rest))
      ∙ k.at rest;
}

-- The last field.
pub Reads-last :
    {A B : Type 0} (m : Decoder A) (f : A → Decoder B) (x : List ℕ) (a : A) (z : B)
    → Reads m x a
    → f a ≡ pure z
    → Reads (m >>= f) x z
unfolding pure
Reads-last m f x a z h e = record {
  at = λ rest. bind_read m f x a rest (h.at rest) ∙ ap (λ (d : Decoder _). d rest) e;
}

pub ruleset reading = (Reads-then, Reads-last)

-- What the codec carries: bytes, UTF-8 texts, and fewer than 2^31 items.
abbrev pub IsCount : {A : Type 0} → List A → Type 0
IsCount xs = length xs < 2 ^ 31

abbrev pub IsBytes : List ℕ → Type 0
IsBytes bytes = IsCount bytes × All (λ n. n < 2 ^ 8) bytes

abbrev pub IsStr : Str → Type 0
IsStr s = IsBytes s × (is_utf8 s ≡ true)
