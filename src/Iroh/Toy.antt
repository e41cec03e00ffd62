-- ===== src/Iroh/Toy.antt =====
-- A small instance of the third-party interface, at which the theorems are tried: keys are
-- numbers, and there are two places, for relays as for sockets.
use mathlib.Core.Path.{ap₂}
use iroh_dart.Prelude.{
  ℕ, ◌+◌, ◌≡◌, refl, sym, ◌↔◌, ◌⊎◌, inl, inr, Bool, true, false, ◌&&◌, List, [], ◌∷◌, Str, Result,
  ok, err, foreign, length, replicate, Elem, ◌==◌, if◌then◌else◌, arith,
}
use iroh_dart.Iroh.{IrohBase, KeyLaws, AddrLaws, PostcardLaws}

same_list : List ℕ → List ℕ → Bool
same_list [] [] = true
same_list (x ∷ xs) (y ∷ ys) = x == y && same_list xs ys
same_list _ _ = false

same_list_self : (xs : List ℕ) → same_list xs xs ≡ true
unfolding same_list
same_list_self [] = refl
same_list_self (x ∷ xs) = ground (arith, same_list_self xs)

same_list_sound : (xs ys : List ℕ) → same_list xs ys ≡ true → ys ≡ xs
unfolding same_list
same_list_sound [] [] h = refl
same_list_sound (x ∷ xs) (y ∷ ys) h = ground (arith, same_list_sound xs ys)
same_list_sound [] (y ∷ ys) h = cc
same_list_sound (x ∷ xs) [] h = cc

abbrev padding : List ℕ
padding = replicate 31 0

abbrev key_bytes : ℕ → List ℕ
key_bytes k = k ∷ padding

abbrev head_or_zero : List ℕ → ℕ
head_or_zero [] = 0
head_or_zero (k ∷ _) = k

unfoldable pub key_of : List ℕ → Result ℕ
unfolding same_list
key_of [] = err (foreign [])
key_of (k ∷ rest) = if same_list padding rest then ok k else err (foreign [])

abbrev one_letter : Str → Result ℕ
one_letter (k ∷ []) = ok k
one_letter _ = err (foreign [])

pub data Place : Type 0 where
  home backup : Place

-- "h" and "h/" are two spellings of the URL "h/"; so for "b".
abbrev place_of : Str → Result Place
place_of [] = err (foreign [])
place_of (c ∷ _) =
    if c == b'h' then ok home else if c == b'b' then ok backup else err (foreign (c ∷ []))

abbrev place_text : Place → Str
place_text home = b'h' ∷ b'/' ∷ []
place_text backup = b'b' ∷ b'/' ∷ []

pub record Places : Type 0 where
  pub has_home : Bool
  pub has_backup : Bool

abbrev pub add_place : Places → Place → Places
add_place s home = record s { has_home = true }
add_place s backup = record s { has_backup = true }

abbrev pub list_of : Bool → Bool → List Place
list_of true true = home ∷ backup ∷ []
list_of true false = home ∷ []
list_of false true = backup ∷ []
list_of false false = []

abbrev pub list_places : Places → List Place
list_places s = list_of s.has_home s.has_backup

abbrev has : Bool → Bool → Place → Bool
has h k home = h
has h k backup = k

list_of_iff : (h k : Bool) (p : Place) → Elem p (list_of h k) ↔ (has h k p ≡ true)
list_of_iff true true home = (λ _. refl, λ _. inl refl)
list_of_iff true true backup = (λ _. refl, λ _. inr (inl refl))
list_of_iff true false home = (λ _. refl, λ _. inl refl)
list_of_iff true false backup = (λ e. ground arith, λ e. ground arith)
list_of_iff false true home = (λ e. ground arith, λ e. ground arith)
list_of_iff false true backup = (λ _. refl, λ _. inl refl)
list_of_iff false false home = (λ e. ground arith, λ e. ground arith)
list_of_iff false false backup = (λ e. ground arith, λ e. ground arith)

Bool-ext : (x y : Bool) → (x ≡ true) ↔ (y ≡ true) → x ≡ y
Bool-ext true y f = sym (f.0 refl)
Bool-ext false true f = f.1 refl
Bool-ext false false f = refl

list_places_ext :
    (s t : Places)
    → ((p : Place) → Elem p (list_places s) ↔ Elem p (list_places t))
    → list_places s ≡ list_places t
list_places_ext s t f = ap₂ list_of (same home) (same backup)
  where
    same : (p : Place) → has s.has_home s.has_backup p ≡ has t.has_home t.has_backup p
    same p =
        let l = list_of_iff s.has_home s.has_backup p in
        let r = list_of_iff t.has_home t.has_backup p in
        Bool-ext _ _ (λ e. r.0 ((f p).0 (l.1 e)), λ e. l.0 ((f p).1 (r.1 e)))

list_places-add :
    (s : Places) (p q : Place)
    → Elem q (list_places (add_place s p)) ↔ ((q ≡ p) ⊎ Elem q (list_places s))
list_places-add s home home = (λ _. inl refl, λ _. (list_of_iff true s.has_backup home).1 refl)
list_places-add s backup backup = (λ _. inl refl, λ _. (list_of_iff s.has_home true backup).1 refl)
list_places-add s home backup =
    let l = list_of_iff s.has_home s.has_backup backup in
    let r = list_of_iff true s.has_backup backup in
    (λ m. inr (l.1 (r.0 m)), elim [ inl e ↦ cc | inr m ↦ r.1 (l.0 m) ])
list_places-add s backup home =
    let l = list_of_iff s.has_home s.has_backup home in
    let r = list_of_iff s.has_home true home in
    (λ m. inr (l.1 (r.0 m)), elim [ inl e ↦ cc | inr m ↦ r.1 (l.0 m) ])

pub record Addr : Type 0 where
  pub key : ℕ
  pub relays : Places
  pub socks : Places

abbrev bit : Bool → ℕ
bit b = if b then 1 else 0

abbrev flags : List ℕ → Result Addr
flags (k ∷ a ∷ b ∷ c ∷ d ∷ []) = ok (record {
  key = k;
  relays = record { has_home = a == 1; has_backup = b == 1 };
  socks = record { has_home = c == 1; has_backup = d == 1 };
})
flags _ = err (foreign [])

abbrev write_flags : Addr → List ℕ
write_flags a =
    a.key
    ∷ bit a.relays.has_home
    ∷ bit a.relays.has_backup
    ∷ bit a.socks.has_home
    ∷ bit a.socks.has_backup
    ∷ []

abbrev pub toy : IrohBase
toy = record {
  SecretKey = ℕ;
  PublicKey = ℕ;
  Signature = ℕ;
  RelayUrl = Place;
  SocketAddr = Place;
  EndpointAddr = Addr;
  secret_from_bytes = head_or_zero;
  secret_to_bytes = key_bytes;
  public = λ k. k + 1;
  sign = λ k msg. k + length msg;
  public_from_bytes = key_of;
  public_as_bytes = key_bytes;
  signature_from_bytes = head_or_zero;
  signature_to_bytes = λ s. s ∷ replicate 63 0;
  verify = λ k msg s. if k + length msg == s + 1 then ok tt else err (foreign []);
  to_z32 = λ k. k ∷ [];
  from_z32 = one_letter;
  public_to_string = λ k. k ∷ [];
  public_from_str = one_letter;
  fmt_short = λ k. k ∷ [];
  relay_from_str = place_of;
  relay_to_string = place_text;
  socket_from_str = place_of;
  socket_to_string = place_text;
  new = λ k. record {
    key = k;
    relays = record { has_home = false; has_backup = false };
    socks = record { has_home = false; has_backup = false };
  };
  with_relay_url = λ a p. record a { relays = add_place a.relays p };
  with_ip_addr = λ a p. record a { socks = add_place a.socks p };
  addr_id = λ a. a.key;
  relay_urls = λ a. list_places a.relays;
  ip_addrs = λ a. list_places a.socks;
  to_allocvec = λ a. ok (write_flags a);
  addr_from_bytes = flags;
}

key_of_bytes : (k : ℕ) → key_of (key_bytes k) ≡ ok k
unfolding key_of
key_of_bytes k = refl

chosen : (b : Bool) (j k : ℕ) → (if b then ok j else err (foreign [])) ≡ ok k → (b ≡ true) × (j ≡ k)
chosen true j k h = (refl, ground arith)
chosen false j k h = cc

key_of_sound : (bytes : List ℕ) (k : ℕ) → key_of bytes ≡ ok k → key_bytes k ≡ bytes
unfolding key_of
key_of_sound [] k h = cc
key_of_sound (j ∷ rest) k h =
    let (same, e) = chosen (same_list padding rest) j k h in
    ap₂ ◌∷◌ (sym e) (sym (same_list_sound padding rest same))

toy_verifies : (k : ℕ) (msg : List ℕ) → toy.verify (toy.public k) msg (toy.sign k msg) ≡ ok tt
toy_verifies k msg = ground arith

pub toy-KeyLaws : KeyLaws toy
toy-KeyLaws = record {
  length-public = λ k. refl;
  public_from_as = key_of_bytes;
  public_as_from = key_of_sound;
  length-secret = λ k. refl;
  secret_from_to = λ k. refl;
  length-signature = λ s. refl;
  signature_from_to = λ s. refl;
  verify-sign = toy_verifies;
  from_to_z32 = λ k. refl;
  from_to_string = λ k. refl;
}

place_of_text : (p : Place) → place_of (place_text p) ≡ ok p
place_of_text home = refl
place_of_text backup = refl

flags_back : (a : Addr) (bytes : List ℕ) → ok (write_flags a) ≡ ok bytes → flags bytes ≡ ok a
flags_back a bytes h = ground arith

pub toy-AddrLaws : AddrLaws toy
toy-AddrLaws = record {
  relay_from_to = place_of_text;
  socket_from_to = λ p. (p, place_of_text p, refl);
  id-new = λ k. refl;
  id-with_relay_url = λ a u. refl;
  id-with_ip_addr = λ a s. refl;
  relay_urls-new = λ k. refl;
  ip_addrs-new = λ k. refl;
  relay_urls-with_relay_url = λ a u v. list_places-add a.relays u v;
  relay_urls-with_ip_addr = λ a s. refl;
  ip_addrs-with_ip_addr = λ a s t. list_places-add a.socks s t;
  ip_addrs-with_relay_url = λ a u. refl;
  relay_order = λ a c. list_places_ext a.relays c.relays;
  ip_order = λ a c. list_places_ext a.socks c.socks;
}

-- All socket addresses of this instance are plain.
pub toy-PostcardLaws : PostcardLaws toy (λ p. Unit)
toy-PostcardLaws = record { decode-encode = λ a bytes plain h. flags_back a bytes h }
