-- ===== src/Endpoint/Laws.antt =====
-- Binding: what the calls refuse, and what they ask of iroh.
use iroh_dart.Prelude.{
  ℕ, zero, suc, ◌≡◌, refl, ◌≢◌, ◌↔◌, ◌⊎◌, inl, inr, Option, some, List, Str, Error, wrong_length,
  ok, err, ◌>>=◌, length, Result-cases, arith,
}
use iroh_dart.Prelude.Int.{ℤ, pos, negsuc}
use iroh_dart.Iroh.{IrohBase}
use iroh_dart.Iroh.Quic.{Quic}
use iroh_dart.Iroh.Binding.{Binding}
use iroh_dart.Key.{EndpointAddrParts, to_arr32}
use iroh_dart.Key.Addr.{parse_all}
use iroh_dart.Runtime.Job.{Job}
use iroh_dart.Endpoint.{map_relay_mode, endpoint_bind, checks}
use iroh_dart.Endpoint.Lookup.{endpoint_bind_with_address_lookup}

module _ (b : IrohBase) (q : Quic) (n : Binding b q) where
  -- The relay mode numbers are 0 to 3, and 3 wants URLs that all parse.
  abbrev pub Accepted : ℤ → List Str → Type 0
  Accepted kind custom =
      (kind ≡ pos 0)
      ⊎ ((kind ≡ pos 1)
          ⊎ ((kind ≡ pos 2)
              ⊎ ((kind ≡ pos 3)
                  × ((urls : List b.RelayUrl) × (parse_all b.relay_from_str custom ≡ ok urls)))))

  custom_mode-eq :
      (custom : List Str) (mode : n.RelayMode)
      → (do urls ← parse_all b.relay_from_str custom; ok (n.relay_custom urls)) ≡ ok mode
      → (urls : List b.RelayUrl) × (parse_all b.relay_from_str custom ≡ ok urls)
  custom_mode-eq custom mode h = elim (Result-cases (parse_all b.relay_from_str custom)) [
    | inl (urls, e) ↦ (urls, e)
    | inr (x, e) ↦ ground arith
  ]

  accepted :
      (kind : ℤ) (custom : List Str) (mode : n.RelayMode)
      → map_relay_mode b q n kind custom ≡ ok mode
      → Accepted kind custom
  unfolding map_relay_mode
  accepted (pos zero) custom mode h = inl refl
  accepted (pos (suc zero)) custom mode h = inr (inl refl)
  accepted (pos (suc (suc zero))) custom mode h = inr (inr (inl refl))
  accepted (pos (suc (suc (suc zero)))) custom mode h =
      inr (inr (inr (refl, custom_mode-eq custom mode h)))
  accepted (pos (suc (suc (suc (suc k))))) custom mode h = cc
  accepted (negsuc k) custom mode h = cc

  accepts_mode :
      (kind : ℤ) (custom : List Str)
      → Accepted kind custom
      → (mode : n.RelayMode) × (map_relay_mode b q n kind custom ≡ ok mode)
  unfolding map_relay_mode
  accepts_mode kind custom (inl e) = rw e (n.relay_default, refl)
  accepts_mode kind custom (inr (inl e)) = rw e (n.relay_disabled, refl)
  accepts_mode kind custom (inr (inr (inl e))) = rw e (n.relay_staging, refl)
  accepts_mode kind custom (inr (inr (inr (e, (urls, p))))) = rw e (n.relay_custom urls, rw p refl)

  -- A relay mode number is accepted exactly if it is 0, 1 or 2, or if it is 3 and every custom
  -- relay URL parses; the URLs of the other numbers are not looked at.
  pub map_relay_mode_accepts :
      (kind : ℤ) (custom : List Str)
      → ((mode : n.RelayMode) × (map_relay_mode b q n kind custom ≡ ok mode)) ↔ Accepted kind custom
  map_relay_mode_accepts kind custom = (λ m. accepted kind custom m.0 m.1, accepts_mode kind custom)

  -- What both binds refuse, and with which error.
  abbrev pub Refused : Option (List ℕ) → ℤ → List Str → Error → Type 0
  Refused secret kind custom e =
      (map_relay_mode b q n kind custom ≡ err e)
      ⊎ (((mode : n.RelayMode) × (map_relay_mode b q n kind custom ≡ ok mode))
          × ((bytes : List ℕ) × (secret ≡ some bytes)
              × (length bytes ≢ 32)
              × (e ≡ wrong_length 32 (length bytes))))

  checks_refuse :
      (secret : Option (List ℕ)) (kind : ℤ) (custom : List Str) (e : Error)
      → Refused secret kind custom e
      → checks b q n secret kind custom ≡ err e
  unfolding to_arr32
  checks_refuse secret kind custom e (inl h) = rw h
  checks_refuse secret kind custom e (inr (m, (bytes, s, l, x))) = rw (s, m.1, x) (ground arith)

  -- Both binds check the relay mode first and the length of the secret key next; what does not pass
  -- is refused with the error of the first check that fails, and nothing is asked of iroh.
  pub binds_refuse :
      (secret : Option (List ℕ)) (alpns : List (List ℕ)) (kind : ℤ) (custom : List Str)
      (callback : List ℕ → Job q.World (Option EndpointAddrParts)) (w : q.World) (e : Error)
      → Refused secret kind custom e
      → (endpoint_bind b q n secret alpns kind custom w ≡ (err e, w))
        × (endpoint_bind_with_address_lookup b q n secret alpns kind custom callback w ≡ (err e, w))
  unfolding endpoint_bind endpoint_bind_with_address_lookup
  binds_refuse secret alpns kind custom callback w e r =
      let c = checks_refuse secret kind custom e r in (rw c refl, rw c refl)
