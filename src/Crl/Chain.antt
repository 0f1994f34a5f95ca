-- ===== src/Crl/Chain.antt =====
-- The stored chain: writing one and reading it back, and what the store then says is ours.
use openvox_ca.Prelude.{
  ◌≡◌, refl, ap, Bool, true, false, Option, none, some, List, [], ◌∷◌, ℤ, arith, Bool-cases, inl,
  inr,
}
use openvox_ca.World.Types.{Crl, CaCert, CrlBlob, Config, stated, Store}
use openvox_ca.World.Exec.{Result, ok, err}
use openvox_ca.Crl.Lists.{
  listed, crl_signed_by, newer_crl, decode_crl_chain, encode_crl_chain, own_crl_from, own_crl_in,
  select_own_crl, foreign_crls,
}
use openvox_ca.Crl.Store.{StoredCrl, check_leading, leading_crl, newest_from}

-- The CA is initialised with a key that matches its certificate, and what a chain file states holds
-- no list of ours (startup pins the first; upstreamCRLs admits only lists of other issuers).
pub record IsReady (c : Config) : Type 0 where
  pub cert : CaCert
  pub has_cert : c.ca_cert ≡ some cert
  pub has_key : c.ca_key ≡ some cert.key
  pub upstream_foreign :
      (crls : List Crl) → c.upstream ≡ stated crls → foreign_crls c.ca_cert crls ≡ crls

abbrev pub as_option {ℓ} : {A : Type ℓ} → Result A → Option A
as_option (ok a) = some a
as_option (err e) = none

abbrev pub stored_in : Option CaCert → Option CrlBlob → Option StoredCrl
stored_in cert none = none
stored_in cert (some blob) = as_option (check_leading cert blob (leading_crl blob))

-- What a read of the stored chain that does not fail gives.
unfoldable pub stored_crl : Config → Store → Option StoredCrl
stored_crl c s = stored_in c.ca_cert s.crl

abbrev pub own_listed : ℤ → Option StoredCrl → Bool
own_listed n none = false
own_listed n (some st) = listed n st.own.entries

-- Whether the stored list of ours holds the serial.
unfoldable pub on_stored_crl : Config → ℤ → Store → Bool
unfolding stored_crl listed
on_stored_crl c n s = own_listed n (stored_crl c s)

pub decode-encode : (crls : List Crl) → decode_crl_chain (encode_crl_chain crls) ≡ ok crls
unfolding decode_crl_chain encode_crl_chain
decode-encode [] = refl
decode-encode (crl ∷ crls) = rw (decode-encode crls)

own_crl_from-foreign :
    (cert : Option CaCert) (ours : Option Crl) (crls : List Crl)
    → own_crl_from cert ours (foreign_crls cert crls) ≡ ours
unfolding own_crl_from foreign_crls
own_crl_from-foreign cert ours [] = refl
own_crl_from-foreign cert ours (crl ∷ crls) = elim (Bool-cases (crl_signed_by cert crl)) [
  | inl mine ↦ rw mine (own_crl_from-foreign cert ours crls)
  | inr other ↦ rw other (rw (other, own_crl_from) (own_crl_from-foreign cert ours crls))
]

own_crl_in-foreign :
    (cert : Option CaCert) (crl : Crl) (crls : List Crl)
    → crl_signed_by cert crl ≡ true
    → own_crl_in (crl ∷ foreign_crls cert crls) cert ≡ some crl
unfolding own_crl_in
own_crl_in-foreign cert crl crls mine =
    rw (own_crl_from, mine) (own_crl_from-foreign cert (some crl) crls)

select_written :
    (cert : Option CaCert) (crl : Crl) (crls : List Crl)
    → crl_signed_by cert crl ≡ true
    → select_own_crl cert (encode_crl_chain (crl ∷ foreign_crls cert crls)) ≡ ok (some crl)
unfolding select_own_crl
select_written cert crl crls mine =
    rw (decode-encode (crl ∷ foreign_crls cert crls))
      (ap ok (own_crl_in-foreign cert crl crls mine))

newest_from_self : (crl : Crl) → newest_from crl (ok (some crl)) ≡ crl
unfolding newer_crl
newest_from_self crl = ground arith

-- A list of ours, written in front of lists of others, is what the next read re-signs from.
pub stored_of_written :
    (cert : Option CaCert) (crl : Crl) (crls : List Crl)
    → crl_signed_by cert crl ≡ true
    → stored_in cert (some (encode_crl_chain (crl ∷ foreign_crls cert crls)))
      ≡ some (record { own = crl; blob = encode_crl_chain (crl ∷ foreign_crls cert crls) })
unfolding encode_crl_chain
stored_of_written cert crl crls mine =
    let decoded = select_written cert crl crls mine in rw (mine, decoded, newest_from_self crl)
