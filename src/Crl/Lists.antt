-- ===== src/Crl/Lists.antt =====
-- Functions on lists: which is newer, which is ours, which serials they hold (crlchain.go,
-- caImport.go, and serialInCRL of revoke.go).
use openvox_ca.Prelude.{
  ℕ, suc, Bool, true, false, ◌&&◌, Option, none, some, List, [], ◌∷◌, ltb, ℤ, ◌==ℤ◌, ◌==◌,
  if◌then◌else◌,
}
use openvox_ca.World.Types.{
  Crl, RevocationEntry, CaCert, CrlBlob, crl_block, bad_crl, other_block, bad_crl_chain,
}
use openvox_ca.World.Exec.{Result, ok, err}

-- serialInCRL, over the entries.
unfoldable pub listed : ℤ → List RevocationEntry → Bool
listed n [] = false
listed n (e ∷ es) = if e.serial ==ℤ n then true else listed n es

unfoldable pub serial_in_crl : Crl → ℤ → Bool
unfolding listed
serial_in_crl crl n = listed n crl.entries

-- crlSignedBy.
abbrev pub signed_by : Option CaCert → ℕ → Bool
signed_by none key = false
signed_by (some cert) key = cert.key == key

unfoldable pub crl_signed_by : Option CaCert → Crl → Bool
crl_signed_by cert crl = signed_by cert crl.signer

abbrev pub newer : Option ℕ → Option ℕ → Bool → Bool
newer (some a) (some b) later = ltb b a
newer (some a) none later = true
newer none (some b) later = false
newer none none later = later

-- newerCRL: by number; a list with one is newer than a list without; without any, by thisUpdate.
unfoldable pub newer_crl : Crl → Crl → Bool
newer_crl a b = newer a.number b.number (ltb b.this_update a.this_update)

-- decodeCRLChain: blocks of another type are skipped, one bad list fails the whole.
abbrev pub prepend : Crl → Result (List Crl) → Result (List Crl)
prepend crl (ok rest) = ok (crl ∷ rest)
prepend crl (err e) = err e

unfoldable pub decode_crl_chain : CrlBlob → Result (List Crl)
decode_crl_chain [] = ok []
decode_crl_chain (crl_block crl ∷ rest) = prepend crl (decode_crl_chain rest)
decode_crl_chain (bad_crl ∷ rest) = err bad_crl_chain
decode_crl_chain (other_block ∷ rest) = decode_crl_chain rest

-- encodeCRLChain.
unfoldable pub encode_crl_chain : List Crl → CrlBlob
encode_crl_chain [] = []
encode_crl_chain (crl ∷ rest) = crl_block crl ∷ encode_crl_chain rest

abbrev pub better : Crl → Option Crl → Bool
better crl none = true
better crl (some ours) = newer_crl crl ours

-- The loop of ownCRLIn, with the best list so far.
unfoldable pub own_crl_from : Option CaCert → Option Crl → List Crl → Option Crl
unfolding crl_signed_by newer_crl
own_crl_from cert ours [] = ours
own_crl_from cert ours (crl ∷ rest) =
    own_crl_from cert (if crl_signed_by cert crl && better crl ours then some crl else ours) rest

unfoldable pub own_crl_in : List Crl → Option CaCert → Option Crl
unfolding own_crl_from
own_crl_in chain cert = own_crl_from cert none chain

abbrev pub select_in : Option CaCert → Result (List Crl) → Result (Option Crl)
select_in cert (ok chain) = ok (own_crl_in chain cert)
select_in cert (err e) = err e

-- selectOwnCRL; the position it also returns only reaches a log line.
unfoldable pub select_own_crl : Option CaCert → CrlBlob → Result (Option Crl)
unfolding decode_crl_chain own_crl_in
select_own_crl cert blob = select_in cert (decode_crl_chain blob)

-- The blocks of a chain that others signed, in order.
unfoldable pub foreign_crls : Option CaCert → List Crl → List Crl
unfolding crl_signed_by
foreign_crls cert [] = []
foreign_crls cert (crl ∷ rest) =
    let others = foreign_crls cert rest in if crl_signed_by cert crl then others else crl ∷ others

unfoldable pub own_count : Option CaCert → List Crl → ℕ
unfolding crl_signed_by
own_count cert [] = 0
own_count cert (crl ∷ rest) =
    let n = own_count cert rest in if crl_signed_by cert crl then suc n else n
