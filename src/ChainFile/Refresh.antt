-- ===== src/ChainFile/Refresh.antt =====
-- A pass over the operator's file of upstream lists: RefreshCRLChainFile and sameCRLSet of
-- internal/ca/crlchainfile.go.
use openvox_ca.Prelude.{
  Bool, true, false, ◌&&◌, Option, none, some, List, [], ◌∷◌, ◌==◌, if◌then◌else◌,
}
use openvox_ca.World.Types.{
  Crl, CrlBlob, Config, Error, chain_file_error, Upstream, upstream_fault, unstated, stated,
}
use openvox_ca.World.Exec.{World, Exec, Result, ok, err, pure, ◌>>◌}
use openvox_ca.World.Locks.{with_crl_lock_counted, count_crl_failure}
use openvox_ca.World.Storage.{get_crl}
use openvox_ca.Crl.Sign.{reissue_crl_locked}
use openvox_ca.ChainFile.{BundleCert, FileRead, upstream_crls, published_upstream}

-- sameCRLSet.
unfoldable pub same_crl_set : List Crl → List Crl → Bool
same_crl_set [] [] = true
same_crl_set (a ∷ crls) (b ∷ others) = a.raw == b.raw && same_crl_set crls others
same_crl_set _ _ = false

-- What one reading of the bundle and of the file gave.
pub record Reading : Type 0 where
  pub bundle : Result (List BundleCert)
  pub file : FileRead

-- upstreamCRLs over the chain that is stored.
abbrev pub states : Config → Reading → CrlBlob → Result (Option (List Crl))
states c r current = upstream_crls c.ca_cert r.bundle r.file (some current)

abbrev pub as_upstream : Result (Option (List Crl)) → Upstream
as_upstream (err e) = upstream_fault e
as_upstream (ok none) = unstated
as_upstream (ok (some wanted)) = stated wanted

-- The configuration with what the file states when crlChainLocked reads it again, over the same
-- stored chain, which the lock keeps.
abbrev pub stating : Config → Result (Option (List Crl)) → Config
stating c again = record c { upstream = as_upstream again }

abbrev pub is_chain_fault : Error → Bool
is_chain_fault chain_file_error = true
is_chain_fault _ = false

-- An error that the signing did not count is counted here, unless the chain file is at fault.
abbrev pub count_read {ℓ} : {A : Type ℓ} → Error → World → Result A × World
count_read e w = (err e, if is_chain_fault e then w else record w { mem = count_crl_failure w.mem })

-- What a pass compares and, where they differ, has signed again; the lists that it publishes are those
-- of the second reading.
abbrev pub rewrite_unless_same :
    Config → Result (Option (List Crl)) → List Crl → Result (List Crl) → Exec Bool
rewrite_unless_same c again wanted (err e) w = count_read e w
rewrite_unless_same c again wanted (ok published) w =
    if same_crl_set published wanted
    then (ok false, w)
    else (reissue_crl_locked (stating c again) >> pure true) w

abbrev pub rewrite_wanted :
    Config → Result (Option (List Crl)) → CrlBlob → Result (Option (List Crl)) → Exec Bool
rewrite_wanted c again current (err e) w = count_read e w
rewrite_wanted c again current (ok none) w = (ok false, w)
rewrite_wanted c again current (ok (some wanted)) w =
    rewrite_unless_same c again wanted (published_upstream c.ca_cert (some current)) w

abbrev pub rewrite_current : Config → Reading → Reading → Result CrlBlob → Exec Bool
rewrite_current c first second (err e) w = count_read e w
rewrite_current c first second (ok current) w =
    rewrite_wanted c (states c second current) current (states c first current) w

unfoldable pub refresh_chain_locked : Config → Reading → Reading → Exec Bool
refresh_chain_locked c first second w = rewrite_current c first second (get_crl w).0 (get_crl w).1

-- RefreshCRLChainFile, with what the two readings of the bundle and the file under the lock give: the
-- first decides, the second is published.
abbrev pub refresh_with : Config → FileRead → Reading → Reading → Exec Bool
refresh_with c FileRead.not_set first second w = (ok false, w)
refresh_with c file first second w = with_crl_lock_counted (refresh_chain_locked c first second) w

unfoldable pub refresh_crl_chain_file : Config → Reading → Reading → Exec Bool
refresh_crl_chain_file c first second = refresh_with c first.file first second
