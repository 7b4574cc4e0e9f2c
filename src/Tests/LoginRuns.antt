-- ===== src/Tests/LoginRuns.antt =====
-- A login of a known client on the toy platform.
use zonal_zero_trust_auth.Base.{refl, true, false, some, inr, replicate, arith, find_index}
use zonal_zero_trust_auth.Platform.{
  Nonce, CryptoSignature, nonce_len, ecc_signature_len, ecc_public_key_len,
}
use zonal_zero_trust_auth.ConstantTime.{same_bytes, diff_bytes, is_zero, or_bytes}
use zonal_zero_trust_auth.Engine
use zonal_zero_trust_auth.Engine.{find_key, find_peer_public_key}
use zonal_zero_trust_auth.Tlm
use zonal_zero_trust_auth.Tlm.{find_slot_by_client_id}
use zonal_zero_trust_auth.Adaptor.{Adaptor, construct, find_slot, find_free_engine_slot}
use zonal_zero_trust_auth.Adaptor.Login.{MayLogIn}
use zonal_zero_trust_auth.Adaptor.Login.Exchange.{Serves}
use zonal_zero_trust_auth.Tests.Data.{alice, peers, toy}

unfoldable pub start : Adaptor toy
unfolding toy
start = construct toy 5 (some peers) 2 true false

abbrev pub nonce : Nonce
nonce = replicate nonce_len 5

abbrev pub signature : CryptoSignature
signature = replicate ecc_signature_len 5

pub alice-MayLogIn : MayLogIn toy (some peers) 2 start alice (replicate ecc_public_key_len 2)
unfolding start construct find_slot find_free_engine_slot Engine.construct find_key
    find_peer_public_key Tlm.construct Tlm.is_locked_out find_slot_by_client_id find_index
    same_bytes diff_bytes is_zero or_bytes
alice-MayLogIn = record {
  not_zero = refl;
  not_barred = refl;
  slot = 0;
  has_slot = inr (refl, refl);
  known = refl;
  place = 0;
  place_in = omega arith;
  place_open = refl;
}

pub toy-Serves :
    Serves toy start.platform alice (replicate ecc_public_key_len 2) signature nonce nonce
unfolding toy start construct same_bytes diff_bytes
toy-Serves = record {
  digest = nonce;
  s1 = 6;
  s2 = 6;
  s3 = 6;
  s4 = 6;
  drawn = refl;
  hashed = refl;
  signed = refl;
  derived = refl;
}
