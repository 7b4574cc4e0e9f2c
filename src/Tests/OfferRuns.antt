-- ===== src/Tests/OfferRuns.antt =====
-- Eight clients take the slots of the toy adaptor, and a ninth comes.
use zonal_zero_trust_auth.Base.{
  ◌≡◌, refl, List, [], ◌∷◌, ◌++◌, false, none, some, replicate, arith, find_index,
}
use zonal_zero_trust_auth.Platform.{ClientId, IsClientId, client_id_len, ecc_signature_len}
use zonal_zero_trust_auth.ConstantTime.{same_bytes, diff_bytes, is_zero, or_bytes}
use zonal_zero_trust_auth.Engine
use zonal_zero_trust_auth.Engine.{supported_version, sanitise_secret_material}
use zonal_zero_trust_auth.Tlm
use zonal_zero_trust_auth.Tlm.{is_locked_out, find_slot_by_client_id}
use zonal_zero_trust_auth.Adaptor.{
  AdaptorStatus, Adaptor, construct, find_slot, find_free_engine_slot, on_peer_offered,
  on_auth_request, on_auth_response, is_session_active,
}
use zonal_zero_trust_auth.Adaptor.Valid.{IsValid}
use zonal_zero_trust_auth.Adaptor.Events.{Event, offers, AllTyped, step, run}
use zonal_zero_trust_auth.Adaptor.Hooks.{run-IsValid}
use zonal_zero_trust_auth.Adaptor.Housing.{AllNamed, IsCovered}
use zonal_zero_trust_auth.Adaptor.Housing.History.{run-IsCovered}
use zonal_zero_trust_auth.Adaptor.Offer.{Answered, on_peer_offered_lem}
use zonal_zero_trust_auth.Adaptor.Offer.Full.{run-on_peer_offered}
use zonal_zero_trust_auth.Tests.Data.{peers, toy}
use zonal_zero_trust_auth.Tests.LoginRuns.{start}
use zonal_zero_trust_auth.Tests.AvailabilityRuns.{
  start-IsValid, start-IsCovered, others, others-AllTyped, others-AllNamed,
}

abbrev arrivals : List Event
arrivals =
    offers (replicate client_id_len 11)
    ∷ offers (replicate client_id_len 12)
    ∷ offers (replicate client_id_len 13)
    ∷ offers (replicate client_id_len 14)
    ∷ offers (replicate client_id_len 15)
    ∷ offers (replicate client_id_len 16)
    ∷ offers (replicate client_id_len 17)
    ∷ offers (replicate client_id_len 18)
    ∷ []

arrivals-AllTyped : AllTyped arrivals
arrivals-AllTyped = (
  omega arith,
  (
    omega arith,
    (omega arith, (omega arith, (omega arith, (omega arith, (omega arith, (omega arith, tt)))))),
  ),
)

arrivals-AllNamed : AllNamed arrivals
arrivals-AllNamed = (tt, (tt, (tt, (tt, (tt, (tt, (tt, (tt, tt))))))))

abbrev late : ClientId
late = replicate client_id_len 19

late-IsClientId : IsClientId late
late-IsClientId = omega arith

unfoldable crowded : Adaptor toy
crowded = run toy start arrivals

crowded-IsValid : IsValid toy (some peers) 2 crowded
unfolding crowded
crowded-IsValid = run-IsValid toy (some peers) 2 start arrivals arrivals-AllTyped start-IsValid

crowded-IsCovered : IsCovered toy crowded
unfolding crowded
crowded-IsCovered =
    run-IsCovered toy (some peers) 2 arrivals arrivals-AllTyped arrivals-AllNamed start
      start-IsValid start-IsCovered

crowded-full :
    (find_free_engine_slot toy crowded ≡ none)
    × (find_slot toy crowded late ≡ none)
    × (is_zero late ≡ false)
unfolding crowded toy start construct run step on_peer_offered find_slot find_free_engine_slot
    Engine.construct Engine.reset sanitise_secret_material Tlm.construct is_locked_out
    find_slot_by_client_id find_index same_bytes diff_bytes is_zero or_bytes
crowded-full = (refl, refl, refl)

on_peer_offered_lem_example : Answered toy crowded late (on_peer_offered toy crowded late)
on_peer_offered_lem_example = on_peer_offered_lem toy (some peers) 2 crowded crowded-IsValid late

run-on_peer_offered_example :
    let b = run toy crowded others in
    (on_peer_offered toy b late ≡ (AdaptorStatus.slot_exhausted, b))
    × (on_auth_request toy b (some (late ++ supported_version)) ≡ (AdaptorStatus.unknown_peer, b))
    × (on_auth_response toy b (some (late ++ replicate ecc_signature_len 0)) 5
        ≡ (AdaptorStatus.unknown_peer, b))
    × (is_session_active toy b late 5 none ≡ (AdaptorStatus.not_authenticated, none, b))
run-on_peer_offered_example =
    run-on_peer_offered toy (some peers) 2 crowded crowded-IsValid crowded-IsCovered late
      late-IsClientId (crowded-full.2) (crowded-full.0) (crowded-full.1) others others-AllTyped
      others-AllNamed (late ++ supported_version) (late ++ replicate ecc_signature_len 0) 5 none
      (omega arith) refl (omega arith) refl
