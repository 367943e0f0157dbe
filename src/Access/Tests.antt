-- ===== src/Access/Tests.antt =====
-- Runs of the registry, and the theorems at concrete inputs.
use waveshare.Prelude.{◌≡◌, refl, ap, ◌↔◌, Bool, true, false, List, [], ◌∷◌, length, replicate}
use waveshare.Access.{
  SecurityContext, Registry, access_is_valid, session_id_is_nonzero, combine, session_ids_match,
  differ, registry_init, registry_prepare, registry_activate, registry_revoke, registry_authorize,
  Global, global_init, global_prepare, global_activate, global_revoke, global_authorize,
  zero_access,
}
use waveshare.Access.Refine.{
  closed, opened, Op, prepare, activate, step, run, spec_run, view, run_refines, authorize-run_iff,
}

abbrev peer : SecurityContext
peer = record {
  connection_generation = 3;
  authorization_generation = 8;
  session_id = 0 ∷ 0 ∷ 5 ∷ 0 ∷ 0 ∷ 0 ∷ 0 ∷ 1 ∷ [];
}

-- Calls with every callee open.
play : List Op → List Bool × Registry
unfolding run step registry_prepare registry_activate registry_revoke access_is_valid
    session_id_is_nonzero combine registry_init
play ops = run registry_init ops

activates_once :
    (play (prepare peer ∷ activate 3 7 ∷ activate 3 8 ∷ activate 3 8 ∷ [])).0
    ≡ true ∷ false ∷ true ∷ false ∷ []
unfolding play
activates_once = refl

zero_session_refused :
    (play (prepare (record peer { session_id = replicate 8 0 }) ∷ [])).0 ≡ false ∷ []
unfolding play
zero_session_refused = refl

abbrev before_init : Global
before_init = record {
  registry = record { prepared = false; active = false; access = zero_access };
  initialized = false;
}

global_needs_init :
    ((global_prepare before_init peer).0 ≡ false)
    × ((global_prepare (global_init before_init) peer).0 ≡ true)
unfolding global_prepare global_init registry_init registry_prepare access_is_valid
    session_id_is_nonzero combine
global_needs_init = (refl, refl)

global_session :
    let g₁ = (global_prepare (global_init before_init) peer).1 in
    let g₂ = (global_activate g₁ 3 8).1 in
    (global_authorize g₁ peer ≡ false)
    × (global_authorize g₂ peer ≡ true)
    × (global_authorize (global_revoke g₂) peer ≡ false)
unfolding global_prepare global_activate global_revoke global_authorize global_init registry_init
    registry_prepare registry_activate registry_revoke registry_authorize access_is_valid
    session_id_is_nonzero combine session_ids_match differ
global_session = (refl, refl, refl)

abbrev open_registry : Registry
open_registry = record { prepared = true; active = true; access = peer }

peer_is_valid : access_is_valid peer ≡ true
unfolding access_is_valid session_id_is_nonzero combine
peer_is_valid = refl

abbrev session : List Op
session = prepare peer ∷ activate 3 8 ∷ []

run_refines_example :
    let (answers, r) = run registry_init session in (answers, view r) ≡ spec_run closed session
run_refines_example = run_refines session

held_session : (run registry_init session).1.access.session_id ≡ peer.session_id
unfolding run step registry_prepare registry_activate access_is_valid session_id_is_nonzero combine
    registry_init
held_session = refl

authorize-run_iff_example :
    (registry_authorize (run registry_init session).1 peer ≡ true)
    ↔ ((access_is_valid peer ≡ true) × ((spec_run closed session).1 ≡ opened peer))
authorize-run_iff_example = authorize-run_iff session peer (ap length held_session) refl
