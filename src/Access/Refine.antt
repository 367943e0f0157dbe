-- ===== src/Access/Refine.antt =====
-- The registry against its contract: closed, prepared for one context, or opened for it.
use waveshare.Prelude.{
  ℕ, ◌≡◌, refl, ap, ◌↔◌, Bool, true, false, ◌&&◌, List, [], ◌∷◌, arith, length, ◌==◌, if◌then◌else◌,
}
use waveshare.Access.{
  SecurityContext, Registry, session_id_size, access_is_valid, registry_init, registry_prepare,
  registry_activate, registry_revoke, registry_authorize,
}
use waveshare.Access.Ids.{session_ids_match-eq, session_ids_match_self}

-- What a client may know of a registry.
pub data Status : Type 0 where
  closed : Status
  prepared opened : SecurityContext → Status

pub data Op : Type 0 where
  prepare : SecurityContext → Op
  activate : ℕ → ℕ → Op
  revoke : Op

abbrev pub view : Registry → Status
view r = if r.prepared then (if r.active then opened r.access else prepared r.access) else closed

-- One call on the registry, with its answer (`revoke` has none).
unfoldable pub step : Registry → Op → Bool × Registry
step r (prepare access) = registry_prepare r access
step r (activate connection authorization) = registry_activate r connection authorization
step r revoke = (true, registry_revoke r)

-- The contract. Only a valid context is prepared, which drops what was there; it is opened once,
-- by its own two generations.
pub spec_activate : Status → ℕ → ℕ → Bool × Status
spec_activate (prepared a) connection authorization =
    if a.connection_generation == connection && a.authorization_generation == authorization
    then (true, opened a)
    else (false, prepared a)
spec_activate s connection authorization = (false, s)

pub spec_step : Status → Op → Bool × Status
spec_step s (prepare access) =
    if access_is_valid access then (true, prepared access) else (false, s)
spec_step s (activate connection authorization) = spec_activate s connection authorization
spec_step s revoke = (true, closed)

unfoldable pub run : Registry → List Op → List Bool × Registry
run r [] = ([], r)
run r (op ∷ ops) =
    let (answer, r') = step r op in let (answers, r'') = run r' ops in (answer ∷ answers, r'')

pub spec_run : Status → List Op → List Bool × Status
spec_run s [] = ([], s)
spec_run s (op ∷ ops) =
    let (answer, s') = spec_step s op in
    let (answers, s'') = spec_run s' ops in (answer ∷ answers, s'')

-- A prepared context is a valid one, and only a prepared registry is active.
pub record IsValid (r : Registry) : Type 0 where
  pub held : r.prepared ≡ true → access_is_valid r.access ≡ true
  pub opened_prepared : r.active ≡ true → r.prepared ≡ true

step-IsValid : (r : Registry) (op : Op) → IsValid r → IsValid (step r op).1
unfolding step registry_prepare registry_activate registry_revoke
step-IsValid r (prepare access) v = ground arith
step-IsValid r (activate c a) v = ground arith
step-IsValid r revoke v = ground arith

step_refines :
    (r : Registry) (op : Op)
    → IsValid r
    → let (answer, r') = step r op in (answer, view r') ≡ spec_step (view r) op
unfolding step spec_step spec_activate registry_prepare registry_activate registry_revoke
    access_is_valid
step_refines r (prepare access) v = ground arith
step_refines r (activate c a) v = ground arith
step_refines r revoke v = ground arith

run-IsValid : (ops : List Op) (r : Registry) → IsValid r → IsValid (run r ops).1
unfolding run
run-IsValid [] r v = v
run-IsValid (op ∷ ops) r v = run-IsValid ops (step r op).1 (step-IsValid r op v)

run_refines_from :
    (ops : List Op) (r : Registry)
    → IsValid r
    → let (answers, r') = run r ops in (answers, view r') ≡ spec_run (view r) ops
unfolding run spec_run
run_refines_from [] r v = refl
run_refines_from (op ∷ ops) r v =
    let later = run_refines_from ops (step r op).1 (step-IsValid r op v) in
    ground (arith, step_refines r op v, later)

init-IsValid : IsValid registry_init
unfolding registry_init
init-IsValid = ground arith

-- After any calls from `registry_init` on, the answers and the status of the registry are those of
-- the contract.
pub run_refines :
    (ops : List Op)
    → let (answers, r) = run registry_init ops in (answers, view r) ≡ spec_run closed ops
unfolding registry_init
run_refines ops = run_refines_from ops registry_init init-IsValid

-- A context is authorized exactly when it is valid and the registry is opened for that very
-- context, if both session ids have eight bytes.
pub authorize_iff :
    (r : Registry) (access : SecurityContext)
    → length r.access.session_id ≡ session_id_size
    → length access.session_id ≡ session_id_size
    → IsValid r
    → (registry_authorize r access ≡ true)
      ↔ ((access_is_valid access ≡ true) × (view r ≡ opened access))
unfolding registry_authorize
authorize_iff r access h k v = (
  λ e. ground (arith, session_ids_match-eq r.access.session_id access.session_id),
  λ e. ground (arith, session_ids_match_self access.session_id),
)

-- After any calls from `registry_init` on, with eight-byte session ids, a context is authorized
-- exactly when it is valid and the contract has it opened.
pub authorize-run_iff :
    (ops : List Op) (access : SecurityContext)
    → length (run registry_init ops).1.access.session_id ≡ session_id_size
    → length access.session_id ≡ session_id_size
    → (registry_authorize (run registry_init ops).1 access ≡ true)
      ↔ ((access_is_valid access ≡ true) × ((spec_run closed ops).1 ≡ opened access))
authorize-run_iff ops access h k =
    let same = ap (λ p. p.1) (run_refines ops) in
    let here =
      authorize_iff (run registry_init ops).1 access h k
        (run-IsValid ops registry_init init-IsValid) in
    ground (arith, here, same)
