-- ===== src/Access.antt =====
-- components/management_access/src/aiqa_management_access.c: the registry of the one connection
-- that may manage the device. An operation holds the registry's spin lock from its first access to
-- its last, so each is one step here. A session id is a list of eight bytes.
pub mod Ids
pub mod Refine
mod Tests
use Prim.Native.Nat.{bit_xor}
use waveshare.Prelude.{
  ℕ, Bool, true, false, not, ◌&&◌, ◌||◌, List, [], ◌∷◌, bit_or, ◌==◌, if◌then◌else◌, replicate,
}

pub record SecurityContext : Type 0 where
  pub connection_generation : ℕ
  pub authorization_generation : ℕ
  pub session_id : List ℕ

pub record Registry : Type 0 where
  pub prepared : Bool
  pub active : Bool
  pub access : SecurityContext

abbrev pub session_id_size : ℕ
session_id_size = 8

-- `secure_zero` of the whole context
abbrev pub zero_access : SecurityContext
zero_access = record {
  connection_generation = 0;
  authorization_generation = 0;
  session_id = replicate session_id_size 0;
}

-- The loop over the bytes, `combined |= session_id[index]`.
pub combine : ℕ → List ℕ → ℕ
combine combined [] = combined
combine combined (byte ∷ rest) = combine (bit_or combined byte) rest

pub session_id_is_nonzero : List ℕ → Bool
session_id_is_nonzero session_id = not (combine 0 session_id == 0)

pub access_is_valid : SecurityContext → Bool
access_is_valid access =
    not (access.connection_generation == 0)
    && not (access.authorization_generation == 0)
    && session_id_is_nonzero access.session_id

-- The loop over both, `difference |= first[index] ^ second[index]`.
pub differ : ℕ → List ℕ → List ℕ → ℕ
differ difference (a ∷ first) (b ∷ second) = differ (bit_or difference (bit_xor a b)) first second
differ difference _ _ = difference

pub session_ids_match : List ℕ → List ℕ → Bool
session_ids_match first second = differ 0 first second == 0

pub registry_init : Registry
registry_init = record { prepared = false; active = false; access = zero_access }

pub registry_prepare : Registry → SecurityContext → Bool × Registry
registry_prepare r access =
    if access_is_valid access
    then (true, record { prepared = true; active = false; access = access })
    else (false, r)

pub registry_activate : Registry → ℕ → ℕ → Bool × Registry
registry_activate r connection_generation authorization_generation =
    if connection_generation == 0 || authorization_generation == 0
    then (false, r)
    else let matches =
        r.prepared
        && not r.active
        && r.access.connection_generation == connection_generation
        && r.access.authorization_generation == authorization_generation in
      (matches, if matches then record r { active = true } else r)

pub registry_revoke : Registry → Registry
registry_revoke r = record { prepared = false; active = false; access = zero_access }

pub registry_authorize : Registry → SecurityContext → Bool
registry_authorize r access =
    access_is_valid access
    && r.prepared
    && r.active
    && r.access.connection_generation == access.connection_generation
    && r.access.authorization_generation == access.authorization_generation
    && session_ids_match r.access.session_id access.session_id

-- The process-wide registry, and whether `global_init` has run.
pub record Global : Type 0 where
  pub registry : Registry
  pub initialized : Bool

pub global_init : Global → Global
global_init g = record { registry = registry_init; initialized = true }

pub global_prepare : Global → SecurityContext → Bool × Global
global_prepare g access =
    if g.initialized
    then (let (done, r) = registry_prepare g.registry access in (done, record g { registry = r }))
    else (false, g)

pub global_activate : Global → ℕ → ℕ → Bool × Global
global_activate g connection_generation authorization_generation =
    if g.initialized
    then (let (done, r) =
          registry_activate g.registry connection_generation authorization_generation in
        (done, record g { registry = r }))
    else (false, g)

pub global_revoke : Global → Global
global_revoke g = if g.initialized then record g { registry = registry_revoke g.registry } else g

pub global_authorize : Global → SecurityContext → Bool
global_authorize g access = g.initialized && registry_authorize g.registry access
