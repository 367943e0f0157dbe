-- ===== src/Config/Transaction/Safety.antt =====
-- Sequences of updates: what holds of the active record, its revision and the need of recovery.
use waveshare.Prelude.{
  ℕ, suc, ◌+◌, ◌≤◌, ◌≡◌, refl, sym, subst, ap, ◌⊎◌, inl, inr, Bool, true, false, List, [], ◌∷◌,
  Option, none, some, arith, if◌then◌else◌, u32_max,
}
use waveshare.Config.{
  WifiUpdate, PublicWifiConfig, secret_ok, wifi_credentials_validate, projected, WifiCredentials,
}
use waveshare.Config.Transaction.{
  Record, Status, recovery_required_status, Call, Ports, Transaction, unlock_apply, apply_locked,
  is_committed, view_after, apply_wifi, copy_active,
}
use waveshare.Config.Transaction.Protocol.{
  Protocol, cleaned, uncleaned, rolled_back, left_over, cut_off, not_staged, not_verified,
  not_connected, not_activated, head_unknown, head_invalid, done, left_retired,
}
use waveshare.Config.Transaction.Commit.{
  IsFree, IsValid, IsNext, refused, attempted, apply_wifi-Ending,
}

-- What a protocol does to the active record: a committed one replaces it, the others keep it.
Protocol-active :
    {old new : Record} {w v : WifiCredentials} {before : List Call} {s : Status} {r : Bool}
    {calls : List Call} {last : Record}
    → Protocol old new w v before s r calls last
    → ((is_committed s ≡ true) × (last ≡ new)) ⊎ ((is_committed s ≡ false) × (last ≡ old))
unfolding is_committed
Protocol-active (not_staged cleaned) = inr (refl, refl)
Protocol-active (not_staged uncleaned) = inr (refl, refl)
Protocol-active (not_verified cleaned) = inr (refl, refl)
Protocol-active (not_verified uncleaned) = inr (refl, refl)
Protocol-active (not_connected rolled_back) = inr (refl, refl)
Protocol-active (not_connected left_over) = inr (refl, refl)
Protocol-active (not_connected (cut_off b)) = inr (refl, refl)
Protocol-active (not_activated rolled_back) = inr (refl, refl)
Protocol-active (not_activated left_over) = inr (refl, refl)
Protocol-active (not_activated (cut_off b)) = inr (refl, refl)
Protocol-active head_unknown = inr (refl, refl)
Protocol-active (head_invalid n) = inr (refl, refl)
Protocol-active done = inl (refl, refl)
Protocol-active left_retired = inl (refl, refl)

-- An update that reports a commit makes the next revision, in the other slot, the active record, and
-- was asked for at the revision before; any other leaves the active record as it was.
pub apply_wifi-active :
    (p : Ports) (request : WifiUpdate) (out_view : Option PublicWifiConfig) (t : Transaction)
    → IsFree t
    → IsValid t
    → let (s, view, t') = apply_wifi p request out_view t in
      ((is_committed s ≡ true) × IsNext t request t'.active)
      ⊎ ((is_committed s ≡ false) × (t'.active ≡ t.active))
apply_wifi-active p request out_view t f v =
    let (s, view, t') = apply_wifi p request out_view t in
    elim (apply_wifi-Ending p request out_view t f v) [
      | refused a same ↦ inr (a, ap (λ x. x.active) same)
      | attempted new h n protocol f' ↦ elim (Protocol-active protocol) [
        | inl e ↦ inl (e.0, subst (IsNext t request) (sym e.1) n)
        | inr e ↦ inr e
      ]
    ]

pub apply_wifi-IsFree :
    (p : Ports) (request : WifiUpdate) (out_view : Option PublicWifiConfig) (t : Transaction)
    → IsFree t
    → IsValid t
    → IsFree (apply_wifi p request out_view t).2
apply_wifi-IsFree p request out_view t f v = elim (apply_wifi-Ending p request out_view t f v) [
  | refused a same ↦ subst IsFree (sym same) f
  | attempted new h n protocol f' ↦ f'
]

RecordIsValid : Record → Type 0
RecordIsValid r =
    (wifi_credentials_validate (projected r.secrets) ≡ secret_ok) × (r.revision ≤ u32_max)

pub apply_wifi-IsValid :
    (p : Ports) (request : WifiUpdate) (out_view : Option PublicWifiConfig) (t : Transaction)
    → IsFree t
    → IsValid t
    → IsValid (apply_wifi p request out_view t).2
unfolding RecordIsValid
apply_wifi-IsValid p request out_view t f v = elim (apply_wifi-active p request out_view t f v) [
  | inl e ↦ record { sound = e.1.new_sound; bounded = e.1.new_bounded }
  | inr e ↦
      let kept = subst RecordIsValid (sym e.1) (v.sound, v.bounded) in
      record { sound = kept.0; bounded = kept.1 }
]

-- The updates of a list, in order: how many were committed, and the transaction after them.
unfoldable pub run : Ports → List WifiUpdate → Transaction → ℕ × Transaction
run p [] t = (0, t)
run p (request ∷ requests) t =
    let (s, view, t') = apply_wifi p request none t in
    let (n, t'') = run p requests t' in (if is_committed s then suc n else n, t'')

run-step-revision :
    (p : Ports) (request : WifiUpdate) (t : Transaction)
    → IsFree t
    → IsValid t
    → let (s, view, t') = apply_wifi p request none t in
      t'.active.revision ≡ (if is_committed s then suc t.active.revision else t.active.revision)
run-step-revision p request t f v =
    let (s, view, t') = apply_wifi p request none t in
    elim (apply_wifi-active p request none t f v) [
      | inl e ↦ ground (arith, e.0, e.1.next)
      | inr e ↦ let same = ap (λ r. r.revision) e.1 in ground (arith, e.0, same)
    ]

-- Any updates of a valid, free transaction leave it free, with credentials to connect with, and its
-- revision grows by one with each committed update and never overflows.
pub run-IsValid :
    (p : Ports) (requests : List WifiUpdate) (t : Transaction)
    → IsFree t
    → IsValid t
    → let (n, t') = run p requests t in
      IsFree t' × IsValid t' × (t'.active.revision ≡ t.active.revision + n)
unfolding run
run-IsValid p [] t f v = (f, v, omega arith)
run-IsValid p (request ∷ requests) t f v =
    let t' = (apply_wifi p request none t).2 in
    let (f', v', count) =
      run-IsValid p requests t' (apply_wifi-IsFree p request none t f v)
        (apply_wifi-IsValid p request none t f v) in
    (f', v', ground (arith, count, run-step-revision p request t f v))

-- Once recovery is required, every update is refused without a call of a port, and no copy of the
-- active record is given out.
pub recovery_required_stops :
    (p : Ports) (request : WifiUpdate) (out_view : Option PublicWifiConfig) (t : Transaction)
    → IsFree t
    → t.recovery_required ≡ true
    → (apply_wifi p request out_view t ≡ (recovery_required_status, out_view, t))
      × ((copy_active t).1 ≡ none)
unfolding apply_wifi apply_locked unlock_apply copy_active view_after is_committed
recovery_required_stops p request none t f h = ground arith
recovery_required_stops p request (some view) t f h = ground arith
