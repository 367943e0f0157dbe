-- ===== src/Storage/Tombstone.antt =====
-- The two steps of a factory reset: where each of them stops, and what its tombstone is read as.
use waveshare.Prelude.{
  ◌≡◌, ◌≢◌, refl, sym, ◌∙◌, subst, Bool, true, false, List, [], ◌∷◌, ◌++◌, Option, none, some,
  arith,
}
use waveshare.Storage.Nvs.{
  Namespace, legacy_space, slot_a_space, slot_b_space, meta_space, Err, Outcome, got, failed, u8,
  open_write, commit_writes, set_num, Nvs, Separate, write_all, look-write_all, unless_failed,
}
use waveshare.Storage.Reset.{
  reset_is_pending, tombstone_result, erase_namespace, erase_namespaces, write_reset_tombstone,
}
use waveshare.Storage.Durable.{Elsewhere, write_all-Elsewhere}

abbrev pub settings_spaces : List Namespace
settings_spaces = legacy_space ∷ slot_a_space ∷ slot_b_space ∷ []

tombstone_confirmed :
    (pending : Outcome Bool) → tombstone_result pending ≡ none → pending ≡ got true
unfolding tombstone_result
tombstone_confirmed (got true) h = refl
tombstone_confirmed (got false) h = ground arith
tombstone_confirmed (failed e) h = ground arith

module _ {S : Type 0} (nvs : Nvs S) where
  erase_meta_same :
      (n : Namespace) (s : S)
      → Separate nvs
      → meta_space ≢ n
      → nvs.look (erase_namespace nvs n s).1 meta_space ≡ nvs.look s meta_space
  unfolding erase_namespace
  erase_meta_same n s separate other = look-write_all nvs n meta_space _ s separate other

  unless_failed-look :
      (err : Option Err) (s s' : S) (rest : Option Err × S)
      → nvs.look s' meta_space ≡ nvs.look s meta_space
      → nvs.look rest.1 meta_space ≡ nvs.look s' meta_space
      → nvs.look (unless_failed err s' rest).1 meta_space ≡ nvs.look s meta_space
  unless_failed-look none s s' rest h k = k ∙ h
  unless_failed-look (some e) s s' rest h k = h

  pub settings_only :
      (s : S)
      → Separate nvs
      → nvs.look (erase_namespaces nvs settings_spaces s).1 meta_space ≡ nvs.look s meta_space
  unfolding erase_namespaces
  settings_only s separate =
      let s₁ = (erase_namespace nvs legacy_space s).1 in
      let s₂ = (erase_namespace nvs slot_a_space s₁).1 in
      unless_failed-look _ s s₁ _ (erase_meta_same legacy_space s separate (λ q. ground arith)) (
        unless_failed-look _ s₁ s₂ _ (erase_meta_same slot_a_space s₁ separate (λ q. ground arith))
          (unless_failed-look _ s₂ _ _
            (erase_meta_same slot_b_space s₂ separate (λ q. ground arith)) refl))

  stopped_by :
      (err e : Option Err) (s' : S) (rest longer : Option Err × S)
      → (unless_failed err s' rest).0 ≡ e
      → e ≢ none
      → (rest.0 ≡ e → longer ≡ rest)
      → unless_failed err s' longer ≡ unless_failed err s' rest
  stopped_by none e s' rest longer h f k = k h
  stopped_by (some x) e s' rest longer h f k = refl

  -- A namespace that cannot be erased ends the erasure.
  pub erase_namespaces-stopped :
      (spaces : List Namespace) (last : Namespace) (s : S)
      → (erase_namespaces nvs spaces s).0 ≢ none
      → erase_namespaces nvs (spaces ++ last ∷ []) s ≡ erase_namespaces nvs spaces s
  unfolding erase_namespaces
  erase_namespaces-stopped [] last s f = absurd (f refl)
  erase_namespaces-stopped (n ∷ spaces) last s f =
      let (err, s') = erase_namespace nvs n s in
      stopped_by err _ s' (erase_namespaces nvs spaces s') _ refl f
        (λ same. erase_namespaces-stopped spaces last s' (λ q. f (sym same ∙ q)))

  confirmed_by :
      (err : Option Err) (s' : S) (pending : Outcome Bool)
      → (unless_failed err s' (tombstone_result pending, s')).0 ≡ none
      → pending ≡ got true
  confirmed_by none s' pending h = tombstone_confirmed pending h
  confirmed_by (some e) s' pending h = absurd (ground arith)

  pub unless_failed-state :
      (err last : Option Err) (s' : S) → (unless_failed err s' (last, s')).1 ≡ s'
  unless_failed-state none last s' = refl
  unless_failed-state (some e) last s' = refl

  pub tombstone-Elsewhere :
      (s : S) → Separate nvs → Elsewhere nvs meta_space s (write_reset_tombstone nvs s).1
  unfolding write_reset_tombstone
  tombstone-Elsewhere s separate =
      let writes = open_write ∷ set_num u8 "reset" 1 ∷ commit_writes ∷ [] in
      subst (Elsewhere nvs meta_space s) (sym (unless_failed-state _ _ _))
        (write_all-Elsewhere nvs meta_space writes s separate)

  pub tombstone-confirmed :
      (s : S)
      → (write_reset_tombstone nvs s).0 ≡ none
      → reset_is_pending (nvs.look (write_reset_tombstone nvs s).1 meta_space) ≡ got true
  unfolding write_reset_tombstone
  tombstone-confirmed s h =
      let writes = open_write ∷ set_num u8 "reset" 1 ∷ commit_writes ∷ [] in
      let (ret, s') = write_all nvs meta_space writes s in
      subst (λ x. reset_is_pending (nvs.look x meta_space) ≡ got true)
        (sym (unless_failed-state ret _ s'))
        (confirmed_by ret s' (reset_is_pending (nvs.look s' meta_space)) h)
