-- ===== src/Storage/Resume.antt =====
-- A factory reset over a flash that loses power: what a restart finds.
use waveshare.Prelude.{
  ◌≡◌, ◌≢◌, refl, sym, ◌∙◌, ap, subst, true, false, List, [], ◌∷◌, ◌++◌, Option, none, some, arith,
}
use waveshare.Storage.Nvs.{
  Namespace, legacy_space, slot_a_space, slot_b_space, meta_space, Err, got, u8, Write, open_write,
  erase_all, commit_writes, set_num, Look, Nvs, IsEmpty, Commits, write_all, unless_failed,
  unless_failed-keeps,
}
use waveshare.Storage.Reset.{
  reset_is_pending, erase_namespace, erase_namespaces, complete_pending_reset_locked,
  write_reset_tombstone, erase_nvs_namespace,
}
use waveshare.Storage.Tombstone.{
  settings_spaces, erase_namespaces-stopped, tombstone-confirmed, unless_failed-state,
}

module _ {S : Type 0} (nvs : Nvs S) (restart : S → S) (commits : Commits nvs restart) where
  -- What a restart finds of a namespace.
  abbrev found : S → Namespace → Look
  found s n = nvs.look (restart s) n

  unless_failed-passed :
      (err : Option Err) (s : S) (rest : Option Err × S)
      → (unless_failed err s rest).0 ≡ none
      → (err ≡ none) × (rest.0 ≡ none) × (unless_failed err s rest ≡ rest)
  unless_failed-passed none s rest h = (refl, h, refl)
  unless_failed-passed (some e) s rest h = absurd (ground arith)

  pub write_all-apart :
      (n m : Namespace) (ws : List Write) (s : S)
      → m ≢ n
      → found (write_all nvs n ws s).1 m ≡ found s m
  unfolding write_all
  write_all-apart n m [] s other = refl
  write_all-apart n m (w ∷ ws) s other =
      let (err, s') = nvs.write n w s in
      let step = commits.apart n m w s other in
      unless_failed-keeps (λ x. found x m ≡ found s m) err s' (write_all nvs n ws s') step
        (write_all-apart n m ws s' other ∙ step)

  -- Three writes that succeed, the last of them a commit.
  committed_after :
      (n : Namespace) (a w : Write) (s : S)
      → (write_all nvs n (a ∷ w ∷ commit_writes ∷ []) s).0 ≡ none
      → let s₁ = (nvs.write n a s).1 in
        let s₂ = (nvs.write n w s₁).1 in
        let s' = (write_all nvs n (a ∷ w ∷ commit_writes ∷ []) s).1 in
        ((nvs.write n w s₁).0 ≡ none)
        × (found s' n ≡ nvs.look s' n)
        × (nvs.look s' n ≡ nvs.look s₂ n)
  unfolding write_all
  committed_after n a w s h =
      let s₁ = (nvs.write n a s).1 in
      let s₂ = (nvs.write n w s₁).1 in
      let s₃ = (nvs.write n commit_writes s₂).1 in
      let first = unless_failed-passed (nvs.write n a s).0 s₁ _ h in
      let second = unless_failed-passed (nvs.write n w s₁).0 s₂ _ first.1 in
      let third = unless_failed-passed (nvs.write n commit_writes s₂).0 s₃ (none, s₃) second.1 in
      let last = ap (λ x. x.1) (first.2 ∙ second.2 ∙ third.2) in
      (
        second.0,
        subst (λ x. found x n ≡ nvs.look x n) (sym last) (commits.survives n s₂ third.0),
        subst (λ x. nvs.look x n ≡ nvs.look s₂ n) (sym last) (commits.unchanged n s₂ third.0),
      )

  erase_namespace-IsEmpty :
      (n : Namespace) (s : S)
      → (erase_namespace nvs n s).0 ≡ none
      → IsEmpty (found (erase_namespace nvs n s).1 n)
  unfolding erase_namespace
  erase_namespace-IsEmpty n s h =
      let (erased, settled, same) = committed_after n open_write erase_all s h in
      subst IsEmpty (sym (settled ∙ same)) (commits.empties n _ erased)

  erase_namespace-apart :
      (n m : Namespace) (s : S) → m ≢ n → found (erase_namespace nvs n s).1 m ≡ found s m
  unfolding erase_namespace
  erase_namespace-apart n m s other = write_all-apart n m _ s other

  erase_namespaces-meta :
      (s : S) → found (erase_namespaces nvs settings_spaces s).1 meta_space ≡ found s meta_space
  unfolding erase_namespaces
  erase_namespaces-meta s =
      let s₁ = (erase_namespace nvs legacy_space s).1 in
      let s₂ = (erase_namespace nvs slot_a_space s₁).1 in
      let s₃ = (erase_namespace nvs slot_b_space s₂).1 in
      let Same : S → Type 0 = λ x. found x meta_space ≡ found s meta_space in
      let e₁ = erase_namespace-apart legacy_space meta_space s (λ q. ground arith) in
      let e₂ = erase_namespace-apart slot_a_space meta_space s₁ (λ q. ground arith) ∙ e₁ in
      let e₃ = erase_namespace-apart slot_b_space meta_space s₂ (λ q. ground arith) ∙ e₂ in
      unless_failed-keeps Same _ s₁ _ e₁
        (unless_failed-keeps Same _ s₂ _ e₂ (unless_failed-keeps Same _ s₃ (none, s₃) e₃ e₃))

  -- A restart finds no settings.
  pub record IsErased (s : S) : Type 0 where
    pub legacy : IsEmpty (found s legacy_space)
    pub slot_a : IsEmpty (found s slot_a_space)
    pub slot_b : IsEmpty (found s slot_b_space)

  -- The erasure of all namespaces, when those of the settings can be erased.
  erase_namespaces-IsErased :
      (s : S)
      → (erase_namespaces nvs settings_spaces s).0 ≡ none
      → let (err, s') = erase_namespaces nvs (settings_spaces ++ meta_space ∷ []) s in
        IsErased s' × (err ≡ none → IsEmpty (found s' meta_space))
  unfolding erase_namespaces
  erase_namespaces-IsErased s h =
      let (e₁, s₁) = erase_namespace nvs legacy_space s in
      let (e₂, s₂) = erase_namespace nvs slot_a_space s₁ in
      let (e₃, s₃) = erase_namespace nvs slot_b_space s₂ in
      let (e₄, s₄) = erase_namespace nvs meta_space s₃ in
      let first = unless_failed-passed e₁ s₁ _ h in
      let second = unless_failed-passed e₂ s₂ _ first.1 in
      let third = unless_failed-passed e₃ s₃ (none, s₃) second.1 in
      let apart = erase_namespace-apart in
      let legacy =
        apart meta_space legacy_space s₃ (λ q. ground arith)
        ∙ apart slot_b_space legacy_space s₂ (λ q. ground arith)
        ∙ apart slot_a_space legacy_space s₁ (λ q. ground arith) in
      let slot_a =
        apart meta_space slot_a_space s₃ (λ q. ground arith)
        ∙ apart slot_b_space slot_a_space s₂ (λ q. ground arith) in
      let slot_b = apart meta_space slot_b_space s₃ (λ q. ground arith) in
      let erased : IsErased s₄ = record {
        legacy = subst IsEmpty (sym legacy) (erase_namespace-IsEmpty legacy_space s first.0);
        slot_a = subst IsEmpty (sym slot_a) (erase_namespace-IsEmpty slot_a_space s₁ second.0);
        slot_b = subst IsEmpty (sym slot_b) (erase_namespace-IsEmpty slot_b_space s₂ third.0);
      } in
      rw (first.0, second.0, third.0)
        (
          unless_failed-keeps IsErased e₄ s₄ (none, s₄) erased erased,
          λ q.
              let last = unless_failed-passed e₄ s₄ (none, s₄) q in
              subst (λ x. IsEmpty (found x.1 meta_space)) (sym last.2)
                (erase_namespace-IsEmpty meta_space s₃ last.0),
        )

  tombstone_survives :
      (s : S)
      → (write_reset_tombstone nvs s).0 ≡ none
      → reset_is_pending (found (write_reset_tombstone nvs s).1 meta_space) ≡ got true
  unfolding write_reset_tombstone
  tombstone_survives s h =
      let writes = open_write ∷ set_num u8 "reset" 1 ∷ commit_writes ∷ [] in
      let (ret, s') = write_all nvs meta_space writes s in
      let passed = unless_failed-passed ret s' _ h in
      let settled = (committed_after meta_space open_write (set_num u8 "reset" 1) s passed.0).1 in
      subst (λ x. reset_is_pending (found x meta_space) ≡ got true)
        (sym (unless_failed-state nvs ret _ s'))
        (ap reset_is_pending settled
          ∙ ap (λ x. reset_is_pending (nvs.look x meta_space))
              (sym (unless_failed-state nvs ret _ s'))
          ∙ tombstone-confirmed nvs s h)

  write_reset_tombstone-apart :
      (s : S) (m : Namespace) → m ≢ meta_space → found (write_reset_tombstone nvs s).1 m ≡ found s m
  unfolding write_reset_tombstone
  write_reset_tombstone-apart s m other =
      subst (λ x. found x m ≡ found s m) (sym (unless_failed-state nvs _ _ _))
        (write_all-apart meta_space m (open_write ∷ set_num u8 "reset" 1 ∷ commit_writes ∷ []) s
          other)

  -- What a restart finds after a reset that answered `err`.
  pub data AfterReset (s s' : S) : Option Err → Type 0 where
    not_begun :
        {e : Err}
        → ((m : Namespace) → m ≢ meta_space → found s' m ≡ found s m)
        → AfterReset s s' (some e)
    pending :
        {e : Err} → reset_is_pending (found s' meta_space) ≡ got true → AfterReset s s' (some e)
    head_left : {e : Err} → IsErased s' → AfterReset s s' (some e)
    complete : IsErased s' → IsEmpty (found s' meta_space) → AfterReset s s' none

  erased-AfterReset :
      (s s' : S) (err : Option Err)
      → IsErased s'
      → (err ≡ none → IsEmpty (found s' meta_space))
      → AfterReset s s' err
  erased-AfterReset s s' none h k = complete h (k refl)
  erased-AfterReset s s' (some e) h k = head_left h

  pending-AfterReset :
      (s s' : S) (err : Option Err)
      → err ≢ none
      → reset_is_pending (found s' meta_space) ≡ got true
      → AfterReset s s' err
  pending-AfterReset s s' none h k = absurd (h refl)
  pending-AfterReset s s' (some e) h k = pending k

  completed-AfterReset :
      (s s₁ : S) (erase_err : Option Err)
      → (erase_namespaces nvs settings_spaces s₁).0 ≡ erase_err
      → reset_is_pending (found s₁ meta_space) ≡ got true
      → let (err, s') = erase_namespaces nvs (settings_spaces ++ meta_space ∷ []) s₁ in
        AfterReset s s' err
  completed-AfterReset s s₁ none h k =
      let (erased, meta) = erase_namespaces-IsErased s₁ h in erased-AfterReset s _ _ erased meta
  completed-AfterReset s s₁ (some e) h k =
      let stopped =
        erase_namespaces-stopped nvs settings_spaces meta_space s₁ (λ q. ground (arith, h, q)) in
      subst (λ x. AfterReset s x.1 x.0) (sym stopped)
        (pending-AfterReset s _ _ (λ q. ground (arith, h, q))
          (ap reset_is_pending (erase_namespaces-meta s₁) ∙ k))

  begun-AfterReset :
      (err : Option Err) (s s₁ : S)
      → ((m : Namespace) → m ≢ meta_space → found s₁ m ≡ found s m)
      → (err ≡ none → reset_is_pending (found s₁ meta_space) ≡ got true)
      → let (err', s') =
          unless_failed err s₁ (erase_namespaces nvs (settings_spaces ++ meta_space ∷ []) s₁) in
        AfterReset s s' err'
  begun-AfterReset none s s₁ h k = completed-AfterReset s s₁ _ refl (k refl)
  begun-AfterReset (some e) s s₁ h k = not_begun h

  -- Over a storage whose commits survive a restart, a reset with both locks free that answers ESP_OK leaves four namespaces that are empty after a
  -- restart. One that answers an error leaves, after a restart, either the settings as they were; or
  -- the tombstone, so that the start completes the reset; or at most something in the namespace of the
  -- head, the three namespaces of the settings being empty.
  pub erase_nvs_namespace_resumes :
      (s : S) → let (err, s') = erase_nvs_namespace nvs false false s in AfterReset s s' err
  unfolding erase_nvs_namespace complete_pending_reset_locked
  erase_nvs_namespace_resumes s =
      begun-AfterReset (write_reset_tombstone nvs s).0 s (write_reset_tombstone nvs s).1
        (write_reset_tombstone-apart s) (tombstone_survives s)
