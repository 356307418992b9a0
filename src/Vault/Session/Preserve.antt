-- ===== src/Vault/Session/Preserve.antt =====
-- Loading and unlocking keep the invariant of a vault.
use harbour_leyni.Prelude.{
  ◌≡◌, refl, sym, subst, ◌∙◌, true, false, Bool-cases, inl, inr, Bytes, is_empty, ok, >>=-eq-ok,
  Result-cases,
}
use harbour_leyni.Crypto.Primitives.{Primitives}
use harbour_leyni.Crypto.Kdf.Params.{KdfParams}
use harbour_leyni.Crypto.Kdf.{derive_master_key}
use harbour_leyni.Crypto.Keys.{
  SymmetricKey, IsKey, symmetric_key_from_bytes, symmetric_key_from_bytes_sound, stretch_master_key,
}
use harbour_leyni.Vault.Qt.{Qt}
use harbour_leyni.Vault.Items.{SyncData, Answer-cases}
use harbour_leyni.Vault.SyncParser.{parse_sync_json}
use harbour_leyni.Vault.State.{Vault, lock}
use harbour_leyni.Vault.Access.{decrypt_bytes}
use harbour_leyni.Vault.Session.{
  load_sync, open_vault, build_user_key, unlock_stretched, unlock_with_master_key, unlock,
}
use harbour_leyni.Vault.Session.Invariant.{
  IsSealed, AreKeys, Alternates, IsVault, IsRebuilt, lock-IsSealed, lock-Alternates, lock-IsVault,
  started-TimerFits, rebuild_display_data-IsRebuilt,
}

-- The data are no part of the lock.
pub sealed_with-IsVault :
    (v : Vault) (data_held : SyncData)
    → Alternates v.locked v.emitted
    → IsVault (record (lock v) { sync_data = data_held })
sealed_with-IsVault v data_held h =
    let s = lock-IsSealed v in
    record {
      state = inl (record {
        is_locked = s.is_locked;
        no_user_key = s.no_user_key;
        no_private_key = s.no_private_key;
        no_org_keys = s.no_org_keys;
        no_items = s.no_items;
        no_folder_names = s.no_folder_names;
        stopped = s.stopped;
      });
      signals = (lock-IsVault v h).signals;
    }

pub load_sync-IsVault :
    (qt : Qt) (raw_json : Bytes) (v : Vault) → IsVault v → IsVault (load_sync qt raw_json v).0
unfolding load_sync
load_sync-IsVault qt raw_json v h = elim (Answer-cases (parse_sync_json qt raw_json)) [
  | inl (d, e) ↦ rw (load_sync, e) (sealed_with-IsVault v d.0 h.signals)
  | inr (f, e) ↦ rw (load_sync, e) h
]

-- A vault that is built from a sealed one opens.
opened-IsVault :
    (w : Vault)
    → IsKey w.user_key
    → AreKeys w.org_keys
    → w.timer_active ≡ false
    → Alternates true w.emitted
    → IsVault (open_vault w)
unfolding open_vault
opened-IsVault w key keys stopped h = record {
  state = inr (record {
    not_locked = refl;
    user_key-IsKey = key;
    org_keys-AreKeys = keys;
    timed = started-TimerFits w.timer_interval w.timer_active stopped;
  });
  signals = (refl, h);
}

module _ (p : Primitives) (qt : Qt) where
  pub build_user_key_parts :
      (v : Vault) (raw : Bytes) {w : Vault}
      → AreKeys v.org_keys
      → build_user_key p qt v raw ≡ ok w
      → (key : SymmetricKey) × (symmetric_key_from_bytes raw ≡ ok key)
        × IsRebuilt p (record v { user_key = key }) w
  unfolding build_user_key
  build_user_key_parts v raw h e =
      let (key, hk, e1) = >>=-eq-ok (symmetric_key_from_bytes raw) _ e in
      (key, hk, rebuild_display_data-IsRebuilt p qt (record v { user_key = key }) h e1)

  built-IsVault :
      (v : Vault) (raw : Bytes) {w : Vault}
      → IsSealed v
      → Alternates true v.emitted
      → build_user_key p qt v raw ≡ ok w
      → IsVault (open_vault w)
  built-IsVault v raw {w} s signals e =
      let (key, hk, r) = build_user_key_parts v raw (subst AreKeys (sym s.no_org_keys) tt) e in
      opened-IsVault w (subst IsKey (sym r.same_key) (symmetric_key_from_bytes_sound raw hk).0)
        r.keys (r.same_timer ∙ s.stopped) (subst (Alternates true) (sym r.same_signals) signals)

  unlock_stretched-IsVault :
      (stretched : SymmetricKey) (v : Vault)
      → IsSealed v
      → Alternates true v.emitted
      → IsVault v
      → IsVault (unlock_stretched p qt stretched v).0
  unfolding unlock_stretched
  unlock_stretched-IsVault stretched v s signals h =
      elim (Result-cases (decrypt_bytes p v.sync_data.profile_key stretched)) [
        | inr (thrown, e) ↦ rw (unlock_stretched, e) h
        | inl (raw, e) ↦ elim (Result-cases (build_user_key p qt v raw)) [
          | inr (thrown, e2) ↦ rw (unlock_stretched, e, e2) (lock-IsVault v h.signals)
          | inl (w, e2) ↦ rw (unlock_stretched, e, e2) (built-IsVault v raw s signals e2)
        ]
      ]

  pub unlock_with_master_key-IsVault :
      (master_key : Bytes) (v : Vault)
      → IsVault v
      → IsVault (unlock_with_master_key p qt master_key v).0
  unfolding unlock_with_master_key
  unlock_with_master_key-IsVault master_key v h =
      elim (Bool-cases (is_empty v.sync_data.profile_key)) [
        | inl none_loaded ↦ rw none_loaded h
        | inr loaded ↦
            let locked = lock-IsVault v h.signals in
            elim (Result-cases (stretch_master_key p master_key)) [
              | inr (thrown, e) ↦ rw (loaded, e) (lock-IsVault (lock v) locked.signals)
              | inl (stretched, e) ↦
                  rw (loaded, e)
                    (unlock_stretched-IsVault stretched (lock v) (lock-IsSealed v)
                      (lock-Alternates v h.signals) locked)
            ]
      ]

  pub unlock-IsVault :
      (email password : Bytes) (kdf_params : KdfParams) (v : Vault)
      → IsVault v
      → IsVault (unlock p qt email password kdf_params v).0
  unfolding unlock
  unlock-IsVault email password kdf_params v h =
      elim (Result-cases
        (derive_master_key p password (qt.to_lower (qt.trimmed email)) kdf_params)) [
          | inr (thrown, e) ↦ rw (unlock, e) h
          | inl (master_key, e) ↦ rw (unlock, e) (unlock_with_master_key-IsVault master_key v h)
        ]
