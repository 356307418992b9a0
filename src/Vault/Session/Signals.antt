-- ===== src/Vault/Session/Signals.antt =====
-- The operations of the vault only add to the signals that it has emitted, and keep the interval of
-- the timer.
use harbour_leyni.Prelude.{
  ◌≡◌, refl, sym, subst, ap, ◌∙◌, Bool, true, false, not, ◌&&◌, inl, inr, List, [], ◌∷◌, ◌++◌,
  append_assoc, Bytes, bytes_equal, is_empty, either, Result-cases, Bool-cases, arith,
}
use harbour_leyni.Crypto.Primitives.{Primitives}
use harbour_leyni.Crypto.Kdf.Params.{KdfParams}
use harbour_leyni.Crypto.Kdf.{derive_master_key}
use harbour_leyni.Crypto.Keys.{SymmetricKey, stretch_master_key}
use harbour_leyni.Vault.Int.{is_positive}
use harbour_leyni.Vault.Qt.{Qt}
use harbour_leyni.Vault.Items.{Answer, answered}
use harbour_leyni.Vault.SyncParser.{parse_sync_json}
use harbour_leyni.Vault.State.{Vault, lock, timeout, note_activity}
use harbour_leyni.Vault.Access.{decrypt_bytes}
use harbour_leyni.Vault.Session.{
  load_sync, open_vault, build_user_key, unlock_stretched, unlock_with_master_key, replace_data,
  reload_fresh, reload_sync, unlock,
}
use harbour_leyni.Vault.Session.Invariant.{AreKeys, lock-IsSealed, rebuild_display_data-IsRebuilt}
use harbour_leyni.Vault.Session.Timer.{SameTimer, SameTimer-trans}
use harbour_leyni.Vault.Session.Preserve.{build_user_key_parts}

-- The signals of `w` are some new ones and those of `v`; the timer is that of `v`.
abbrev pub Emits : Vault → Vault → Type 0
Emits v w = (news : List Bool) × (w.emitted ≡ news ++ v.emitted) × SameTimer v w

-- What changes neither
pub same-Emits : (v : Vault) → Emits v v
same-Emits v = ([], refl, (refl, λ runs. inl runs))

pub lock-Emits : (v : Vault) → Emits v (lock v)
unfolding lock
lock-Emits v =
    let (news, e) =
      either (λ (bs : List Bool). (news : List Bool) × (bs ≡ news ++ v.emitted)) v.locked
        (λ e. ([], refl)) (λ e. (true ∷ [], refl)) in
    (news, e, (refl, λ runs. absurd (cc runs)))

Emits-trans : (u v w : Vault) → Emits u v → Emits v w → Emits u w
Emits-trans u v w (first, e, timer) (second, e2, timer2) = (
  second ++ first,
  e2 ∙ ap (λ (bs : List Bool). second ++ bs) e ∙ sym (append_assoc second first _),
  SameTimer-trans u v w timer timer2,
)

pub timeout-Emits : (v : Vault) → Emits v (timeout v)
unfolding timeout
timeout-Emits v = either (Emits v) v.timer_active (λ runs. lock-Emits v) (λ stopped. same-Emits v)

pub load_sync-Emits : (qt : Qt) (raw_json : Bytes) (v : Vault) → Emits v (load_sync qt raw_json v).0
unfolding load_sync
load_sync-Emits qt raw_json v =
    answered (λ (r : Vault × Answer _). Emits v r.0) (parse_sync_json qt raw_json)
      (λ d good. lock-Emits v) (λ f bad. same-Emits v)

-- A timer that is started for an interval above 0 only
started :
    (w v : Vault)
    → w.timer_interval ≡ v.timer_interval
    → w.timer_active ≡ v.timer_active
    → SameTimer v (open_vault w)
unfolding open_vault
started w v interval active = (
  interval,
  λ runs. elim (Bool-cases (is_positive w.timer_interval)) [
    | inl e ↦ inr (ap is_positive (sym interval) ∙ e)
    | inr e ↦ inl (ground (arith, runs, e, active))
  ],
)

lock_keys : (v : Vault) → AreKeys (lock v).org_keys
lock_keys v = subst AreKeys (sym (lock-IsSealed v).no_org_keys) tt

module _ (p : Primitives) (qt : Qt) where
  unlock_stretched-Emits :
      (stretched : SymmetricKey) (v : Vault)
      → AreKeys v.org_keys
      → Emits v (unlock_stretched p qt stretched v).0
  unfolding unlock_stretched open_vault
  unlock_stretched-Emits stretched v keys =
      elim (Result-cases (decrypt_bytes p v.sync_data.profile_key stretched)) [
        | inr (thrown, e) ↦ rw (unlock_stretched, e) (same-Emits v)
        | inl (raw, e) ↦ elim (Result-cases (build_user_key p qt v raw)) [
          | inr (thrown, e2) ↦ rw (unlock_stretched, e, e2) (lock-Emits v)
          | inl (w, e2) ↦
              rw (unlock_stretched, e, e2)
                (let (key, is_key, built) = build_user_key_parts p qt v raw keys e2 in
                  (
                    false ∷ [],
                    ap (λ (bs : List Bool). false ∷ bs) built.same_signals,
                    started w v built.same_interval built.same_timer,
                  ))
        ]
      ]

  pub unlock_with_master_key-Emits :
      (master_key : Bytes) (v : Vault) → Emits v (unlock_with_master_key p qt master_key v).0
  unfolding unlock_with_master_key
  unlock_with_master_key-Emits master_key v =
      either (λ (r : Vault × Answer _). Emits v r.0) (is_empty v.sync_data.profile_key)
        (λ none_loaded. same-Emits v)
        (λ loaded. elim (Result-cases (stretch_master_key p master_key)) [
          | inr (thrown, e) ↦
              rw e (Emits-trans v (lock v) (lock (lock v)) (lock-Emits v) (lock-Emits (lock v)))
          | inl (stretched, e) ↦ rw e (
              Emits-trans v (lock v) (unlock_stretched p qt stretched (lock v)).0 (lock-Emits v)
                (unlock_stretched-Emits stretched (lock v) (lock_keys v)))
        ])

  pub reload_sync-Emits : (raw_json : Bytes) (v : Vault) → Emits v (reload_sync p qt raw_json v).0
  unfolding reload_sync reload_fresh replace_data
  reload_sync-Emits raw_json v =
      either (λ (r : Vault × Answer _). Emits v r.0) v.locked (λ closed. same-Emits v)
        (λ unlocked.
          answered (λ (r : Vault × Answer _). Emits v r.0) (parse_sync_json qt raw_json)
            (λ d good.
              either (λ (r : Vault × Answer _). Emits v r.0)
                (not (bytes_equal d.0.profile_key v.sync_data.profile_key))
                (λ changed. lock-Emits v)
                (λ same. elim (Result-cases (replace_data p qt d.0 v)) [
                  | inl (w, e) ↦ rw e (
                      let built = rebuild_display_data-IsRebuilt p qt _ tt e in
                      (
                        [],
                        built.same_signals,
                        (built.same_interval, λ runs. inl (sym built.same_timer ∙ runs)),
                      ))
                  | inr (thrown, e) ↦ rw e (lock-Emits (record v { sync_data = d.0 }))
                ]))
            (λ f bad. same-Emits v))

  pub unlock-Emits :
      (email password : Bytes) (kdf_params : KdfParams) (v : Vault)
      → Emits v (unlock p qt email password kdf_params v).0
  unfolding unlock
  unlock-Emits email password kdf_params v =
      elim (Result-cases
        (derive_master_key p password (qt.to_lower (qt.trimmed email)) kdf_params)) [
          | inr (thrown, e) ↦ rw (unlock, e) (same-Emits v)
          | inl (master_key, e) ↦ rw (unlock, e) (unlock_with_master_key-Emits master_key v)
        ]

pub note_activity-Emits : (v : Vault) → Emits v (note_activity v)
unfolding note_activity
note_activity-Emits v =
    either (Emits v) (not v.locked && is_positive v.timer_interval)
      (λ counts. ([], refl, (refl, λ runs. inr (ground (arith, counts))))) (λ ignored. same-Emits v)
