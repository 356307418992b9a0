-- ===== src/Vault/Session/Reload.antt =====
-- Re-syncing keeps the invariant of a vault, and the user key.
use harbour_leyni.Prelude.{
  either, ℕ, ◌≡◌, sym, ap, subst, ◌∙◌, arith, Bool, true, false, not, Bool-cases, [], inl, inr,
  Bytes, bytes_equal, ok, Result-cases, bytes_equal-eq,
}
use mathlib.Core.Path.{ap₂}
use harbour_leyni.Crypto.Primitives.{Primitives}
use harbour_leyni.Crypto.Keys.{IsKey}
use harbour_leyni.Vault.Qt.{Qt}
use harbour_leyni.Vault.Items.{SyncData, Answer, answer}
use harbour_leyni.Vault.SyncParser.{parse_sync_json}
use harbour_leyni.Vault.State.{Vault}
use harbour_leyni.Vault.Session.{replace_data, reload_fresh, reload_sync}
use harbour_leyni.Vault.Session.Invariant.{
  IsOpen, Alternates, IsVault, IsRebuilt, lock-IsVault, rebuild_display_data-IsRebuilt,
}
use harbour_leyni.Vault.Items.{Answer-cases}

module _ (p : Primitives) (qt : Qt) where
  pub replaced-IsVault :
      (fresh : SyncData) (v : Vault) {w : Vault}
      → IsOpen v
      → Alternates v.locked v.emitted
      → replace_data p qt fresh v ≡ ok w
      → IsRebuilt p (record v { sync_data = fresh; org_keys = []; items = []; folder_names = [] }) w
        × IsVault w
  unfolding replace_data
  replaced-IsVault fresh v {w} o signals e =
      let r = rebuild_display_data-IsRebuilt p qt _ tt e in
      (
        r,
        record {
          state = inr (record {
            not_locked = r.same_lock ∙ o.not_locked;
            user_key-IsKey = subst IsKey (sym r.same_key) o.user_key-IsKey;
            org_keys-AreKeys = r.keys;
            timed = rw (r.same_timer, r.same_interval) o.timed;
          });
          signals =
              subst (λ (b : Bool). Alternates b w.emitted) (sym r.same_lock)
                (subst (Alternates v.locked) (sym r.same_signals) signals);
        },
      )

  fresh_data-IsVault :
      (fresh : SyncData) (n : ℕ) (v : Vault)
      → IsOpen v
      → IsVault v
      → IsVault (reload_fresh p qt fresh n v).0
  unfolding reload_fresh
  fresh_data-IsVault fresh n v o h =
      either (λ (r : Vault × Answer ℕ). IsVault r.0)
        (not (bytes_equal fresh.profile_key v.sync_data.profile_key))
        (λ changed. lock-IsVault v h.signals)
        (λ same. elim (Result-cases (replace_data p qt fresh v)) [
          | inl (w, e) ↦ rw e (replaced-IsVault fresh v o h.signals e).1
          | inr (thrown, e) ↦ rw e (lock-IsVault (record v { sync_data = fresh }) h.signals)
        ])

  pub reload_sync-IsVault :
      (raw_json : Bytes) (v : Vault) → IsVault v → IsVault (reload_sync p qt raw_json v).0
  unfolding reload_sync
  reload_sync-IsVault raw_json v h =
      either (λ (r : Vault × Answer ℕ). IsVault r.0) v.locked (λ e. h)
        (λ e. elim h.state [
          | inl s ↦ absurd (cc (e, s.is_locked))
          | inr o ↦ elim (Answer-cases (parse_sync_json qt raw_json)) [
            | inr (f, bad) ↦ rw bad h
            | inl (d, good) ↦ rw good (fresh_data-IsVault d.0 d.1 v o h)
          ]
        ])

  reload_fresh_parts :
      (fresh : SyncData) (skipped : ℕ) (v : Vault) {w : Vault} {n : ℕ}
      → reload_fresh p qt fresh skipped v ≡ (w, answer n)
      → (bytes_equal fresh.profile_key v.sync_data.profile_key ≡ true)
        × (replace_data p qt fresh v ≡ ok w)
        × (skipped ≡ n)
  unfolding reload_fresh
  reload_fresh_parts fresh skipped v {w} {n} e =
      elim (Bool-cases (bytes_equal fresh.profile_key v.sync_data.profile_key)) [
        | inr changed ↦ absurd (ground (arith, changed))
        | inl same ↦ elim (Result-cases (replace_data p qt fresh v)) [
          | inl (u, r) ↦
              let pair : (u, answer skipped) ≡ (w, answer n) = ground (arith, same, r) in
              (same, r ∙ ap ok (ap (λ (q : Vault × Answer ℕ). q.0) pair), ground (arith, pair))
          | inr (thrown, r) ↦ absurd (ground (arith, same, r))
        ]
      ]

  reload_sync_parts :
      (raw_json : Bytes) (v : Vault) {w : Vault} {n : ℕ}
      → reload_sync p qt raw_json v ≡ (w, answer n)
      → (v.locked ≡ false)
        × ((d : SyncData × ℕ) × (parse_sync_json qt raw_json ≡ answer d)
            × (reload_fresh p qt d.0 d.1 v ≡ (w, answer n)))
  unfolding reload_sync
  reload_sync_parts raw_json v {w} {n} e = elim (Bool-cases v.locked) [
    | inl l ↦ absurd (ground (arith, l))
    | inr l ↦ elim (Answer-cases (parse_sync_json qt raw_json)) [
      | inl (d, good) ↦ (l, (d, good, ground (arith, l, good)))
      | inr (f, bad) ↦ absurd (ground (arith, l, bad))
    ]
  ]

  -- If a re-sync of a vault that meets the invariant succeeds, the response was accepted and its
  -- protected key is the one the vault had; the vault then holds the data of the response under
  -- the user key that was in memory, and is still unlocked.
  pub reload_sync_sound :
      (raw_json : Bytes) (v : Vault) {w : Vault} {n : ℕ}
      → IsVault v
      → reload_sync p qt raw_json v ≡ (w, answer n)
      → (parse_sync_json qt raw_json ≡ answer (w.sync_data, n))
        × (w.sync_data.profile_key ≡ v.sync_data.profile_key)
        × (w.user_key ≡ v.user_key)
        × (w.locked ≡ false)
  reload_sync_sound raw_json v {w} {n} h e =
      let (unlocked, (d, good, fresh)) = reload_sync_parts raw_json v e in
      let (same, r, count) = reload_fresh_parts d.0 d.1 v fresh in
      elim h.state [
        | inl s ↦ absurd (cc (unlocked, s.is_locked))
        | inr o ↦
            let built = (replaced-IsVault d.0 v o h.signals r).0 in
            (
              good ∙ ap₂ (λ (x : SyncData) (m : ℕ). answer (x, m)) (sym built.same_data) count,
              ap (λ (x : SyncData). x.profile_key) built.same_data ∙ bytes_equal-eq _ _ same,
              built.same_key,
              built.same_lock ∙ unlocked,
            )
      ]
